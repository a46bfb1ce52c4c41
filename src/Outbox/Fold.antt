-- ===== src/Outbox/Fold.antt =====
-- compat/crosssource.py: what `enqueue` answers, and the resend of a text.
use hermes_app.Base.{
  ℕ, ◌+◌, ◌≤◌, String, Bool, true, false, ◌&&◌, ◌||◌, ◌≡◌, ◌≢◌, ◌⊎◌, ◌∙◌, refl, sym, Option, none,
  some, List, [], ◌∷◌, ◌++◌, ◌==◌, leb, Result, ok, arith, inl, inr, All, All-map, eq_refl,
  if◌then◌else◌, >>=-eq-ok,
}
use hermes_app.Base.Table.{
  select, order_by, All-select, All-order_by, exists, insert, insert-ok, exists-append, insert_by,
}
use hermes_app.Outbox.Defs.{
  Row, drain_max_age_seconds, is_undelivered, has_id, row_clash, waiting, just_delivered, first,
  oldest, new_row, fold_or_add, enqueue,
}

listed : (rows : List Row) → All (λ r. exists (has_id r.id) rows ≡ true) rows
unfolding has_id
listed [] = tt
listed (r ∷ rows) = (
  rw (eq_refl r.id) refl,
  All-map (λ x. exists (has_id x.id) rows ≡ true) (λ x. exists (has_id x.id) (r ∷ rows) ≡ true) rows
      (λ x h. ground arith) (listed rows),
)

first-All : (P : Row → Type 0) (rows : List Row) (r : Row) → All P rows → first rows ≡ some r → P r
first-All P [] r h e = cc
first-All P (x ∷ rows) r h e = let same : x ≡ r = cc in rw (← same) h.0

-- The oldest row that passes a test passes it, and is in the table.
pub oldest-found :
    (p : Row → Bool) (rows : List Row) (r : Row)
    → oldest p rows ≡ some r
    → (p r ≡ true) × (exists (has_id r.id) rows ≡ true)
unfolding oldest
oldest-found p rows r h =
    first-All (λ x. (p x ≡ true) × (exists (has_id x.id) rows ≡ true)) _ r
      (All-order_by (λ x. x.created_at) _ _
        (All-select (λ x. exists (has_id x.id) rows ≡ true) p rows (listed rows)))
      h

answer_parts :
    (x y : String) (a c : Bool) (u v : List Row)
    → ◌≡◌ {A = Result ((String × Bool) × List Row)} (ok ((x, a), u)) (ok ((y, c), v))
    → (x ≡ y) × (a ≡ c) × (u ≡ v)
answer_parts x y a c u v h = (cc, cc, cc)

pub fold_or_add-cases :
    (old recent : Option Row) (new : Row) (rows after : List Row) (j : String) (b : Bool)
    → fold_or_add old recent new rows ≡ ok ((j, b), after)
    → ((r : Row) × ((old ≡ some r) ⊎ (recent ≡ some r)) × (r.id ≡ j) × (b ≡ true) × (rows ≡ after))
      ⊎ ((old ≡ none)
          × (recent ≡ none)
          × (new.id ≡ j)
          × (b ≡ false)
          × (after ≡ rows ++ (new ∷ []))
          × (exists (row_clash new) rows ≡ false))
unfolding fold_or_add
fold_or_add-cases (some r) recent new rows after j b h =
    let (named, told, same) = answer_parts _ _ _ _ _ _ h in inl (r, inl refl, named, sym told, same)
fold_or_add-cases none (some r) new rows after j b h =
    let (named, told, same) = answer_parts _ _ _ _ _ _ h in inl (r, inr refl, named, sym told, same)
fold_or_add-cases none none new rows after j b h =
    let (more, made, last) : (more : List Row) × (insert row_clash new rows ≡ ok more)
        × (ok ((new.id, false), more) ≡ ok ((j, b), after)) =
      >>=-eq-ok (insert row_clash new rows) _ h in
    let (named, told, same) = answer_parts _ _ _ _ _ _ last in
    let (grown, apart) = insert-ok row_clash new rows more made in
    inr (refl, refl, named, sym told, sym same ∙ grown, apart)

-- The identifier that `enqueue` answers is in the spool that it leaves.
pub enqueue-listed :
    (now : ℕ) (i sid key platform text j : String) (b : Bool) (rows after : List Row)
    → enqueue now i sid key platform text rows ≡ ok ((j, b), after)
    → exists (has_id j) after ≡ true
unfolding enqueue
enqueue-listed now i sid key platform text j b rows after h =
    elim (fold_or_add-cases _ _ _ rows after j b h) [
      | inl (r, inl e, named, told, same) ↦ rw (← named, ← same) (oldest-found _ rows r e).1
      | inl (r, inr e, named, told, same) ↦ rw (← named, ← same) (oldest-found _ rows r e).1
      | inr (old, recent, named, told, grown, apart) ↦
          rw (← named, grown, exists-append) (unfold has_id new_row in rw eq_refl (ground arith))
    ]

-- With a fresh identifier the INSERT is accepted, so `enqueue` answers.
pub enqueue-total :
    (now : ℕ) (i sid key platform text : String) (rows : List Row)
    → exists (has_id i) rows ≡ false
    → (j : String) × (b : Bool) × (after : List Row) × (enqueue now i sid key platform text rows
        ≡ ok ((j, b), after))
unfolding enqueue
enqueue-total now i sid key platform text rows fresh =
    at (oldest (waiting now sid text) rows) (oldest (just_delivered now sid text) rows)
  where
    at :
        (old recent : Option Row)
        → (j : String) × (b : Bool) × (after : List Row) × (fold_or_add old recent
              (new_row now i sid key platform text)
              rows
            ≡ ok ((j, b), after))
    at (some r) recent = (r.id, true, rows, unfold fold_or_add in refl)
    at none (some r) = (r.id, true, rows, unfold fold_or_add in refl)
    at none none = (
      i,
      false,
      rows ++ (new_row now i sid key platform text ∷ []),
      unfold fold_or_add row_clash new_row in rw fresh refl,
    )

insert_by-ne : (k : Row → ℕ) (r x : Row) (rows : List Row) → first (insert_by k r rows) ≢ none
insert_by-ne k r x [] = cc
insert_by-ne k r x (y ∷ rows) = at (leb (k r) (k y))
  where
    at : (b : Bool) → first (if b then r ∷ y ∷ rows else y ∷ insert_by k r rows) ≢ none
    at true = cc
    at false = cc

-- A query with LIMIT 1 that finds nothing passes over every row.
oldest-none : (p : Row → Bool) (rows : List Row) → oldest p rows ≡ none → exists p rows ≡ false
unfolding oldest
oldest-none p [] h = refl
oldest-none p (r ∷ rows) h = at (p r) refl h (oldest-none p rows)
  where
    at :
        (b : Bool)
        → p r ≡ b
        → first (order_by (λ x. x.created_at) (if b then r ∷ select p rows else select p rows))
          ≡ none
        → (first (order_by (λ x. x.created_at) (select p rows)) ≡ none → exists p rows ≡ false)
        → (p r || exists p rows) ≡ false
    at true e nothing rest = absurd (
        insert_by-ne (λ x. x.created_at) r r (order_by (λ x. x.created_at) (select p rows)) nothing)
    at false e nothing rest = rw e (rest nothing)

exists-select-nil : (p : Row → Bool) (rows : List Row) → exists p rows ≡ false → select p rows ≡ []
exists-select-nil p [] h = refl
exists-select-nil p (r ∷ rows) h = ground (arith, exists-select-nil p rows)

select-append-nil :
    (p : Row → Bool) (rows : List Row) (r : Row)
    → exists p rows ≡ false
    → p r ≡ true
    → select p (rows ++ (r ∷ [])) ≡ r ∷ []
select-append-nil p [] r h hit = rw hit refl
select-append-nil p (x ∷ rows) r h hit = ground (arith, select-append-nil p rows r)

row_waits-later :
    (now later : ℕ) (sid text : String) (r : Row)
    → now ≤ later
    → waiting now sid text r ≡ false
    → waiting later sid text r ≡ false
unfolding waiting
row_waits-later now later sid text r ordered h =
    at (leb now (r.updated_at + drain_max_age_seconds))
      (leb later (r.updated_at + drain_max_age_seconds)) (λ e. ground arith) h
  where
    at :
        (early late : Bool)
        → (late ≡ true → early ≡ true)
        → ((r.session_id == sid && r.text == text) && (is_undelivered r.status && early)) ≡ false
        → ((r.session_id == sid && r.text == text) && (is_undelivered r.status && late)) ≡ false
    at early late i e = ground (arith, i)

-- A row that does not wait now does not wait later.
waiting-later :
    (now later : ℕ) (sid text : String) (rows : List Row)
    → now ≤ later
    → exists (waiting now sid text) rows ≡ false
    → exists (waiting later sid text) rows ≡ false
waiting-later now later sid text [] ordered h = refl
waiting-later now later sid text (r ∷ rows) ordered h = ground (
  arith,
  row_waits-later now later sid text r ordered,
  waiting-later now later sid text rows ordered,
)

new_row-waits :
    (now later : ℕ) (i sid key platform text : String)
    → later ≤ now + drain_max_age_seconds
    → waiting later sid text (new_row now i sid key platform text) ≡ true
unfolding waiting new_row
new_row-waits now later i sid key platform text within = rw (eq_refl, eq_refl) (ground arith)

oldest-new :
    (p : Row → Bool) (rows : List Row) (r : Row)
    → exists p rows ≡ false
    → p r ≡ true
    → oldest p (rows ++ (r ∷ [])) ≡ some r
unfolding oldest
oldest-new p rows r alone hit = rw (select-append-nil p rows r alone hit) refl

-- A resend of a text that `enqueue` has just spooled, within `DRAIN_MAX_AGE_SECONDS` and
-- with any key, platform and fresh identifier, answers the first identifier, says that it is folded, and adds no row.
pub enqueue-folds :
    (now later : ℕ) (i j k sid key key' platform platform' text : String) (rows after : List Row)
    → enqueue now i sid key platform text rows ≡ ok ((j, false), after)
    → now ≤ later
    → later ≤ now + drain_max_age_seconds
    → enqueue later k sid key' platform' text after ≡ ok ((j, true), after)
unfolding enqueue
enqueue-folds now later i j k sid key key' platform platform' text rows after h ordered within =
    elim (fold_or_add-cases _ _ _ rows after j false h) [
      | inl (r, which, named, told, same) ↦ absurd (cc)
      | inr (old, recent, named, told, grown, apart) ↦ rw grown (
          rw
            (oldest-new (waiting later sid text) rows (new_row now i sid key platform text)
              (waiting-later now later sid text rows ordered (oldest-none _ rows old))
              (new_row-waits now later i sid key platform text within))
            (unfold fold_or_add in rw named refl))
    ]
