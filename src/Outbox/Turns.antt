-- ===== src/Outbox/Turns.antt =====
-- compat/crosssource.py: what a run and a delivery keep of the texts that went out.
use hermes_app.Base.{
  ℕ, zero, suc, ◌+◌, ◌⊎◌, String, Bool, true, false, ◌≡◌, ◌∙◌, refl, Option, none, some, List, [],
  ◌∷◌, ◌++◌, ◌==◌, arith, inl, inr, Bool-cases, Option-cases, if-keeps, All, All-append, eq_refl,
  eq_iff, if◌then◌else◌, Result, ok, raised,
}
use hermes_app.Base.Table.{
  exists, exists-update, exists-append, exists-find, count, count-append, find-some, All-update,
  All-find,
}
use hermes_app.Outbox.Fold.{fold_or_add-cases}
use hermes_app.Outbox.Defs.{
  Status, Row, is_delivered, has_id, row_clash, recorded, record_row, get_row, enqueue,
}
use hermes_app.Outbox.Bridge.{
  World, Spool, RunReply, record_in, settle_attempt, attempt_loop, run_route, run_found, run_row,
  deliver_queued, deliver, after_delivery,
}

-- Every row with the identifier is delivered.
abbrev Sealed : String → List Row → Type 0
Sealed i rows = All (λ r. (has_id i r ≡ false) ⊎ (r.status ≡ Status.delivered)) rows

abbrev pub times : String → Spool → ℕ
times i s = count (λ j. j == i) s.injected

-- A text that went out has its row delivered, and in the spool.
abbrev pub OneTurn : String → Spool → Type 0
OneTurn i s =
    (times i s ≡ 0) ⊎ ((times i s ≡ 1) × Sealed i s.rows × (exists (has_id i) s.rows ≡ true))

other_key : (i j : String) (r : Row) → has_id j r ≡ true → (j == i) ≡ false → has_id i r ≡ false
unfolding has_id
other_key i j r mine apart = ground (arith, eq_iff r.id j, eq_iff r.id i, eq_iff j i)

-- A record keeps the identifiers.
kept_key :
    (i j : String) (now attempts : ℕ) (status : Status) (error trigger : Option String)
    (rows : List Row)
    → exists (has_id i) (record_row now j attempts status error trigger rows)
      ≡ exists (has_id i) rows
unfolding record_row
kept_key i j now attempts status error trigger rows =
    exists-update (has_id i) (has_id j) (recorded now attempts status error trigger) rows
      λ r. unfold has_id recorded in refl

-- A record under another identifier.
pub record_in-OneTurn :
    (i j : String) (now attempts : ℕ) (status : Status) (error trigger : Option String) (s : Spool)
    → (times i s ≡ 0) ⊎ ((j == i) ≡ false)
    → OneTurn i s
    → OneTurn i (record_in now j attempts status error trigger s)
unfolding record_in record_row
record_in-OneTurn i j now attempts status error trigger s which (inl zero_times) = inl zero_times
record_in-OneTurn i j now attempts status error trigger s (inl zero_times)
      (inr (once, sealed, there)) =
    inl zero_times
record_in-OneTurn i j now attempts status error trigger s (inr apart) (inr (once, sealed, there)) =
    inr (
      once,
      All-update (λ r. (has_id i r ≡ false) ⊎ (r.status ≡ Status.delivered)) (has_id j)
          (recorded now attempts status error trigger) s.rows
          (λ r mine _. inl (unfold has_id recorded in other_key i j r mine apart)) sealed,
      kept_key i j _ _ _ _ _ s.rows ∙ there,
    )

-- A run of `j` may begin: it is another row, or the text has not gone out.
abbrev Ready : String → String → Spool → Type 0
Ready i j s =
    (((j == i) ≡ false) × OneTurn i s)
    ⊎ ((j ≡ i) × (times i s ≡ 0) × (exists (has_id i) s.rows ≡ true))

record_in-Ready :
    (i j : String) (now attempts : ℕ) (status : Status) (error trigger : Option String) (s : Spool)
    → Ready i j s
    → Ready i j (record_in now j attempts status error trigger s)
record_in-Ready i j now attempts status error trigger s (inl (apart, h)) =
    inl (apart, record_in-OneTurn i j now attempts status error trigger s (inr apart) h)
record_in-Ready i j now attempts status error trigger s (inr (same, fresh, there)) =
    inr (same, unfold record_in in fresh, unfold record_in in kept_key i j _ _ _ _ _ s.rows ∙ there)

Ready-OneTurn : (i j : String) (s : Spool) → Ready i j s → OneTurn i s
Ready-OneTurn i j s (inl (apart, h)) = h
Ready-OneTurn i j s (inr (same, fresh, there)) = inl fresh

record_row-Sealed :
    (i : String) (now attempts : ℕ) (trigger : Option String) (rows : List Row)
    → Sealed i (record_row now i attempts Status.delivered none trigger rows)
unfolding record_row recorded has_id
record_row-Sealed i now attempts trigger [] = tt
record_row-Sealed i now attempts trigger (r ∷ rows) =
    (at (r.id == i) refl, record_row-Sealed i now attempts trigger rows)
  where
    at :
        (b : Bool)
        → (r.id == i) ≡ b
        → (has_id i (if b then recorded now attempts Status.delivered none trigger r else r)
            ≡ false)
          ⊎ ((if b then recorded now attempts Status.delivered none trigger r else r).status
              ≡ Status.delivered)
    at true e = inr refl
    at false e = inl e

-- The round in which the core accepts the text.
accepted-OneTurn :
    (i j : String) (now attempts : ℕ) (trigger : Option String) (s : Spool)
    → Ready i j s
    → OneTurn i (
        record_in now j attempts Status.delivered none trigger
          (record s { injected = s.injected ++ (j ∷ []) }))
accepted-OneTurn i j now attempts trigger s (inl (apart, inl fresh)) =
    inl (unfold record_in in rw count-append (ground (arith, fresh, apart)))
accepted-OneTurn i j now attempts trigger s (inl (apart, inr (once, sealed, there))) =
    record_in-OneTurn i j now attempts Status.delivered none trigger _ (inr apart)
      (inr (rw count-append (ground (arith, once, apart)), sealed, there))
accepted-OneTurn i j now attempts trigger s (inr (same, fresh, there)) = inr (
  unfold record_in in rw (count-append, same, eq_refl) (omega (arith, fresh)),
  unfold record_in in rw same (record_row-Sealed i now attempts trigger s.rows),
  unfold record_in in kept_key i j _ _ _ _ _ s.rows ∙ there,
)

settle_attempt-OneTurn :
    (w : World) (i j : String) (n left attempts : ℕ) (error : Option String)
    (go : Spool → RunReply × Spool) (s : Spool)
    → Ready i j s
    → ((t : Spool) → Ready i j t → OneTurn i (go t).1)
    → OneTurn i (settle_attempt w j n left attempts error go s).1
unfolding settle_attempt
settle_attempt-OneTurn w i j n left attempts none go s ready more =
    accepted-OneTurn i j (w.clock n) attempts _ s ready
settle_attempt-OneTurn w i j n zero attempts (some e) go s ready more =
    Ready-OneTurn i j _ (record_in-Ready i j (w.clock n) attempts _ _ _ s ready)
settle_attempt-OneTurn w i j n (suc left) attempts (some e) go s ready more =
    more _ (record_in-Ready i j (w.clock n) attempts _ _ _ s ready)

attempt_loop-OneTurn :
    (w : World) (i j key text : String) (left n attempts : ℕ) (s : Spool)
    → Ready i j s
    → OneTurn i (attempt_loop w j key text left n attempts s).1
unfolding attempt_loop
attempt_loop-OneTurn w i j key text zero n attempts s ready =
    settle_attempt-OneTurn w i j n 0 (attempts + 1) _ _ s ready (λ t h. Ready-OneTurn i j t h)
attempt_loop-OneTurn w i j key text (suc left) n attempts s ready =
    settle_attempt-OneTurn w i j n (suc left) (attempts + 1) _ _ s ready
      (attempt_loop-OneTurn w i j key text left (n + 1) (attempts + 1))

run_route-OneTurn :
    (w : World) (i j : String) (row : Row) (refusal : Option String) (s : Spool)
    → Ready i j s
    → OneTurn i (run_route w j row refusal s).1
unfolding run_route
run_route-OneTurn w i j row none s ready =
    attempt_loop-OneTurn w i j row.session_key (w.unmark row.text) 2 1 row.attempts s ready
run_route-OneTurn w i j row (some refusal) s ready =
    Ready-OneTurn i j _ (record_in-Ready i j (w.clock 0) (row.attempts + 1) _ _ _ s ready)

closed_row :
    (i j : String) (row : Row)
    → (has_id i row ≡ false) ⊎ (row.status ≡ Status.delivered)
    → has_id j row ≡ true
    → j ≡ i
    → is_delivered row.status ≡ false
    → ⊥
closed_row i j row (inl apart) mine same undone =
    let mine' : has_id i row ≡ true = rw (← same) mine in cc
closed_row i j row (inr done) mine same undone =
    let yes' : is_delivered row.status ≡ true = rw done refl in cc

-- A row that is found undelivered may run.
found-Ready :
    (i j : String) (s : Spool) (row : Row)
    → get_row j s.rows ≡ some row
    → is_delivered row.status ≡ false
    → OneTurn i s
    → Ready i j s
unfolding get_row
found-Ready i j s row found undone h = elim (Bool-cases (j == i)) [
  | inr apart ↦ inl (apart, h)
  | inl hit ↦
      let same : j ≡ i = (eq_iff j i).0 hit in
      let there : exists (has_id i) s.rows ≡ true =
        exists-find (has_id i) s.rows ∙ rw (← same, found) refl in
      inr (same, at same h, there)
]
  where
    at : j ≡ i → OneTurn i s → times i s ≡ 0
    at same (inl fresh) = fresh
    at same (inr (once, sealed, there)) = absurd (
        closed_row i j row (All-find _ (has_id j) s.rows row sealed found)
          (find-some (has_id j) s.rows row found) same undone)

pub run_row-OneTurn :
    (w : World) (i j : String) (s : Spool) → OneTurn i s → OneTurn i (run_row w j s).1
unfolding run_row run_found
run_row-OneTurn w i j s h = elim (Option-cases (get_row j s.rows)) [
  | inl nothing ↦ rw nothing h
  | inr (row, found) ↦ rw found (
      if-keeps (λ (o : RunReply × Spool). OneTurn i o.1) (is_delivered row.status) _ _ (λ _. h)
        λ undone.
          run_route-OneTurn w i j row (w.refusal row.session_key) s
            (found-Ready i j s row found undone h))
]

-- A fresh row has another identifier than a row of the spool.
unclashed :
    (i : String) (new : Row) (rows : List Row)
    → exists (row_clash new) rows ≡ false
    → exists (has_id i) rows ≡ true
    → has_id i new ≡ false
unfolding row_clash has_id
unclashed i new [] apart there = cc
unclashed i new (r ∷ rows) apart there =
    ground (arith, eq_iff r.id i, eq_iff new.id i, eq_iff r.id new.id, unclashed i new rows)

enqueue-OneTurn :
    (i : String) (now : ℕ) (k sid key platform text j : String) (b : Bool) (s : Spool)
    (after : List Row)
    → enqueue now k sid key platform text s.rows ≡ ok ((j, b), after)
    → OneTurn i s
    → OneTurn i (record s { rows = after })
unfolding enqueue
enqueue-OneTurn i now k sid key platform text j b s after e (inl fresh) = inl fresh
enqueue-OneTurn i now k sid key platform text j b s after e (inr (once, sealed, there)) =
    elim (fold_or_add-cases _ _ _ s.rows after j b e) [
      | inl (r, which, named, told, same) ↦ inr (once, rw (← same) sealed, rw (← same) there)
      | inr (old, recent, named, told, grown, apart) ↦ inr (
        once,
        rw grown (
            All-append (λ r. (has_id i r ≡ false) ⊎ (r.status ≡ Status.delivered)) s.rows _ sealed
              (inl (unclashed i _ s.rows apart there), tt)),
        rw (grown, exists-append, there) refl,
      )
    ]

pub deliver-OneTurn :
    (w : World) (i : String) (now : ℕ) (k sid key platform text : String) (s : Spool)
    → OneTurn i s
    → OneTurn i (after_delivery s (deliver w now k sid key platform text s))
unfolding deliver
deliver-OneTurn w i now k sid key platform text s h =
    at (enqueue now k sid key platform text s.rows) refl
  where
    at :
        (queued : Result ((String × Bool) × List Row))
        → enqueue now k sid key platform text s.rows ≡ queued
        → OneTurn i (after_delivery s (deliver_queued w s queued))
    at (raised e) made = unfold deliver_queued after_delivery in h
    at (ok ((j, b), after)) made =
        unfold deliver_queued after_delivery in
        run_row-OneTurn w i j (record s { rows = after })
          (enqueue-OneTurn i now k sid key platform text j b s after made h)
