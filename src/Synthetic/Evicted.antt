-- ===== src/Synthetic/Evicted.antt =====
-- compat/crosssource.py: which identifiers `issue` forgets.
use hermes_app.Base.{
  ◌<◌, length-append, is_some, min, ◌+◌, drop, sym, ℕ, suc, ◌≤◌, ◌⊎◌, String, Bool, false, not, ◌≡◌,
  ◌∙◌, refl, ap, some, List, [], ◌∷◌, ◌++◌, length, arith, inl, inr, Option-cases,
}
use hermes_app.Base.Table.{find, exists, select, delete, Unique, Unique-delete, exists-split}
use hermes_app.Synthetic.Defs.{
  Entry, Policy, has_run, same_run, is_expired, prune, is_released, pop_one, new_entry, put, issue,
}
use hermes_app.Synthetic.Room.{make_room-ends}
use hermes_app.Synthetic.Popped.{is_open, none_released, released_popped, oldest_popped, drop_one}

exists-delete :
    (q p : Entry → Bool) (entries : List Entry)
    → exists q entries ≡ false
    → exists q (delete p entries) ≡ false
exists-delete q p entries h = ground (arith, h, exists-split q p entries)

-- What the pops of `issue` have done, from the entries that the prune kept: keys are unique and the
-- new one is fresh; of the released identifiers the first `ended` are gone and of the open ones the
-- first `opened`, none of these while a released one was left; and no more than the cap asks for.
record Popping (i : String) (entry_cap : ℕ) (kept entries : List Entry) : Type 0 where
  unique : Unique same_run entries
  fresh : exists (has_run i) entries ≡ false
  opened : ℕ
  ended : ℕ
  opens : select is_open entries ≡ drop opened (select is_open kept)
  releases : select is_released entries ≡ drop ended (select is_released kept)
  order : (opened ≡ 0) ⊎ (select is_released entries ≡ [])
  fewer : length entries ≤ length kept
  needed : min (length kept + 1) entry_cap ≤ length entries + 1

-- A dropped first row stays dropped.
none_dropped : (xs : List Entry) → xs ≡ [] → drop 1 xs ≡ []
none_dropped xs h = rw h refl

pop_one-Popping :
    (i : String) (entry_cap : ℕ) (kept entries rest : List Entry)
    → entry_cap ≤ length entries
    → Popping i entry_cap kept entries
    → pop_one (find is_released entries) entries ≡ some rest
    → Popping i entry_cap kept rest
unfolding pop_one
pop_one-Popping i entry_cap kept [] rest full h popped = cc
pop_one-Popping i entry_cap kept (x ∷ entries) rest full h popped =
    elim (Option-cases (find is_released (x ∷ entries))) [
      | inl nothing ↦
          let made : some (delete (has_run x.run_id) (x ∷ entries)) ≡ some rest =
            rw nothing at popped in
          let same : delete (has_run x.run_id) (x ∷ entries) ≡ rest = cc in
          let (opens, releases, shorter) = oldest_popped x entries h.unique nothing in
          rw (← same) (record {
            unique = Unique-delete same_run (has_run x.run_id) (x ∷ entries) h.unique;
            fresh = exists-delete (has_run i) (has_run x.run_id) (x ∷ entries) h.fresh;
            opened = suc h.opened;
            ended = h.ended;
            opens = opens ∙ rw h.opens (drop_one h.opened (select is_open kept));
            releases = releases ∙ sym (none_released (x ∷ entries) nothing) ∙ h.releases;
            order = inr releases;
            fewer = omega (arith, h.fewer, shorter);
            needed = omega (arith, full, shorter);
          })
      | inr (e, found) ↦
          let made : some (delete (has_run e.run_id) (x ∷ entries)) ≡ some rest =
            rw found at popped in
          let same : delete (has_run e.run_id) (x ∷ entries) ≡ rest = cc in
          let (opens, releases, shorter) = released_popped (x ∷ entries) e h.unique found in
          rw (← same) (record {
            unique = Unique-delete same_run (has_run e.run_id) (x ∷ entries) h.unique;
            fresh = exists-delete (has_run i) (has_run e.run_id) (x ∷ entries) h.fresh;
            opened = h.opened;
            ended = suc h.ended;
            opens = opens ∙ h.opens;
            releases = releases ∙ rw h.releases (drop_one h.ended (select is_released kept));
            order = elim h.order [
              | inl none_yet ↦ inl none_yet
              | inr none_left ↦ inr (releases ∙ none_dropped _ none_left)
            ];
            fewer = omega (arith, h.fewer, shorter);
            needed = omega (arith, full, shorter);
          })
    ]

select-append :
    (q : Entry → Bool) (xs ys : List Entry) → select q (xs ++ ys) ≡ select q xs ++ select q ys
select-append q [] ys = refl
select-append q (x ∷ xs) ys = ground (arith, select-append q xs ys)

fresh_put :
    (e : Entry) (entries : List Entry)
    → exists (has_run e.run_id) entries ≡ false
    → put e entries ≡ entries ++ (e ∷ [])
unfolding put same_run
fresh_put e entries fresh = rw fresh refl

new_entry-open :
    (now : ℕ) (i sid key : String) (entries : List Entry)
    → (select is_open (entries ++ (new_entry now i sid key ∷ []))
        ≡ select is_open entries ++ (new_entry now i sid key ∷ []))
      × (select is_released (entries ++ (new_entry now i sid key ∷ []))
          ≡ select is_released entries)
unfolding is_open new_entry is_released
new_entry-open now i sid key entries = (
  select-append is_open entries (new_entry now i sid key ∷ []),
  select-append is_released entries (new_entry now i sid key ∷ [])
      ∙ append_none (select is_released entries),
)
  where
    append_none : (xs : List Entry) → xs ++ [] ≡ xs
    append_none [] = refl
    append_none (x ∷ xs) = ap (λ (rest : List Entry). x ∷ rest) (append_none xs)

-- What an `issue` leaves of the entries that are not expired. There are as many as before and one,
-- up to the cap; the released ones are the last of the released ones, and the open ones are the last
-- of the open ones and then the new one; and if an open one is gone then no released one is left.
pub record Evicted (p : Policy) (now : ℕ) (new : Entry) (entries after : List Entry) : Type 0 where
  pub opened : ℕ
  pub ended : ℕ
  pub size : length after ≡ min (length (delete (is_expired p now) entries) + 1) p.entry_cap
  pub opens :
      select (λ e. not (is_some e.expires_at)) after
      ≡ drop opened (select (λ e. not (is_some e.expires_at)) (delete (is_expired p now) entries))
        ++ (new ∷ [])
  pub releases :
      select (λ e. is_some e.expires_at) after
      ≡ drop ended (select (λ e. is_some e.expires_at) (delete (is_expired p now) entries))
  pub order : (opened ≡ 0) ⊎ (select (λ e. is_some e.expires_at) after ≡ [])

put-Evicted :
    (p : Policy) (now : ℕ) (i sid key : String) (entries rest : List Entry)
    → 1 ≤ p.entry_cap
    → length rest < p.entry_cap
    → Popping i p.entry_cap (delete (is_expired p now) entries) rest
    → Evicted p now (new_entry now i sid key) entries (rest ++ (new_entry now i sid key ∷ []))
unfolding is_open is_released
put-Evicted p now i sid key entries rest some_room fits h =
    let new = new_entry now i sid key in
    let (opens, releases) = new_entry-open now i sid key rest in
    record {
      opened = h.opened;
      ended = h.ended;
      size = omega (arith, h.fewer, h.needed, fits, length-append rest (new ∷ []));
      opens = opens ∙ ap (λ (l : List Entry). l ++ (new ∷ [])) h.opens;
      releases = releases ∙ h.releases;
      order = elim h.order [
        | inl none_gone ↦ inl none_gone
        | inr none_left ↦ inr (releases ∙ none_left)
      ];
    }

-- Where keys are unique, the identifier is fresh and the cap is at least one, `issue` returns. After
-- it there are as many entries as the prune left and one, up to the cap. The released ones are the
-- last of those that the prune left, the open ones are the last of the open ones that it left and
-- then the new one, and if an open one is gone then no released one is left.
pub issue-Evicted :
    (p : Policy) (now : ℕ) (i sid key : String) (entries : List Entry)
    → 1 ≤ p.entry_cap
    → Unique same_run entries
    → exists (has_run i) entries ≡ false
    → (after : List Entry) × (issue p now i sid key entries ≡ some after)
      × Evicted p now (new_entry now i sid key) entries after
unfolding issue prune
issue-Evicted p now i sid key entries some_room u new_key =
    let kept : List Entry = delete (is_expired p now) entries in
    let start : Popping i p.entry_cap kept kept = record {
      unique = Unique-delete same_run (is_expired p now) entries u;
      fresh = exists-delete (has_run i) (is_expired p now) entries new_key;
      opened = 0;
      ended = 0;
      opens = refl;
      releases = refl;
      order = inl refl;
      fewer = omega arith;
      needed = omega arith;
    } in
    let (rest, ended, fits, done) =
      make_room-ends (Popping i p.entry_cap kept) (suc (length kept)) p.entry_cap kept some_room
        (omega arith) (λ xs ys full h e. pop_one-Popping i p.entry_cap kept xs ys full h e) start in
    (
      rest ++ (new_entry now i sid key ∷ []),
      rw ended
          (ap some (fresh_put (new_entry now i sid key) rest (unfold new_entry in done.fresh))),
      put-Evicted p now i sid key entries rest some_room fits done,
    )
