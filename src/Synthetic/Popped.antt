-- ===== src/Synthetic/Popped.antt =====
-- compat/crosssource.py: what one pop of the loop of `issue` removes.
use hermes_app.Base.{
  zero, ◌+◌, drop, none, ℕ, suc, Bool, true, false, not, ◌≡◌, refl, some, List, [], ◌∷◌, length,
  arith, inl, inr, Bool-cases, All, eq_refl,
}
use hermes_app.Base.Table.{find, select, delete, Unique, Apart, All-find}
use hermes_app.Synthetic.Defs.{Entry, has_run, same_run, is_released}

-- An identifier whose stream has not ended.
unfoldable pub is_open : Entry → Bool
is_open e = not (is_released e)

unmatched :
    (e : Entry) (entries : List Entry)
    → All (Apart same_run e) entries
    → delete (has_run e.run_id) entries ≡ entries
unfolding same_run
unmatched e [] h = refl
unmatched e (x ∷ entries) h = rw (h.0.0, unmatched e entries h.1) refl

own_run : (e : Entry) → has_run e.run_id e ≡ true
unfolding has_run
own_run e = eq_refl e.run_id

pub drop_one : (n : ℕ) (xs : List Entry) → drop 1 (drop n xs) ≡ drop (suc n) xs
drop_one zero xs = refl
drop_one (suc n) [] = refl
drop_one (suc n) (x ∷ xs) = drop_one n xs

-- The pop of the oldest released identifier: the open ones stay, and of the released ones the first
-- is gone.
pub released_popped :
    (entries : List Entry) (e : Entry)
    → Unique same_run entries
    → find is_released entries ≡ some e
    → (select is_open (delete (has_run e.run_id) entries) ≡ select is_open entries)
      × (select is_released (delete (has_run e.run_id) entries)
          ≡ drop 1 (select is_released entries))
      × (length (delete (has_run e.run_id) entries) + 1 ≡ length entries)
unfolding is_open same_run
released_popped [] e u found = cc
released_popped (x ∷ entries) e u found = elim (Bool-cases (is_released x)) [
  | inl hit ↦
      let same : x ≡ e = ground arith in
      let mine : has_run e.run_id x ≡ true = rw (← same) (own_run x) in
      let gone : delete (has_run e.run_id) entries ≡ entries =
        rw (← same) (unmatched x entries u.0) in
      (rw (mine, gone, hit) refl, rw (mine, gone, hit) refl, rw (mine, gone) (omega arith))
  | inr miss ↦
      let there : find is_released entries ≡ some e = ground arith in
      let apart : Apart same_run x e =
        All-find (Apart same_run x) is_released entries e u.0 there in
      let (opens, releases, shorter) = released_popped entries e u.1 there in
      (
        rw (apart.1, miss, opens) refl,
        rw (apart.1, miss, releases) refl,
        rw apart.1 (omega (arith, shorter)),
      )
]

pub none_released :
    (entries : List Entry) → find is_released entries ≡ none → select is_released entries ≡ []
none_released [] h = refl
none_released (x ∷ entries) h = elim (Bool-cases (is_released x)) [
  | inl hit ↦ absurd (ground (arith, h))
  | inr miss ↦ rw miss (none_released entries (ground arith))
]

-- The pop of the oldest identifier, where none is released.
pub oldest_popped :
    (x : Entry) (entries : List Entry)
    → Unique same_run (x ∷ entries)
    → find is_released (x ∷ entries) ≡ none
    → (select is_open (delete (has_run x.run_id) (x ∷ entries))
        ≡ drop 1 (select is_open (x ∷ entries)))
      × (select is_released (delete (has_run x.run_id) (x ∷ entries)) ≡ [])
      × (length (delete (has_run x.run_id) (x ∷ entries)) + 1 ≡ length (x ∷ entries))
unfolding is_open
oldest_popped x entries u nothing =
    let open_one : is_released x ≡ false = ground (arith, nothing) in
    let gone : delete (has_run x.run_id) entries ≡ entries = unmatched x entries u.0 in
    let none_left : find is_released entries ≡ none = ground (arith, nothing) in
    (
      rw (own_run x, gone, open_one) refl,
      rw (own_run x, gone) (none_released entries none_left),
      rw (own_run x, gone) (omega arith),
    )
