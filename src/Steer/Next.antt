-- ===== src/Steer/Next.antt =====
-- compat/steer_store.py: the number that a run gives next, and what the statements on `runs` do to it.
use mathlib.Core.Option
use hermes_app.Base.{
  ap, ℕ, ◌≤◌, String, Bool, true, false, ◌&&◌, ◌≡◌, ◌∙◌, refl, Option, none, some, List, [], ◌∷◌,
  ◌++◌, arith, Bool-cases, inl, inr, eq_iff, coalesce, if-keeps, if◌then◌else◌, ◌==◌,
}
use hermes_app.Base.Table.{
  find, exists, update, upsert, find-append, find-update, find-update_apart, find-some,
}
use hermes_app.Steer.Defs.{Run, run_at, run_clash}
use hermes_app.Steer.Runs.{set_next_seq}

-- The number that the run's next steer gets.
abbrev pub next_after : Option Run → ℕ
next_after none = 1
next_after (some x) = x.next_seq

abbrev pub next_of : String → String → List Run → ℕ
next_of o r runs = next_after (find (run_at o r) runs)

-- What the statements on `runs` do to the number that a run gives next.
pub next_of-renumbered :
    (o r : String) (n : ℕ) (runs : List Run) (x : Run)
    → find (run_at o r) runs ≡ some x
    → next_of o r (set_next_seq o r n runs) ≡ n
unfolding set_next_seq run_at
next_of-renumbered o r n runs x there =
    let found : find (run_at o r)
          (update (run_at o r) (λ (y : Run). record y { next_seq = n }) runs)
        ≡ some (record x { next_seq = n }) =
      find-update (run_at o r) (run_at o r) (λ (y : Run). record y { next_seq = n }) runs
        (λ y. refl)
      ∙ rw (there, find-some (run_at o r) runs x there) refl in
    ap next_after found

next_of-other :
    (o r o' r' : String) (n : ℕ) (runs : List Run)
    → ((x : Run) → run_at o' r' x ≡ true → run_at o r x ≡ false)
    → next_of o' r' (set_next_seq o r n runs) ≡ next_of o' r' runs
unfolding set_next_seq run_at
next_of-other o r o' r' n runs other = ap next_after (
    find-update_apart (run_at o' r') (run_at o r) (λ (y : Run). record y { next_seq = n }) runs
      (λ y. refl) other)

abbrev pub KeepsRun : (Run → Run) → Type 0
KeepsRun f =
    (x : Run)
    → ((f x).owner_scope ≡ x.owner_scope)
      × ((f x).run_id ≡ x.run_id)
      × ((f x).next_seq ≡ x.next_seq)

mapped_next :
    (p : Run → Bool) (f : Run → Run) (o : Option Run)
    → KeepsRun f
    → next_after (Option.map (λ x. if p x then f x else x) o) ≡ next_after o
mapped_next p f none keeps = refl
mapped_next p f (some x) keeps = let (_, _, n) = keeps x in ground (arith, n)

pub appended_next :
    (o r : String) (row : Run) (runs : List Run)
    → row.next_seq ≡ 1
    → next_of o r (runs ++ (row ∷ [])) ≡ next_of o r runs
appended_next o r row runs fresh =
    ap next_after (find-append (run_at o r) runs (row ∷ [])) ∙ at (find (run_at o r) runs)
  where
    at :
        (found : Option Run)
        → next_after (coalesce found (find (run_at o r) (row ∷ []))) ≡ next_after found
    at (some x) = refl
    at none = ground (arith, fresh)

pub next_of-upsert :
    (o r : String) (f : Run → Run) (row : Run) (runs : List Run)
    → KeepsRun f
    → row.next_seq ≡ 1
    → next_of o r (upsert run_clash f row runs) ≡ next_of o r runs
unfolding run_at
next_of-upsert o r f row runs keeps fresh =
    if-keeps (λ (l : List Run). next_of o r l ≡ next_of o r runs) (exists (run_clash row) runs) _ _
      (λ _.
        ap next_after (
          find-update (run_at o r) (run_clash row) f runs
            (λ x. let (own, run, _) = keeps x in rw (own, run) refl))
        ∙ mapped_next (run_clash row) f (find (run_at o r) runs) keeps)
      (λ _. appended_next o r row runs fresh)

apart_runs :
    (o r o' r' : String) (x : Run)
    → (o == o' && r == r') ≡ false
    → run_at o' r' x ≡ true
    → run_at o r x ≡ false
unfolding run_at
apart_runs o r o' r' x apart own =
    let mine : x.owner_scope ≡ o' = ground (arith, eq_iff x.owner_scope o') in
    let run : x.run_id ≡ r' = ground (arith, eq_iff x.run_id r') in
    ground (arith, eq_iff x.owner_scope o, eq_iff x.run_id r, eq_iff o o', eq_iff r r', mine, run)

-- A larger number for one run lowers the next number of none.
pub renumbered_more :
    (o r : String) (n : ℕ) (runs : List Run) (x : Run)
    → find (run_at o r) runs ≡ some x
    → x.next_seq ≤ n
    → (o' r' : String) → next_of o' r' runs ≤ next_of o' r' (set_next_seq o r n runs)
renumbered_more o r n runs x there more o' r' = elim (Bool-cases (o == o' && r == r')) [
  | inr apart ↦
      rw (next_of-other o r o' r' n runs (λ y. apart_runs o r o' r' y apart)) (omega arith)
  | inl same ↦
      let owner : o ≡ o' = ground (arith, eq_iff o o') in
      let run : r ≡ r' = ground (arith, eq_iff r r') in
      let old : next_of o r runs ≡ x.next_seq = ap next_after there in
      let new : next_of o r (set_next_seq o r n runs) ≡ n = next_of-renumbered o r n runs x there in
      let grown : next_of o r runs ≤ next_of o r (set_next_seq o r n runs) = omega (arith, more) in
      rw (← owner, ← run) grown
]
