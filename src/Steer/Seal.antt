-- ===== src/Steer/Seal.antt =====
-- compat/steer_store.py: what `seal_run` promises.
use hermes_app.Base.{
  ℕ, suc, ◌∙◌, String, true, false, ◌≡◌, refl, Option, none, some, List, [], ◌∷◌, arith, is_some,
  ok, length, map, coalesce, eq_refl, ap,
}
use hermes_app.Base.Table.{
  count, find, exists, update, exists-find, find-append, select, count-update, length-select,
}
use hermes_app.Steer.Defs.{Run, Steer, SteerDb, staged_in, accepted_in, run_at, run_clash}
use hermes_app.Steer.Runs.{new_run, run_request, closing, sealed_row, retired, seal_run}
use hermes_app.Steer.Batches.{claim_batch, run_is_open}

retired_none :
    (o r reason : String) (now : ℕ) (xs : List Steer)
    → count (accepted_in o r) (update (accepted_in o r) (retired now reason) xs) ≡ 0
unfolding accepted_in retired
retired_none o r reason now [] = refl
retired_none o r reason now (x ∷ xs) = ground (arith, retired_none o r reason now xs)

staged-apart :
    (o r reason : String) (x : Steer) (now : ℕ)
    → accepted_in o r x ≡ true
    → staged_in o r (retired now reason x) ≡ staged_in o r x
unfolding accepted_in staged_in retired
staged-apart o r reason x now h = ground arith

length-ids : (xs : List Steer) → length (map (λ s. s.steer_id) xs) ≡ length xs
length-ids [] = refl
length-ids (x ∷ xs) = ap suc (length-ids xs)

sealed_row-found :
    (now : ℕ) (o r reason : String)
    → find (run_at o r) (sealed_row now o r reason ∷ []) ≡ some (sealed_row now o r reason)
unfolding sealed_row new_run run_request run_at
sealed_row-found now o r reason = simp eq_refl

sealed_row-clash :
    (now : ℕ) (o r reason : String) (runs : List Run)
    → exists (run_clash (sealed_row now o r reason)) runs ≡ is_some (find (run_at o r) runs)
unfolding run_clash sealed_row new_run run_request
sealed_row-clash now o r reason runs = exists-find (run_at o r) runs

-- The run that `run_at` has found is the one that the conflict updates.
closing-found :
    (now : ℕ) (o r reason : String) (x : Run) (runs : List Run)
    → find (run_at o r) runs ≡ some x
    → find (run_at o r) (update (run_clash (sealed_row now o r reason)) (closing now reason) runs)
      ≡ some (closing now reason x)
unfolding run_clash sealed_row new_run run_request closing run_at
closing-found now o r reason x [] e = cc
closing-found now o r reason x (y ∷ ys) e = ground (arith, closing-found now o r reason x ys)

abbrev pub reason_of : Option Run → Option String
reason_of none = none
reason_of (some run) = run.closed_reason

-- Whatever the run was, after the seal it is there with a reason: its first one, or the new one.
pub sealed-found :
    (now : ℕ) (db : SteerDb) (o r reason : String)
    → (run : Run) × (find (run_at o r) (seal_run now db o r reason).1.runs ≡ some run)
      × (run.closed_reason ≡ coalesce (reason_of (find (run_at o r) db.runs)) (some reason))
unfolding seal_run
sealed-found now db o r reason = at (find (run_at o r) db.runs) refl
  where
    at :
        (found : Option Run)
        → find (run_at o r) db.runs ≡ found
        → (run : Run) × (find (run_at o r) (seal_run now db o r reason).1.runs ≡ some run)
          × (run.closed_reason ≡ coalesce (reason_of (find (run_at o r) db.runs)) (some reason))
    at none e =
        let absent : exists (run_clash (sealed_row now o r reason)) db.runs ≡ false =
          rw (sealed_row-clash, e) in
        (
          sealed_row now o r reason,
          rw (absent, find-append, e, sealed_row-found),
          rw e (unfold sealed_row in refl),
        )
    at (some x) e =
        let there : exists (run_clash (sealed_row now o r reason)) db.runs ≡ true =
          rw (sealed_row-clash, e) in
        (
          closing now reason x,
          rw there (closing-found now o r reason x db.runs e),
          rw e (unfold closing in refl),
        )

reason_closes :
    (first : Option String) (reason : String) (run : Run)
    → run.closed_reason ≡ coalesce first (some reason)
    → run_is_open (some run) ≡ false
unfolding run_is_open
reason_closes none reason run e = rw e
reason_closes (some c) reason run e = rw e

-- Sealing a run retires its accepted steers, all of them, and no staged one; it answers the ids of
-- those; and a `claim_batch` of the run right after it returns none and writes nothing. The staged
-- steers of the run are as many as before.
pub seal_run-retires :
    (t u : ℕ) (db : SteerDb) (o r b reason : String)
    → (count (accepted_in o r) (seal_run t db o r reason).1.steers ≡ 0)
      × (count (staged_in o r) (seal_run t db o r reason).1.steers
          ≡ count (staged_in o r) db.steers)
      × (length (seal_run t db o r reason).0.1 ≡ count (accepted_in o r) db.steers)
      × (claim_batch u (seal_run t db o r reason).1 o r b ≡ ok (none, (seal_run t db o r reason).1))
seal_run-retires t u db o r b reason =
    let (run, found, closed) = sealed-found t db o r reason in
    (
      unfold seal_run in retired_none o r reason t db.steers,
      unfold seal_run in
          count-update (staged_in o r) (accepted_in o r) (retired t reason) db.steers
            (λ x. staged-apart o r reason x t),
      unfold seal_run in
          length-ids (select (accepted_in o r) db.steers)
          ∙ length-select (accepted_in o r) db.steers,
      shut (seal_run t db o r reason).1 (rw found (reason_closes _ reason run closed)),
    )
  where
    shut :
        (d : SteerDb)
        → run_is_open (find (run_at o r) d.runs) ≡ false
        → claim_batch u d o r b ≡ ok (none, d)
    shut d h = unfold claim_batch in rw h
