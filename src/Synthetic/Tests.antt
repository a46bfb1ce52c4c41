-- ===== src/Synthetic/Tests.antt =====
-- compat/crosssource.py: small runs of the registry, and the theorems at inputs that meet their
-- hypotheses.
use hermes_app.Base.{
  ℕ, String, false, ◌≡◌, ◌≤◌, refl, none, some, List, [], ◌∷◌, arith, run_all, length, ltb,
  if◌then◌else◌,
}
use hermes_app.Base.Table.{find, exists, Unique}
use hermes_app.Synthetic.Defs.{
  Entry, Policy, has_run, same_run, is_expired, prune, is_released, pop_one, make_room, new_entry,
  put, issue, bind, terminal_status, released, release, entry_of, count_runs, CoreView, RunView,
  view_of, resolve, Op, step, status_or,
}
use hermes_app.Synthetic.Room.{runs_bounded}
use hermes_app.Synthetic.Grace.{resolve-release}
use hermes_app.Synthetic.Evicted.{Evicted, issue-Evicted}

program : Unit {0}
unfolding has_run same_run is_expired prune is_released pop_one make_room new_entry put issue bind
    terminal_status released release entry_of count_runs view_of resolve step
program = tt

abbrev two : Policy
two = record { entry_cap = 2; grace = 10; max_age = 100 }

abbrev ops : List Op
ops =
    Op.issuing 1 "a" "s" "k"
    ∷ Op.issuing 2 "b" "s" "k"
    ∷ Op.binding "b" (some "x")
    ∷ Op.releasing 3 "b" (some "run.failed")
    ∷ Op.issuing 4 "c" "s" "k"
    ∷ []

abbrev open_run : String → ℕ → Entry
open_run i at = record {
  run_id = i;
  session_id = "s";
  session_key = "k";
  admission_id = none;
  terminal = none;
  issued_at = at;
  expires_at = none;
}

-- The released identifier gives way, not the older open one.
keeps_open : run_all (step two) [] ops ≡ open_run "a" 1 ∷ open_run "c" 4 ∷ []
unfolding program
keeps_open = refl

runs_bounded_example : length (run_all (step two) [] ops) ≤ 2
runs_bounded_example = runs_bounded two ops (omega arith)

abbrev gone : Entry → CoreView
gone e = CoreView.absent

finds_a : find (has_run "a") (open_run "a" 1 ∷ []) ≡ some (open_run "a" 1)
unfolding program
finds_a = refl

resolve-release_example :
    (resolve two gone 12 "a" (release two 5 "a" (some "run.failed") (open_run "a" 1 ∷ []))).0 ≡ (
      if ltb 12 15
      then RunView.ended_as (status_or (terminal_status (some "run.failed")) "completed") "s" none
      else RunView.unknown)
resolve-release_example =
    resolve-release two gone 5 12 "a" (some "run.failed") (open_run "a" 1 ∷ []) (open_run "a" 1)
      finds_a refl (omega arith)

abbrev full : List Entry
full = open_run "a" 1 ∷ record (open_run "b" 2) { expires_at = some 13 } ∷ []

full-Unique : Unique same_run full
unfolding program
full-Unique = (((refl, refl), tt), (tt, tt))

fresh_c : exists (has_run "c") full ≡ false
unfolding program
fresh_c = refl

issue-Evicted_example :
    (after : List Entry) × (issue two 4 "c" "s" "k" full ≡ some after)
    × Evicted two 4 (new_entry 4 "c" "s" "k") full after
issue-Evicted_example = issue-Evicted two 4 "c" "s" "k" full (omega arith) full-Unique fresh_c
