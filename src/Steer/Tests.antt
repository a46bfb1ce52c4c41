-- ===== src/Steer/Tests.antt =====
-- compat/steer_store.py: the store on a small run, and the theorems at inputs that meet their
-- hypotheses. The digest of the tests is the text itself.
use hermes_app.Base.{
  ℕ, ◌≤◌, String, ◌≡◌, ◌≢◌, refl, none, some, List, [], ◌∷◌, ok, coalesce, length,
}
use hermes_app.Base.Table.{find, count}
use hermes_app.Steer.Defs.{
  SteerState, BatchState, Run, Steer, SteerDb, empty_db, run_at, steer_in, steer_at, has_id,
  batch_has_id, in_batch, accepted_in, outstanding_in, run_clash, steer_clash, batch_clash,
  purged_at_key, purged_clash, batch_in, staged_in,
}
use hermes_app.Steer.Runs.{
  Request, new_run, run_request, set_next_seq, closing, sealed_row, retired, seal_run, register_run,
}
use hermes_app.Steer.Rows.{nul_join, digest_of, derive_steer_id, new_steer}
use hermes_app.Steer.Admit.{
  Verdict, admit_row, admit_seq, admit_bounded, admit_open, admit_key, admit,
}
use hermes_app.Steer.Batches.{
  run_is_open, new_batch, claimable, claim_rows, claim_batch, batch_is_open, confirm_batch,
  mark_outcome_unknown,
}
use hermes_app.Steer.Prune.{is_expired, purge_keys, prune_run, prune_runs, prune_expired}
use hermes_app.Steer.Views.{list_steers, accepted_runs, distinct_from}
use hermes_app.Steer.Pages.{Page, list_steers-Page}
use hermes_app.Steer.History.{Op, step, play}
use hermes_app.Steer.Bounds.{outstanding, play-IsBounded}
use hermes_app.Steer.Numbered.{IsNumbered}
use hermes_app.Steer.Sequence.{play-IsNumbered}
use hermes_app.Steer.Once.{admit_retry, admitted_once}
use hermes_app.Steer.Claim.{Claimed, claim_batch-Claimed, confirm_batch-final}
use hermes_app.Steer.Seal.{reason_of, sealed-found, seal_run-retires}

program : Unit {0}
unfolding run_at steer_in steer_at has_id batch_has_id in_batch accepted_in outstanding_in run_clash
    steer_clash batch_clash purged_at_key purged_clash batch_in staged_in new_run run_request
    set_next_seq closing sealed_row retired seal_run register_run nul_join digest_of derive_steer_id
    new_steer admit_row admit_seq admit_bounded admit_open admit_key admit run_is_open new_batch
    claimable claim_rows claim_batch batch_is_open confirm_batch mark_outcome_unknown is_expired
    purge_keys prune_run prune_runs prune_expired step play list_steers accepted_runs distinct_from
program = tt

abbrev plain : String → String
plain s = s

abbrev ask : String → String → Request
ask k text = record {
  owner_scope = "o";
  run_id = "r";
  key = k;
  input_text = text;
  original_sid = none;
  resolved_sid = none;
  owner_epoch = none;
}

abbrev hello : Steer
hello = record {
  steer_id = "o\0r\0k1";
  owner_scope = "o";
  run_id = "r";
  key = "k1";
  digest = "hello";
  input = "hello";
  seq = 1;
  state = SteerState.accepted;
  batch_id = none;
  row_id = none;
  error = none;
  created_at = 5;
  updated_at = 5;
}

abbrev run_of : ℕ → Run
run_of n = record {
  owner_scope = "o";
  run_id = "r";
  original_sid = none;
  resolved_sid = none;
  owner_epoch = none;
  closed_reason = none;
  closed_at = none;
  next_seq = n;
}

abbrev one : SteerDb
one = record { runs = run_of 2 ∷ []; steers = hello ∷ []; batches = []; purged_keys = [] }

admits_one : admit plain 5 empty_db (ask "k1" "hello") ≡ ok (Verdict.admitted hello, one)
unfolding program
admits_one = refl

abbrev staged_hello : Steer
staged_hello = record hello { state = SteerState.staged; batch_id = some "b"; updated_at = 7 }

abbrev claimed : SteerDb
claimed = record one {
  steers = staged_hello ∷ [];
  batches =
      record {
        batch_id = "b";
        owner_scope = "o";
        run_id = "r";
        ordered_ids = "o\0r\0k1" ∷ [];
        state = BatchState.staged;
        row_id = none;
        created_at = 7;
      }
      ∷ [];
}

claims_one : claim_batch 7 one "o" "r" "b" ≡ ok (some (hello ∷ []), claimed)
unfolding program
claims_one = refl

-- A request from after a restart: other sessions and another epoch.
abbrev restarted : String → Request
restarted text = record (ask "k1" text) {
  original_sid = some "s8";
  resolved_sid = some "s9";
  owner_epoch = some "e9";
}

admit_retry_example : admit plain 9 one (restarted "other") ≡ ok (Verdict.conflict hello, one)
unfolding digest_of
admit_retry_example =
    admit_retry plain 5 9 empty_db one (ask "k1" "hello") (restarted "other") hello admits_one refl
      refl refl

abbrev month : List Op
month = Op.seal 8 "o" "r" "done" ∷ Op.prune 3000000 3000001 ∷ []

admitted_once_example :
    admit plain 3000002 (play plain one month) (restarted "again")
    ≢ ok (Verdict.admitted hello, one)
admitted_once_example =
    admitted_once plain 5 3000002 empty_db one one (ask "k1" "hello") (restarted "again") hello
      hello month admits_one refl refl refl

purged_is_expired :
    admit plain 3000002 (play plain one month) (ask "k1" "again")
    ≡ ok (Verdict.expired "o\0r\0k1", play plain one month)
unfolding program
purged_is_expired = refl

play-IsBounded_example :
    outstanding "o" "r"
      (play plain empty_db (Op.submit 5 (ask "k1" "hello") ∷ Op.claim 7 "o" "r" "b" ∷ []))
    ≤ 32
play-IsBounded_example =
    play-IsBounded plain (Op.submit 5 (ask "k1" "hello") ∷ Op.claim 7 "o" "r" "b" ∷ []) "o" "r"

claim_batch-Claimed_example : Claimed 7 one "o" "r" "b" (hello ∷ []) claimed
claim_batch-Claimed_example = claim_batch-Claimed 7 one claimed "o" "r" "b" (hello ∷ []) claims_one

confirm_batch-final_example :
    (mark_outcome_unknown 9 (confirm_batch 8 claimed "b" "row") "b" "lost"
      ≡ confirm_batch 8 claimed "b" "row")
    × (confirm_batch 9 (confirm_batch 8 claimed "b" "row") "b" "other"
        ≡ confirm_batch 8 claimed "b" "row")
confirm_batch-final_example = confirm_batch-final 8 9 claimed "b" "row" "other" "lost"

sealed-found_example :
    (run : Run) × (find (run_at "o" "r") (seal_run 8 one "o" "r" "done").1.runs ≡ some run)
    × (run.closed_reason ≡ coalesce (reason_of (find (run_at "o" "r") one.runs)) (some "done"))
sealed-found_example = sealed-found 8 one "o" "r" "done"

seal_run-retires_example :
    (count (accepted_in "o" "r") (seal_run 8 one "o" "r" "done").1.steers ≡ 0)
    × (count (staged_in "o" "r") (seal_run 8 one "o" "r" "done").1.steers
        ≡ count (staged_in "o" "r") one.steers)
    × (length (seal_run 8 one "o" "r" "done").0.1 ≡ count (accepted_in "o" "r") one.steers)
    × (claim_batch 9 (seal_run 8 one "o" "r" "done").1 "o" "r" "b"
        ≡ ok (none, (seal_run 8 one "o" "r" "done").1))
seal_run-retires_example = seal_run-retires 8 9 one "o" "r" "b" "done"

list_steers-Page_example : Page one "o" "r" 0 100
list_steers-Page_example = list_steers-Page one "o" "r" 0 100

play-IsNumbered_example :
    IsNumbered (
      play plain empty_db
        (Op.submit 5 (ask "k1" "hello") ∷ Op.handoff 6 (ask "k2" "there") ∷ month))
play-IsNumbered_example =
    play-IsNumbered plain (Op.submit 5 (ask "k1" "hello") ∷ Op.handoff 6 (ask "k2" "there") ∷ month)
