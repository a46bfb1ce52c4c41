-- ===== src/Wake/Tests.antt =====
-- compat/auto_wake_store.py: the ledger on small runs, and the theorems at inputs that meet their
-- hypotheses.
use hermes_app.Base.{ℕ, ◌≤◌, String, true, false, ◌≡◌, refl, none, some, List, [], ◌∷◌, ok}
use hermes_app.Base.Table.{find, exists}
use hermes_app.Wake.Defs.{
  WakeState, ConsumptionState, WakeBatch, Consumption, WakeDb, Session, ReportRow, Core, empty_db,
  batch_is, key_is, batch_clash, consumption_clash,
}
use hermes_app.Wake.Keys.{is_hex_digit, all_hex, is_delivery_key, clean_keys}
use hermes_app.Wake.Reports.{
  in_window, profile_used, session_used, quota, lease_held, session_busy, recent, same_message,
  same_source, same_source_recent, batch_view,
}
use hermes_app.Wake.Admit.{
  Reason, Claim, Reply, session_refused, suspect, ignored_row, reject, ignore_report, scan_row,
  scan_prior, scan_key, scan_keys, claim_row, insert_claims, reserved_batch, reserve, overflow,
  admit_keys, admit_quota, admit_session, admit_cleaned, admit,
}
use hermes_app.Wake.Dispatch.{
  Reported, ReportReply, reserved_as, gate_state, gate_found, gate_dispatch, undispatched,
  dispatch_failed, dispatching_as, in_flight_as, report_update, accept_row, terminal_row,
  uncertain_row, report_accepted, report_state, report_found, report, released_row, consumed_by,
  release_found, release, receipt, ledger_state_for,
}
use hermes_app.Wake.History.{Op, step, play}
use hermes_app.Wake.Edges.{Moves}
use hermes_app.Wake.Moves.{Spent, step-Moves}
use hermes_app.Wake.Refused.{claim_is}
use hermes_app.Wake.Once.{held, consumed_once}
use hermes_app.Wake.Limits.{admit-within_limits}
use hermes_app.Wake.Release.{Freed, release-Freed}

program : Unit {0}
unfolding batch_is key_is batch_clash consumption_clash is_hex_digit all_hex is_delivery_key
    clean_keys in_window profile_used session_used quota lease_held session_busy recent same_message
    same_source same_source_recent batch_view session_refused suspect ignored_row reject
    ignore_report scan_row scan_prior scan_key scan_keys claim_row insert_claims reserved_batch
    reserve overflow admit_keys admit_quota admit_session admit_cleaned admit reserved_as gate_state
    gate_found gate_dispatch undispatched dispatch_failed dispatching_as in_flight_as report_update
    accept_row terminal_row uncertain_row report_accepted report_state report_found report
    released_row consumed_by release_found release receipt ledger_state_for step play
program = tt

abbrev plain : String → String
plain s = s

abbrev key_a : String
key_a = "aaaaaaaaaaaaaaaaaaaaaaaaaaaaaaaaaaaaaaaaaaaaaaaaaaaaaaaaaaaaaaaa"

abbrev key_b : String
key_b = "bbbbbbbbbbbbbbbbbbbbbbbbbbbbbbbbbbbbbbbbbbbbbbbbbbbbbbbbbbbbbbbb"

abbrev open_session : Session
open_session = record {
  hidden = false;
  archived = false;
  source = none;
  ended_at = none;
  end_reason = none;
}

abbrev report_row : ReportRow
report_row = record {
  row_id = 1;
  timestamp = 10;
  content = "done";
  sch = some 1;
  job_id = some "job";
}

abbrev core : Core
core = record {
  bindings_ready = true;
  get_session = λ _. some open_session;
  lease_key = λ s. ok s;
  leases = ok [];
  find_report = λ _ _. some report_row;
  message_source = λ _. none;
  strip_lower = plain;
  source_text = plain;
  is_ignored_report = λ _. false;
  sorted = λ keys. keys;
}

abbrev batch : String → List String → ℕ → WakeState → WakeBatch
batch i keys at state = record {
  batch_id = i;
  session_id = "s";
  state = state;
  reason = none;
  run_id = none;
  canonical_input = "請讀取新到的排程報告並簡短回覆。";
  batch_keys = keys;
  created_at = at;
  updated_at = at;
  terminal_at = none;
  owner = none;
}

abbrev row_for : String → String → ℕ → Consumption
row_for key i at = record {
  delivery_key = key;
  batch_id = some i;
  session_id = "s";
  message_id = some 1;
  report_order = 10;
  ignored = false;
  state = ConsumptionState.consumed;
  created_at = at;
  updated_at = at;
}

abbrev claim_of : String → Claim
claim_of key = record { key = key; message_id = 1; stamp = 10 }

abbrev reserved_one : WakeDb
reserved_one = record {
  batches = batch "wb_1" (key_a ∷ []) 100 WakeState.reserved ∷ [];
  consumption = row_for key_a "wb_1" 100 ∷ [];
}

admits_one :
    admit core 100 empty_db "s" (key_a ∷ []) "wb_1" none
    ≡ ok (Reply.admitted "wb_1" (claim_of key_a ∷ []) [] [], reserved_one)
unfolding program
admits_one = refl

admit-within_limits_example :
    (session_used reserved_one "s" 100 ≤ 6) × (profile_used reserved_one 100 ≤ 12)
admit-within_limits_example =
    admit-within_limits core 100 empty_db reserved_one "s" (key_a ∷ []) "wb_1" "wb_1" none
      (claim_of key_a ∷ []) [] [] admits_one

found_one :
    find (batch_is "wb_1") reserved_one.batches
    ≡ some (batch "wb_1" (key_a ∷ []) 100 WakeState.reserved)
unfolding program
found_one = refl

step-Moves_example :
    Moves "wb_1" WakeState.reserved (step plain reserved_one (Op.giving_back 105 "wb_1" "s"))
step-Moves_example =
    step-Moves plain reserved_one (Op.giving_back 105 "wb_1" "s") "wb_1"
      (batch "wb_1" (key_a ∷ []) 100 WakeState.reserved) found_one

abbrev released_one : WakeDb
released_one = record {
  batches =
      record (batch "wb_1" (key_a ∷ []) 100 WakeState.released) {
        reason = some "released";
        updated_at = 105;
        terminal_at = some 105;
      }
      ∷ [];
  consumption = [];
}

releases_one : release 105 reserved_one "wb_1" "s" ≡ (
  ReportReply.done (
      some (
        record (batch "wb_1" (key_a ∷ []) 100 WakeState.released) {
          reason = some "released";
          updated_at = 105;
          terminal_at = some 105;
        },
        [],
      )),
  released_one,
)
unfolding program
releases_one = refl

release-Freed_example : Freed 105 "wb_1" "s" reserved_one released_one
release-Freed_example = release-Freed 105 reserved_one released_one "wb_1" "s" _ releases_one

-- The wake of the first batch has run, and two later writes do not touch it.
abbrev run_one : List Op
run_one =
    Op.dispatch 110 "wb_1" "s" "請讀取新到的排程報告並簡短回覆。"
    ∷ Op.outcome 120 "wb_1" "s" Reported.to_accepted (some "run")
    ∷ []

abbrev accepted_one : WakeDb
accepted_one = record {
  batches =
      record (batch "wb_1" (key_a ∷ []) 100 WakeState.accepted) {
        run_id = some "run";
        updated_at = 120;
      }
      ∷ [];
  consumption = row_for key_a "wb_1" 100 ∷ [];
}

runs_one : play plain reserved_one run_one ≡ accepted_one
unfolding program
runs_one = refl

ran_one : Spent "wb_1" accepted_one
unfolding program
ran_one = record {
  batch = record (batch "wb_1" (key_a ∷ []) 100 WakeState.accepted) {
    run_id = some "run";
    updated_at = 120;
  };
  found = refl;
  spent = refl;
}

held_one : held key_a "wb_1" accepted_one ≡ true
unfolding program
held_one = refl

abbrev give_up : List Op
give_up = Op.failure 130 "wb_1" ∷ Op.giving_back 131 "wb_1" "s" ∷ []

abbrev two : WakeDb
two = record {
  batches =
      record (batch "wb_1" (key_a ∷ []) 100 WakeState.accepted) {
        run_id = some "run";
        updated_at = 120;
      }
      ∷ batch "wb_2" (key_b ∷ []) 200 WakeState.reserved
      ∷ [];
  consumption = row_for key_a "wb_1" 100 ∷ row_for key_b "wb_2" 200 ∷ [];
}

admits_two :
    admit core 200 (play plain accepted_one give_up) "s" (key_a ∷ key_b ∷ []) "wb_2" none
    ≡ ok (
      Reply.admitted "wb_2"
          (claim_of key_b ∷ [])
          []
          ((key_a, Reason.already_consumed (some "wb_1")) ∷ []),
      two,
    )
unfolding program
admits_two = refl

consumed_once_example : exists (claim_is key_a) (claim_of key_b ∷ []) ≡ false
consumed_once_example =
    consumed_once plain key_a "wb_1" accepted_one two give_up core 200 "s" (key_a ∷ key_b ∷ [])
      "wb_2" "wb_2" none (claim_of key_b ∷ []) []
      ((key_a, Reason.already_consumed (some "wb_1")) ∷ []) ran_one held_one admits_two
