-- ===== src/Retention/Tests.antt =====
-- compat/ledger_retention.py: a sweep of a small wake ledger.
use hermes_app.Base.{String, true, false, ◌≡◌, refl, none, some, [], ◌∷◌}
use hermes_app.Base.Table.{exists}
use hermes_app.Wake.Defs.{WakeState, ConsumptionState, WakeBatch, Consumption, WakeDb, key_is}
use hermes_app.Wake.Dispatch.{ledger_state_for}
use hermes_app.Retention.Defs.{
  archived_as, archive_clash, entry, archive, in_ids, is_ended, batch_expired, swept_batches,
  batch_ids, prune_wake,
}
use hermes_app.Retention.Archived.{prune_wake-archived}

program : Unit {0}
unfolding key_is ledger_state_for archived_as archive_clash entry archive in_ids is_ended
    batch_expired swept_batches batch_ids prune_wake
program = tt

abbrev batch : String → WakeState → WakeBatch
batch i state = record {
  batch_id = i;
  session_id = "s";
  state = state;
  reason = none;
  run_id = some "run";
  canonical_input = "";
  batch_keys = i ∷ [];
  created_at = 100;
  updated_at = 120;
  terminal_at = some 120;
  owner = none;
}

abbrev row_for : String → Consumption
row_for i = record {
  delivery_key = i;
  batch_id = some i;
  session_id = "s";
  message_id = some 1;
  report_order = 10;
  ignored = false;
  state = ConsumptionState.consumed;
  created_at = 100;
  updated_at = 100;
}

abbrev ledger : WakeDb
ledger = record {
  batches = batch "a" WakeState.terminal ∷ batch "b" WakeState.accepted ∷ [];
  consumption = row_for "a" ∷ row_for "b" ∷ [];
}

abbrev swept : WakeDb
swept = record { batches = batch "b" WakeState.accepted ∷ []; consumption = row_for "b" ∷ [] }

sweeps : (prune_wake 200 9000000 ledger []).1.0 ≡ swept
unfolding program
sweeps = refl

-- The sweep forgets the verdict on the report.
forgets : ledger_state_for (prune_wake 200 9000000 ledger []).1.0 "a" ≡ none
unfolding program
forgets = refl

held_before : exists (key_is "a") ledger.consumption ≡ true
unfolding program
held_before = refl

gone_after : exists (key_is "a") (prune_wake 200 9000000 ledger []).1.0.consumption ≡ false
unfolding program
gone_after = refl

prune_wake-archived_example :
    exists (archived_as "wake_consumption" "a") (prune_wake 200 9000000 ledger []).1.1 ≡ true
prune_wake-archived_example = prune_wake-archived 200 9000000 ledger [] "a" held_before gone_after
