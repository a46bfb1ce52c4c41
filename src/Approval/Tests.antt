-- ===== src/Approval/Tests.antt =====
-- compat/approval_inbox.py: small runs of the registry, and the theorems at inputs that meet their
-- hypotheses.
use hermes_app.Base.{
  true, false, ◌≡◌, ◌≤◌, refl, Option, none, some, List, [], ◌∷◌, run_all, length, All,
}
use hermes_app.Approval.Defs.{
  QueueEntry, World, max_pending, max_runs, choices_from_data, keys_of, entry_from_data,
  payload_for, is_stale, has_request, listed,
}
use hermes_app.Approval.Inbox.{
  counted, hooked, dispatched, Inbox, empty_inbox, bucket_at, note, drop_oldest, evict, new_bucket,
  touched, with_bucket, bucket, entry_at, resolved_as, settle_in, settle_effects, settle_entry,
  settle, settle_reason, settle_hook, withdrawn, settled_elsewhere, reconcile, pending_in,
  snapshot_of, swept, snapshot, settle_answered, bumped, after_responded, settle_each, settle_run,
  is_idle, prune,
}
use hermes_app.Approval.Capture.{
  by_id, queued, put_entry, with_entry, accept, dispatch_with, register, register_after,
  capture_found, capture_queued, capture_after, capture, Op, capturing, viewing, ending, step,
}
use hermes_app.Approval.Answers.{
  Body, Texts, submit, aliased, chosen, is_stale_epoch, answer_exact, answer_only, answer_queue,
  classify_answer,
}
use hermes_app.Approval.Runs.{registry_bounded}
use hermes_app.Approval.Final.{HasOutcome, settled_once}
use hermes_app.Approval.Settled.{LiveIn, pending_live}
use hermes_app.Approval.Contract.{Contract}
use hermes_app.Approval.Checked.{classify_answer-Contract}

program : Unit {0}
unfolding choices_from_data keys_of entry_from_data payload_for is_stale has_request listed
    bucket_at note drop_oldest evict new_bucket touched with_bucket bucket entry_at resolved_as
    settle_in settle_effects settle_entry settle settle_reason settle_hook withdrawn
    settled_elsewhere reconcile pending_in snapshot_of swept snapshot settle_answered bumped
    after_responded settle_each settle_run is_idle prune queued put_entry with_entry accept
    dispatch_with register register_after capture_found capture_queued capture_after capture step
    aliased chosen is_stale_epoch answer_exact answer_only answer_queue classify_answer
program = tt

abbrev rm : QueueEntry
rm = record {
  request_id = "q";
  command = "rm";
  description = "";
  pattern_key = "rm";
  pattern_keys = [];
  smart_denied = false;
  allow_session = none;
  allow_permanent = some false;
}

abbrev plain : World
plain = record {
  redact_command = λ t. t;
  redact_text = λ t. t;
  session_key = "k";
  core_timeout = 300;
  wall = 1000;
  mono = 10;
  dispatch = some (λ e. true);
}

abbrev queue : Option (List QueueEntry)
queue = some (rm ∷ [])

abbrev captured : Inbox
captured = run_all step (empty_inbox none) (capturing plain 1 "r" none (by_id "q") queue ∷ [])

captured_effects : captured.effects ≡ hooked "q" ∷ counted "registry_accepted" ∷ dispatched "q" ∷ []
unfolding program
captured_effects = refl

abbrev settled : Inbox
settled = (settle 20 1 "r" "q" "answered" captured).1

settles : settle 20 1 "r" "q" "answered" captured ≡ (true, settled)
unfolding program
settles = refl

abbrev later_ops : List Op
later_ops =
    viewing 30 1 "r" ("q" ∷ [])
    ∷ capturing plain 1 "r" none (by_id "other") queue
    ∷ ending 40 1 "r" "withdrawn"
    ∷ []

registry_bounded_example :
    (length (run_all step (empty_inbox none) later_ops).by_run ≤ max_runs)
    × All (λ b. length b.entries ≤ max_pending) (run_all step (empty_inbox none) later_ops).by_run
registry_bounded_example = registry_bounded none later_ops

settled_once_example :
    HasOutcome "answered" (entry_at 1 "r" "q" (run_all step settled later_ops))
    × (settle 50 1 "r" "q" "timeout" (run_all step settled later_ops)
        ≡ (false, run_all step settled later_ops))
settled_once_example =
    settled_once 20 50 1 "r" "q" "answered" "timeout" captured settled later_ops settles
      (tt, (refl, (tt, tt)))

pending_live_example :
    LiveIn 1 "r" [] (snapshot 30 1 "r" [] captured).1.by_run
    × LiveIn 1 "r" [] (after_responded 30 1 "r" "q" "once" [] captured).1.by_run
pending_live_example = pending_live 30 1 "r" "q" "once" [] captured

abbrev texts : Texts
texts = record { strip = λ t. t; lower = λ t. t }

abbrev approve : Body
approve = record {
  choice = "approve";
  request_id = "q";
  server_epoch = some "e";
  resolve_all = false;
}

submits : classify_answer texts (some "e") none approve (rm ∷ []) ≡ submit "q" "once" false
unfolding program
submits = refl

classify_answer-Contract_example :
    Contract texts
      (some "e")
      none
      approve
      (rm ∷ [])
      (classify_answer texts (some "e") none approve (rm ∷ []))
classify_answer-Contract_example = classify_answer-Contract texts (some "e") none approve (rm ∷ [])
