-- ===== src/Cron/Tests.antt =====
-- compat/cron_delivery_store.py: the bridge on small runs, and the theorems at inputs that meet
-- their hypotheses.
use hermes_app.Base.{String, true, false, ◌≡◌, refl, none, some, Option, List, [], ◌∷◌, ok}
use hermes_app.Cron.Defs.{
  Status, Identity, Receipt, Bridge, empty_bridge, Outcome, pending_is, receipt_is, pending_clash,
  receipt_clash, merged, put_receipt, new_receipt, tag_failed,
}
use hermes_app.Cron.Deliver.{
  World, Reply, delivery_key, report_digest, blank, identity_error, text_of, contains,
  content_error, spooled, postponed, settle, already, row_of, deliver_report, report_of,
  deliver_content, deliver_identity, deliver,
}
use hermes_app.Cron.Drain.{
  Op, due, backoff, report_in, retried, retry_or_close, drain_outcome, drain_row, drain_rows,
  drain_home, step, play,
}
use hermes_app.Cron.Final.{delivered_in, play-delivered, Retryable, play-Retryable}

program : Unit {0}
unfolding pending_is receipt_is pending_clash receipt_clash merged put_receipt new_receipt
    tag_failed delivery_key report_digest blank identity_error text_of contains content_error
    spooled postponed settle already row_of deliver_report report_of deliver_content
    deliver_identity deliver due backoff report_in retried retry_or_close drain_outcome drain_row
    drain_rows drain_home step play
program = tt

-- A world in which every attempt ends alike.
abbrev world : Outcome → World
world o = record {
  bindings_ready = true;
  hexdigest = λ s. s;
  strip = λ s. s;
  attempt = λ _ _ _ _ _. o;
  registers = λ _. true;
}

abbrev job : Identity
job = record { job_id = some "j"; execution_id = some "e" }

abbrev key : String
key = "h|j|e|s"

abbrev receipt : Status → Option String → Receipt
receipt status problem = record {
  delivery_key = key;
  home = "h";
  execution_id = "e";
  status = status;
  row_id = some 7;
  error = problem;
  digest = some "text";
  session_id = "s";
  created_at = 100;
  updated_at = 100;
}

abbrev arrived : Bridge
arrived = record { pending = []; receipts = receipt Status.delivered none ∷ [] }

delivers_one :
    deliver (world (Outcome.fresh 7)) 100 "h" "s" (some job) "text" false empty_bridge
    ≡ ok (Reply.attempted (Outcome.fresh 7), arrived)
unfolding program
delivers_one = refl

refuses_media :
    deliver (world (Outcome.fresh 7)) 100 "h" "s" (some job) "see MEDIA:x" false empty_bridge
    ≡ ok (Reply.error "media_unsupported", empty_bridge)
unfolding program
refuses_media = refl

delivered_one : delivered_in key arrived.receipts ≡ true
unfolding program
delivered_one = refl

-- The same execution with another text is refused as a conflict, and annotates the receipt.
abbrev conflict : List Op
conflict =
    Op.delivering (world (Outcome.refused "delivery_conflict")) 200 "h" "s" (some job) "other" false
    ∷ []

annotates : play arrived conflict ≡ record {
  pending = [];
  receipts = record (receipt Status.delivered (some "delivery_conflict")) { updated_at = 200 } ∷ [];
}
unfolding program
annotates = refl

play-delivered_example : delivered_in key (play arrived conflict).receipts ≡ true
play-delivered_example = play-delivered key arrived conflict delivered_one

abbrev outage : List Op
outage =
    Op.delivering (world (Outcome.busy "db_busy")) 100 "h" "s" (some job) "text" false
    ∷ Op.draining (world (Outcome.busy "db_busy")) 130 131
    ∷ []

play-Retryable_example : Retryable (play empty_bridge outage).pending
play-Retryable_example = play-Retryable outage
