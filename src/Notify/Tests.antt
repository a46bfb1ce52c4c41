-- ===== src/Notify/Tests.antt =====
-- compat/notification_store.py: the ledger on small runs, and the theorems at inputs that meet their
-- hypotheses. The digest of the tests is the text itself.
use hermes_app.Base.{
  ℕ, ◌<◌, ◌≤◌, String, true, false, ◌≡◌, ◌≢◌, refl, Option, none, some, List, [], ◌∷◌, ok, arith,
}
use hermes_app.Base.Table.{find, count, exists}
use hermes_app.Notify.Defs.{
  DeliveryState, Event, Delivery, NotifyDb, empty_db, event_is, owned_event, delivery_at,
  delivery_is, read_of, event_clash, delivery_clash, read_clash,
}
use hermes_app.Notify.Events.{
  EventRequest, text_or_empty, event_id_for, seq_now, new_event, record_event, read_by,
  changed_after, max_change, events_after, head_seq, get_event, is_read, new_read, stamped,
  mark_found, mark_read,
}
use hermes_app.Notify.Deliveries.{
  ClaimVerdict, Report, new_row, claim_row, claim_found, claim_delivery, show_token_for,
  new_delivery, queue_found, queue_delivery, agrees, owner_agrees, token_agrees, report_allowed,
  noted, note_found, note_delivery, delivery_state, sent_phases,
}
use hermes_app.Notify.History.{Op, step, play}
use hermes_app.Notify.Feed.{IsSequenced, play-IsSequenced}
use hermes_app.Notify.Observed.{read_on, mark_read-observed}
use hermes_app.Notify.Once.{record_event-once}
use hermes_app.Notify.Claims.{claimed_once}
use hermes_app.Notify.Reports.{Decided, note_delivery-Decided}

program : Unit {0}
unfolding event_is owned_event delivery_at delivery_is read_of event_clash delivery_clash read_clash
    text_or_empty event_id_for seq_now new_event record_event read_by changed_after max_change
    events_after head_seq get_event is_read new_read stamped mark_found mark_read new_row claim_row
    claim_found claim_delivery show_token_for new_delivery queue_found queue_delivery agrees
    owner_agrees token_agrees report_allowed noted note_found note_delivery delivery_state
    sent_phases step play
program = tt

abbrev plain : String → String
plain s = s

abbrev finish : EventRequest
finish = record {
  owner_scope = "o";
  run_id = some "r";
  sid = none;
  kind = "run.finished";
  source_id = "s";
  payload = "{}";
}

abbrev finished_id : String
finished_id = "o\0r\0run.finished\0s"

abbrev finished : Event
finished = record {
  event_id = finished_id;
  owner_scope = "o";
  run_id = some "r";
  sid = none;
  kind = "run.finished";
  source_id = "s";
  created_seq = 1;
  change_seq = 1;
  payload = "{}";
  created_at = 5;
  read_at = none;
}

abbrev one : NotifyDb
one = record { events = finished ∷ []; deliveries = []; read_events = []; next_seq = some 2 }

records_one : record_event plain 5 empty_db finish ≡ ok ((finished_id, true), one)
unfolding program
records_one = refl

abbrev shown_row : Delivery
shown_row = record {
  delivery_id = "d";
  event_id = finished_id;
  phase = "done";
  channel = "browser";
  state = DeliveryState.claimed;
  attempt = 0;
  claimed_by = some "phone";
  show_token = some "t";
  updated_at = 6;
}

abbrev claimed : NotifyDb
claimed = record one { deliveries = shown_row ∷ [] }

claims_one :
    claim_delivery 6 one finished_id "done" "browser" "d" (some "phone") (some "t")
    ≡ ok ((ClaimVerdict.claimed, "d"), claimed)
unfolding program
claims_one = refl

abbrev shown : Option String → Report
shown token = record {
  delivery_id = "d";
  outcome = DeliveryState.shown;
  channel = some "browser";
  event_id = none;
  owner_scope = some "o";
  device_id = some "phone";
  show_token = token;
}

abbrev after_shown : NotifyDb
after_shown = record claimed {
  deliveries = record shown_row { state = DeliveryState.shown; attempt = 1; updated_at = 7 } ∷ [];
}

reports_one : note_delivery 7 claimed (shown (some "t")) ≡ (some DeliveryState.claimed, after_shown)
unfolding program
reports_one = refl

refuses_guess : note_delivery 7 claimed (shown (some "x")) ≡ (none, claimed)
unfolding program
refuses_guess = refl

found_event : find (owned_event "o" finished_id) one.events ≡ some finished
unfolding program
found_event = refl

unread : exists (read_clash (new_read 9 finished_id "phone" 1)) one.read_events ≡ false
unfolding program
unread = refl

head_below : 1 < seq_now one
unfolding program
head_below = omega arith

abbrev later_ops : List Op
later_ops = Op.note 7 (shown (some "t")) ∷ Op.acknowledge 8 "o" finished_id "phone" ∷ []

play-IsSequenced_example : IsSequenced (play plain empty_db (Op.announce 5 finish ∷ later_ops))
play-IsSequenced_example = play-IsSequenced plain (Op.announce 5 finish ∷ later_ops)

one-IsSequenced : IsSequenced one
unfolding program
one-IsSequenced = (omega arith, tt)

-- A device that has read everything reads the event again, on pages of one row.
mark_read-observed_example :
    1
    ≤ count
        (λ (row : Event × ℕ). event_is finished_id row.0)
        (read_on 1 (mark_read 9 one "o" finished_id "phone").1 "o" 1 1)
unfolding program
mark_read-observed_example =
    mark_read-observed 9 one "o" finished_id "phone" 1 1 1 finished one-IsSequenced found_event
      unread head_below (omega arith) (omega arith)

record_event-once_example :
    record_event plain 9
      (play plain one later_ops)
      (record finish { sid = some "sid"; payload = "{1}" })
    ≡ ok ((finished_id, false), play plain one later_ops)
record_event-once_example =
    record_event-once plain 5 9 empty_db one finish finished_id true later_ops (some "sid") "{1}"
      records_one

claimed_once_example :
    claim_delivery 9
      (play plain claimed later_ops)
      finished_id
      "done"
      "browser"
      "d2"
      (some "tablet")
      (some "t2")
    ≢ ok ((ClaimVerdict.claimed, "d2"), claimed)
claimed_once_example =
    claimed_once plain 6 9 one claimed claimed finished_id "done" "browser" "d" "d" "d2" "d2"
      (some "phone") (some "t") (some "tablet") (some "t2") later_ops claims_one

note_delivery-Decided_example : Decided 7 claimed (shown (some "t"))
note_delivery-Decided_example = note_delivery-Decided 7 claimed (shown (some "t"))
