-- ===== src/Notify/Defs.antt =====
-- compat/notification_store.py: the tables `events`, `deliveries`, `read_events` and `seq`, the
-- outcomes, and the tests of the WHERE clauses.
use hermes_app.Base.{ℕ, String, Bool, true, false, ◌&&◌, Option, none, List, [], ◌==◌, ◌||◌}

-- The states of a delivery: those of OUTCOME_STATES.
pub data DeliveryState : Type 0 where
  pending queued claimed enqueued sent shown failed unknown : DeliveryState

-- REPORT_OUTCOMES: what a report may end a delivery in.
abbrev pub is_report_outcome : DeliveryState → Bool
is_report_outcome DeliveryState.shown = true
is_report_outcome DeliveryState.failed = true
is_report_outcome DeliveryState.unknown = true
is_report_outcome DeliveryState.enqueued = true
is_report_outcome DeliveryState.sent = true
is_report_outcome _ = false

abbrev pub is_pending : DeliveryState → Bool
is_pending DeliveryState.pending = true
is_pending _ = false

-- The payload is the JSON text that the caller's dictionary encodes to.
pub record Event : Type 0 where
  pub event_id : String
  pub owner_scope : String
  pub run_id : Option String
  pub sid : Option String
  pub kind : String
  pub source_id : String
  pub created_seq : ℕ
  pub change_seq : ℕ
  pub payload : String
  pub created_at : ℕ
  pub read_at : Option ℕ

pub record Delivery : Type 0 where
  pub delivery_id : String
  pub event_id : String
  pub phase : String
  pub channel : String
  pub state : DeliveryState
  pub attempt : ℕ
  pub claimed_by : Option String
  pub show_token : Option String
  pub updated_at : ℕ

pub record ReadEvent : Type 0 where
  pub event_id : String
  pub reader : String
  pub ack_seq : ℕ
  pub acked_at : ℕ

-- `next_seq` is the row 'events' of the table `seq`; none before the first event.
pub record NotifyDb : Type 0 where
  pub events : List Event
  pub deliveries : List Delivery
  pub read_events : List ReadEvent
  pub next_seq : Option ℕ

abbrev pub empty_db : NotifyDb
empty_db = record { events = []; deliveries = []; read_events = []; next_seq = none }

abbrev pub page_limit : ℕ
page_limit = 100

unfoldable pub event_is : String → Event → Bool
event_is i e = e.event_id == i

unfoldable pub owned_event : String → String → Event → Bool
owned_event o i e = e.owner_scope == o && e.event_id == i

-- WHERE event_id=? AND phase=? AND channel=?
unfoldable pub delivery_at : String → String → String → Delivery → Bool
delivery_at e p c d = d.event_id == e && d.phase == p && d.channel == c

unfoldable pub delivery_is : String → Delivery → Bool
delivery_is i d = d.delivery_id == i

unfoldable pub read_of : String → ReadEvent → Bool
read_of i r = r.event_id == i

unfoldable pub event_clash : Event → Event → Bool
event_clash a b = event_is a.event_id b

-- PRIMARY KEY(delivery_id), UNIQUE(event_id, phase, channel)
unfoldable pub delivery_clash : Delivery → Delivery → Bool
delivery_clash a b = delivery_is a.delivery_id b || delivery_at a.event_id a.phase a.channel b

unfoldable pub read_clash : ReadEvent → ReadEvent → Bool
read_clash a b = b.event_id == a.event_id && b.reader == a.reader
