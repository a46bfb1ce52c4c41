-- ===== src/Notify/Events.antt =====
-- compat/notification_store.py: `event_id_for`, `record_event`, `events_after`, `head_seq`,
-- `get_event`, `mark_read`, `is_read`. `hexdigest` is the hex form of SHA-256; `now` is the clock's
-- reading, taken before the transaction.
use Prim.Native.String.{◌++◌ as cat, slice}
use hermes_app.Base.{
  ℕ, ◌+◌, ◌-◌, String, Bool, true, false, Option, none, some, List, [], ◌∷◌, ◌++◌, map, max, ◌==◌,
  ◌&&◌, if◌then◌else◌, Result, ok, ◌>>=◌, coalesce, ltb, take, length,
}
use hermes_app.Base.Table.{select, find, exists, count, update, insert, order_by}
use hermes_app.Notify.Defs.{
  Event, ReadEvent, NotifyDb, event_is, owned_event, read_of, event_clash, read_clash,
}

-- `run_id or ''`
unfoldable pub text_or_empty : Option String → String
text_or_empty none = ""
text_or_empty (some s) = s

unfoldable pub event_id_for : (String → String) → String → Option String → String → String → String
event_id_for hexdigest o r kind source =
    slice
      (hexdigest (cat o (cat "\0" (cat (text_or_empty r) (cat "\0" (cat kind (cat "\0" source)))))))
      0 32

-- `_next_seq`: the number to use; the writes store the one after it.
unfoldable pub seq_now : NotifyDb → ℕ
seq_now db = elim db.next_seq [ none ↦ 1 | some n ↦ n ]

pub record EventRequest : Type 0 where
  pub owner_scope : String
  pub run_id : Option String
  pub sid : Option String
  pub kind : String
  pub source_id : String
  pub payload : String

unfoldable pub new_event : (String → String) → ℕ → EventRequest → ℕ → Event
new_event hexdigest now q seq = record {
  event_id = event_id_for hexdigest q.owner_scope q.run_id q.kind q.source_id;
  owner_scope = q.owner_scope;
  run_id = q.run_id;
  sid = q.sid;
  kind = q.kind;
  source_id = q.source_id;
  created_seq = seq;
  change_seq = seq;
  payload = q.payload;
  created_at = now;
  read_at = none;
}

-- `record_event`
unfoldable pub record_event :
    (String → String) → ℕ → NotifyDb → EventRequest → Result ((String × Bool) × NotifyDb)
record_event hexdigest now db q =
    let event_id = event_id_for hexdigest q.owner_scope q.run_id q.kind q.source_id in
    if exists (event_is event_id) db.events then ok ((event_id, false), db) else (do
      events ← insert event_clash (new_event hexdigest now q (seq_now db)) db.events
      ok ((event_id, true), record db { events = events; next_seq = some (seq_now db + 1) }))

-- `_row_to_event`: the row with the number of its readers.
unfoldable pub read_by : NotifyDb → Event → ℕ
read_by db e = count (read_of e.event_id) db.read_events

-- The SELECT of `events_after`: one row more than the page.
unfoldable pub changed_after : NotifyDb → String → ℕ → ℕ → List Event
changed_after db o after limit = take (limit + 1) (
    order_by (λ e. e.change_seq)
      (select (λ e. e.owner_scope == o && ltb after e.change_seq) db.events))

-- `max([...], default=after_seq)`, where every number is above `after_seq`.
unfoldable pub max_change : ℕ → List Event → ℕ
max_change after [] = after
max_change after (e ∷ es) = max e.change_seq (max_change after es)

-- `events_after`: the page with the readers, whether there is more, and the next cursor.
unfoldable pub events_after : NotifyDb → String → ℕ → ℕ → List (Event × ℕ) × Bool × ℕ
events_after db o after limit =
    let rows = changed_after db o after limit in
    (
      map (λ e. (e, read_by db e)) (take limit rows),
      ltb limit (length rows),
      max_change after (take limit rows),
    )

unfoldable pub head_seq : NotifyDb → ℕ
head_seq db = elim db.next_seq [ none ↦ 0 | some n ↦ n - 1 ]

unfoldable pub get_event : NotifyDb → String → String → Option (Event × ℕ)
get_event db o i = elim (find (owned_event o i) db.events) [
  | none ↦ none
  | some e ↦ some (e, read_by db e)
]

unfoldable pub is_read : NotifyDb → String → Bool
is_read db i = exists (read_of i) db.read_events

unfoldable pub new_read : ℕ → String → String → ℕ → ReadEvent
new_read now i reader seq = record { event_id = i; reader = reader; ack_seq = seq; acked_at = now }

-- The UPDATE of `mark_read`.
unfoldable pub stamped : ℕ → ℕ → Event → Event
stamped now seq e = record e { read_at = coalesce e.read_at (some now); change_seq = seq }

unfoldable pub mark_found : ℕ → NotifyDb → String → String → Option Event → Option String × NotifyDb
mark_found now db i reader none = (none, db)
mark_found now db i reader (some e) = (
  some i,
  if exists (read_clash (new_read now i reader e.created_seq)) db.read_events
      then db
      else record db {
        read_events = db.read_events ++ (new_read now i reader e.created_seq ∷ []);
        events = update (event_is i) (stamped now (seq_now db)) db.events;
        next_seq = some (seq_now db + 1);
      },
)

-- `mark_read`: none if the event is not the owner's. Only a new acknowledgement stamps the event.
unfoldable pub mark_read : ℕ → NotifyDb → String → String → String → Option String × NotifyDb
mark_read now db o i reader = mark_found now db i reader (find (owned_event o i) db.events)
