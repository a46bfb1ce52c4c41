-- ===== src/Notify/Feed.antt =====
-- compat/notification_store.py: the change numbers that the devices' cursors follow.
use hermes_app.Base.{
  ℕ, ◌+◌, ◌<◌, String, Option, none, some, List, [], ◌∷◌, ◌++◌, arith, committed, committed-bind,
  committed-if, if-keeps, All, All-append, All-map,
}
use hermes_app.Base.Table.{exists, update, insert, insert-ok, All-update}
use hermes_app.Notify.Defs.{Event, Delivery, NotifyDb, empty_db, event_is, event_clash, read_clash}
use hermes_app.Notify.Events.{
  EventRequest, event_id_for, new_event, seq_now, record_event, new_read, stamped, mark_found,
}
use hermes_app.Notify.Untouched.{step-keeps}
use hermes_app.Notify.History.{Op, play, play-keeps}

-- Every change number is below the next one.
abbrev pub IsSequenced : NotifyDb → Type 0
IsSequenced db = All (λ e. e.change_seq < seq_now db) db.events

-- What is below the next number is below the one after it.
raised_bound :
    (n : ℕ) (es : List Event) → All (λ e. e.change_seq < n) es → All (λ e. e.change_seq < n + 1) es
raised_bound n es h =
    All-map (λ (e : Event). e.change_seq < n) (λ (e : Event). e.change_seq < n + 1) es
      (λ e below. omega arith) h

recorded-IsSequenced :
    (hexdigest : String → String) (now : ℕ) (db : NotifyDb) (q : EventRequest)
    → IsSequenced db
    → All
        (λ e. e.change_seq < seq_now db + 1)
        (db.events ++ (new_event hexdigest now q (seq_now db) ∷ []))
unfolding new_event
recorded-IsSequenced hexdigest now db q h =
    All-append (λ (e : Event). e.change_seq < seq_now db + 1) db.events _
      (raised_bound (seq_now db) db.events h) (omega arith, tt)

restamped-IsSequenced :
    (now : ℕ) (db : NotifyDb) (i : String)
    → IsSequenced db
    → All
        (λ e. e.change_seq < seq_now db + 1)
        (update (event_is i) (stamped now (seq_now db)) db.events)
unfolding stamped
restamped-IsSequenced now db i h =
    All-update (λ (e : Event). e.change_seq < seq_now db + 1) (event_is i)
      (stamped now (seq_now db)) db.events (λ x _ _. omega arith)
      (raised_bound (seq_now db) db.events h)

record_event-IsSequenced :
    (hexdigest : String → String) (now : ℕ) (db : NotifyDb) (q : EventRequest)
    → IsSequenced db
    → IsSequenced (committed db (record_event hexdigest now db q))
unfolding record_event seq_now
record_event-IsSequenced hexdigest now db q h =
    committed-if IsSequenced db
      (exists (event_is (event_id_for hexdigest q.owner_scope q.run_id q.kind q.source_id))
        db.events)
      _ _ (λ _. h)
      λ _.
        committed-bind IsSequenced db
          (insert event_clash (new_event hexdigest now q (seq_now db)) db.events) _ h
          λ events made.
            rw (insert-ok event_clash _ db.events events made).0
              (recorded-IsSequenced hexdigest now db q h)

mark_found-IsSequenced :
    (now : ℕ) (db : NotifyDb) (i reader : String) (found : Option Event)
    → IsSequenced db
    → IsSequenced (mark_found now db i reader found).1
unfolding mark_found seq_now
mark_found-IsSequenced now db i reader none h = h
mark_found-IsSequenced now db i reader (some e) h =
    if-keeps IsSequenced (exists (read_clash (new_read now i reader e.created_seq)) db.read_events)
      _ _ (λ _. h) (λ _. restamped-IsSequenced now db i h)

other-IsSequenced :
    (db : NotifyDb) (rows : List Delivery)
    → IsSequenced db
    → IsSequenced (record db { deliveries = rows })
unfolding seq_now
other-IsSequenced db rows h = h

-- Whatever operations of the store run from an empty ledger, the number that the next event or acknowledgement takes
-- is above every number in the ledger.
pub play-IsSequenced :
    (hexdigest : String → String) (ops : List Op) → IsSequenced (play hexdigest empty_db ops)
play-IsSequenced hexdigest ops =
    play-keeps hexdigest IsSequenced
      (step-keeps IsSequenced other-IsSequenced hexdigest (record_event-IsSequenced hexdigest)
        mark_found-IsSequenced)
      empty_db ops tt
