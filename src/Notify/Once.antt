-- ===== src/Notify/Once.antt =====
-- compat/notification_store.py: `record_event` at a source that is already recorded.
use hermes_app.Base.{
  ℕ, ◌+◌, String, Bool, true, false, ◌≡◌, refl, Option, none, some, List, [], ◌∷◌, ◌++◌, inl, inr,
  arith, Result, ok, committed, committed-bind, committed-if, if-keeps, Bool-cases, eq_refl, sym,
  >>=-eq-ok,
}
use hermes_app.Base.Table.{exists, insert, insert-ok, exists-append, exists-update}
use hermes_app.Notify.Defs.{Event, NotifyDb, event_is, event_clash, read_clash}
use hermes_app.Notify.Events.{
  EventRequest, event_id_for, new_event, seq_now, record_event, new_read, stamped, mark_found,
}
use hermes_app.Notify.Untouched.{step-keeps}
use hermes_app.Notify.History.{Op, play, play-keeps}

-- The event with an identifier is in the ledger.
abbrev pub has_event : String → NotifyDb → Bool
has_event i db = exists (event_is i) db.events

record_event-has :
    (i : String) (hexdigest : String → String) (now : ℕ) (db : NotifyDb) (q : EventRequest)
    → has_event i db ≡ true
    → has_event i (committed db (record_event hexdigest now db q)) ≡ true
unfolding record_event
record_event-has i hexdigest now db q h =
    committed-if (λ (d : NotifyDb). has_event i d ≡ true) db
      (exists (event_is (event_id_for hexdigest q.owner_scope q.run_id q.kind q.source_id))
        db.events)
      _ _ (λ _. h)
      λ _.
        committed-bind (λ (d : NotifyDb). has_event i d ≡ true) db
          (insert event_clash (new_event hexdigest now q (seq_now db)) db.events) _ h
          λ events made.
            rw (insert-ok event_clash _ db.events events made).0 (rw exists-append (rw h refl))

mark_found-has :
    (i : String) (now : ℕ) (db : NotifyDb) (j reader : String) (found : Option Event)
    → has_event i db ≡ true
    → has_event i (mark_found now db j reader found).1 ≡ true
unfolding mark_found
mark_found-has i now db j reader none h = h
mark_found-has i now db j reader (some e) h =
    if-keeps (λ (d : NotifyDb). has_event i d ≡ true)
      (exists (read_clash (new_read now j reader e.created_seq)) db.read_events) _ _ (λ _. h)
      (λ _.
        rw
          (exists-update (event_is i) (event_is j) (stamped now (seq_now db)) db.events
            (λ x. unfold event_is stamped in refl))
          h)

appended-has :
    (hexdigest : String → String) (now : ℕ) (db : NotifyDb) (q : EventRequest)
    → exists
        (event_is (event_id_for hexdigest q.owner_scope q.run_id q.kind q.source_id))
        (db.events ++ (new_event hexdigest now q (seq_now db) ∷ []))
      ≡ true
unfolding event_is new_event
appended-has hexdigest now db q = rw (exists-append, eq_refl) (ground arith)

same_answer :
    (x y : String) (a c : Bool) (d d' : NotifyDb)
    → ◌≡◌ {A = Result ((String × Bool) × NotifyDb)} (ok ((x, a), d)) (ok ((y, c), d'))
    → (x ≡ y) × (d ≡ d')
same_answer x y a c d d' h = (cc, cc)

recorded-has :
    (hexdigest : String → String) (now : ℕ) (db db' : NotifyDb) (q : EventRequest) (i : String)
    (b : Bool)
    → record_event hexdigest now db q ≡ ok ((i, b), db')
    → (event_id_for hexdigest q.owner_scope q.run_id q.kind q.source_id ≡ i)
      × (has_event (event_id_for hexdigest q.owner_scope q.run_id q.kind q.source_id) db' ≡ true)
unfolding record_event
recorded-has hexdigest now db db' q i b h =
    elim (Bool-cases
      (has_event (event_id_for hexdigest q.owner_scope q.run_id q.kind q.source_id) db)) [
        | inl found ↦
            let k : ok
                  ((event_id_for hexdigest q.owner_scope q.run_id q.kind q.source_id, false), db)
                ≡ ok ((i, b), db') =
              rw found at h in
            let (named, same) = same_answer _ _ _ _ _ _ k in (named, rw (sym same) found)
        | inr fresh ↦
            let (events, made, last) : (events : List Event) × (insert event_clash
                    (new_event hexdigest now q (seq_now db)) db.events
                  ≡ ok events)
                × (ok (
                  (event_id_for hexdigest q.owner_scope q.run_id q.kind q.source_id, true),
                  record db { events = events; next_seq = some (seq_now db + 1) },
                )
                    ≡ ok ((i, b), db')) =
              >>=-eq-ok (insert event_clash (new_event hexdigest now q (seq_now db)) db.events) _
                (rw fresh at h) in
            let (named, same) = same_answer _ _ _ _ _ _ last in
            (
              named,
              rw (sym same) (
                  rw (insert-ok event_clash _ db.events events made).0
                    (appended-has hexdigest now db q)),
            )
      ]

-- Recording the same source again, after any operations of the store and with any session, payload
-- and clock, answers the first event's identifier, says that it is not new, and writes nothing.
pub record_event-once :
    (hexdigest : String → String) (now later : ℕ) (db db' : NotifyDb) (q : EventRequest)
    (i : String) (b : Bool) (ops : List Op) (sid : Option String) (payload : String)
    → record_event hexdigest now db q ≡ ok ((i, b), db')
    → record_event hexdigest later
        (play hexdigest db' ops)
        (record q { sid = sid; payload = payload })
      ≡ ok ((i, false), play hexdigest db' ops)
unfolding record_event
record_event-once hexdigest now later db db' q i b ops sid payload h =
    let (named, found) = recorded-has hexdigest now db db' q i b h in
    let there : has_event i db' ≡ true = rw named at found in
    let still : has_event i (play hexdigest db' ops) ≡ true =
      play-keeps hexdigest (λ d. has_event i d ≡ true)
        (step-keeps (λ d. has_event i d ≡ true) (λ d rows k. k) hexdigest
          (record_event-has i hexdigest) (mark_found-has i))
        db' ops there in
    rw (named, still) refl
