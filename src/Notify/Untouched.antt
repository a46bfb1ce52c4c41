-- ===== src/Notify/Untouched.antt =====
-- compat/notification_store.py: the writes of the deliveries leave what is known of the events.
use hermes_app.Base.{
  ℕ, String, Option, none, some, List, inl, inr, committed, committed-bind, committed-if,
  Bool-cases,
}
use hermes_app.Base.Table.{insert}
use hermes_app.Notify.Defs.{
  DeliveryState, Event, Delivery, NotifyDb, delivery_clash, is_pending, is_report_outcome,
}
use hermes_app.Notify.Events.{EventRequest, record_event, mark_found, mark_read}
use hermes_app.Notify.Deliveries.{
  Report, new_row, report_allowed, claim_found, claim_delivery, new_delivery, queue_found,
  queue_delivery, note_found, note_delivery,
}
use hermes_app.Notify.History.{Op, step}

-- `P` speaks of a ledger whose deliveries do not matter.
module _ {ℓ} (P : NotifyDb → Type ℓ)
    (other : (db : NotifyDb) (rows : List Delivery)
      → P db
      → P (record db { deliveries = rows })) where
  claim_found-keeps :
      (now : ℕ) (db : NotifyDb) (e p c i : String) (device token : Option String)
      (found : Option Delivery)
      → P db
      → P (committed db (claim_found now db e p c i device token found))
  unfolding claim_found
  claim_found-keeps now db e p c i device token none h =
      committed-bind P db
        (insert delivery_clash (new_row now e p c i DeliveryState.claimed device token)
          db.deliveries)
        _ h (λ rows _. other db rows h)
  claim_found-keeps now db e p c i device token (some d) h =
      committed-if P db (is_pending d.state) _ _ (λ _. other db _ h) (λ _. h)

  queue_found-keeps :
      (now : ℕ) (db : NotifyDb) (e p c i : String) (found : Option Delivery)
      → P db
      → P (committed db (queue_found now db e p c i found))
  unfolding queue_found
  queue_found-keeps now db e p c i (some d) h = h
  queue_found-keeps now db e p c i none h =
      committed-bind P db
        (insert delivery_clash (new_row now e p c i DeliveryState.pending none none) db.deliveries)
        _ h (λ rows _. other db rows h)

  note_found-keeps :
      (now : ℕ) (db : NotifyDb) (r : Report) (found : Option Delivery)
      → P db
      → P (note_found now db r found).1
  unfolding note_found
  note_found-keeps now db r none h = h
  note_found-keeps now db r (some d) h = elim (Bool-cases (report_allowed db r d)) [
    | inl fine ↦ rw fine (other db _ h)
    | inr refused ↦ rw refused h
  ]

  note_delivery-keeps : (now : ℕ) (db : NotifyDb) (r : Report) → P db → P (note_delivery now db r).1
  unfolding note_delivery
  note_delivery-keeps now db r h = elim (Bool-cases (is_report_outcome r.outcome)) [
    | inl fine ↦ rw fine (note_found-keeps now db r _ h)
    | inr other' ↦ rw other' h
  ]

  -- It is enough that the writes of the events keep `P`.
  pub step-keeps :
      (hexdigest : String → String)
      → ((now : ℕ) (db : NotifyDb) (q : EventRequest)
          → P db
          → P (committed db (record_event hexdigest now db q)))
      → ((now : ℕ) (db : NotifyDb) (i reader : String) (found : Option Event)
          → P db
          → P (mark_found now db i reader found).1)
      → (db : NotifyDb) (op : Op) → P db
      → P (step hexdigest db op)
  unfolding step mark_read claim_delivery queue_delivery new_delivery
  step-keeps hexdigest recorded marked db (Op.announce now q) h = recorded now db q h
  step-keeps hexdigest recorded marked db (Op.acknowledge now o i reader) h =
      marked now db i reader _ h
  step-keeps hexdigest recorded marked db (Op.claim now e p c i device token) h =
      claim_found-keeps now db e p c i device token _ h
  step-keeps hexdigest recorded marked db (Op.add now e p c i state) h = other db _ h
  step-keeps hexdigest recorded marked db (Op.queue now e p c i) h =
      queue_found-keeps now db e p c i _ h
  step-keeps hexdigest recorded marked db (Op.note now r) h = note_delivery-keeps now db r h
