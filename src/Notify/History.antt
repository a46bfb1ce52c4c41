-- ===== src/Notify/History.antt =====
-- compat/notification_store.py: any sequence of the ledger's writes. A write that raises is rolled
-- back.
use hermes_app.Base.{ℕ, String, Option, List, [], ◌∷◌, committed}
use hermes_app.Notify.Defs.{DeliveryState, NotifyDb}
use hermes_app.Notify.Events.{EventRequest, record_event, mark_read}
use hermes_app.Notify.Deliveries.{
  Report, claim_delivery, new_delivery, queue_delivery, note_delivery,
}

pub data Op : Type 0 where
  announce : ℕ → EventRequest → Op
  acknowledge : ℕ → String → String → String → Op
  claim : ℕ → String → String → String → String → Option String → Option String → Op
  add : ℕ → String → String → String → String → DeliveryState → Op
  queue : ℕ → String → String → String → String → Op
  note : ℕ → Report → Op

module _ (hexdigest : String → String) where
  unfoldable pub step : NotifyDb → Op → NotifyDb
  step db (Op.announce now q) = committed db (record_event hexdigest now db q)
  step db (Op.acknowledge now o i reader) = (mark_read now db o i reader).1
  step db (Op.claim now e p c i device token) =
      committed db (claim_delivery now db e p c i device token)
  step db (Op.add now e p c i state) = new_delivery now db e p c i state
  step db (Op.queue now e p c i) = committed db (queue_delivery now db e p c i)
  step db (Op.note now r) = (note_delivery now db r).1

  unfoldable pub play : NotifyDb → List Op → NotifyDb
  play db [] = db
  play db (op ∷ ops) = play (step db op) ops

  -- What every write keeps holds after any writes.
  pub play-keeps {ℓ} :
      (P : NotifyDb → Type ℓ)
      → ((db : NotifyDb) (op : Op) → P db → P (step db op))
      → (db : NotifyDb) (ops : List Op) → P db
      → P (play db ops)
  unfolding play
  play-keeps P keeps db [] h = h
  play-keeps P keeps db (op ∷ ops) h = play-keeps P keeps (step db op) ops (keeps db op h)
