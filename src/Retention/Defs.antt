-- ===== src/Retention/Defs.antt =====
-- compat/ledger_retention.py: `_archive`, `_children` and the three kinds of `_prune`. The archive
-- of a database is a list; the LIMIT takes the first rows of a table.
use Prim.Native.String.{◌++◌ as cat}
use hermes_app.Base.{
  ℕ, ◌*◌, String, Bool, true, false, not, ◌&&◌, Option, none, some, List, [], ◌∷◌, map, ◌==◌, ltb,
  take, length,
}
use hermes_app.Base.Table.{select, exists, delete, insert_or_ignore}
use hermes_app.Notify.Defs as N
use hermes_app.Wake.Defs as W
use hermes_app.Cron.Defs as C

abbrev pub ttl_seconds : ℕ
ttl_seconds = 90 * 86400

abbrev pub batch_limit : ℕ
batch_limit = 100

-- The row that a payload encodes.
pub data Row : Type 0 where
  event : N.Event → Row
  delivery : N.Delivery → Row
  acknowledgement : N.ReadEvent → Row
  batch : W.WakeBatch → Row
  consumption : W.Consumption → Row
  receipt : C.Receipt → Row

pub record Archived : Type 0 where
  pub source_table : String
  pub record_key : String
  pub archived_at : ℕ
  pub payload : Row

unfoldable pub archived_as : String → String → Archived → Bool
archived_as table key a = a.source_table == table && a.record_key == key

-- PRIMARY KEY(source_table, record_key)
unfoldable pub archive_clash : Archived → Archived → Bool
archive_clash a b = archived_as a.source_table a.record_key b

unfoldable pub entry : String → ℕ → String → Row → Archived
entry table now key row = record {
  source_table = table;
  record_key = key;
  archived_at = now;
  payload = row;
}

-- `_archive`
unfoldable pub archive {ℓ} :
    {A : Type ℓ} → String → (A → String) → (A → Row) → ℕ → List A → List Archived → List Archived
archive table key wrap now [] kept = kept
archive table key wrap now (x ∷ rest) kept =
    archive table key wrap now rest
      (insert_or_ignore archive_clash (entry table now (key x) (wrap x)) kept)

-- `parent IN (...)`; NULL is in no list.
unfoldable pub in_ids : List String → Option String → Bool
in_ids ids none = false
in_ids ids (some i) = exists (λ j. j == i) ids

-- The states that keep an event from the archive.
unfoldable pub unsettled : N.DeliveryState → Bool
unsettled N.DeliveryState.shown = false
unsettled N.DeliveryState.sent = false
unsettled N.DeliveryState.failed = false
unsettled N.DeliveryState.unknown = false
unsettled _ = true

unfoldable pub event_expired : ℕ → N.NotifyDb → N.Event → Bool
event_expired cutoff db e =
    elim e.read_at [ none ↦ false | some t ↦ ltb t cutoff ]
    && not
        (exists (λ (d : N.Delivery). d.event_id == e.event_id && unsettled d.state) db.deliveries)

-- `_prune` of kind "notification".
unfoldable pub prune_notification :
    ℕ → ℕ → N.NotifyDb → List Archived → ℕ × (N.NotifyDb × List Archived)
prune_notification cutoff now db kept =
    let rows = take batch_limit (select (event_expired cutoff db) db.events) in
    let ids = map (λ (e : N.Event). e.event_id) rows in
    let of_delivery = λ (d : N.Delivery). in_ids ids (some d.event_id) in
    let of_read = λ (r : N.ReadEvent). in_ids ids (some r.event_id) in
    (
      length rows,
      (
        record db {
          deliveries = delete of_delivery db.deliveries;
          read_events = delete of_read db.read_events;
          events = delete (λ (e : N.Event). in_ids ids (some e.event_id)) db.events;
        },
        archive "events" (λ (e : N.Event). e.event_id) Row.event now rows
            (archive "read_events" (λ (r : N.ReadEvent). cat r.event_id (cat ":" r.reader))
              Row.acknowledgement now (select of_read db.read_events)
              (archive "deliveries" (λ (d : N.Delivery). d.delivery_id) Row.delivery now
                (select of_delivery db.deliveries) kept)),
      ),
    )

-- The states of a batch that has ended.
unfoldable pub is_ended : W.WakeState → Bool
is_ended W.WakeState.terminal = true
is_ended W.WakeState.uncertain_consumed = true
is_ended W.WakeState.released = true
is_ended _ = false

unfoldable pub batch_expired : ℕ → W.WakeBatch → Bool
batch_expired cutoff b =
    is_ended b.state && elim b.terminal_at [ none ↦ false | some t ↦ ltb t cutoff ]

-- The identifiers of the batches that a sweep takes.
unfoldable pub swept_batches : ℕ → W.WakeDb → List W.WakeBatch
swept_batches cutoff db = take batch_limit (select (batch_expired cutoff) db.batches)

unfoldable pub batch_ids : List W.WakeBatch → List String
batch_ids rows = map (λ (b : W.WakeBatch). b.batch_id) rows

-- `_prune` of kind "wake".
unfoldable pub prune_wake : ℕ → ℕ → W.WakeDb → List Archived → ℕ × (W.WakeDb × List Archived)
prune_wake cutoff now db kept =
    let rows = swept_batches cutoff db in
    (
      length rows,
      (
        record {
          consumption =
              delete (λ (c : W.Consumption). in_ids (batch_ids rows) c.batch_id) db.consumption;
          batches =
              delete (λ (b : W.WakeBatch). in_ids (batch_ids rows) (some b.batch_id)) db.batches;
        },
        archive "wake_batches" (λ (b : W.WakeBatch). b.batch_id) Row.batch now rows
            (archive "wake_consumption" (λ (c : W.Consumption). c.delivery_key) Row.consumption now
              (select (λ (c : W.Consumption). in_ids (batch_ids rows) c.batch_id) db.consumption)
              kept),
      ),
    )

unfoldable pub is_final : C.Status → Bool
is_final C.Status.queued = false
is_final _ = true

unfoldable pub receipt_expired : ℕ → C.Bridge → C.Receipt → Bool
receipt_expired cutoff db r =
    is_final r.status
    && (ltb r.updated_at cutoff
        && not (exists (λ (p : C.Pending). p.delivery_key == r.delivery_key) db.pending))

-- `_prune` of kind "cron".
unfoldable pub prune_cron : ℕ → ℕ → C.Bridge → List Archived → ℕ × (C.Bridge × List Archived)
prune_cron cutoff now db kept =
    let rows = take batch_limit (select (receipt_expired cutoff db) db.receipts) in
    let ids = map (λ (r : C.Receipt). r.delivery_key) rows in
    (
      length rows,
      (
        record db {
          receipts = delete (λ (r : C.Receipt). in_ids ids (some r.delivery_key)) db.receipts;
        },
        archive "receipts" (λ (r : C.Receipt). r.delivery_key) Row.receipt now rows kept,
      ),
    )
