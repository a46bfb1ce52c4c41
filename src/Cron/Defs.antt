-- ===== src/Cron/Defs.antt =====
-- compat/cron_delivery_store.py: the tables `pending` and `receipts`, `_receipt` and the tag of
-- `_self_wake_intent`.
use hermes_app.Base.{
  ℕ, String, Bool, true, false, Option, some, List, [], ◌==◌, if◌then◌else◌, coalesce,
}
use hermes_app.Base.Table.{update, upsert}

pub data Status : Type 0 where
  delivered queued failed : Status

-- The identity of a delivery, of which a field is none where it is no text.
pub record Identity : Type 0 where
  pub job_id : Option String
  pub execution_id : Option String

pub record Pending : Type 0 where
  pub delivery_key : String
  pub home : String
  pub session_id : String
  pub identity : Identity
  pub content : String
  pub attempts : ℕ
  pub next_retry_at : ℕ
  pub created_at : ℕ
  pub updated_at : ℕ

pub record Receipt : Type 0 where
  pub delivery_key : String
  pub home : String
  pub execution_id : String
  pub status : Status
  pub row_id : Option ℕ
  pub error : Option String
  pub digest : Option String
  pub session_id : String
  pub created_at : ℕ
  pub updated_at : ℕ

pub record Bridge : Type 0 where
  pub pending : List Pending
  pub receipts : List Receipt

abbrev pub empty_bridge : Bridge
empty_bridge = record { pending = []; receipts = [] }

abbrev pub report_max_bytes : ℕ
report_max_bytes = 32768

abbrev pub drain_max_attempts : ℕ
drain_max_attempts = 24

abbrev pub drain_backoff_base : ℕ
drain_backoff_base = 30

abbrev pub drain_backoff_cap : ℕ
drain_backoff_cap = 900

-- What `_attempt` answers: the row of the message, or an error, permanent or not.
pub data Outcome : Type 0 where
  fresh dedup : ℕ → Outcome
  busy refused unreachable : String → Outcome

abbrev pub is_delivered : Status → Bool
is_delivered Status.delivered = true
is_delivered _ = false

unfoldable pub pending_is : String → Pending → Bool
pending_is k p = p.delivery_key == k

unfoldable pub receipt_is : String → Receipt → Bool
receipt_is k r = r.delivery_key == k

unfoldable pub pending_clash : Pending → Pending → Bool
pending_clash a b = pending_is a.delivery_key b

unfoldable pub receipt_clash : Receipt → Receipt → Bool
receipt_clash a b = receipt_is a.delivery_key b

-- The DO UPDATE of `_receipt`: a delivered receipt stays delivered.
unfoldable pub merged : Receipt → Receipt → Receipt
merged new old = record old {
  status = if is_delivered old.status then old.status else new.status;
  row_id = coalesce new.row_id old.row_id;
  error = new.error;
  digest = coalesce new.digest old.digest;
  updated_at = new.updated_at;
}

-- `_receipt`
unfoldable pub put_receipt : Receipt → List Receipt → List Receipt
put_receipt r rows = upsert receipt_clash (merged r) r rows

-- The report that a receipt is about.
pub record Report : Type 0 where
  pub key : String
  pub home : String
  pub execution_id : String
  pub session_id : String

unfoldable pub new_receipt :
    ℕ → Report → Status → Option ℕ → Option String → Option String → Receipt
new_receipt now r status row error digest = record {
  delivery_key = r.key;
  home = r.home;
  execution_id = r.execution_id;
  status = status;
  row_id = row;
  error = error;
  digest = digest;
  session_id = r.session_id;
  created_at = now;
  updated_at = now;
}

-- `_self_wake_intent`, as far as the receipts go: an intent that raises is tagged.
unfoldable pub tag_failed : ℕ → String → Bool → List Receipt → List Receipt
tag_failed now key registered rows =
    if registered
    then rows
    else update (receipt_is key)
        (λ r. record r { error = coalesce r.error (some "intent-failed"); updated_at = now }) rows
