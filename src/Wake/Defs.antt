-- ===== src/Wake/Defs.antt =====
-- compat/auto_wake_store.py: the tables `wake_batches` and `wake_consumption`, the limits of
-- compat/auto_wake.py, and what the ledger reads of the core's session database.
use hermes_app.Base.{ℕ, String, Bool, true, false, Option, List, [], ◌==◌, Result}

-- The states of a batch.
pub data WakeState : Type 0 where
  reserved dispatching accepted terminal uncertain_consumed released : WakeState

pub data ConsumptionState : Type 0 where
  consumed ignored : ConsumptionState

-- `batch_keys` is the list that the JSON column encodes.
pub record WakeBatch : Type 0 where
  pub batch_id : String
  pub session_id : String
  pub state : WakeState
  pub reason : Option String
  pub run_id : Option String
  pub canonical_input : String
  pub batch_keys : List String
  pub created_at : ℕ
  pub updated_at : ℕ
  pub terminal_at : Option ℕ
  pub owner : Option String

pub record Consumption : Type 0 where
  pub delivery_key : String
  pub batch_id : Option String
  pub session_id : String
  pub message_id : Option ℕ
  pub report_order : ℕ
  pub ignored : Bool
  pub state : ConsumptionState
  pub created_at : ℕ
  pub updated_at : ℕ

pub record WakeDb : Type 0 where
  pub batches : List WakeBatch
  pub consumption : List Consumption

abbrev pub empty_db : WakeDb
empty_db = record { batches = []; consumption = [] }

abbrev pub admit_max_delivery_ids : ℕ
admit_max_delivery_ids = 32

abbrev pub content_cooldown_seconds : ℕ
content_cooldown_seconds = 900

abbrev pub canonical_input : String
canonical_input = "請讀取新到的排程報告並簡短回覆。"

abbrev pub session_wake_limit : ℕ
session_wake_limit = 6

abbrev pub profile_wake_limit : ℕ
profile_wake_limit = 12

abbrev pub quota_window_seconds : ℕ
quota_window_seconds = 3600

abbrev pub batch_max : ℕ
batch_max = 10

-- A session of the core, as `get_session` returns it.
pub record Session : Type 0 where
  pub hidden : Bool
  pub archived : Bool
  pub source : Option String
  pub ended_at : Option ℕ
  pub end_reason : Option String

pub record Lease : Type 0 where
  pub conversation_id : String
  pub expires_at : ℕ

-- A row of the query of `_find_report`.
pub record ReportRow : Type 0 where
  pub row_id : ℕ
  pub timestamp : ℕ
  pub content : String
  pub sch : Option ℕ
  pub job_id : Option String

-- The core's session database, with the JSON and the recursion over lineages that SQLite does for
-- the queries, and the text functions that rest on regular expressions: `strip_lower` is
-- `str(raw or "").strip().lower()`, `source_text` is `" ".join(normalized_report_body(c).split())`,
-- `bindings_ready` says that `configure` has run, and `message_source` answers the job of `provenance_of` and the content of a message's row.
pub record Core : Type 0 where
  pub bindings_ready : Bool
  pub get_session : String → Option Session
  pub lease_key : String → Result String
  pub leases : Result (List Lease)
  pub find_report : String → String → Option ReportRow
  pub message_source : ℕ → Option (Option String × String)
  pub strip_lower : String → String
  pub source_text : String → String
  pub is_ignored_report : String → Bool
  pub sorted : List String → List String

abbrev pub is_reserved : WakeState → Bool
is_reserved WakeState.reserved = true
is_reserved _ = false

abbrev pub is_dispatching : WakeState → Bool
is_dispatching WakeState.dispatching = true
is_dispatching _ = false

abbrev pub is_accepted : WakeState → Bool
is_accepted WakeState.accepted = true
is_accepted _ = false

abbrev pub is_released : WakeState → Bool
is_released WakeState.released = true
is_released _ = false

-- state IN ('dispatching', 'accepted')
abbrev pub in_flight : WakeState → Bool
in_flight WakeState.dispatching = true
in_flight WakeState.accepted = true
in_flight _ = false

abbrev pub is_consumed : ConsumptionState → Bool
is_consumed ConsumptionState.consumed = true
is_consumed ConsumptionState.ignored = false

unfoldable pub batch_is : String → WakeBatch → Bool
batch_is i b = b.batch_id == i

unfoldable pub key_is : String → Consumption → Bool
key_is k c = c.delivery_key == k

unfoldable pub batch_clash : WakeBatch → WakeBatch → Bool
batch_clash a b = batch_is a.batch_id b

unfoldable pub consumption_clash : Consumption → Consumption → Bool
consumption_clash a b = key_is a.delivery_key b
