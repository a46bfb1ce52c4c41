-- ===== src/Steer/Defs.antt =====
-- compat/steer_store.py: the tables `runs`, `steers`, `batches` and `purged_keys`, their keys, and
-- the tests of the WHERE clauses. TEXT columns that are only compared are texts; REAL times are
-- numbers of one unit of time; a JSON column of ids is the list that it encodes.
use hermes_app.Base.{ℕ, ◌*◌, String, Bool, true, false, ◌&&◌, ◌||◌, Option, List, [], ◌==◌}

pub data SteerState : Type 0 where
  accepted staged delivered not_delivered outcome_unknown : SteerState

pub data BatchState : Type 0 where
  staged delivered outcome_unknown : BatchState

pub record Run : Type 0 where
  pub owner_scope : String
  pub run_id : String
  pub original_sid : Option String
  pub resolved_sid : Option String
  pub owner_epoch : Option String
  pub closed_reason : Option String
  pub closed_at : Option ℕ
  pub next_seq : ℕ

pub record Steer : Type 0 where
  pub steer_id : String
  pub owner_scope : String
  pub run_id : String
  pub key : String
  pub digest : String
  pub input : String
  pub seq : ℕ
  pub state : SteerState
  pub batch_id : Option String
  pub row_id : Option String
  pub error : Option String
  pub created_at : ℕ
  pub updated_at : ℕ

pub record Batch : Type 0 where
  pub batch_id : String
  pub owner_scope : String
  pub run_id : String
  pub ordered_ids : List String
  pub state : BatchState
  pub row_id : Option String
  pub created_at : ℕ

pub record PurgedKey : Type 0 where
  pub owner_scope : String
  pub run_id : String
  pub key : String
  pub purged_at : ℕ

pub record SteerDb : Type 0 where
  pub runs : List Run
  pub steers : List Steer
  pub batches : List Batch
  pub purged_keys : List PurgedKey

abbrev pub empty_db : SteerDb
empty_db = record { runs = []; steers = []; batches = []; purged_keys = [] }

abbrev pub outstanding_limit : ℕ
outstanding_limit = 32

-- Thirty days, in seconds.
abbrev pub receipt_ttl_seconds : ℕ
receipt_ttl_seconds = 30 * 86400

abbrev pub page_limit : ℕ
page_limit = 100

abbrev pub handoff_error : String
handoff_error = "core_handoff"

abbrev pub is_accepted : SteerState → Bool
is_accepted accepted = true
is_accepted _ = false

-- `state IN ('accepted','staged')`
abbrev pub is_outstanding : SteerState → Bool
is_outstanding accepted = true
is_outstanding SteerState.staged = true
is_outstanding _ = false

abbrev pub is_delivered : BatchState → Bool
is_delivered BatchState.delivered = true
is_delivered _ = false

abbrev pub is_staged : BatchState → Bool
is_staged BatchState.staged = true
is_staged _ = false

-- WHERE owner_scope=? AND run_id=?
unfoldable pub run_at : String → String → Run → Bool
run_at o r x = x.owner_scope == o && x.run_id == r

unfoldable pub steer_in : String → String → Steer → Bool
steer_in o r s = s.owner_scope == o && s.run_id == r

unfoldable pub steer_at : String → String → String → Steer → Bool
steer_at o r k s = s.owner_scope == o && s.run_id == r && s.key == k

unfoldable pub batch_in : String → String → Batch → Bool
batch_in o r b = b.owner_scope == o && b.run_id == r

unfoldable pub purged_at_key : String → String → String → PurgedKey → Bool
purged_at_key o r k p = p.owner_scope == o && p.run_id == r && p.key == k

unfoldable pub has_id : String → Steer → Bool
has_id i s = s.steer_id == i

unfoldable pub batch_has_id : String → Batch → Bool
batch_has_id i b = b.batch_id == i

-- WHERE batch_id=? on the nullable column of a steer.
unfoldable pub in_batch : String → Steer → Bool
in_batch i s = elim s.batch_id [ Option.none ↦ false | Option.some b ↦ b == i ]

-- WHERE owner_scope=? AND run_id=? AND state='accepted'
unfoldable pub accepted_in : String → String → Steer → Bool
accepted_in o r s = steer_in o r s && is_accepted s.state

-- The steers of a run that a batch has claimed.
unfoldable pub staged_in : String → String → Steer → Bool
staged_in o r s = steer_in o r s && elim s.state [ SteerState.staged ↦ true | _ ↦ false ]

unfoldable pub outstanding_in : String → String → Steer → Bool
outstanding_in o r s = steer_in o r s && is_outstanding s.state

-- The primary keys and the unique index `steer_keys`.
unfoldable pub run_clash : Run → Run → Bool
run_clash a b = run_at a.owner_scope a.run_id b

unfoldable pub steer_clash : Steer → Steer → Bool
steer_clash a b = has_id a.steer_id b || steer_at a.owner_scope a.run_id a.key b

unfoldable pub batch_clash : Batch → Batch → Bool
batch_clash a b = batch_has_id a.batch_id b

unfoldable pub purged_clash : PurgedKey → PurgedKey → Bool
purged_clash a b = purged_at_key a.owner_scope a.run_id a.key b
