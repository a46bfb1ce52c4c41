-- ===== src/Outbox/Defs.antt =====
-- compat/crosssource.py: the table `outbox` and the class `Outbox`.
use hermes_app.Base.{
  ℕ, ◌+◌, ◌*◌, String, Bool, true, false, ◌&&◌, Option, none, some, List, [], ◌∷◌, ◌==◌, leb,
  Result, ok, ◌>>=◌,
}
use hermes_app.Base.Table.{select, find, update, insert, order_by}

pub data Status : Type 0 where
  pending failed delivered merged stale_dropped : Status

pub record Row : Type 0 where
  pub id : String
  pub session_id : String
  pub session_key : String
  pub platform : String
  pub text : String
  pub status : Status
  pub attempts : ℕ
  pub last_error : Option String
  pub created_at : ℕ
  pub updated_at : ℕ
  pub message_id : Option String
  pub trigger : Option String

abbrev pub max_attempts : ℕ
max_attempts = 3

abbrev pub dedup_window_seconds : ℕ
dedup_window_seconds = 60

abbrev pub drain_max_age_seconds : ℕ
drain_max_age_seconds = 24 * 3600

-- status IN ('pending', 'failed')
abbrev pub is_undelivered : Status → Bool
is_undelivered Status.pending = true
is_undelivered Status.failed = true
is_undelivered _ = false

abbrev pub is_delivered : Status → Bool
is_delivered Status.delivered = true
is_delivered _ = false

unfoldable pub has_id : String → Row → Bool
has_id i r = r.id == i

unfoldable pub row_clash : Row → Row → Bool
row_clash a b = has_id a.id b

-- The rows that a resend may fold into, `updated_at >= now - DRAIN_MAX_AGE_SECONDS`.
unfoldable pub waiting : ℕ → String → String → Row → Bool
waiting now sid text r =
    (r.session_id == sid && r.text == text)
    && (is_undelivered r.status && leb now (r.updated_at + drain_max_age_seconds))

-- The rows that a double send folds into, `created_at >= now - DEDUP_WINDOW_SECONDS`.
unfoldable pub just_delivered : ℕ → String → String → Row → Bool
just_delivered now sid text r =
    (r.session_id == sid && r.text == text)
    && (is_delivered r.status && leb now (r.created_at + dedup_window_seconds))

-- LIMIT 1
abbrev pub first : List Row → Option Row
first [] = none
first (r ∷ rows) = some r

unfoldable pub oldest : (Row → Bool) → List Row → Option Row
oldest p rows = first (order_by (λ r. r.created_at) (select p rows))

unfoldable pub new_row : ℕ → String → String → String → String → String → Row
new_row now i sid key platform text = record {
  id = i;
  session_id = sid;
  session_key = key;
  platform = platform;
  text = text;
  status = Status.pending;
  attempts = 0;
  last_error = none;
  created_at = now;
  updated_at = now;
  message_id = none;
  trigger = none;
}

-- The end of `enqueue`, on the rows that its two queries find.
unfoldable pub fold_or_add :
    Option Row → Option Row → Row → List Row → Result ((String × Bool) × List Row)
fold_or_add (some r) recent new rows = ok ((r.id, true), rows)
fold_or_add none (some r) new rows = ok ((r.id, true), rows)
fold_or_add none none new rows = do more ← insert row_clash new rows; ok ((new.id, false), more)

-- `enqueue`; `i` is the fresh identifier.
unfoldable pub enqueue :
    ℕ → String → String → String → String → String → List Row → Result ((String × Bool) × List Row)
enqueue now i sid key platform text rows =
    fold_or_add (oldest (waiting now sid text) rows) (oldest (just_delivered now sid text) rows)
      (new_row now i sid key platform text) rows

-- What `record` sets; `message_id` is given by no caller.
unfoldable pub recorded : ℕ → ℕ → Status → Option String → Option String → Row → Row
recorded now attempts status error trigger r = record r {
  attempts = attempts;
  status = status;
  last_error = error;
  message_id = none;
  trigger = trigger;
  updated_at = now;
}

-- `record`
unfoldable pub record_row :
    ℕ → String → ℕ → Status → Option String → Option String → List Row → List Row
record_row now i attempts status error trigger rows =
    update (has_id i) (recorded now attempts status error trigger) rows

unfoldable pub get_row : String → List Row → Option Row
get_row i rows = find (has_id i) rows

unfoldable pub undelivered : List Row → List Row
undelivered rows = order_by (λ r. r.created_at) (select (λ r. is_undelivered r.status) rows)

unfoldable pub all_rows : List Row → List Row
all_rows rows = order_by (λ r. r.created_at) rows
