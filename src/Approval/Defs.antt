-- ===== src/Approval/Defs.antt =====
-- compat/approval_inbox.py: an entry of the registry, and what it shows.
use hermes_app.Base.{
  ℕ, ◌+◌, ◌-◌, String, Bool, true, false, not, ◌&&◌, ◌||◌, Option, none, some, List, [], ◌∷◌, ◌==◌,
  ltb, nat_eq, or_text, if◌then◌else◌,
}
use hermes_app.Base.Table.{select, exists}

abbrev pub max_pending : ℕ
max_pending = 32

abbrev pub max_runs : ℕ
max_runs = 64

abbrev pub resolved_ttl : ℕ
resolved_ttl = 900

-- The data of an entry of the core's queue; an absent text is empty, an absent flag is none.
pub record QueueEntry : Type 0 where
  pub request_id : String
  pub command : String
  pub description : String
  pub pattern_key : String
  pub pattern_keys : List String
  pub smart_denied : Bool
  pub allow_session : Option Bool
  pub allow_permanent : Option Bool

pub record Payload : Type 0 where
  pub request_id : String
  pub run_id : String
  pub session_id : Option String
  pub server_epoch : Option String
  pub choices : List String
  pub command : String
  pub description : String
  pub pattern_key : String
  pub pattern_keys : List String
  pub smart_denied : Bool

pub data Phase : Type 0 where
  pending resolved : Phase

-- The adapter, the loop and the marks of what was pushed are not kept; of the timer, whether it is set.
pub record Entry : Type 0 where
  pub request_id : String
  pub session_key : String
  pub payload : Payload
  pub session_allowed : Bool
  pub permanent_allowed : Bool
  pub created_at : ℕ
  pub created_mono : ℕ
  pub timeout : ℕ
  pub phase : Phase
  pub outcome : Option String
  pub resolved_mono : Option ℕ
  pub timer : Bool

abbrev pub is_pending : Phase → Bool
is_pending Phase.pending = true
is_pending Phase.resolved = false

-- `flag is False`
abbrev pub is_false : Option Bool → Bool
is_false none = false
is_false (some b) = not b

unfoldable pub choices_from_data : QueueEntry → List String
choices_from_data q =
    if q.smart_denied || is_false q.allow_session
    then "once" ∷ "deny" ∷ []
    else if is_false q.allow_permanent
    then "once" ∷ "session" ∷ "deny" ∷ []
    else "once" ∷ "session" ∷ "always" ∷ "deny" ∷ []

abbrev pub or_list : List String → List String → List String
or_list [] other = other
or_list (x ∷ xs) other = x ∷ xs

abbrev pub first_text : List String → String
first_text [] = ""
first_text (x ∷ xs) = x

unfoldable pub keys_of : QueueEntry → List String
keys_of q =
    select (λ k. not (k == ""))
      (or_list q.pattern_keys (if q.pattern_key == "" then [] else q.pattern_key ∷ []))

-- What a capture reads elsewhere: the redactions, the adapter's session of the run, the core's
-- timeout, both clocks, and the dispatcher, where there is one, with whether it returns.
pub record World : Type 0 where
  pub redact_command : String → String
  pub redact_text : String → String
  pub session_key : String
  pub core_timeout : ℕ
  pub wall : ℕ
  pub mono : ℕ
  pub dispatch : Option (Entry → Bool)

unfoldable pub entry_from_data : World → Option String → String → Option String → QueueEntry → Entry
entry_from_data w epoch run sid q = record {
  request_id = q.request_id;
  session_key = w.session_key;
  payload = record {
    request_id = q.request_id;
    run_id = run;
    session_id = sid;
    server_epoch = epoch;
    choices = choices_from_data q;
    command = w.redact_command q.command;
    description = w.redact_text q.description;
    pattern_key = or_text q.pattern_key (first_text (keys_of q));
    pattern_keys = keys_of q;
    smart_denied = q.smart_denied;
  };
  session_allowed = not (is_false q.allow_session);
  permanent_allowed = not (is_false q.allow_permanent);
  created_at = w.wall;
  created_mono = w.mono;
  timeout = w.core_timeout;
  phase = Phase.pending;
  outcome = none;
  resolved_mono = none;
  timer = false;
}

pub record Shown : Type 0 where
  pub payload : Payload
  pub created_at : ℕ
  pub expires_at : ℕ
  pub remaining_seconds : ℕ
  pub deadline_estimated : Bool

unfoldable pub payload_for : ℕ → Entry → Shown
payload_for now e = record {
  payload = e.payload;
  created_at = e.created_at;
  expires_at = e.created_at + e.timeout;
  remaining_seconds = e.created_mono + e.timeout - now;
  deadline_estimated = true;
}

-- `e.get("resolved_mono") or e["created_mono"]`
abbrev pub since : Option ℕ → ℕ → ℕ
since none created = created
since (some at) created = if nat_eq at 0 then created else at

-- A resolved entry that has lingered for longer than `RESOLVED_TTL`.
unfoldable pub is_stale : ℕ → Entry → Bool
is_stale now e =
    not (is_pending e.phase) && ltb (since e.resolved_mono e.created_mono + resolved_ttl) now

unfoldable pub has_request : String → Entry → Bool
has_request i e = e.request_id == i

unfoldable pub listed : String → List String → Bool
listed i ids = exists (λ j. j == i) ids
