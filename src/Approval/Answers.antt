-- ===== src/Approval/Answers.antt =====
-- compat/approval_inbox.py: `classify_answer`, the reading of an answer to a pending approval.
use hermes_app.Base.{
  ℕ, String, Bool, true, false, not, ◌&&◌, ◌||◌, Option, none, some, List, [], ◌∷◌, ◌==◌,
  if◌then◌else◌, truthy, opt_eq, coalesce,
}
use hermes_app.Base.Table.{find}
use hermes_app.Approval.Defs.{QueueEntry, choices_from_data, listed}
use hermes_app.Approval.Capture.{queued}

-- The fields of the body: the texts as they are sent (not a text: empty), the epoch as a text, and
-- whether `all` or `resolve_all` asks for every request.
pub record Body : Type 0 where
  pub choice : String
  pub request_id : String
  pub server_epoch : Option String
  pub resolve_all : Bool

-- Python's `strip` and `lower`.
pub record Texts : Type 0 where
  pub strip : String → String
  pub lower : String → String

pub data Answer : Type 0 where
  submit : String → String → Bool → Answer
  passthrough : Answer
  error : ℕ → String → Answer

unfoldable pub aliased : String → String
aliased c = if c == "approve" || c == "approved" || c == "allow" then "once" else c

unfoldable pub chosen : Texts → Body → String
chosen t body = aliased (t.lower (t.strip body.choice))

-- The claimed epoch is another one than the registry's.
unfoldable pub is_stale_epoch : Option String → Option String → Bool
is_stale_epoch none ours = false
is_stale_epoch (some theirs) ours = truthy ours && not (opt_eq (some theirs) ours)

unfoldable pub answer_exact : String → String → Option QueueEntry → Answer
answer_exact i c none = passthrough
answer_exact i c (some q) =
    if listed c (choices_from_data q) then submit i c false else error 400 "invalid_approval_choice"

unfoldable pub answer_only : String → List QueueEntry → Answer
answer_only c [] = passthrough
answer_only c (q ∷ []) = submit q.request_id c true
answer_only c (q ∷ more ∷ rest) = error 409 "approval_request_required"

unfoldable pub answer_queue : String → String → List QueueEntry → Answer
answer_queue i c queue =
    if i == "" then answer_only c queue else answer_exact i c (find (queued i) queue)

-- `classify_answer`, where `ours` is the registry's epoch and `epoch` the caller's.
unfoldable pub classify_answer :
    Texts → Option String → Option String → Body → List QueueEntry → Answer
classify_answer t ours epoch body queue =
    if is_stale_epoch (coalesce body.server_epoch epoch) ours
    then error 409 "approval_epoch_stale"
    else if body.resolve_all
    then error 400 "approval_scope_not_supported"
    else answer_queue (t.strip body.request_id) (chosen t body) queue
