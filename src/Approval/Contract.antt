-- ===== src/Approval/Contract.antt =====
-- compat/approval_inbox.py: what `classify_answer` must answer, said of the body, the epochs and the
-- core's queue and not by the tests of the code.
use hermes_app.Base.{
  ◌≤◌, String, true, false, ◌≡◌, ◌≢◌, ◌⊎◌, Option, none, some, List, [], ◌∷◌, ◌++◌, length, All,
}
use hermes_app.Approval.Defs.{QueueEntry}
use hermes_app.Approval.Answers.{Body, Texts, Answer}

-- The body or, where it names none, the caller claims the epoch.
abbrev pub Claims : Body → Option String → String → Type 0
Claims body epoch theirs =
    (body.server_epoch ≡ some theirs) ⊎ ((body.server_epoch ≡ none) × (epoch ≡ some theirs))

-- Another epoch than the registry's, which is not empty, is claimed.
abbrev pub Foreign : Option String → Option String → Body → Type 0
Foreign ours epoch body =
    (theirs : String) × (mine : String) × Claims body epoch theirs
    × (ours ≡ some mine)
    × (mine ≢ "")
    × (theirs ≢ mine)

-- The word that is sent, and the choice it stands for.
abbrev pub StandsFor : String → String → Type 0
StandsFor word c =
    ((c ≡ "once") × ((word ≡ "approve") ⊎ ((word ≡ "approved") ⊎ (word ≡ "allow"))))
    ⊎ ((c ≡ word) × (word ≢ "approve") × (word ≢ "approved") × (word ≢ "allow"))

-- The choices that the data of a request leave: a request may always be allowed once and denied, for
-- the session only if it is neither smart-denied nor without a session, and for always only if, also,
-- a permanent permission is not ruled out.
abbrev pub Allowed : QueueEntry → String → Type 0
Allowed q c =
    ((c ≡ "once") ⊎ (c ≡ "deny"))
    ⊎ ((q.smart_denied ≡ false)
        × (q.allow_session ≢ some false)
        × ((c ≡ "session") ⊎ ((c ≡ "always") × (q.allow_permanent ≢ some false))))

-- The first entry of the queue with the identifier.
abbrev pub FirstAt : String → List QueueEntry → QueueEntry → Type 0
FirstAt i queue q =
    (before : List QueueEntry) × (after : List QueueEntry) × (queue ≡ before ++ (q ∷ after))
    × All (λ x. x.request_id ≢ i) before
    × (q.request_id ≡ i)

-- What is answered, by the case that the body and the queue are in. `sent` is the identifier and
-- `word` the choice as the body has them, stripped, the word in lower case.
pub data Contract (t : Texts) (ours epoch : Option String) (body : Body) (queue : List QueueEntry)
    : Answer → Type 0 where
  stale :
      Foreign ours epoch body
      → Contract t ours epoch body queue (Answer.error 409 "approval_epoch_stale")
  every_request :
      ¬ Foreign ours epoch body
      → body.resolve_all ≡ true
      → Contract t ours epoch body queue (Answer.error 400 "approval_scope_not_supported")
  exact :
      (q : QueueEntry) (c : String)
      → ¬ Foreign ours epoch body
      → body.resolve_all ≡ false
      → t.strip body.request_id ≢ ""
      → FirstAt (t.strip body.request_id) queue q
      → StandsFor (t.lower (t.strip body.choice)) c
      → Allowed q c
      → Contract t ours epoch body queue (Answer.submit (t.strip body.request_id) c false)
  bad_choice :
      (q : QueueEntry) (c : String)
      → ¬ Foreign ours epoch body
      → body.resolve_all ≡ false
      → t.strip body.request_id ≢ ""
      → FirstAt (t.strip body.request_id) queue q
      → StandsFor (t.lower (t.strip body.choice)) c
      → ¬ Allowed q c
      → Contract t ours epoch body queue (Answer.error 400 "invalid_approval_choice")
  unknown_request :
      ¬ Foreign ours epoch body
      → body.resolve_all ≡ false
      → t.strip body.request_id ≢ ""
      → All (λ x. x.request_id ≢ t.strip body.request_id) queue
      → Contract t ours epoch body queue Answer.passthrough
  only_request :
      (q : QueueEntry) (c : String)
      → ¬ Foreign ours epoch body
      → body.resolve_all ≡ false
      → t.strip body.request_id ≡ ""
      → queue ≡ q ∷ []
      → StandsFor (t.lower (t.strip body.choice)) c
      → Contract t ours epoch body queue (Answer.submit q.request_id c true)
  several :
      ¬ Foreign ours epoch body
      → body.resolve_all ≡ false
      → t.strip body.request_id ≡ ""
      → 2 ≤ length queue
      → Contract t ours epoch body queue (Answer.error 409 "approval_request_required")
  nothing_pending :
      ¬ Foreign ours epoch body
      → body.resolve_all ≡ false
      → t.strip body.request_id ≡ ""
      → queue ≡ []
      → Contract t ours epoch body queue Answer.passthrough
