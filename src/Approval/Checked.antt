-- ===== src/Approval/Checked.antt =====
-- compat/approval_inbox.py: `classify_answer` answers what it must in every case.
use hermes_app.Base.{
  String, Bool, true, false, ◌≡◌, ◌≢◌, refl, Option, none, some, List, [], ◌∷◌, ◌==◌, inl, inr,
  Bool-cases, Option-cases, coalesce, if◌then◌else◌, ◌∙◌, ap, eq_iff, arith, All,
}
use hermes_app.Base.Table.{find}
use hermes_app.Approval.Defs.{QueueEntry, choices_from_data, listed}
use hermes_app.Approval.Capture.{queued}
use hermes_app.Approval.Answers.{
  Body, Texts, Answer, aliased, chosen, is_stale_epoch, answer_exact, answer_only, answer_queue,
  classify_answer,
}
use hermes_app.Approval.Contract.{Claims, Foreign, FirstAt, Contract}
use hermes_app.Approval.Choices.{differs, aliased-StandsFor, choices-Allowed, Allowed-choices}

Claims-coalesce :
    (body : Body) (epoch : Option String) (theirs : String)
    → Claims body epoch theirs
    → coalesce body.server_epoch epoch ≡ some theirs
Claims-coalesce body epoch theirs h = elim h [
  | inl named ↦ rw named refl
  | inr (unnamed, given) ↦ rw (unnamed, given) refl
]

coalesce-Claims :
    (body : Body) (epoch : Option String) (theirs : String)
    → coalesce body.server_epoch epoch ≡ some theirs
    → Claims body epoch theirs
coalesce-Claims body epoch theirs h = elim (Option-cases body.server_epoch) [
  | inl unnamed ↦ inr (unnamed, rw unnamed at h)
  | inr (named, there) ↦ let same : some named ≡ some theirs = rw there at h in inl (there ∙ same)
]

stale-Foreign :
    (ours epoch : Option String) (body : Body)
    → is_stale_epoch (coalesce body.server_epoch epoch) ours ≡ true
    → Foreign ours epoch body
unfolding is_stale_epoch
stale-Foreign ours epoch body h = at (coalesce body.server_epoch epoch) ours refl refl h
  where
    at :
        (claimed held : Option String)
        → coalesce body.server_epoch epoch ≡ claimed
        → ours ≡ held
        → is_stale_epoch claimed held ≡ true
        → Foreign ours epoch body
    at none held c o k = cc
    at (some theirs) none c o k = cc
    at (some theirs) (some mine) c o k = (
      theirs,
      mine,
      coalesce-Claims body epoch theirs c,
      o,
      (λ e. let empty : (mine == "") ≡ true = (eq_iff mine "").1 e in ground (arith, k)),
      (λ e. let same : (theirs == mine) ≡ true = (eq_iff theirs mine).1 e in ground (arith, k)),
    )

fresh-Foreign :
    (ours epoch : Option String) (body : Body)
    → is_stale_epoch (coalesce body.server_epoch epoch) ours ≡ false
    → ¬ Foreign ours epoch body
unfolding is_stale_epoch
fresh-Foreign ours epoch body h (theirs, mine, claims, held, given, other) =
    let claimed : coalesce body.server_epoch epoch ≡ some theirs =
      Claims-coalesce body epoch theirs claims in
    let k : is_stale_epoch (some theirs) (some mine) ≡ false = rw (claimed, held) at h in
    elim (Bool-cases (mine == "")) [
      | inl empty ↦ given ((eq_iff mine "").0 empty)
      | inr full ↦ elim (Bool-cases (theirs == mine)) [
        | inl same ↦ other ((eq_iff theirs mine).0 same)
        | inr apart ↦
            let yes' : is_stale_epoch (some theirs) (some mine) ≡ true = rw (full, apart) refl in cc
      ]
    ]

find-FirstAt :
    (i : String) (queue : List QueueEntry) (q : QueueEntry)
    → find (queued i) queue ≡ some q
    → FirstAt i queue q
unfolding queued
find-FirstAt i [] q h = cc
find-FirstAt i (x ∷ queue) q h = elim (Bool-cases (x.request_id == i)) [
  | inl hit ↦
      let same : x ≡ q = ground arith in
      (
        [],
        queue,
        ap (λ (y : QueueEntry). y ∷ queue) same,
        tt,
        rw (← same) ((eq_iff x.request_id i).0 hit),
      )
  | inr miss ↦
      let (before, after, split, apart, own) = find-FirstAt i queue q (ground arith) in
      (
        x ∷ before,
        after,
        ap (λ (rest : List QueueEntry). x ∷ rest) split,
        (differs x.request_id i miss, apart),
        own,
      )
]

find-unknown :
    (i : String) (queue : List QueueEntry)
    → find (queued i) queue ≡ none
    → All (λ x. x.request_id ≢ i) queue
unfolding queued
find-unknown i [] h = tt
find-unknown i (x ∷ queue) h = elim (Bool-cases (x.request_id == i)) [
  | inl hit ↦ absurd (ground (arith, h))
  | inr miss ↦ (differs x.request_id i miss, find-unknown i queue (ground arith))
]

module _ (t : Texts) (ours epoch : Option String) (body : Body)
    (current : ¬ Foreign ours epoch body) (single : body.resolve_all ≡ false) where
  exact-Contract :
      (queue : List QueueEntry)
      → t.strip body.request_id ≢ ""
      → Contract t ours epoch body queue (
          answer_exact
            (t.strip body.request_id)
            (chosen t body)
            (find (queued (t.strip body.request_id)) queue))
  unfolding answer_exact chosen
  exact-Contract queue named = elim (Option-cases (find (queued (t.strip body.request_id)) queue)) [
    | inl nothing ↦ rw nothing (
        Contract.unknown_request current single named
          (find-unknown (t.strip body.request_id) queue nothing))
    | inr (q, found) ↦
        let first = find-FirstAt (t.strip body.request_id) queue q found in
        let word = t.lower (t.strip body.choice) in
        elim (Bool-cases (listed (aliased word) (choices_from_data q))) [
          | inl good ↦
              rw (found, answer_exact, good)
                (Contract.exact q (aliased word) current single named first (aliased-StandsFor word)
                  (choices-Allowed q (aliased word) good))
          | inr bad ↦
              rw (found, answer_exact, bad)
                (Contract.bad_choice q (aliased word) current single named first
                  (aliased-StandsFor word)
                  (λ h.
                    let good : listed (aliased word) (choices_from_data q) ≡ true =
                      Allowed-choices q (aliased word) h in
                    cc))
        ]
  ]

  only-Contract :
      (queue : List QueueEntry)
      → t.strip body.request_id ≡ ""
      → Contract t ours epoch body queue (answer_only (chosen t body) queue)
  unfolding answer_only chosen
  only-Contract [] unnamed = Contract.nothing_pending current single unnamed refl
  only-Contract (q ∷ []) unnamed =
      Contract.only_request q _ current single unnamed refl (aliased-StandsFor _)
  only-Contract (q ∷ more ∷ rest) unnamed = Contract.several current single unnamed (omega arith)

-- `classify_answer` answers by the case that the body, the epochs and the core's queue are in. A
-- claim of another epoch than the registry's (which is not empty) is refused as stale, and otherwise
-- a demand for every request is refused. Otherwise, with an identifier, the first entry of the queue
-- with it is submitted with the choice that the word stands for, if the entry's data allow the
-- choice, and refused if not; with no such entry the answer is passed through. Without an identifier
-- the only entry of the queue is submitted, several are refused, and none is passed through.
pub classify_answer-Contract :
    (t : Texts) (ours epoch : Option String) (body : Body) (queue : List QueueEntry)
    → Contract t ours epoch body queue (classify_answer t ours epoch body queue)
unfolding classify_answer answer_queue
classify_answer-Contract t ours epoch body queue =
    elim (Bool-cases (is_stale_epoch (coalesce body.server_epoch epoch) ours)) [
      | inl stale ↦ rw stale (Contract.stale (stale-Foreign ours epoch body stale))
      | inr fresh ↦ rw fresh (scoped (fresh-Foreign ours epoch body fresh) body.resolve_all refl)
    ]
  where
    answered :
        ¬ Foreign ours epoch body
        → body.resolve_all ≡ false
        → (empty : Bool) → (t.strip body.request_id == "") ≡ empty
        → Contract t ours epoch body queue (
            if empty
            then answer_only (chosen t body) queue
            else answer_exact
                (t.strip body.request_id)
                (chosen t body)
                (find (queued (t.strip body.request_id)) queue))
    answered current single true e =
        only-Contract t ours epoch body current single queue
          ((eq_iff (t.strip body.request_id) "").0 e)
    answered current single false e =
        exact-Contract t ours epoch body current single queue
          (differs (t.strip body.request_id) "" e)

    scoped :
        ¬ Foreign ours epoch body
        → (all : Bool) → body.resolve_all ≡ all
        → Contract t ours epoch body queue (
            if all
            then Answer.error 400 "approval_scope_not_supported"
            else answer_queue (t.strip body.request_id) (chosen t body) queue)
    scoped current true e = Contract.every_request current e
    scoped current false e = answered current e (t.strip body.request_id == "") refl
