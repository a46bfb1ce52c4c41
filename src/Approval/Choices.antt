-- ===== src/Approval/Choices.antt =====
-- compat/approval_inbox.py: the word of an answer stands for the choice that the code makes of it,
-- and the code lists exactly the choices that a request leaves.
use hermes_app.Base.{
  String, Bool, true, false, ◌||◌, ◌≡◌, ◌≢◌, ◌⊎◌, refl, Option, none, some, List, [], ◌∷◌, ◌==◌,
  inl, inr, Bool-cases, if◌then◌else◌, sym, eq_iff, arith,
}
use hermes_app.Approval.Defs.{QueueEntry, is_false, choices_from_data, listed}
use hermes_app.Approval.Answers.{aliased}
use hermes_app.Approval.Contract.{StandsFor, Allowed}

pub differs : (a b : String) → (a == b) ≡ false → a ≢ b
differs a b h e = let same : (a == b) ≡ true = (eq_iff a b).1 e in cc

pub aliased-StandsFor : (word : String) → StandsFor word (aliased word)
unfolding aliased
aliased-StandsFor word = elim (Bool-cases (word == "approve")) [
  | inl e ↦ inl (rw (aliased, e) refl, inl ((eq_iff word "approve").0 e))
  | inr a ↦ elim (Bool-cases (word == "approved")) [
    | inl e ↦ inl (rw (aliased, a, e) refl, inr (inl ((eq_iff word "approved").0 e)))
    | inr b ↦ elim (Bool-cases (word == "allow")) [
      | inl e ↦ inl (rw (aliased, a, b, e) refl, inr (inr ((eq_iff word "allow").0 e)))
      | inr c ↦ inr (
        rw (aliased, a, b, c) refl,
        differs word "approve" a,
        differs word "approved" b,
        differs word "allow" c,
      )
    ]
  ]
]

abbrev In : String → List String → Type 0
In c [] = ⊥
In c (w ∷ ws) = (c ≡ w) ⊎ In c ws

listed-In : (c : String) (ws : List String) → listed c ws ≡ true → In c ws
unfolding listed
listed-In c [] h = cc
listed-In c (w ∷ ws) h = elim (Bool-cases (w == c)) [
  | inl e ↦ inl (sym ((eq_iff w c).0 e))
  | inr n ↦ inr (listed-In c ws (ground arith))
]

In-listed : (c : String) (ws : List String) → In c ws → listed c ws ≡ true
unfolding listed
In-listed c [] h = absurd h
In-listed c (w ∷ ws) (inl e) = let same : (w == c) ≡ true = (eq_iff w c).1 (sym e) in ground arith
In-listed c (w ∷ ws) (inr there) =
    let rest : listed c ws ≡ true = In-listed c ws there in ground arith

is_false-true : (o : Option Bool) → is_false o ≡ true → o ≡ some false
is_false-true none h = cc
is_false-true (some true) h = cc
is_false-true (some false) h = refl

is_false-false : (o : Option Bool) → is_false o ≡ false → o ≢ some false
is_false-false o h e = let yes' : is_false o ≡ true = rw e refl in cc

pub choices-Allowed :
    (q : QueueEntry) (c : String) → listed c (choices_from_data q) ≡ true → Allowed q c
unfolding choices_from_data
choices-Allowed q c h =
    at (q.smart_denied || is_false q.allow_session) (is_false q.allow_permanent) refl refl
      (listed-In c _ h)
  where
    at :
        (short never : Bool)
        → (q.smart_denied || is_false q.allow_session) ≡ short
        → is_false q.allow_permanent ≡ never
        → In c (
            if short
            then "once" ∷ "deny" ∷ []
            else if never
            then "once" ∷ "session" ∷ "deny" ∷ []
            else "once" ∷ "session" ∷ "always" ∷ "deny" ∷ [])
        → Allowed q c
    at true never s n (inl e) = inl (inl e)
    at true never s n (inr (inl e)) = inl (inr e)
    at true never s n (inr (inr e)) = absurd e
    at false true s n (inl e) = inl (inl e)
    at false true s n (inr (inl e)) =
        inr (ground arith, is_false-false q.allow_session (ground arith), inl e)
    at false true s n (inr (inr (inl e))) = inl (inr e)
    at false true s n (inr (inr (inr e))) = absurd e
    at false false s n (inl e) = inl (inl e)
    at false false s n (inr (inl e)) =
        inr (ground arith, is_false-false q.allow_session (ground arith), inl e)
    at false false s n (inr (inr (inl e))) = inr (
      ground arith,
      is_false-false q.allow_session (ground arith),
      inr (e, is_false-false q.allow_permanent n),
    )
    at false false s n (inr (inr (inr (inl e)))) = inl (inr e)
    at false false s n (inr (inr (inr (inr e)))) = absurd e

pub Allowed-choices :
    (q : QueueEntry) (c : String) → Allowed q c → listed c (choices_from_data q) ≡ true
unfolding choices_from_data
Allowed-choices q c h =
    In-listed c _
      (at (q.smart_denied || is_false q.allow_session) (is_false q.allow_permanent) refl refl h)
  where
    at :
        (short never : Bool)
        → (q.smart_denied || is_false q.allow_session) ≡ short
        → is_false q.allow_permanent ≡ never
        → Allowed q c
        → In c (
            if short
            then "once" ∷ "deny" ∷ []
            else if never
            then "once" ∷ "session" ∷ "deny" ∷ []
            else "once" ∷ "session" ∷ "always" ∷ "deny" ∷ [])
    at true never s n (inl (inl e)) = inl e
    at true never s n (inl (inr e)) = inr (inl e)
    at true never s n (inr (smart, session, which)) =
        absurd (session (is_false-true q.allow_session (ground arith)))
    at false true s n (inl (inl e)) = inl e
    at false true s n (inl (inr e)) = inr (inr (inl e))
    at false true s n (inr (smart, session, inl e)) = inr (inl e)
    at false true s n (inr (smart, session, inr (e, permanent))) =
        absurd (permanent (is_false-true q.allow_permanent n))
    at false false s n (inl (inl e)) = inl e
    at false false s n (inl (inr e)) = inr (inr (inr (inl e)))
    at false false s n (inr (smart, session, inl e)) = inr (inl e)
    at false false s n (inr (smart, session, inr (e, permanent))) = inr (inr (inl e))
