-- ===== src/Synthetic/Grace.antt =====
-- compat/crosssource.py: how long a run identifier answers, and which one gives way.
use hermes_app.Base.{
  ℕ, ◌+◌, ◌≤◌, ◌<◌, String, Bool, true, false, ◌≡◌, ◌∙◌, refl, ap, Option, none, some, List, [],
  ◌∷◌, ltb, arith, inl, inr, Bool-cases, if◌then◌else◌,
}
use hermes_app.Base.Table.{find, find-some, find-update, update, delete}
use hermes_app.Synthetic.Defs.{
  Entry, Policy, has_run, is_expired, prune, released, release, entry_of, terminal_status, CoreView,
  RunView, view_of, resolve, status_or,
}

-- A search finds the same row after a DELETE of others.
find-delete_other :
    (q p : Entry → Bool) (entries : List Entry) (e : Entry)
    → find q entries ≡ some e
    → p e ≡ false
    → find q (delete p entries) ≡ some e
find-delete_other q p [] e h keep = cc
find-delete_other q p (x ∷ entries) e h keep = elim (Bool-cases (q x)) [
  | inl hit ↦
      let same : x ≡ e = ground arith in
      let kept : p x ≡ false = rw same keep in rw (kept, hit) (ap some same)
  | inr miss ↦
      let rest = find-delete_other q p entries e (ground arith) keep in ground (arith, rest, miss)
]

release-found :
    (p : Policy) (at later : ℕ) (i : String) (ended : Option String) (entries : List Entry)
    (e : Entry)
    → find (has_run i) entries ≡ some e
    → later < at + p.grace
    → later < e.issued_at + p.max_age
    → (entry_of p later i (release p at i ended entries)).0 ≡ some (released p at ended e)
unfolding entry_of prune release
release-found p at later i ended entries e found in_grace young =
    find-delete_other (has_run i) (is_expired p later)
      (update (has_run i) (released p at ended) entries) (released p at ended e)
      (find-update (has_run i) (has_run i) (released p at ended) entries
          (λ x. unfold has_run released in refl)
        ∙ rw found (rw (find-some (has_run i) entries e found) refl))
      (unfold is_expired released in ground arith)

due_later :
    (p : Policy) (at later : ℕ) (ended : Option String) (e : Entry)
    → at + p.grace ≤ later
    → is_expired p later (released p at ended e) ≡ true
unfolding is_expired released
due_later p at later ended e over = ground arith

release-forgotten :
    (p : Policy) (at later : ℕ) (i : String) (ended : Option String) (entries : List Entry)
    → at + p.grace ≤ later
    → (entry_of p later i (release p at i ended entries)).0 ≡ none
unfolding entry_of prune release
release-forgotten p at later i ended [] over = refl
release-forgotten p at later i ended (e ∷ entries) over =
    head_case (has_run i e) refl (release-forgotten p at later i ended entries over)
  where
    head_case :
        (b : Bool)
        → has_run i e ≡ b
        → find
            (has_run i)
            (delete (is_expired p later) (update (has_run i) (released p at ended) entries))
          ≡ none
        → find (has_run i) (
            delete (is_expired p later) (
              (if b then released p at ended e else e)
              ∷ update (has_run i) (released p at ended) entries))
          ≡ none
    head_case true mine rest = rw (due_later p at later ended e over) rest
    head_case false other rest = ground (arith, other, rest)

-- When the stream of a known identifier has ended, the core has no admission for it and its entry is
-- not too old, `resolve` answers the terminal status of that end, or "completed", with the session
-- and the admission of the entry, until the grace is over, and then that it is unknown.
pub resolve-release :
    (p : Policy) (core : Entry → CoreView) (at later : ℕ) (i : String) (ended : Option String)
    (entries : List Entry) (e : Entry)
    → find (has_run i) entries ≡ some e
    → core (released p at ended e) ≡ CoreView.absent
    → later < e.issued_at + p.max_age
    → (resolve p core later i (release p at i ended entries)).0 ≡ (
        if ltb later (at + p.grace)
        then RunView.ended_as
            (status_or (terminal_status ended) "completed")
            e.session_id
            e.admission_id
        else RunView.unknown)
unfolding resolve
resolve-release p core at later i ended entries e found gone young =
    elim (Bool-cases (ltb later (at + p.grace))) [
      | inl early ↦
          rw (early, release-found p at later i ended entries e found (ground arith) young, gone)
            (unfold view_of released in refl)
      | inr over ↦ rw (over, release-forgotten p at later i ended entries (ground arith)) refl
    ]
