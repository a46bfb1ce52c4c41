-- ===== src/Wake/Once.antt =====
-- compat/auto_wake_store.py: the report of a wake that has run, or may have run, is never claimed
-- again.
use hermes_app.Base.{
  ℕ, String, Bool, true, false, not, ◌&&◌, ◌||◌, ◌≡◌, refl, inl, inr, Option, none, some, List, [],
  ◌∷◌, ◌==◌, eq_iff, arith, ok, if-keeps, Bool-cases, is_some, opt_eq, nat_eq,
}
use hermes_app.Base.Table.{find, exists, count, delete, find-delete, exists-find, exists-append}
use hermes_app.Wake.Defs.{
  WakeState, WakeBatch, Consumption, WakeDb, Core, is_reserved, is_dispatching, is_accepted,
  in_flight, batch_is, key_is,
}
use hermes_app.Wake.Grown.{admit-keeps}
use hermes_app.Wake.Moves.{Spent, is_spent, step-Spent}
use hermes_app.Wake.Admit.{Reason, Claim, Reply, admit}
use hermes_app.Wake.Refused.{claim_is, admit-refuses}
use hermes_app.Wake.Dispatch.{
  Gate, Reported, ReportReply, gate_state, gate_found, gate_dispatch, dispatch_failed,
  report_update, report_accepted, report_state, report_found, report, release_found, release,
  consumed_by,
}
use hermes_app.Wake.History.{Op, step, play, play-keeps}

module _ (db : WakeDb) where
  -- The writes on batches leave the consumption alone.
  gate_state-rows :
      (now : ℕ) (j input : String) (c : WakeBatch) (s : WakeState)
      → (gate_state now db j input c s).1.consumption ≡ db.consumption
  unfolding gate_state
  gate_state-rows now j input c WakeState.reserved =
      if-keeps (λ (r : Option Gate × WakeDb). r.1.consumption ≡ db.consumption)
        (not (input == c.canonical_input)) _ _ (λ _. refl) (λ _. refl)
  gate_state-rows now j input c WakeState.dispatching = refl
  gate_state-rows now j input c WakeState.accepted = refl
  gate_state-rows now j input c WakeState.terminal = refl
  gate_state-rows now j input c WakeState.uncertain_consumed = refl
  gate_state-rows now j input c WakeState.released = refl

  gate_found-rows :
      (now : ℕ) (j resolved input : String) (found : Option WakeBatch)
      → (gate_found now db j resolved input found).1.consumption ≡ db.consumption
  unfolding gate_found
  gate_found-rows now j resolved input none = refl
  gate_found-rows now j resolved input (some c) =
      if-keeps (λ (r : Option Gate × WakeDb). r.1.consumption ≡ db.consumption)
        (not (c.session_id == resolved)) _ _ (λ _. refl)
        (λ _. gate_state-rows now j input c c.state)

  -- As far as the consumption goes, a reply of `report` is like any other.
  abbrev SameRows : ReportReply × WakeDb → Type 0
  SameRows r = r.1.consumption ≡ db.consumption

  report_update-rows :
      (j : String) (p : WakeBatch → Bool) (f : WakeBatch → WakeBatch)
      → SameRows (report_update db j p f)
  unfolding report_update
  report_update-rows j p f =
      if-keeps SameRows (not (nat_eq (count p db.batches) 1)) _ _ (λ _. refl) (λ _. refl)

  report_accepted-rows :
      (at : ℕ) (j resolved run : String) (c : WakeBatch)
      → SameRows (report_accepted at db j resolved run c)
  unfolding report_accepted
  report_accepted-rows at j resolved run c =
      if-keeps SameRows (run == "") _ _ (λ _. refl)
        λ _.
          if-keeps SameRows (is_accepted c.state && opt_eq c.run_id (some run)) _ _ (λ _. refl)
            λ _.
              if-keeps SameRows (not (is_dispatching c.state)) _ _ (λ _. refl)
                (λ _. report_update-rows j _ _)

  report_state-rows :
      (strip : String → String) (at : ℕ) (j resolved : String) (c : WakeBatch) (to : Reported)
      (run : Option String)
      → SameRows (report_state strip at db j resolved c to run)
  unfolding report_state
  report_state-rows strip at j resolved c Reported.to_accepted none = refl
  report_state-rows strip at j resolved c Reported.to_accepted (some run) =
      report_accepted-rows at j resolved (strip run) c
  report_state-rows strip at j resolved c Reported.to_terminal run =
      if-keeps SameRows (not (in_flight c.state)) _ _ (λ _. refl) (λ _. report_update-rows j _ _)
  report_state-rows strip at j resolved c Reported.to_uncertain run =
      if-keeps SameRows (not (in_flight c.state)) _ _ (λ _. refl) (λ _. report_update-rows j _ _)
  report_state-rows strip at j resolved c Reported.other run = refl

  report_found-rows :
      (strip : String → String) (at : ℕ) (j resolved : String) (to : Reported) (run : Option String)
      (found : Option WakeBatch)
      → SameRows (report_found strip at db j resolved to run found)
  unfolding report_found
  report_found-rows strip at j resolved to run none = refl
  report_found-rows strip at j resolved to run (some c) =
      if-keeps SameRows (not (c.session_id == resolved)) _ _ (λ _. refl)
        (λ _. report_state-rows strip at j resolved c to run)

-- A row of the key `k` that the batch `i` consumes.
abbrev pub row_of : String → String → Consumption → Bool
row_of k i c = key_is k c && consumed_by i c

abbrev pub held : String → String → WakeDb → Bool
held k i db = exists (row_of k i) db.consumption

opt_eq-apart :
    (o : Option String) (i j : String)
    → (i == j) ≡ false
    → opt_eq o (some i) ≡ true
    → opt_eq o (some j) ≡ false
opt_eq-apart none i j apart h = cc
opt_eq-apart (some b) i j apart h = let same : b ≡ i = ground (arith, eq_iff b i) in rw same apart

spent-reserved : (s : WakeState) → is_spent s ≡ true → is_reserved s ≡ false
spent-reserved s h = ground arith

module _ (k i : String) where
  -- A release of another batch leaves the row.
  row_kept :
      (j : String) (rows : List Consumption)
      → (i == j) ≡ false
      → exists (row_of k i) rows ≡ true
      → exists (row_of k i) (delete (consumed_by j) rows) ≡ true
  unfolding consumed_by
  row_kept j rows apart h =
      let there = rw exists-find at h in
      rw
        (
          exists-find,
          find-delete (row_of k i) (consumed_by j) rows
              (λ c h'. opt_eq-apart c.batch_id i j apart (ground arith)),
        )
        there

  -- A batch that is found reserved is not the spent one.
  free_apart :
      (db : WakeDb) (j : String) (c : WakeBatch)
      → find (batch_is j) db.batches ≡ some c
      → Spent i db
      → is_reserved c.state ≡ true
      → (i == j) ≡ false
  free_apart db j c e s free = elim (Bool-cases (i == j)) [
    | inl same ↦
        let equal : i ≡ j = ground (arith, eq_iff i j) in
        let found : find (batch_is i) db.batches ≡ some c = rw equal e in
        let there : find (batch_is i) db.batches ≡ some s.batch = s.found in
        let one : c ≡ s.batch = cc in
        let shut : is_reserved c.state ≡ false = rw one (spent-reserved s.batch.state s.spent) in cc
    | inr other ↦ other
  ]

  release_found-held :
      (now : ℕ) (db : WakeDb) (j resolved : String) (found : Option WakeBatch)
      → find (batch_is j) db.batches ≡ found
      → Spent i db
      → held k i db ≡ true
      → held k i (release_found now db j resolved found).1 ≡ true
  unfolding release_found
  release_found-held now db j resolved none e s h = h
  release_found-held now db j resolved (some c) e s h =
      if-keeps (λ (r : ReportReply × WakeDb). held k i r.1 ≡ true) (not (c.session_id == resolved))
        _ _ (λ _. h)
        λ _.
          if-keeps (λ (r : ReportReply × WakeDb). held k i r.1 ≡ true)
            (not (is_reserved c.state) || is_some c.run_id) _ _ (λ _. h)
            λ free. row_kept j db.consumption (free_apart db j c e s (ground arith)) h

  step-held :
      (strip : String → String) (db : WakeDb) (op : Op)
      → Spent i db
      → held k i db ≡ true
      → held k i (step strip db op) ≡ true
  unfolding step gate_dispatch dispatch_failed report release
  step-held strip db (Op.admission core at resolved keys j owner) s h =
      admit-keeps (λ (d : WakeDb). held k i d ≡ true) (λ d c h'. rw (exists-append, h') refl)
        (λ d b h'. h') core at db resolved keys j owner h
  step-held strip db (Op.dispatch now j resolved input) s h =
      rw (gate_found-rows db now j resolved input (find (batch_is j) db.batches)) h
  step-held strip db (Op.failure now j) s h = h
  step-held strip db (Op.outcome at j resolved to run) s h =
      rw (report_found-rows db strip at j resolved to run (find (batch_is j) db.batches)) h
  step-held strip db (Op.giving_back now j resolved) s h =
      release_found-held now db j resolved _ refl s h

  play-held :
      (strip : String → String) (db : WakeDb) (ops : List Op)
      → Spent i db
      → held k i db ≡ true
      → held k i (play strip db ops) ≡ true
  play-held strip db ops s h =
      (play-keeps strip (λ d. Spent i d × (held k i d ≡ true))
        (λ d op both. (step-Spent strip i d op both.0, step-held strip d op both.0 both.1)) db ops
        (s, h)).1

row_of-key :
    (k i : String) (rows : List Consumption)
    → exists (row_of k i) rows ≡ true
    → exists (key_is k) rows ≡ true
row_of-key k i [] h = cc
row_of-key k i (c ∷ rows) h = ground (arith, row_of-key k i rows)

-- A report that belongs to a batch that is accepted, terminal or uncertain is never claimed again:
-- after any later operations of this store, no admission claims its key.
pub consumed_once :
    (strip : String → String) (k i : String) (db db' : WakeDb) (ops : List Op) (core : Core)
    (at : ℕ) (resolved : String) (keys : List String) (new j : String) (owner : Option String)
    (claims : List Claim) (ignored : List String) (rejected : List (String × Reason))
    → Spent i db
    → held k i db ≡ true
    → admit core at (play strip db ops) resolved keys new owner
      ≡ ok (Reply.admitted j claims ignored rejected, db')
    → exists (claim_is k) claims ≡ false
consumed_once strip k i db db' ops core at resolved keys new j owner claims ignored rejected s h e =
    admit-refuses k core at (play strip db ops) db' resolved keys new j owner claims ignored
      rejected (row_of-key k i (play strip db ops).consumption (play-held k i strip db ops s h)) e
