-- ===== src/Wake/Edges.antt =====
-- compat/auto_wake_store.py: the state machine of a batch.
use hermes_app.Base.{
  ℕ, String, Bool, true, false, not, ◌&&◌, ◌||◌, ◌≡◌, refl, ◌⊎◌, inl, inr, Option, none, some, List,
  ◌==◌, eq_iff, arith, if-keeps, if◌then◌else◌, nat_eq, is_some, opt_eq,
}
use hermes_app.Base.Table.{find, count, update, find-some, find-update}
use hermes_app.Wake.Defs.{
  WakeState, WakeBatch, Consumption, WakeDb, is_reserved, is_dispatching, is_accepted, in_flight,
  batch_is,
}
use hermes_app.Wake.Dispatch.{
  Gate, Reported, ReportReply, reserved_as, gate_state, gate_found, undispatched, dispatch_failed,
  dispatching_as, in_flight_as, report_update, accept_row, terminal_row, uncertain_row,
  report_accepted, report_state, report_found, released_row, release_found,
}

-- The moves of a batch.
pub data Edge : WakeState → WakeState → Type 0 where
  dispatches : Edge WakeState.reserved WakeState.dispatching
  gives_back : Edge WakeState.reserved WakeState.released
  reverts : Edge WakeState.dispatching WakeState.reserved
  accepts : Edge WakeState.dispatching WakeState.accepted
  ends : Edge WakeState.dispatching WakeState.terminal
  doubts : Edge WakeState.dispatching WakeState.uncertain_consumed
  ends_run : Edge WakeState.accepted WakeState.terminal
  doubts_run : Edge WakeState.accepted WakeState.uncertain_consumed

-- The batch is there, and its state has stayed or has moved along an edge.
pub record Moves (i : String) (s : WakeState) (db : WakeDb) : Type 0 where
  pub batch : WakeBatch
  pub found : find (batch_is i) db.batches ≡ some batch
  pub move : (batch.state ≡ s) ⊎ Edge s batch.state

pub stays :
    (i : String) (b : WakeBatch) (db : WakeDb)
    → find (batch_is i) db.batches ≡ some b
    → Moves i b.state db
stays i b db h = record { batch = b; found = h; move = inl refl }

is_reserved-Edge : (x y : WakeState) → is_reserved x ≡ true → Edge WakeState.reserved y → Edge x y
is_reserved-Edge x y h edge = let same : x ≡ WakeState.reserved = ground arith in rw same edge

is_dispatching-Edge :
    (x y : WakeState) → is_dispatching x ≡ true → Edge WakeState.dispatching y → Edge x y
is_dispatching-Edge x y h edge = let same : x ≡ WakeState.dispatching = ground arith in rw same edge

in_flight-Edge :
    (x y : WakeState)
    → in_flight x ≡ true
    → Edge WakeState.dispatching y
    → Edge WakeState.accepted y
    → Edge x y
in_flight-Edge WakeState.dispatching y h from_dispatching from_accepted = from_dispatching
in_flight-Edge WakeState.accepted y h from_dispatching from_accepted = from_accepted
in_flight-Edge WakeState.reserved y h from_dispatching from_accepted = cc
in_flight-Edge WakeState.terminal y h from_dispatching from_accepted = cc
in_flight-Edge WakeState.uncertain_consumed y h from_dispatching from_accepted = cc
in_flight-Edge WakeState.released y h from_dispatching from_accepted = cc

-- The tracked batch, `i`, in a ledger where it is `b`.
module _ (i : String) (b : WakeBatch) (db : WakeDb)
    (here : find (batch_is i) db.batches ≡ some b) where
  update-Moves :
      (p : WakeBatch → Bool) (f : WakeBatch → WakeBatch)
      → ((x : WakeBatch) → batch_is i (f x) ≡ batch_is i x)
      → (p b ≡ true → Edge b.state (f b).state)
      → (rows : List Consumption)
      → Moves i b.state (record { batches = update p f db.batches; consumption = rows })
  update-Moves p f same edge rows =
      at (p b) refl (rw (find-update (batch_is i) p f db.batches same, here) refl)
    where
      at :
          (t : Bool)
          → p b ≡ t
          → find (batch_is i) (update p f db.batches) ≡ some (if t then f b else b)
          → Moves i b.state (record { batches = update p f db.batches; consumption = rows })
      at true e k = record { batch = f b; found = k; move = inr (edge e) }
      at false e k = record { batch = b; found = k; move = inl refl }

  staying : Moves i b.state db
  staying = stays i b db here

  moved :
      (p : WakeBatch → Bool) (f : WakeBatch → WakeBatch)
      → ((x : WakeBatch) → batch_is i (f x) ≡ batch_is i x)
      → (p b ≡ true → Edge b.state (f b).state)
      → Moves i b.state (record db { batches = update p f db.batches })
  moved p f same edge = update-Moves p f same edge db.consumption

  gate_state-Moves :
      (now : ℕ) (j input : String) (c : WakeBatch) (s : WakeState)
      → Moves i b.state (gate_state now db j input c s).1
  unfolding gate_state reserved_as batch_is
  gate_state-Moves now j input c WakeState.reserved =
      if-keeps (λ (r : Option Gate × WakeDb). Moves i b.state r.1)
        (not (input == c.canonical_input)) _ _ (λ _. staying)
        λ _.
          moved (reserved_as j) _ (λ x. refl)
            λ h. is_reserved-Edge b.state _ (ground arith) Edge.dispatches
  gate_state-Moves now j input c WakeState.dispatching = staying
  gate_state-Moves now j input c WakeState.accepted = staying
  gate_state-Moves now j input c WakeState.terminal = staying
  gate_state-Moves now j input c WakeState.uncertain_consumed = staying
  gate_state-Moves now j input c WakeState.released = staying

  pub gate_found-Moves :
      (now : ℕ) (j resolved input : String) (found : Option WakeBatch)
      → Moves i b.state (gate_found now db j resolved input found).1
  unfolding gate_found
  gate_found-Moves now j resolved input none = staying
  gate_found-Moves now j resolved input (some c) =
      if-keeps (λ (r : Option Gate × WakeDb). Moves i b.state r.1) (not (c.session_id == resolved))
        _ _ (λ _. staying) (λ _. gate_state-Moves now j input c c.state)

  pub dispatch_failed-Moves : (now : ℕ) (j : String) → Moves i b.state (dispatch_failed now db j)
  unfolding dispatch_failed undispatched batch_is
  dispatch_failed-Moves now j =
      moved (undispatched j) _ (λ x. refl)
        λ h. is_dispatching-Edge b.state _ (ground arith) Edge.reverts

  report_update-Moves :
      (j : String) (p : WakeBatch → Bool) (f : WakeBatch → WakeBatch)
      → ((x : WakeBatch) → batch_is i (f x) ≡ batch_is i x)
      → (p b ≡ true → Edge b.state (f b).state)
      → Moves i b.state (report_update db j p f).1
  unfolding report_update
  report_update-Moves j p f same edge =
      if-keeps (λ (r : ReportReply × WakeDb). Moves i b.state r.1)
        (not (nat_eq (count p db.batches) 1)) _ _ (λ _. staying) (λ _. moved p f same edge)

  report_accepted-Moves :
      (at : ℕ) (j resolved run : String) (c : WakeBatch)
      → Moves i b.state (report_accepted at db j resolved run c).1
  unfolding report_accepted accept_row dispatching_as batch_is
  report_accepted-Moves at j resolved run c =
      if-keeps (λ (r : ReportReply × WakeDb). Moves i b.state r.1) (run == "") _ _ (λ _. staying)
        λ _.
          if-keeps (λ (r : ReportReply × WakeDb). Moves i b.state r.1)
            (is_accepted c.state && opt_eq c.run_id (some run)) _ _ (λ _. staying)
            λ _.
              if-keeps (λ (r : ReportReply × WakeDb). Moves i b.state r.1)
                (not (is_dispatching c.state)) _ _ (λ _. staying)
                λ _.
                  report_update-Moves j (dispatching_as j resolved) (accept_row at run) (λ x. refl)
                    λ h. is_dispatching-Edge b.state _ (ground arith) Edge.accepts

  report_state-Moves :
      (strip : String → String) (at : ℕ) (j resolved : String) (c : WakeBatch) (to : Reported)
      (run : Option String)
      → Moves i b.state (report_state strip at db j resolved c to run).1
  unfolding report_state in_flight_as terminal_row uncertain_row batch_is
  report_state-Moves strip at j resolved c Reported.to_accepted none = staying
  report_state-Moves strip at j resolved c Reported.to_accepted (some run) =
      report_accepted-Moves at j resolved (strip run) c
  report_state-Moves strip at j resolved c Reported.to_terminal run =
      if-keeps (λ (r : ReportReply × WakeDb). Moves i b.state r.1) (not (in_flight c.state)) _ _
        (λ _. staying)
        λ _.
          report_update-Moves j (in_flight_as j resolved) (terminal_row at) (λ x. refl)
            λ h. in_flight-Edge b.state _ (ground arith) Edge.ends Edge.ends_run
  report_state-Moves strip at j resolved c Reported.to_uncertain run =
      if-keeps (λ (r : ReportReply × WakeDb). Moves i b.state r.1) (not (in_flight c.state)) _ _
        (λ _. staying)
        λ _.
          report_update-Moves j (in_flight_as j resolved) (uncertain_row at) (λ x. refl)
            λ h. in_flight-Edge b.state _ (ground arith) Edge.doubts Edge.doubts_run
  report_state-Moves strip at j resolved c Reported.other run = staying

  pub report_found-Moves :
      (strip : String → String) (at : ℕ) (j resolved : String) (to : Reported) (run : Option String)
      (found : Option WakeBatch)
      → Moves i b.state (report_found strip at db j resolved to run found).1
  unfolding report_found
  report_found-Moves strip at j resolved to run none = staying
  report_found-Moves strip at j resolved to run (some c) =
      if-keeps (λ (r : ReportReply × WakeDb). Moves i b.state r.1) (not (c.session_id == resolved))
        _ _ (λ _. staying) (λ _. report_state-Moves strip at j resolved c to run)

  -- The batch that a release frees and that is `b` is the one that it has found reserved.
  same_batch :
      (j : String) (c : WakeBatch)
      → find (batch_is j) db.batches ≡ some c
      → batch_is j b ≡ true
      → b ≡ c
  unfolding batch_is
  same_batch j c there h =
      let k = find-some (batch_is i) db.batches b here in
      let same : i ≡ j = ground (arith, eq_iff b.batch_id i, eq_iff b.batch_id j) in
      let there' : find (batch_is i) db.batches ≡ some c = rw same there in cc

  pub release_found-Moves :
      (now : ℕ) (j resolved : String) (found : Option WakeBatch)
      → find (batch_is j) db.batches ≡ found
      → Moves i b.state (release_found now db j resolved found).1
  unfolding release_found released_row
  release_found-Moves now j resolved none e = staying
  release_found-Moves now j resolved (some c) e =
      if-keeps (λ (r : ReportReply × WakeDb). Moves i b.state r.1) (not (c.session_id == resolved))
        _ _ (λ _. staying)
        λ _.
          if-keeps (λ (r : ReportReply × WakeDb). Moves i b.state r.1)
            (not (is_reserved c.state) || is_some c.run_id) _ _ (λ _. staying)
            λ free.
              update-Moves (batch_is j) (released_row now) (λ x. unfold batch_is in refl)
                (λ h.
                  let same = same_batch j c e h in
                  is_reserved-Edge b.state _ (rw same (ground arith)) Edge.gives_back)
                _
