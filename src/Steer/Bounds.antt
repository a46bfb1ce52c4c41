-- ===== src/Steer/Bounds.antt =====
-- compat/steer_store.py: the queue of a run stays within OUTSTANDING_LIMIT.
use hermes_app.Base.{
  ℕ, ◌≤◌, ◌<◌, String, Bool, true, false, ◌≡◌, Option, some, List, [], ◌∷◌, ◌++◌, arith, Bool-cases,
  inl, inr, eq_iff, committed, committed-bind, committed-if, if-keeps,
}
use hermes_app.Base.Table.{
  count, find, update, insert, count-append, count-update_le, count-delete_le,
}
use hermes_app.Steer.Defs.{
  SteerState, Steer, Run, SteerDb, empty_db, outstanding_limit, steer_in, outstanding_in,
  accepted_in, in_batch, run_at, batch_clash, batch_has_id,
}
use hermes_app.Steer.Runs.{Request, register_run, retired, seal_run}
use hermes_app.Steer.Rows.{new_steer}
use hermes_app.Steer.Admit.{admit}
use hermes_app.Steer.Handoff.{record_handoff, handoff_steer}
use hermes_app.Steer.Batches.{
  claim_rows, claim_batch, claimable, new_batch, run_is_open, batch_is_open, confirm_batch,
  mark_outcome_unknown,
}
use hermes_app.Steer.Prune.{prune_run, prune_runs, prune_expired}
use hermes_app.Steer.Effects.{admit-effect, record_handoff-effect}
use hermes_app.Steer.History.{Op, step, play, play-keeps}

abbrev pub outstanding : String → String → SteerDb → ℕ
outstanding o r db = count (outstanding_in o r) db.steers

-- Every run has at most `outstanding_limit` steers that are accepted or staged.
abbrev pub IsBounded : SteerDb → Type 0
IsBounded db = (o r : String) → outstanding o r db ≤ outstanding_limit

-- A steer counts for its own run only.
outstanding_in-own :
    (o r : String) (s : Steer) → outstanding_in o r s ≡ true → (o ≡ s.owner_scope) × (r ≡ s.run_id)
unfolding outstanding_in steer_in
outstanding_in-own o r s h = ground (arith, eq_iff s.owner_scope o, eq_iff s.run_id r)

-- A new row where there was room.
append-IsBounded :
    (db : SteerDb) (s : Steer)
    → count (outstanding_in s.owner_scope s.run_id) db.steers < outstanding_limit
    → IsBounded db
    → (o r : String) → count (outstanding_in o r) (db.steers ++ (s ∷ [])) ≤ outstanding_limit
append-IsBounded db s room h o r = elim (Bool-cases (outstanding_in o r s)) [
  | inl own ↦
      let (eo, er) = outstanding_in-own o r s own in rw (eo, er, count-append) (ground arith)
  | inr other ↦ ground (arith, count-append (outstanding_in o r) db.steers (s ∷ []), h o r)
]

-- A new row that is not outstanding.
append_closed-IsBounded :
    (db : SteerDb) (s : Steer)
    → ((o r : String) → outstanding_in o r s ≡ false)
    → IsBounded db
    → (o r : String) → count (outstanding_in o r) (db.steers ++ (s ∷ [])) ≤ outstanding_limit
append_closed-IsBounded db s idle h o r =
    ground (arith, count-append (outstanding_in o r) db.steers (s ∷ []), h o r, idle o r)

-- Updates that do not make a steer outstanding keep the bound.
update-IsBounded :
    (db : SteerDb) (p : Steer → Bool) (f : Steer → Steer)
    → ((o r : String) (x : Steer)
        → p x ≡ true
        → outstanding_in o r (f x) ≡ true
        → outstanding_in o r x ≡ true)
    → IsBounded db
    → (o r : String) → count (outstanding_in o r) (update p f db.steers) ≤ outstanding_limit
update-IsBounded db p f keeps h o r =
    omega (arith, count-update_le (outstanding_in o r) p f db.steers (keeps o r), h o r)

pub seal_run-IsBounded :
    (now : ℕ) (db : SteerDb) (o r reason : String)
    → IsBounded db
    → IsBounded (seal_run now db o r reason).1
unfolding seal_run outstanding_in retired
seal_run-IsBounded now db o r reason h =
    update-IsBounded db (accepted_in o r) _ (λ o' r' x e e'. ground arith) h

claimed-outstanding :
    (o r o' r' : String) (x : Steer) (b : Option String) (now : ℕ)
    → accepted_in o r x ≡ true
    → outstanding_in o' r' (record x { state = SteerState.staged; batch_id = b; updated_at = now })
      ≡ true
    → outstanding_in o' r' x ≡ true
unfolding accepted_in outstanding_in steer_in
claimed-outstanding o r o' r' x b now h e = ground arith

claim_rows-IsBounded :
    (now : ℕ) (db : SteerDb) (o r b : String) (rows : List Steer)
    → IsBounded db
    → IsBounded (committed db (claim_rows now db o r b rows))
unfolding claim_rows
claim_rows-IsBounded now db o r b [] h = h
claim_rows-IsBounded now db o r b (s ∷ rest) h =
    committed-bind IsBounded db (insert batch_clash (new_batch now o r b (s ∷ rest)) db.batches) _ h
      λ batches _.
        update-IsBounded db (accepted_in o r) _
          (λ o' r' x. claimed-outstanding o r o' r' x (some b) now) h

pub claim_batch-IsBounded :
    (now : ℕ) (db : SteerDb) (o r b : String)
    → IsBounded db
    → IsBounded (committed db (claim_batch now db o r b))
unfolding claim_batch
claim_batch-IsBounded now db o r b h =
    committed-if IsBounded db (run_is_open (find (run_at o r) db.runs)) _ _
      (λ _. claim_rows-IsBounded now db o r b (claimable db o r) h) (λ _. h)

pub confirm_batch-IsBounded :
    (now : ℕ) (db : SteerDb) (b row : String)
    → IsBounded db
    → IsBounded (confirm_batch now db b row)
unfolding confirm_batch outstanding_in
confirm_batch-IsBounded now db b row h =
    if-keeps IsBounded (batch_is_open (find (batch_has_id b) db.batches)) _ _
      (λ _. update-IsBounded db (in_batch b) _ (λ o r x _ e. ground arith) h) (λ _. h)

pub admit-IsBounded :
    (hexdigest : String → String) (now : ℕ) (db : SteerDb) (q : Request)
    → IsBounded db
    → IsBounded (committed db (admit hexdigest now db q))
admit-IsBounded hexdigest now db q h = elim (admit-effect hexdigest now db q) [
  | inl same ↦ rw same h
  | inr (seq, a, g) ↦
      rw g.shape
        (append-IsBounded db (new_steer hexdigest now q seq) (unfold new_steer in a.room) h)
]

mark_outcome_unknown-IsBounded :
    (now : ℕ) (db : SteerDb) (b reason : String)
    → IsBounded db
    → IsBounded (mark_outcome_unknown now db b reason)
unfolding mark_outcome_unknown outstanding_in
mark_outcome_unknown-IsBounded now db b reason h =
    if-keeps IsBounded (batch_is_open (find (batch_has_id b) db.batches)) _ _
      (λ _. update-IsBounded db (in_batch b) _ (λ o r x _ e. ground arith) h) (λ _. h)

handoff_steer-idle :
    (hexdigest : String → String) (now : ℕ) (q : Request) (seq : ℕ) (o r : String)
    → outstanding_in o r (handoff_steer hexdigest now q seq) ≡ false
unfolding handoff_steer outstanding_in
handoff_steer-idle hexdigest now q seq o r = ground arith

pub record_handoff-IsBounded :
    (hexdigest : String → String) (now : ℕ) (db : SteerDb) (q : Request)
    → IsBounded db
    → IsBounded (committed db (record_handoff hexdigest now db q))
record_handoff-IsBounded hexdigest now db q h = elim (record_handoff-effect hexdigest now db q) [
  | inl same ↦ rw same h
  | inr (seq, _, g) ↦ rw g.shape (
      append_closed-IsBounded db (handoff_steer hexdigest now q seq)
        (handoff_steer-idle hexdigest now q seq) h)
]

prune_runs-IsBounded :
    (at : ℕ) (runs : List Run) (removed : ℕ) (db : SteerDb)
    → IsBounded db
    → IsBounded (prune_runs at runs removed db).1
unfolding prune_runs prune_run
prune_runs-IsBounded at [] removed db h = h
prune_runs-IsBounded at (run ∷ rest) removed db h = prune_runs-IsBounded at rest _ _ (λ o r. omega (
  arith,
  count-delete_le (outstanding_in o r) (steer_in run.owner_scope run.run_id) db.steers,
  h o r,
))

step-IsBounded :
    (hexdigest : String → String) (db : SteerDb) (op : Op)
    → IsBounded db
    → IsBounded (step hexdigest db op)
unfolding step
step-IsBounded hexdigest db (Op.register o r a b c) h = unfold register_run in h
step-IsBounded hexdigest db (Op.seal now o r reason) h = seal_run-IsBounded now db o r reason h
step-IsBounded hexdigest db (Op.submit now q) h = admit-IsBounded hexdigest now db q h
step-IsBounded hexdigest db (Op.handoff now q) h = record_handoff-IsBounded hexdigest now db q h
step-IsBounded hexdigest db (Op.claim now o r b) h = claim_batch-IsBounded now db o r b h
step-IsBounded hexdigest db (Op.confirm now b row) h = confirm_batch-IsBounded now db b row h
step-IsBounded hexdigest db (Op.lose now b reason) h =
    mark_outcome_unknown-IsBounded now db b reason h
step-IsBounded hexdigest db (Op.prune now at) h =
    unfold prune_expired in prune_runs-IsBounded at _ 0 db h

-- From an empty store, after any sequence of the store's writes, at most 32 steers of any one run
-- are accepted or staged.
pub play-IsBounded :
    (hexdigest : String → String) (ops : List Op) (o r : String)
    → outstanding o r (play hexdigest empty_db ops) ≤ 32
play-IsBounded hexdigest ops =
    play-keeps hexdigest IsBounded (step-IsBounded hexdigest) empty_db ops (λ o r. omega arith)
