-- ===== src/Steer/Once.antt =====
-- compat/steer_store.py: a client key is admitted at most once.
use hermes_app.Base.{
  ℕ, String, Bool, true, false, Bool-cases, ◌≡◌, ◌≢◌, refl, some, List, [], ◌∷◌, inl, inr, arith,
  ok, committed, committed-bind, committed-if, if-keeps, eq_refl, eq_iff, if◌then◌else◌, ◌==◌, ◌||◌,
}
use hermes_app.Base.Table.{
  find, exists, update, insert, insert_or_replace, exists-find, exists-append, exists-update,
  exists-split, exists-insert_or_replace, find-append, select,
}
use hermes_app.Steer.Defs.{
  Run, Steer, PurgedKey, SteerDb, steer_in, steer_at, purged_at_key, purged_clash, accepted_in,
  in_batch, batch_has_id, batch_clash, run_at,
}
use hermes_app.Steer.Runs.{Request, register_run, retired, seal_run}
use hermes_app.Steer.Rows.{digest_of, new_steer}
use hermes_app.Steer.Admit.{Verdict, admit_key, admit}
use hermes_app.Steer.Batches.{
  claim_rows, claim_batch, claimable, new_batch, run_is_open, batch_is_open, confirm_batch,
  mark_outcome_unknown,
}
use hermes_app.Steer.Prune.{purge_keys, prune_run, prune_runs, prune_expired}
use hermes_app.Steer.Effects.{admitted-inversion, admit-effect, record_handoff-effect}
use hermes_app.Steer.History.{Op, step, play, play-keeps}

new_steer-found :
    (hexdigest : String → String) (now : ℕ) (q : Request) (seq : ℕ)
    → find (steer_at q.owner_scope q.run_id q.key) (new_steer hexdigest now q seq ∷ [])
      ≡ some (new_steer hexdigest now q seq)
unfolding new_steer steer_at
new_steer-found hexdigest now q seq = simp eq_refl

new_steer-exists :
    (hexdigest : String → String) (now : ℕ) (q : Request) (seq : ℕ)
    → exists (steer_at q.owner_scope q.run_id q.key) (new_steer hexdigest now q seq ∷ []) ≡ true
unfolding new_steer steer_at
new_steer-exists hexdigest now q seq = simp eq_refl

-- After an admission, any request with the same key for the same run of the same owner, whatever its
-- sessions, its epoch and its text, is answered by the row that was admitted: as a duplicate if the
-- texts have the same digest, as a conflict if not; and nothing is written.
pub admit_retry :
    (hexdigest : String → String) (now later : ℕ) (db db' : SteerDb) (q q' : Request) (s : Steer)
    → admit hexdigest now db q ≡ ok (Verdict.admitted s, db')
    → q'.owner_scope ≡ q.owner_scope
    → q'.run_id ≡ q.run_id
    → q'.key ≡ q.key
    → admit hexdigest later db' q'
      ≡ ok (
        if digest_of hexdigest q.input_text == digest_of hexdigest q'.input_text
            then Verdict.duplicate s
            else Verdict.conflict s,
        db',
      )
unfolding admit admit_key
admit_retry hexdigest now later db db' q q' s h owner run key =
    let (seq, row, a, g) = admitted-inversion hexdigest now db db' q s h in
    let clear : exists (purged_at_key q'.owner_scope q'.run_id q'.key) db'.purged_keys ≡ false =
      rw (owner, run, key, g.shape) a.unpurged in
    let found : find (steer_at q'.owner_scope q'.run_id q'.key) db'.steers ≡ some s =
      rw (owner, run, key, g.shape, find-append, a.unknown, new_steer-found, row) in
    let digest : s.digest ≡ digest_of hexdigest q.input_text = rw row (unfold new_steer in refl) in
    rw clear (rw found (rw digest))

-- A key that has a receipt, or whose receipt was purged.
abbrev pub known : String → String → String → SteerDb → Bool
known o r k db = exists (steer_at o r k) db.steers || exists (purged_at_key o r k) db.purged_keys

-- A known key is not admitted.
known-refused :
    (hexdigest : String → String) (now : ℕ) (db db' : SteerDb) (q : Request) (s : Steer)
    → known q.owner_scope q.run_id q.key db ≡ true
    → admit hexdigest now db q ≢ ok (Verdict.admitted s, db')
known-refused hexdigest now db db' q s h e =
    let (seq, _, a, _) = admitted-inversion hexdigest now db db' q s e in
    ground
      (arith, a.unpurged, a.unknown, exists-find (steer_at q.owner_scope q.run_id q.key) db.steers)

module _ (o r k : String) where
  -- The columns of the key are not updated.
  steers_updated :
      (db : SteerDb) (p : Steer → Bool) (f : Steer → Steer)
      → ((x : Steer) → steer_at o r k (f x) ≡ steer_at o r k x)
      → known o r k db ≡ true
      → known o r k (record db { steers = update p f db.steers }) ≡ true
  steers_updated db p f keeps h = rw (exists-update (steer_at o r k) p f db.steers keeps) h

  purged_clash-same :
      (a b : PurgedKey)
      → purged_clash a b ≡ true
      → purged_at_key o r k b ≡ true
      → purged_at_key o r k a ≡ true
  unfolding purged_at_key purged_clash
  purged_clash-same a b c q = ground (
    arith,
    eq_iff b.owner_scope a.owner_scope,
    eq_iff b.owner_scope o,
    eq_iff a.owner_scope o,
    eq_iff b.run_id a.run_id,
    eq_iff b.run_id r,
    eq_iff a.run_id r,
    eq_iff b.key a.key,
    eq_iff b.key k,
    eq_iff a.key k,
  )

  purge_keeps :
      (at : ℕ) (rows : List Steer) (purged : List PurgedKey)
      → exists (purged_at_key o r k) purged ≡ true
      → exists (purged_at_key o r k) (purge_keys at rows purged) ≡ true
  unfolding purge_keys
  purge_keeps at [] purged h = h
  purge_keeps at (s ∷ rest) purged h = purge_keeps at rest _ (
      exists-insert_or_replace (purged_at_key o r k) purged_clash _ purged
        (λ x. purged_clash-same _ x) h)

  purged_first :
      (at : ℕ) (s : Steer) (purged : List PurgedKey)
      → steer_at o r k s ≡ true
      → exists (purged_at_key o r k) (
          insert_or_replace purged_clash
            (record { owner_scope = s.owner_scope; run_id = s.run_id; key = s.key; purged_at = at })
            purged)
        ≡ true
  unfolding steer_at purged_at_key
  purged_first at s purged h = rw exists-append (ground arith)

  purged_all :
      (at : ℕ) (rows : List Steer) (purged : List PurgedKey)
      → exists (steer_at o r k) rows ≡ true
      → exists (purged_at_key o r k) (purge_keys at rows purged) ≡ true
  unfolding purge_keys
  purged_all at [] purged h = cc
  purged_all at (s ∷ rest) purged h = elim (Bool-cases (steer_at o r k s)) [
    | inl here ↦ purge_keeps at rest _ (purged_first at s purged here)
    | inr there ↦ purged_all at rest _ (ground arith)
  ]

  prune_runs-known :
      (at : ℕ) (runs : List Run) (removed : ℕ) (db : SteerDb)
      → known o r k db ≡ true
      → known o r k (prune_runs at runs removed db).1 ≡ true
  unfolding prune_runs prune_run
  prune_runs-known at [] removed db h = h
  prune_runs-known at (run ∷ rest) removed db h =
      let rows = select (steer_in run.owner_scope run.run_id) db.steers in
      prune_runs-known at rest _ _ (
        ground (
          arith,
          exists-split (steer_at o r k) (steer_in run.owner_scope run.run_id) db.steers,
          purged_all at rows db.purged_keys,
          purge_keeps at rows db.purged_keys,
        ))

  claim_batch-known :
      (now : ℕ) (db : SteerDb) (o' r' b : String)
      → known o r k db ≡ true
      → known o r k (committed db (claim_batch now db o' r' b)) ≡ true
  unfolding claim_batch claim_rows steer_at
  claim_batch-known now db o' r' b h =
      committed-if (λ d. known o r k d ≡ true) db (run_is_open (find (run_at o' r') db.runs)) _ _
        (λ _. rows (claimable db o' r')) (λ _. h)
    where
      rows : (l : List Steer) → known o r k (committed db (claim_rows now db o' r' b l)) ≡ true
      rows [] = h
      rows (s ∷ l) =
          committed-bind (λ d. known o r k d ≡ true) db
            (insert batch_clash (new_batch now o' r' b (s ∷ l)) db.batches) _ h
            λ batches _. steers_updated db (accepted_in o' r') _ (λ x. refl) h

  step-known :
      (hexdigest : String → String) (db : SteerDb) (op : Op)
      → known o r k db ≡ true
      → known o r k (step hexdigest db op) ≡ true
  unfolding step steer_at
  step-known hexdigest db (Op.register o' r' a b c) h = unfold register_run in h
  step-known hexdigest db (Op.seal now o' r' reason) h =
      unfold seal_run retired in steers_updated db (accepted_in o' r') _ (λ x. refl) h
  step-known hexdigest db (Op.submit now q) h = elim (admit-effect hexdigest now db q) [
    | inl same ↦ rw same h
    | inr (seq, _, g) ↦ rw (g.shape, exists-append) (ground arith)
  ]
  step-known hexdigest db (Op.handoff now q) h = elim (record_handoff-effect hexdigest now db q) [
    | inl same ↦ rw same h
    | inr (seq, _, g) ↦ rw (g.shape, exists-append) (ground arith)
  ]
  step-known hexdigest db (Op.claim now o' r' b) h = claim_batch-known now db o' r' b h
  step-known hexdigest db (Op.confirm now b row) h =
      unfold confirm_batch in
      if-keeps (λ (d : SteerDb). known o r k d ≡ true)
        (batch_is_open (find (batch_has_id b) db.batches)) _ _
        (λ _. steers_updated db (in_batch b) _ (λ x. refl) h) (λ _. h)
  step-known hexdigest db (Op.lose now b reason) h =
      unfold mark_outcome_unknown in
      if-keeps (λ (d : SteerDb). known o r k d ≡ true)
        (batch_is_open (find (batch_has_id b) db.batches)) _ _
        (λ _. steers_updated db (in_batch b) _ (λ x. refl) h) (λ _. h)
  step-known hexdigest db (Op.prune now at) h = unfold prune_expired in prune_runs-known at _ 0 db h

-- A key is admitted at most once: after an admission and any later writes, pruning included, no
-- request with the same key for the same run of the same owner, whatever its sessions, its epoch and
-- its text, is admitted.
pub admitted_once :
    (hexdigest : String → String) (now later : ℕ) (db db' d : SteerDb) (q q' : Request)
    (s s' : Steer) (ops : List Op)
    → admit hexdigest now db q ≡ ok (Verdict.admitted s, db')
    → q'.owner_scope ≡ q.owner_scope
    → q'.run_id ≡ q.run_id
    → q'.key ≡ q.key
    → admit hexdigest later (play hexdigest db' ops) q' ≢ ok (Verdict.admitted s', d)
admitted_once hexdigest now later db db' d q q' s s' ops h owner run key =
    let (seq, _, _, g) = admitted-inversion hexdigest now db db' q s h in
    let start : known q.owner_scope q.run_id q.key db' ≡ true =
      rw (g.shape, exists-append, new_steer-exists) (ground arith) in
    let still : known q.owner_scope q.run_id q.key (play hexdigest db' ops) ≡ true =
      play-keeps hexdigest (λ e. known q.owner_scope q.run_id q.key e ≡ true)
        (step-known q.owner_scope q.run_id q.key hexdigest) db' ops start in
    known-refused hexdigest later (play hexdigest db' ops) d q' s' (rw (owner, run, key) still)
