-- ===== src/Steer/Effects.antt =====
-- compat/steer_store.py: what `admit` and `record_handoff` do to the tables, in one statement each:
-- nothing, or one new row of `steers` with the number that the run gives it.
use hermes_app.Base.{
  ℕ, ◌+◌, ◌<◌, String, true, false, ◌≡◌, refl, Option, none, some, List, [], ◌∷◌, ◌++◌, ◌⊎◌, inl,
  inr, arith, leb, leb_false→lt, is_some, Result, ok, raised, committed, committed-bind, bind-cases,
  if-keeps, Exc, sym, ◌∙◌, or_raise, or_raise-ok, type_error, eq_refl,
}
use hermes_app.Base.Table.{
  count, find, exists, insert, insert_or_ignore, insert-ok, exists-find, find-append,
}
use hermes_app.Steer.Defs.{
  Run, Steer, SteerDb, outstanding_limit, outstanding_in, run_at, steer_at, steer_clash, run_clash,
  purged_at_key, has_id,
}
use hermes_app.Steer.Runs.{Request, new_run, set_next_seq}
use hermes_app.Steer.Rows.{derive_steer_id, new_steer}
use hermes_app.Steer.Admit.{
  admit_row, admit_seq, admit_bounded, admit_open, admit_key, admit, Verdict, is_admitted,
}
use hermes_app.Steer.Handoff.{handoff_steer, handoff_new, handoff_hit, record_handoff}

-- Where the number comes from: 1 and a new row of `runs`, or the run's next number.
pub data Numbering (db : SteerDb) (q : Request) (seq : ℕ) (runs : List Run) : Type 0 where
  first :
      find (run_at q.owner_scope q.run_id) db.runs ≡ none
      → seq ≡ 1
      → runs ≡ set_next_seq q.owner_scope q.run_id 2 (db.runs ++ (new_run q ∷ []))
      → Numbering db q seq runs
  later :
      (run : Run)
      → find (run_at q.owner_scope q.run_id) db.runs ≡ some run
      → seq ≡ run.next_seq
      → runs ≡ set_next_seq q.owner_scope q.run_id (seq + 1) db.runs
      → Numbering db q seq runs

-- `db'` is `db` with the row `s` added.
pub record Grown (db : SteerDb) (q : Request) (s : Steer) (db' : SteerDb) : Type 0 where
  pub runs : List Run
  pub shape : db' ≡ record db { runs = runs; steers = db.steers ++ (s ∷ []) }
  pub fresh : exists (steer_clash s) db.steers ≡ false
  pub numbering : Numbering db q s.seq runs

-- What the guards of `admit` let through.
pub record Admitted (db : SteerDb) (q : Request) : Type 0 where
  pub unpurged : exists (purged_at_key q.owner_scope q.run_id q.key) db.purged_keys ≡ false
  pub unknown : find (steer_at q.owner_scope q.run_id q.key) db.steers ≡ none
  pub open_run :
      (run : Run)
      → find (run_at q.owner_scope q.run_id) db.runs ≡ some run
      → is_some run.closed_reason ≡ false
  pub room : count (outstanding_in q.owner_scope q.run_id) db.steers < outstanding_limit

-- The row that `admit` reads back is the row that it has inserted.
inserted-found :
    (s : Steer) (steers : List Steer)
    → exists (steer_clash s) steers ≡ false
    → find (has_id s.steer_id) (steers ++ (s ∷ [])) ≡ some s
unfolding steer_clash has_id
inserted-found s [] h = simp eq_refl
inserted-found s (x ∷ xs) h = ground (arith, inserted-found s xs)

module _ (hexdigest : String → String) (now : ℕ) (db : SteerDb) (q : Request) where
  -- What an admission answers: an exception or a refusal, and the tables as they were; or the
  -- new row, and the tables with that row.
  pub data Answers (m : Result (Verdict × SteerDb)) : Type 0 where
    fails : (e : Exc) → m ≡ raised e → Answers m
    refuses : (v : Verdict) → is_admitted v ≡ false → m ≡ ok (v, db) → Answers m
    grows :
        (seq : ℕ) (db' : SteerDb)
        → m ≡ ok (Verdict.admitted (new_steer hexdigest now q seq), db')
        → Admitted db q
        → Grown db q (new_steer hexdigest now q seq) db'
        → Answers m

  admit_row-Answers :
      (runs : List Run) (seq : ℕ)
      → Admitted db q
      → Numbering db q seq runs
      → Answers (admit_row hexdigest now db q runs seq)
  unfolding admit_row
  admit_row-Answers runs seq a n =
      bind-cases Answers (insert steer_clash (new_steer hexdigest now q seq) db.steers) _
        (λ e. fails e refl)
        λ steers e.
          let (grown, fresh) = insert-ok steer_clash _ db.steers steers e in
          bind-cases Answers
            (or_raise
              (find (has_id (derive_steer_id hexdigest q.owner_scope q.run_id q.key)) steers)
              type_error)
            _ (λ e. fails e refl)
            λ row back.
              let there : some row ≡ some (new_steer hexdigest now q seq) =
                sym (or_raise-ok _ type_error row back)
                ∙ rw grown (
                    unfold new_steer in
                    inserted-found (new_steer hexdigest now q seq) db.steers fresh) in
              grows seq (record db { runs = runs; steers = steers })
                (let e' : row ≡ new_steer hexdigest now q seq = cc in rw e') a
                (record {
                  runs = runs;
                  shape = rw grown;
                  fresh = fresh;
                  numbering = unfold new_steer in n;
                })

  admit_seq-Answers :
      (run : Option Run)
      → find (run_at q.owner_scope q.run_id) db.runs ≡ run
      → Admitted db q
      → Answers (admit_seq hexdigest now db q run)
  unfolding admit_seq
  admit_seq-Answers none e a =
      bind-cases Answers (insert run_clash (new_run q) db.runs) _ (λ e'. fails e' refl)
        λ runs made.
          admit_row-Answers _ 1 a
            (first e refl (rw (insert-ok run_clash (new_run q) db.runs runs made).0))
  admit_seq-Answers (some run) e a = admit_row-Answers _ run.next_seq a (later run e refl refl)

  admit_bounded-Answers :
      exists (purged_at_key q.owner_scope q.run_id q.key) db.purged_keys ≡ false
      → find (steer_at q.owner_scope q.run_id q.key) db.steers ≡ none
      → (run : Option Run) → find (run_at q.owner_scope q.run_id) db.runs ≡ run
      → ((x : Run)
          → find (run_at q.owner_scope q.run_id) db.runs ≡ some x
          → is_some x.closed_reason ≡ false)
      → Answers (admit_bounded hexdigest now db q run)
  unfolding admit_bounded
  admit_bounded-Answers unpurged unknown run e opens =
      if-keeps Answers
        (leb outstanding_limit (count (outstanding_in q.owner_scope q.run_id) db.steers)) _ _
        (λ _. refuses _ refl refl)
        λ room. admit_seq-Answers run e (record {
          unpurged = unpurged;
          unknown = unknown;
          open_run = opens;
          room = leb_false→lt _ _ room;
        })

  admit_open-Answers :
      exists (purged_at_key q.owner_scope q.run_id q.key) db.purged_keys ≡ false
      → find (steer_at q.owner_scope q.run_id q.key) db.steers ≡ none
      → (run : Option Run) → find (run_at q.owner_scope q.run_id) db.runs ≡ run
      → Answers (admit_open hexdigest now db q run)
  unfolding admit_open
  admit_open-Answers unpurged unknown none e =
      admit_bounded-Answers unpurged unknown none e (λ x found. cc)
  admit_open-Answers unpurged unknown (some run) e =
      if-keeps Answers (is_some run.closed_reason) _ _ (λ _. refuses _ refl refl)
        λ opened. admit_bounded-Answers unpurged unknown (some run) e (λ x found. ground arith)

  admit_key-Answers :
      exists (purged_at_key q.owner_scope q.run_id q.key) db.purged_keys ≡ false
      → (hit : Option Steer) → find (steer_at q.owner_scope q.run_id q.key) db.steers ≡ hit
      → Answers (admit_key hexdigest now db q hit)
  unfolding admit_key
  admit_key-Answers unpurged none e = admit_open-Answers unpurged e _ refl
  admit_key-Answers unpurged (some hit) e = refuses _ (ground arith) refl

  pub admit-Answers : Answers (admit hexdigest now db q)
  unfolding admit
  admit-Answers =
      if-keeps Answers (exists (purged_at_key q.owner_scope q.run_id q.key) db.purged_keys) _ _
        (λ _. refuses _ refl refl) (λ unpurged. admit_key-Answers unpurged _ refl)

  -- `admit` changes nothing, or passes every guard and adds one row.
  pub admit-effect :
      (committed db (admit hexdigest now db q) ≡ db)
      ⊎ ((seq : ℕ) × Admitted db q
          × Grown db q (new_steer hexdigest now q seq) (committed db (admit hexdigest now db q)))
  admit-effect = at admit-Answers
    where
      at :
          Answers (admit hexdigest now db q)
          → (committed db (admit hexdigest now db q) ≡ db)
            ⊎ ((seq : ℕ) × Admitted db q
                × Grown db q
                    (new_steer hexdigest now q seq)
                    (committed db (admit hexdigest now db q)))
      at (fails e m) = inl (rw m)
      at (refuses v _ m) = inl (rw m)
      at (grows seq db' m a g) = inr (seq, a, rw m g)

pub new_run-found :
    (q : Request) → find (run_at q.owner_scope q.run_id) (new_run q ∷ []) ≡ some (new_run q)
unfolding new_run run_at
new_run-found q = simp eq_refl

new_run-clash :
    (q : Request) (runs : List Run)
    → exists (run_clash (new_run q)) runs ≡ is_some (find (run_at q.owner_scope q.run_id) runs)
unfolding run_clash new_run
new_run-clash q runs = exists-find (run_at q.owner_scope q.run_id) runs

next_seq-new_run : (q : Request) → (new_run q).next_seq ≡ 1
unfolding new_run
next_seq-new_run q = refl

-- INSERT ... ON CONFLICT DO NOTHING and the SELECT that follows: the run as it was, or a new row.
ensured :
    (db : SteerDb) (q : Request) (runs : List Run) (run : Run)
    → runs ≡ insert_or_ignore run_clash (new_run q) db.runs
    → find (run_at q.owner_scope q.run_id) runs ≡ some run
    → Numbering db q run.next_seq (set_next_seq q.owner_scope q.run_id (run.next_seq + 1) runs)
ensured db q runs run shape e = at (find (run_at q.owner_scope q.run_id) db.runs) refl
  where
    at :
        (found : Option Run)
        → find (run_at q.owner_scope q.run_id) db.runs ≡ found
        → Numbering db q run.next_seq (set_next_seq q.owner_scope q.run_id (run.next_seq + 1) runs)
    at (some x) f =
        let old : exists (run_clash (new_run q)) db.runs ≡ true = rw (new_run-clash, f) in
        let same : runs ≡ db.runs = rw (shape, old) in later run (rw same at e) refl (rw same)
    at none f =
        let new : exists (run_clash (new_run q)) db.runs ≡ false = rw (new_run-clash, f) in
        let grew : runs ≡ db.runs ++ (new_run q ∷ []) = rw (shape, new) in
        let is_new : some (new_run q) ≡ some run = rw (← e, grew, find-append, f, new_run-found) in
        let one : run.next_seq ≡ 1 = ground (arith, next_seq-new_run q) in
        first f one (rw (one, grew))

module _ (hexdigest : String → String) (now : ℕ) (db : SteerDb) (q : Request) where
  abbrev pub Records : SteerDb → Type 0
  Records db' =
      (db' ≡ db)
      ⊎ ((seq : ℕ) × (find (steer_at q.owner_scope q.run_id q.key) db.steers ≡ none)
          × Grown db q (handoff_steer hexdigest now q seq) db')

  handoff_new-effect :
      find (steer_at q.owner_scope q.run_id q.key) db.steers ≡ none
      → Records (committed db (handoff_new hexdigest now db q))
  unfolding handoff_new
  handoff_new-effect unknown =
      committed-bind Records db
        (or_raise
          (find (run_at q.owner_scope q.run_id) (insert_or_ignore run_clash (new_run q) db.runs))
          type_error)
        _ (inl refl)
        λ run made.
          committed-bind Records db
            (insert steer_clash (handoff_steer hexdigest now q run.next_seq) db.steers) _ (inl refl)
            λ steers e.
              committed-bind Records db
                (or_raise
                  (find (has_id (derive_steer_id hexdigest q.owner_scope q.run_id q.key)) steers)
                  type_error)
                _ (inl refl)
                λ row _.
                  let (grown, fresh) = insert-ok steer_clash _ db.steers steers e in
                  inr (
                    run.next_seq,
                    unknown,
                    record {
                      runs =
                          set_next_seq q.owner_scope q.run_id (run.next_seq + 1)
                            (insert_or_ignore run_clash (new_run q) db.runs);
                      shape = rw grown;
                      fresh = fresh;
                      numbering =
                          unfold handoff_steer new_steer in
                          ensured db q _ run refl (or_raise-ok _ type_error run made);
                    },
                  )

  -- `record_handoff` changes nothing, or adds one row for an unknown key.
  pub record_handoff-effect : Records (committed db (record_handoff hexdigest now db q))
  unfolding record_handoff handoff_hit
  record_handoff-effect = at (find (steer_at q.owner_scope q.run_id q.key) db.steers) refl
    where
      at :
          (hit : Option Steer)
          → find (steer_at q.owner_scope q.run_id q.key) db.steers ≡ hit
          → Records (committed db (handoff_hit hexdigest now db q hit))
      at none e = handoff_new-effect e
      at (some s) e = inl refl

module _ (hexdigest : String → String) (now : ℕ) (db db' : SteerDb) (q : Request) (s : Steer) where
  -- An admission has passed every guard, and its receipt is the row that it has added.
  pub admitted-inversion :
      admit hexdigest now db q ≡ ok (Verdict.admitted s, db')
      → (seq : ℕ) × (s ≡ new_steer hexdigest now q seq)
        × Admitted db q
        × Grown db q (new_steer hexdigest now q seq) db'
  admitted-inversion h = at (admit-Answers hexdigest now db q)
    where
      at :
          Answers hexdigest now db q (admit hexdigest now db q)
          → (seq : ℕ) × (s ≡ new_steer hexdigest now q seq)
            × Admitted db q
            × Grown db q (new_steer hexdigest now q seq) db'
      at (fails e m) = absurd (cc)
      at (refuses v denied m) = absurd (ground arith)
      at (grows seq d m a g) = let same : d ≡ db' = cc in (seq, cc, a, rw (← same) g)
