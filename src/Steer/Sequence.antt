-- ===== src/Steer/Sequence.antt =====
-- compat/steer_store.py: the numbers of a run's steers rise in the order of their admission.
use hermes_app.Base.{
  ℕ, String, ◌≡◌, refl, Option, List, [], ◌∷◌, arith, inl, inr, committed, committed-bind,
  committed-if, if-keeps,
}
use hermes_app.Base.Table.{find, insert, upsert, All-delete}
use hermes_app.Steer.Defs.{
  Steer, Run, SteerDb, empty_db, steer_in, accepted_in, in_batch, run_at, run_clash, batch_clash,
  batch_has_id,
}
use hermes_app.Steer.Runs.{new_run, closing, sealed_row, register_run, retired, seal_run}
use hermes_app.Steer.Rows.{new_steer}
use hermes_app.Steer.Handoff.{handoff_steer}
use hermes_app.Steer.Batches.{
  claim_rows, claim_batch, claimable, new_batch, run_is_open, batch_is_open, confirm_batch,
  mark_outcome_unknown,
}
use hermes_app.Steer.Prune.{prune_run, prune_runs, prune_expired}
use hermes_app.Steer.Effects.{admit-effect, record_handoff-effect}
use hermes_app.Steer.History.{Op, step, play, play-keeps}
use hermes_app.Steer.Next.{KeepsRun, next_of-upsert}
use hermes_app.Steer.Numbered.{
  Behind, IsNumbered, update-IsNumbered, Rises-delete, Behind-runs, Grown-IsNumbered,
}

upserted-IsNumbered :
    (db : SteerDb) (f : Run → Run) (row : Run)
    → KeepsRun f
    → row.next_seq ≡ 1
    → IsNumbered db
    → IsNumbered (record db { runs = upsert run_clash f row db.runs })
upserted-IsNumbered db f row keeps fresh h = (
  h.0,
  Behind-runs db.runs (upsert run_clash f row db.runs) db.steers
      (λ o r. let same = next_of-upsert o r f row db.runs keeps fresh in omega arith) h.1,
)

register_run-IsNumbered :
    (db : SteerDb) (o r : String) (a b c : Option String)
    → IsNumbered db
    → IsNumbered (register_run db o r a b c)
unfolding register_run new_run
register_run-IsNumbered db o r a b c h = upserted-IsNumbered db _ _ (λ x. (refl, refl, refl)) refl h

seal_run-IsNumbered :
    (now : ℕ) (db : SteerDb) (o r reason : String)
    → IsNumbered db
    → IsNumbered (seal_run now db o r reason).1
unfolding seal_run retired closing sealed_row new_run
seal_run-IsNumbered now db o r reason h =
    update-IsNumbered (accepted_in o r) (retired now reason) (λ x. (refl, refl, refl))
      (record db {
        runs = upsert run_clash (closing now reason) (sealed_row now o r reason) db.runs;
      })
      (upserted-IsNumbered db (closing now reason) (sealed_row now o r reason)
        (λ x. (refl, refl, refl)) refl h)

claim_rows-IsNumbered :
    (now : ℕ) (db : SteerDb) (o r b : String) (rows : List Steer)
    → IsNumbered db
    → IsNumbered (committed db (claim_rows now db o r b rows))
unfolding claim_rows
claim_rows-IsNumbered now db o r b [] h = h
claim_rows-IsNumbered now db o r b (s ∷ rest) h =
    committed-bind IsNumbered db (insert batch_clash (new_batch now o r b (s ∷ rest)) db.batches) _
      h λ batches _. update-IsNumbered (accepted_in o r) _ (λ x. (refl, refl, refl)) db h

claim_batch-IsNumbered :
    (now : ℕ) (db : SteerDb) (o r b : String)
    → IsNumbered db
    → IsNumbered (committed db (claim_batch now db o r b))
unfolding claim_batch
claim_batch-IsNumbered now db o r b h =
    committed-if IsNumbered db (run_is_open (find (run_at o r) db.runs)) _ _
      (λ _. claim_rows-IsNumbered now db o r b (claimable db o r) h) (λ _. h)

prune_runs-IsNumbered :
    (at : ℕ) (runs : List Run) (removed : ℕ) (db : SteerDb)
    → IsNumbered db
    → IsNumbered (prune_runs at runs removed db).1
unfolding prune_runs prune_run
prune_runs-IsNumbered at [] removed db h = h
prune_runs-IsNumbered at (run ∷ rest) removed db h = prune_runs-IsNumbered at rest _ _ (
  Rises-delete (steer_in run.owner_scope run.run_id) db.steers h.0,
  All-delete (Behind db.runs) (steer_in run.owner_scope run.run_id) db.steers h.1,
)

step-IsNumbered :
    (hexdigest : String → String) (db : SteerDb) (op : Op)
    → IsNumbered db
    → IsNumbered (step hexdigest db op)
unfolding step
step-IsNumbered hexdigest db (Op.register o r a b c) h = register_run-IsNumbered db o r a b c h
step-IsNumbered hexdigest db (Op.seal now o r reason) h = seal_run-IsNumbered now db o r reason h
step-IsNumbered hexdigest db (Op.submit now q) h = elim (admit-effect hexdigest now db q) [
  | inl same ↦ rw same h
  | inr (seq, _, g) ↦
      unfold new_steer in Grown-IsNumbered db _ q (new_steer hexdigest now q seq) refl refl g h
]
step-IsNumbered hexdigest db (Op.handoff now q) h =
    elim (record_handoff-effect hexdigest now db q) [
      | inl same ↦ rw same h
      | inr (seq, _, g) ↦
          unfold handoff_steer new_steer in
          Grown-IsNumbered db _ q (handoff_steer hexdigest now q seq) refl refl g h
    ]
step-IsNumbered hexdigest db (Op.claim now o r b) h = claim_batch-IsNumbered now db o r b h
step-IsNumbered hexdigest db (Op.confirm now b row) h =
    unfold confirm_batch in
    if-keeps IsNumbered (batch_is_open (find (batch_has_id b) db.batches)) _ _
      (λ _. update-IsNumbered (in_batch b) _ (λ x. (refl, refl, refl)) db h) (λ _. h)
step-IsNumbered hexdigest db (Op.lose now b reason) h =
    unfold mark_outcome_unknown in
    if-keeps IsNumbered (batch_is_open (find (batch_has_id b) db.batches)) _ _
      (λ _. update-IsNumbered (in_batch b) _ (λ x. (refl, refl, refl)) db h) (λ _. h)
step-IsNumbered hexdigest db (Op.prune now at) h =
    unfold prune_expired in prune_runs-IsNumbered at _ 0 db h

-- From an empty store, after any sequence of the store's writes, the steers of one run stand in the
-- table with rising numbers, so that no two of them have the same, and every number is
-- below the one that the run gives next.
pub play-IsNumbered :
    (hexdigest : String → String) (ops : List Op) → IsNumbered (play hexdigest empty_db ops)
play-IsNumbered hexdigest ops =
    play-keeps hexdigest IsNumbered (step-IsNumbered hexdigest) empty_db ops (tt, tt)
