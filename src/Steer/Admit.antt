-- ===== src/Steer/Admit.antt =====
-- compat/steer_store.py: `admit`, one function for each of its early returns. `now` is the clock's
-- reading, taken before the transaction.
use hermes_app.Base.{
  ℕ, ◌+◌, String, Bool, true, false, Option, none, some, List, if◌then◌else◌, leb, is_some, ◌==◌,
  Result, ok, ◌>>=◌, or_raise, type_error,
}
use hermes_app.Base.Table.{find, exists, count, insert}
use hermes_app.Steer.Defs.{
  Run, Steer, SteerDb, outstanding_limit, run_at, steer_at, purged_at_key, has_id, outstanding_in,
  run_clash, steer_clash,
}
use hermes_app.Steer.Runs.{Request, new_run, set_next_seq}
use hermes_app.Steer.Rows.{digest_of, derive_steer_id, new_steer}

-- What `admit` answers: the verdict with the receipt that comes with it.
pub data Verdict : Type 0 where
  expired : String → Verdict
  conflict : Steer → Verdict
  duplicate : Steer → Verdict
  closed : Run → Verdict
  queue_full : ℕ → Verdict
  admitted : Steer → Verdict

abbrev pub is_admitted : Verdict → Bool
is_admitted (Verdict.admitted s) = true
is_admitted _ = false

module _ (hexdigest : String → String) where
  -- The INSERT INTO steers of `admit`, and the SELECT that reads the row back.
  unfoldable pub admit_row : ℕ → SteerDb → Request → List Run → ℕ → Result (Verdict × SteerDb)
  admit_row now db q runs seq = do
    steers ← insert steer_clash (new_steer hexdigest now q seq) db.steers
    row ←
        or_raise (find (has_id (derive_steer_id hexdigest q.owner_scope q.run_id q.key)) steers)
          type_error
    ok (Verdict.admitted row, record db { runs = runs; steers = steers })

  -- The end of `admit`: the first message of a run inserts it, a later one takes its number.
  unfoldable pub admit_seq : ℕ → SteerDb → Request → Option Run → Result (Verdict × SteerDb)
  unfolding set_next_seq
  admit_seq now db q none = do
    runs ← insert run_clash (new_run q) db.runs
    admit_row now db q (set_next_seq q.owner_scope q.run_id 2 runs) 1
  admit_seq now db q (some run) =
      admit_row now db q (set_next_seq q.owner_scope q.run_id (run.next_seq + 1) db.runs)
        run.next_seq

  -- The test of the queue's length.
  unfoldable pub admit_bounded : ℕ → SteerDb → Request → Option Run → Result (Verdict × SteerDb)
  admit_bounded now db q run =
      let c = count (outstanding_in q.owner_scope q.run_id) db.steers in
      if leb outstanding_limit c then ok (Verdict.queue_full c, db) else admit_seq now db q run

  -- The test of the seal.
  unfoldable pub admit_open : ℕ → SteerDb → Request → Option Run → Result (Verdict × SteerDb)
  admit_open now db q none = admit_bounded now db q none
  admit_open now db q (some run) =
      if is_some run.closed_reason
      then ok (Verdict.closed run, db)
      else admit_bounded now db q (some run)

  -- The test of the key: a hit is answered by its row.
  unfoldable pub admit_key : ℕ → SteerDb → Request → Option Steer → Result (Verdict × SteerDb)
  admit_key now db q (some hit) = ok (
    if hit.digest == digest_of hexdigest q.input_text
        then Verdict.duplicate hit
        else Verdict.conflict hit,
    db,
  )
  admit_key now db q none = admit_open now db q (find (run_at q.owner_scope q.run_id) db.runs)

  -- `admit`
  unfoldable pub admit : ℕ → SteerDb → Request → Result (Verdict × SteerDb)
  admit now db q =
      if exists (purged_at_key q.owner_scope q.run_id q.key) db.purged_keys
      then ok (Verdict.expired (derive_steer_id hexdigest q.owner_scope q.run_id q.key), db)
      else admit_key now db q (find (steer_at q.owner_scope q.run_id q.key) db.steers)
