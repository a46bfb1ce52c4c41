-- ===== src/Steer/Handoff.antt =====
-- compat/steer_store.py: `handoff_gate` and `record_handoff`.
use hermes_app.Base.{
  ℕ, ◌+◌, String, Option, none, some, if◌then◌else◌, is_some, Result, ok, ◌>>=◌, or_raise,
  type_error,
}
use hermes_app.Base.Table.{find, exists, insert, insert_or_ignore}
use hermes_app.Steer.Defs.{
  SteerState, Steer, SteerDb, handoff_error, run_at, steer_at, purged_at_key, has_id, run_clash,
  steer_clash,
}
use hermes_app.Steer.Runs.{Request, new_run, set_next_seq}
use hermes_app.Steer.Rows.{derive_steer_id, new_steer}

-- What `handoff_gate` answers; `none` lets the handoff go on.
pub data Gate : Type 0 where
  expired closed : Gate

unfoldable pub handoff_gate : SteerDb → String → String → String → Option Gate
handoff_gate db o r k =
    if exists (purged_at_key o r k) db.purged_keys
    then some Gate.expired
    else elim (find (run_at o r) db.runs) [
      | none ↦ none
      | some run ↦ if is_some run.closed_reason then some Gate.closed else none
    ]

module _ (hexdigest : String → String) where
  -- The row of a steer that the core took.
  unfoldable pub handoff_steer : ℕ → Request → ℕ → Steer
  handoff_steer now q seq =
      let s = new_steer hexdigest now q seq in
      record s { state = SteerState.outcome_unknown; error = some handoff_error }

  unfoldable pub handoff_new : ℕ → SteerDb → Request → Result (Steer × SteerDb)
  unfolding set_next_seq
  handoff_new now db q = do
    let runs = insert_or_ignore run_clash (new_run q) db.runs
    run ← or_raise (find (run_at q.owner_scope q.run_id) runs) type_error
    steers ← insert steer_clash (handoff_steer now q run.next_seq) db.steers
    row ←
        or_raise (find (has_id (derive_steer_id hexdigest q.owner_scope q.run_id q.key)) steers)
          type_error
    ok (
      row,
      record db {
        runs = set_next_seq q.owner_scope q.run_id (run.next_seq + 1) runs;
        steers = steers;
      },
    )

  -- A receipt that is there is returned as it is.
  unfoldable pub handoff_hit : ℕ → SteerDb → Request → Option Steer → Result (Steer × SteerDb)
  handoff_hit now db q (some hit) = ok (hit, db)
  handoff_hit now db q none = handoff_new now db q

  -- `record_handoff`
  unfoldable pub record_handoff : ℕ → SteerDb → Request → Result (Steer × SteerDb)
  record_handoff now db q =
      handoff_hit now db q (find (steer_at q.owner_scope q.run_id q.key) db.steers)
