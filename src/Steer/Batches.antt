-- ===== src/Steer/Batches.antt =====
-- compat/steer_store.py: `claim_batch`, `confirm_batch` and `mark_outcome_unknown`.
use hermes_app.Base.{
  ℕ, String, Bool, true, false, Option, none, some, List, [], ◌∷◌, map, if◌then◌else◌, Result, ok,
  ◌>>=◌,
}
use hermes_app.Base.Table.{select, find, update, insert, order_by}
use hermes_app.Steer.Defs.{
  SteerState, BatchState, Run, Steer, Batch, SteerDb, run_at, batch_has_id, in_batch, accepted_in,
  batch_clash,
}

unfoldable pub run_is_open : Option Run → Bool
run_is_open none = false
run_is_open (some run) = elim run.closed_reason [ none ↦ true | some c ↦ false ]

unfoldable pub new_batch : ℕ → String → String → String → List Steer → Batch
new_batch now o r b items = record {
  batch_id = b;
  owner_scope = o;
  run_id = r;
  ordered_ids = map (λ s. s.steer_id) items;
  state = BatchState.staged;
  row_id = none;
  created_at = now;
}

-- The accepted steers of a run, in the order of admission.
unfoldable pub claimable : SteerDb → String → String → List Steer
claimable db o r = order_by (λ s. s.seq) (select (accepted_in o r) db.steers)

-- The two writes of `claim_batch`, of rows that are not none.
unfoldable pub claim_rows :
    ℕ → SteerDb → String → String → String → List Steer → Result (Option (List Steer) × SteerDb)
claim_rows now db o r b [] = ok (none, db)
claim_rows now db o r b (s ∷ rest) = do
  batches ← insert batch_clash (new_batch now o r b (s ∷ rest)) db.batches
  ok (
    some (s ∷ rest),
    record db {
      steers =
          update (accepted_in o r)
            (λ x. record x { state = SteerState.staged; batch_id = some b; updated_at = now })
            db.steers;
      batches = batches;
    },
  )

-- `claim_batch`
unfoldable pub claim_batch :
    ℕ → SteerDb → String → String → String → Result (Option (List Steer) × SteerDb)
claim_batch now db o r b =
    if run_is_open (find (run_at o r) db.runs)
    then claim_rows now db o r b (claimable db o r)
    else ok (none, db)

-- Whether `confirm_batch` and `mark_outcome_unknown` go on: the batch is there and not delivered.
unfoldable pub batch_is_open : Option Batch → Bool
batch_is_open none = false
batch_is_open (some b) = elim b.state [ BatchState.delivered ↦ false | _ ↦ true ]

-- `confirm_batch`
unfoldable pub confirm_batch : ℕ → SteerDb → String → String → SteerDb
confirm_batch now db b row =
    if batch_is_open (find (batch_has_id b) db.batches)
    then record db {
      batches =
          update (batch_has_id b)
            (λ x. record x { state = BatchState.delivered; row_id = some row }) db.batches;
      steers =
          update (in_batch b)
            (λ s. record s {
              state = SteerState.delivered;
              row_id = some row;
              error = none;
              updated_at = now;
            })
            db.steers;
    }
    else db

-- `mark_outcome_unknown`
unfoldable pub mark_outcome_unknown : ℕ → SteerDb → String → String → SteerDb
mark_outcome_unknown now db b reason =
    if batch_is_open (find (batch_has_id b) db.batches)
    then record db {
      batches =
          update (batch_has_id b) (λ x. record x { state = BatchState.outcome_unknown }) db.batches;
      steers =
          update (in_batch b)
            (λ s. record s {
              state = SteerState.outcome_unknown;
              error = some reason;
              updated_at = now;
            })
            db.steers;
    }
    else db
