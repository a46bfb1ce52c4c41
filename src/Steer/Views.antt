-- ===== src/Steer/Views.antt =====
-- compat/steer_store.py: what is read: `list_steers`, `get_steer`, `staged_batches`, `accepted_runs`,
-- `receipt_of`.
use hermes_app.Base.{
  ℕ, ◌+◌, String, Bool, ◌&&◌, Option, none, List, [], ◌∷◌, if◌then◌else◌, ltb, length, take, truthy,
}
use hermes_app.Base.Table.{select, find, exists, order_by}
use hermes_app.Steer.Defs.{
  SteerState, Steer, Batch, SteerDb, is_accepted, is_staged, steer_in, has_id,
}

-- `list_steers`: one page, and whether there is more.
unfoldable pub list_steers : SteerDb → String → String → ℕ → ℕ → List Steer × Bool
list_steers db o r after limit =
    let rows =
      take (limit + 1)
        (order_by (λ s. s.seq) (select (λ s. steer_in o r s && ltb after s.seq) db.steers)) in
    (take limit rows, ltb limit (length rows))

unfoldable pub get_steer : SteerDb → String → String → String → Option Steer
get_steer db o r i = find (λ s. steer_in o r s && has_id i s) db.steers

unfoldable pub staged_batches : SteerDb → List Batch
staged_batches db = order_by (λ b. b.created_at) (select (λ b. is_staged b.state) db.batches)

-- SELECT DISTINCT: the first row of each pair.
unfoldable pub distinct_from : List (String × String) → List Steer → List (String × String)
distinct_from seen [] = []
distinct_from seen (s ∷ rest) =
    let later = distinct_from ((s.owner_scope, s.run_id) ∷ seen) rest in
    if exists (λ e. steer_in e.0 e.1 s) seen then later else (s.owner_scope, s.run_id) ∷ later

unfoldable pub accepted_runs : SteerDb → List (String × String)
accepted_runs db = distinct_from [] (select (λ s. is_accepted s.state) db.steers)

-- The receipt of a steer as a client sees it.
pub record Receipt : Type 0 where
  pub object : String
  pub schema_version : ℕ
  pub steer_id : String
  pub run_id : String
  pub sequence : ℕ
  pub state : SteerState
  pub client_request_id : String
  pub batch_id : Option String
  pub row_id : Option String
  pub error : Option String
  pub server_epoch : Option String

-- A field whose value is None or empty is left out.
unfoldable pub if_truthy : Option String → Option String
if_truthy x = if truthy x then x else none

unfoldable pub receipt_of : Steer → Option String → Receipt
receipt_of row epoch = record {
  object = "hermes.run.steer.receipt";
  schema_version = 1;
  steer_id = row.steer_id;
  run_id = row.run_id;
  sequence = row.seq;
  state = row.state;
  client_request_id = row.key;
  batch_id = if_truthy row.batch_id;
  row_id = if_truthy row.row_id;
  error = if_truthy row.error;
  server_epoch = epoch;
}
