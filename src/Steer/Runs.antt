-- ===== src/Steer/Runs.antt =====
-- compat/steer_store.py: the rows of `runs`: `register_run`, `get_run`, `seal_run`.
use hermes_app.Base.{ℕ, String, Option, none, some, List, map, coalesce}
use hermes_app.Base.Table.{select, find, update, upsert}
use hermes_app.Steer.Defs.{Steer, SteerState, Run, SteerDb, run_at, accepted_in, run_clash}

-- The arguments that identify an admission, and the session columns of a new run.
pub record Request : Type 0 where
  pub owner_scope : String
  pub run_id : String
  pub key : String
  pub input_text : String
  pub original_sid : Option String
  pub resolved_sid : Option String
  pub owner_epoch : Option String

-- A row of `runs` as the INSERTs write it: open, with the column default of `next_seq`.
unfoldable pub new_run : Request → Run
new_run q = record {
  owner_scope = q.owner_scope;
  run_id = q.run_id;
  original_sid = q.original_sid;
  resolved_sid = q.resolved_sid;
  owner_epoch = q.owner_epoch;
  closed_reason = none;
  closed_at = none;
  next_seq = 1;
}

-- The request of an INSERT INTO runs that names no message.
unfoldable pub run_request :
    String → String → Option String → Option String → Option String → Request
run_request o r original resolved epoch = record {
  owner_scope = o;
  run_id = r;
  key = "";
  input_text = "";
  original_sid = original;
  resolved_sid = resolved;
  owner_epoch = epoch;
}

-- UPDATE runs SET next_seq=? WHERE owner_scope=? AND run_id=?
unfoldable pub set_next_seq : String → String → ℕ → List Run → List Run
set_next_seq o r n runs = update (run_at o r) (λ x. record x { next_seq = n }) runs

-- `register_run`: the conflict keeps `original_sid`, and takes the new values that are not NULL.
unfoldable pub register_run :
    SteerDb → String → String → Option String → Option String → Option String → SteerDb
register_run db o r original resolved epoch = record db {
  runs =
      upsert run_clash
        (λ x. record x {
          resolved_sid = coalesce resolved x.resolved_sid;
          owner_epoch = coalesce epoch x.owner_epoch;
        })
        (new_run (run_request o r original resolved epoch)) db.runs;
}

unfoldable pub get_run : SteerDb → String → String → Option Run
get_run db o r = find (run_at o r) db.runs

-- ON CONFLICT DO UPDATE of `seal_run`: the first reason and its time are kept.
unfoldable pub closing : ℕ → String → Run → Run
closing now reason x = record x {
  closed_reason = coalesce x.closed_reason (some reason);
  closed_at = coalesce x.closed_at (some now);
}

-- The row that `seal_run` inserts for a run that is not there.
unfoldable pub sealed_row : ℕ → String → String → String → Run
sealed_row now o r reason =
    let fresh = new_run (run_request o r none none none) in
    record fresh { closed_reason = some reason; closed_at = some now }

unfoldable pub retired : ℕ → String → Steer → Steer
retired now reason s = record s {
  state = SteerState.not_delivered;
  error = some reason;
  updated_at = now;
}

-- `seal_run`: closes the run once, and retires what no batch has claimed. It answers the reason of
-- the call and the identifiers of the retired.
unfoldable pub seal_run : ℕ → SteerDb → String → String → String → (String × List String) × SteerDb
seal_run now db o r reason = (
  (reason, map (λ s. s.steer_id) (select (accepted_in o r) db.steers)),
  record db {
    runs = upsert run_clash (closing now reason) (sealed_row now o r reason) db.runs;
    steers = update (accepted_in o r) (retired now reason) db.steers;
  },
)
