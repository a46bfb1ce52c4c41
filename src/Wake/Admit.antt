-- ===== src/Wake/Admit.antt =====
-- compat/auto_wake_store.py: `admit`. `at` is the clock's reading and `batch_id` the fresh random
-- identifier that the call makes.
use hermes_app.Base.{
  ℕ, String, Bool, true, false, not, ◌&&◌, ◌||◌, Option, none, some, List, [], ◌∷◌, ◌++◌, map, ◌==◌,
  if◌then◌else◌, Result, ok, raised, ◌>>=◌, Exc, ltb, nat_eq, opt_eq, is_some, take, drop, length,
}
use hermes_app.Base.Table.{find, exists, insert}
use hermes_app.Wake.Defs.{
  WakeState, ConsumptionState, WakeBatch, Consumption, WakeDb, Session, ReportRow, Core,
  admit_max_delivery_ids, canonical_input, batch_max, in_flight, batch_clash, key_is,
  consumption_clash,
}
use hermes_app.Wake.Keys.{clean_keys}
use hermes_app.Wake.Reports.{Quota, quota, session_busy, same_source_recent}

pub data Reason : Type 0 where
  already_consumed : Option String → Reason
  unknown_provenance causal_suspect batch_overflow : Reason

-- A claimed report: its key, the row of its message and its time.
pub record Claim : Type 0 where
  pub key : String
  pub message_id : ℕ
  pub stamp : ℕ

-- The database and the lists that the loop over the keys grows.
pub record Scan : Type 0 where
  pub db : WakeDb
  pub claims : List Claim
  pub ignored : List String
  pub rejected : List (String × Reason)

pub data Reply : Type 0 where
  duplicate_key_in_request no_valid_keys too_many_keys session_not_found session_not_allowed busy :
      Reply
  quota_exceeded : Quota → Reply
  empty : List String → List (String × Reason) → Reply
  admitted : String → List Claim → List String → List (String × Reason) → Reply

-- A session that wakes are not for.
unfoldable pub session_refused : Session → Bool
session_refused s =
    s.hidden
    || (s.archived
        || (opt_eq s.source (some "cron")
            || (opt_eq s.source (some "subagent")
                || (is_some s.ended_at && not (opt_eq s.end_reason (some "compression"))))))

-- A batch of the session was in flight when the report was made.
unfoldable pub suspect : String → ℕ → WakeBatch → Bool
suspect resolved stamp b =
    b.session_id == resolved
    && (in_flight b.state
        && (ltb b.created_at stamp && elim b.terminal_at [ none ↦ true | some t ↦ ltb stamp t ]))

-- The row that consumes an ignored report; the row of the message stands in `report_order`.
unfoldable pub ignored_row : String → ℕ → String → ReportRow → Consumption
ignored_row resolved at key row = record {
  delivery_key = key;
  batch_id = none;
  session_id = resolved;
  message_id = none;
  report_order = row.row_id;
  ignored = true;
  state = ConsumptionState.ignored;
  created_at = at;
  updated_at = at;
}

unfoldable pub reject : String → Reason → Scan → Scan
reject key why s = record s { rejected = s.rejected ++ ((key, why) ∷ []) }

unfoldable pub ignore_report : String → ℕ → String → ReportRow → Scan → Result Scan
ignore_report resolved at key row s = do
  rows ← insert consumption_clash (ignored_row resolved at key row) s.db.consumption
  ok (record s { db = record s.db { consumption = rows }; ignored = s.ignored ++ (key ∷ []) })

unfoldable pub scan_row : Core → String → ℕ → String → Option ReportRow → Scan → Result Scan
scan_row core resolved at key none s = ok (reject key Reason.unknown_provenance s)
scan_row core resolved at key (some row) s =
    if not (elim row.sch [ none ↦ false | some n ↦ nat_eq n 1 ])
    then ok (reject key Reason.unknown_provenance s)
    else if core.is_ignored_report row.content
    then ignore_report resolved at key row s
    else if exists (suspect resolved row.timestamp) s.db.batches
    then ok (reject key Reason.causal_suspect s)
    else if same_source_recent core s.db resolved row at
    then ignore_report resolved at key row s
    else ok (record s {
      claims =
          s.claims ++ (record { key = key; message_id = row.row_id; stamp = row.timestamp } ∷ []);
    })

unfoldable pub scan_prior : Core → String → ℕ → String → Option Consumption → Scan → Result Scan
scan_prior core resolved at key (some prior) s = ok (
    if prior.ignored
    then record s { ignored = s.ignored ++ (key ∷ []) }
    else reject key (Reason.already_consumed prior.batch_id) s)
scan_prior core resolved at key none s =
    scan_row core resolved at key (core.find_report resolved key) s

-- The body of the loop over the cleaned keys.
unfoldable pub scan_key : Core → String → ℕ → String → Scan → Result Scan
scan_key core resolved at key s =
    scan_prior core resolved at key (find (key_is key) s.db.consumption) s

unfoldable pub scan_keys : Core → String → ℕ → List String → Scan → Result Scan
scan_keys core resolved at [] s = ok s
scan_keys core resolved at (key ∷ rest) s =
    scan_key core resolved at key s >>= scan_keys core resolved at rest

unfoldable pub claim_row : String → ℕ → String → Claim → Consumption
claim_row resolved at batch_id c = record {
  delivery_key = c.key;
  batch_id = some batch_id;
  session_id = resolved;
  message_id = some c.message_id;
  report_order = c.stamp;
  ignored = false;
  state = ConsumptionState.consumed;
  created_at = at;
  updated_at = at;
}

-- The loop over the claims.
unfoldable pub insert_claims :
    String → ℕ → String → List Claim → List Consumption → Result (List Consumption)
insert_claims resolved at batch_id [] rows = ok rows
insert_claims resolved at batch_id (c ∷ rest) rows =
    insert consumption_clash (claim_row resolved at batch_id c) rows
    >>= insert_claims resolved at batch_id rest

unfoldable pub reserved_batch : Core → String → ℕ → String → Option String → List Claim → WakeBatch
reserved_batch core resolved at batch_id owner claims = record {
  batch_id = batch_id;
  session_id = resolved;
  state = WakeState.reserved;
  reason = none;
  run_id = none;
  canonical_input = canonical_input;
  batch_keys = core.sorted (map (λ (c : Claim). c.key) claims);
  created_at = at;
  updated_at = at;
  terminal_at = none;
  owner = owner;
}

-- After the loop: at most BATCH_MAX claims, and a batch if there is any.
unfoldable pub reserve :
    Core
    → String
    → ℕ
    → String
    → Option String
    → List Claim
    → List (String × Reason)
    → Scan
    → Result (Reply × WakeDb)
reserve core resolved at batch_id owner [] rejected s = ok (Reply.empty s.ignored rejected, s.db)
reserve core resolved at batch_id owner (c ∷ claims) rejected s = do
  batches ←
      insert batch_clash (reserved_batch core resolved at batch_id owner (c ∷ claims)) s.db.batches
  rows ← insert_claims resolved at batch_id (c ∷ claims) s.db.consumption
  ok (
    Reply.admitted batch_id (c ∷ claims) s.ignored rejected,
    record { batches = batches; consumption = rows },
  )

unfoldable pub overflow : List Claim → List (String × Reason)
overflow claims = map (λ (c : Claim). (c.key, Reason.batch_overflow)) (drop batch_max claims)

-- The transaction once the quota allows a wake.
unfoldable pub admit_keys :
    Core → ℕ → WakeDb → String → List String → String → Option String → Result (Reply × WakeDb)
admit_keys core at db resolved keys batch_id owner = do
  s ← scan_keys core resolved at keys (record { db = db; claims = []; ignored = []; rejected = [] })
  reserve core resolved at batch_id owner (take batch_max s.claims)
      (s.rejected ++ overflow s.claims) s

unfoldable pub admit_quota :
    Core → ℕ → WakeDb → String → List String → String → Option String → Result (Reply × WakeDb)
admit_quota core at db resolved keys batch_id owner =
    let q = quota db resolved at in
    if nat_eq q.session_remaining 0 || nat_eq q.profile_remaining 0
    then ok (Reply.quota_exceeded q, db)
    else admit_keys core at db resolved keys batch_id owner

unfoldable pub admit_session :
    Core
    → ℕ
    → WakeDb
    → String
    → List String
    → String
    → Option String
    → Option Session
    → Result (Reply × WakeDb)
admit_session core at db resolved keys batch_id owner none = ok (Reply.session_not_found, db)
admit_session core at db resolved keys batch_id owner (some session) =
    if session_refused session
    then ok (Reply.session_not_allowed, db)
    else if session_busy core resolved at
    then ok (Reply.busy, db)
    else admit_quota core at db resolved keys batch_id owner

-- The tests on the cleaned keys; none is a duplicate.
unfoldable pub admit_cleaned :
    Core
    → ℕ
    → WakeDb
    → String
    → Option (List String)
    → String
    → Option String
    → Result (Reply × WakeDb)
admit_cleaned core at db resolved none batch_id owner = ok (Reply.duplicate_key_in_request, db)
admit_cleaned core at db resolved (some []) batch_id owner = ok (Reply.no_valid_keys, db)
admit_cleaned core at db resolved (some (key ∷ keys)) batch_id owner =
    if ltb admit_max_delivery_ids (length (key ∷ keys))
    then ok (Reply.too_many_keys, db)
    else admit_session core at db resolved (key ∷ keys) batch_id owner (core.get_session resolved)

-- `admit`
unfoldable pub admit :
    Core → ℕ → WakeDb → String → List String → String → Option String → Result (Reply × WakeDb)
admit core at db resolved keys batch_id owner =
    if core.bindings_ready
    then admit_cleaned core at db resolved (clean_keys core.strip_lower keys []) batch_id owner
    else raised Exc.unavailable
