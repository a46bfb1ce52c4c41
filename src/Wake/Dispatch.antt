-- ===== src/Wake/Dispatch.antt =====
-- compat/auto_wake_store.py: `gate_dispatch`, `dispatch_failed`, `report`, `release`, `receipt`,
-- `ledger_state_for`. `strip` is Python's `str.strip`.
use hermes_app.Base.{
  ℕ, String, Bool, not, ◌&&◌, ◌||◌, Option, none, some, List, ◌==◌, if◌then◌else◌, nat_eq, opt_eq,
  is_some,
}
use hermes_app.Base.Table.{find, count, update, delete}
use hermes_app.Wake.Defs.{
  WakeState, ConsumptionState, WakeBatch, Consumption, WakeDb, is_reserved, is_dispatching,
  is_accepted, in_flight, batch_is, key_is,
}
use hermes_app.Wake.Reports.{Quota, quota, batch_view}

abbrev pub View : Type 0
View = Option (WakeBatch × List Consumption)

pub data Gate : Type 0 where
  wake_batch_unknown wake_batch_foreign wake_canonical_mismatch : Gate
  wake_in_flight wake_consumed wake_released : View → Gate

-- The UPDATE of `gate_dispatch`: a batch that is still reserved.
unfoldable pub reserved_as : String → WakeBatch → Bool
reserved_as i b = batch_is i b && is_reserved b.state

-- The branches on the state of the batch.
unfoldable pub gate_state :
    ℕ → WakeDb → String → String → WakeBatch → WakeState → Option Gate × WakeDb
gate_state now db i input b WakeState.reserved =
    if not (input == b.canonical_input)
    then (some Gate.wake_canonical_mismatch, db)
    else (let db' : WakeDb = record db {
      batches =
          update (reserved_as i) (λ x. record x { state = WakeState.dispatching; updated_at = now })
            db.batches;
    } in
        (
          if nat_eq (count (reserved_as i) db.batches) 1
              then none
              else some (Gate.wake_in_flight (batch_view db' i)),
          db',
        ))
gate_state now db i input b WakeState.dispatching =
    (some (Gate.wake_in_flight (batch_view db i)), db)
gate_state now db i input b WakeState.accepted = (some (Gate.wake_in_flight (batch_view db i)), db)
gate_state now db i input b WakeState.uncertain_consumed =
    (some (Gate.wake_consumed (batch_view db i)), db)
gate_state now db i input b WakeState.terminal = (some (Gate.wake_consumed (batch_view db i)), db)
gate_state now db i input b WakeState.released = (some (Gate.wake_released (batch_view db i)), db)

unfoldable pub gate_found :
    ℕ → WakeDb → String → String → String → Option WakeBatch → Option Gate × WakeDb
gate_found now db i resolved input none = (some Gate.wake_batch_unknown, db)
gate_found now db i resolved input (some b) =
    if not (b.session_id == resolved)
    then (some Gate.wake_batch_foreign, db)
    else gate_state now db i input b b.state

-- `gate_dispatch`: none lets the stream go on.
unfoldable pub gate_dispatch : ℕ → WakeDb → String → String → String → Option Gate × WakeDb
gate_dispatch now db i resolved input =
    gate_found now db i resolved input (find (batch_is i) db.batches)

unfoldable pub undispatched : String → WakeBatch → Bool
undispatched i b = batch_is i b && (is_dispatching b.state && not (is_some b.run_id))

-- `dispatch_failed`
unfoldable pub dispatch_failed : ℕ → WakeDb → String → WakeDb
dispatch_failed now db i = record db {
  batches =
      update (undispatched i) (λ x. record x { state = WakeState.reserved; updated_at = now })
        db.batches;
}

-- The state that a client reports.
pub data Reported : Type 0 where
  to_accepted to_terminal to_uncertain other : Reported

pub data ReportReply : Type 0 where
  batch_not_found run_id_required unknown_state : ReportReply
  conflict : Option WakeState → ReportReply
  done : View → ReportReply

-- WHERE batch_id=? AND session_id=? AND state='dispatching'
unfoldable pub dispatching_as : String → String → WakeBatch → Bool
dispatching_as i resolved b = batch_is i b && (b.session_id == resolved && is_dispatching b.state)

-- WHERE batch_id=? AND session_id=? AND state IN ('dispatching', 'accepted')
unfoldable pub in_flight_as : String → String → WakeBatch → Bool
in_flight_as i resolved b = batch_is i b && (b.session_id == resolved && in_flight b.state)

-- The end of `report`: an UPDATE that changes one row commits, any other is rolled back.
unfoldable pub report_update :
    WakeDb → String → (WakeBatch → Bool) → (WakeBatch → WakeBatch) → ReportReply × WakeDb
report_update db i p f =
    let db' = record db { batches = update p f db.batches } in
    if not (nat_eq (count p db.batches) 1)
    then (
      ReportReply.conflict
          (elim (find (batch_is i) db.batches) [ none ↦ none | some b ↦ some b.state ]),
      db,
    )
    else (ReportReply.done (batch_view db' i), db')

unfoldable pub accept_row : ℕ → String → WakeBatch → WakeBatch
accept_row at run x = record x { state = WakeState.accepted; run_id = some run; updated_at = at }

unfoldable pub terminal_row : ℕ → WakeBatch → WakeBatch
terminal_row at x = record x { state = WakeState.terminal; updated_at = at; terminal_at = some at }

unfoldable pub uncertain_row : ℕ → WakeBatch → WakeBatch
uncertain_row at x = record x {
  state = WakeState.uncertain_consumed;
  updated_at = at;
  terminal_at = some at;
  reason = some "uncertain-consumed";
}

unfoldable pub report_accepted :
    ℕ → WakeDb → String → String → String → WakeBatch → ReportReply × WakeDb
report_accepted at db i resolved run b =
    if run == ""
    then (ReportReply.run_id_required, db)
    else if is_accepted b.state && opt_eq b.run_id (some run)
    then (ReportReply.done (batch_view db i), db)
    else if not (is_dispatching b.state)
    then (ReportReply.conflict (some b.state), db)
    else report_update db i (dispatching_as i resolved) (accept_row at run)

-- The branches on the reported state; `run` is none where the argument is not a text.
unfoldable pub report_state :
    (String → String)
    → ℕ
    → WakeDb
    → String
    → String
    → WakeBatch
    → Reported
    → Option String
    → ReportReply × WakeDb
report_state strip at db i resolved b Reported.to_accepted none = (ReportReply.run_id_required, db)
report_state strip at db i resolved b Reported.to_accepted (some run) =
    report_accepted at db i resolved (strip run) b
report_state strip at db i resolved b Reported.to_terminal run =
    if not (in_flight b.state)
    then (ReportReply.conflict (some b.state), db)
    else report_update db i (in_flight_as i resolved) (terminal_row at)
report_state strip at db i resolved b Reported.to_uncertain run =
    if not (in_flight b.state)
    then (ReportReply.conflict (some b.state), db)
    else report_update db i (in_flight_as i resolved) (uncertain_row at)
report_state strip at db i resolved b Reported.other run = (ReportReply.unknown_state, db)

unfoldable pub report_found :
    (String → String)
    → ℕ
    → WakeDb
    → String
    → String
    → Reported
    → Option String
    → Option WakeBatch
    → ReportReply × WakeDb
report_found strip at db i resolved to run none = (ReportReply.batch_not_found, db)
report_found strip at db i resolved to run (some b) =
    if not (b.session_id == resolved)
    then (ReportReply.batch_not_found, db)
    else report_state strip at db i resolved b to run

-- `report`
unfoldable pub report :
    (String → String)
    → ℕ
    → WakeDb
    → String
    → String
    → Reported
    → Option String
    → ReportReply × WakeDb
report strip at db i resolved to run =
    report_found strip at db i resolved to run (find (batch_is i) db.batches)

unfoldable pub released_row : ℕ → WakeBatch → WakeBatch
released_row now x = record x {
  state = WakeState.released;
  updated_at = now;
  terminal_at = some now;
  reason = some "released";
}

unfoldable pub consumed_by : String → Consumption → Bool
consumed_by i c = opt_eq c.batch_id (some i)

unfoldable pub release_found :
    ℕ → WakeDb → String → String → Option WakeBatch → ReportReply × WakeDb
release_found now db i resolved none = (ReportReply.batch_not_found, db)
release_found now db i resolved (some b) =
    if not (b.session_id == resolved)
    then (ReportReply.batch_not_found, db)
    else if not (is_reserved b.state) || is_some b.run_id
    then (ReportReply.conflict (some b.state), db)
    else (let db' : WakeDb = record {
      batches = update (batch_is i) (released_row now) db.batches;
      consumption = delete (consumed_by i) db.consumption;
    } in
        (ReportReply.done (batch_view db' i), db'))

-- `release`
unfoldable pub release : ℕ → WakeDb → String → String → ReportReply × WakeDb
release now db i resolved = release_found now db i resolved (find (batch_is i) db.batches)

-- `receipt`: none stands for the error "batch_not_found".
unfoldable pub receipt :
    ℕ → WakeDb → String → String → Option ((WakeBatch × List Consumption) × Quota)
receipt now db i resolved = elim (batch_view db i) [
  | none ↦ none
  | some view ↦ if view.0.session_id == resolved then some (view, quota db resolved now) else none
]

-- `ledger_state_for`
unfoldable pub ledger_state_for : WakeDb → String → Option (ConsumptionState × Option String)
ledger_state_for db key = elim (find (key_is key) db.consumption) [
  | none ↦ none
  | some c ↦ some (c.state, c.batch_id)
]
