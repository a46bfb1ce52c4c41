-- ===== src/Wake/Moves.antt =====
-- compat/auto_wake_store.py: the edges along which `admit`, `gate_dispatch`, `dispatch_failed`,
-- `report` and `release` move a batch. The sweep of compat/ledger_retention.py, which deletes ended
-- batches, and compat/wake_reconcile.py are not among these operations.
use hermes_app.Base.{String, Bool, true, false, ◌≡◌, refl, ◌⊎◌, inl, inr, some, committed}
use hermes_app.Base.Table.{find, find-append}
use hermes_app.Wake.Defs.{WakeState, WakeBatch, WakeDb, batch_is}
use hermes_app.Wake.Grown.{admit-keeps}
use hermes_app.Wake.Edges.{
  Edge, Moves, stays, gate_found-Moves, dispatch_failed-Moves, report_found-Moves,
  release_found-Moves,
}
use hermes_app.Wake.Admit.{admit}
use hermes_app.Wake.Dispatch.{gate_dispatch, report, release}
use hermes_app.Wake.History.{Op, step}

-- Each of the store's own operations (admit, gate_dispatch, dispatch_failed, report, release) keeps a
-- batch that is there, in its state or moved along an edge: a reserved batch is dispatched or
-- released, a dispatching one is reverted, accepted, ended or doubted, an accepted one is ended or
-- doubted, and a batch in another state stays in it.
pub step-Moves :
    (strip : String → String) (db : WakeDb) (op : Op) (i : String) (b : WakeBatch)
    → find (batch_is i) db.batches ≡ some b
    → Moves i b.state (step strip db op)
unfolding step gate_dispatch report release
step-Moves strip db (Op.admission core at resolved keys j owner) i b here =
    stays i b (committed db (admit core at db resolved keys j owner)) (
      admit-keeps (λ d. find (batch_is i) d.batches ≡ some b) (λ d c h. h)
        (λ d x h. rw (find-append, h) refl) core at db resolved keys j owner here)
step-Moves strip db (Op.dispatch now j resolved input) i b here =
    gate_found-Moves i b db here now j resolved input _
step-Moves strip db (Op.failure now j) i b here = dispatch_failed-Moves i b db here now j
step-Moves strip db (Op.outcome at j resolved to run) i b here =
    report_found-Moves i b db here strip at j resolved to run _
step-Moves strip db (Op.giving_back now j resolved) i b here =
    release_found-Moves i b db here now j resolved _ refl

-- The states from which a wake has run or may have run.
abbrev pub is_spent : WakeState → Bool
is_spent WakeState.accepted = true
is_spent WakeState.terminal = true
is_spent WakeState.uncertain_consumed = true
is_spent _ = false

spent-Edge : (s t : WakeState) → is_spent s ≡ true → Edge s t → is_spent t ≡ true
spent-Edge s t h Edge.dispatches = cc
spent-Edge s t h Edge.gives_back = cc
spent-Edge s t h Edge.reverts = cc
spent-Edge s t h Edge.accepts = refl
spent-Edge s t h Edge.ends = refl
spent-Edge s t h Edge.doubts = refl
spent-Edge s t h Edge.ends_run = refl
spent-Edge s t h Edge.doubts_run = refl

-- The batch is there and spent.
pub record Spent (i : String) (db : WakeDb) : Type 0 where
  pub batch : WakeBatch
  pub found : find (batch_is i) db.batches ≡ some batch
  pub spent : is_spent batch.state ≡ true

Moves-Spent :
    (i : String) (s : WakeState) (db : WakeDb) → is_spent s ≡ true → Moves i s db → Spent i db
Moves-Spent i s db h m = record { batch = m.batch; found = m.found; spent = at m.move }
  where
    at : (m.batch.state ≡ s) ⊎ Edge s m.batch.state → is_spent m.batch.state ≡ true
    at (inl same) = rw same h
    at (inr edge) = spent-Edge s m.batch.state h edge

pub step-Spent :
    (strip : String → String) (i : String) (db : WakeDb) (op : Op)
    → Spent i db
    → Spent i (step strip db op)
step-Spent strip i db op h =
    Moves-Spent i h.batch.state _ h.spent (step-Moves strip db op i h.batch h.found)
