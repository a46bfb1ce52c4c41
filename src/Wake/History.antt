-- ===== src/Wake/History.antt =====
-- compat/auto_wake_store.py: any sequence of the ledger's writes. A write that raises is rolled back.
use hermes_app.Base.{ℕ, String, Option, List, [], ◌∷◌, committed}
use hermes_app.Wake.Defs.{WakeDb, Core}
use hermes_app.Wake.Admit.{admit}
use hermes_app.Wake.Dispatch.{Reported, gate_dispatch, dispatch_failed, report, release}

-- An admission reads the core's database as it is at the time of the call.
pub data Op : Type 0 where
  admission : Core → ℕ → String → List String → String → Option String → Op
  dispatch : ℕ → String → String → String → Op
  failure : ℕ → String → Op
  outcome : ℕ → String → String → Reported → Option String → Op
  giving_back : ℕ → String → String → Op

module _ (strip : String → String) where
  unfoldable pub step : WakeDb → Op → WakeDb
  step db (Op.admission core at resolved keys i owner) =
      committed db (admit core at db resolved keys i owner)
  step db (Op.dispatch now i resolved input) = (gate_dispatch now db i resolved input).1
  step db (Op.failure now i) = dispatch_failed now db i
  step db (Op.outcome at i resolved to run) = (report strip at db i resolved to run).1
  step db (Op.giving_back now i resolved) = (release now db i resolved).1

  unfoldable pub play : WakeDb → List Op → WakeDb
  play db [] = db
  play db (op ∷ ops) = play (step db op) ops

  -- What every write keeps holds after any writes.
  pub play-keeps {ℓ} :
      (P : WakeDb → Type ℓ)
      → ((db : WakeDb) (op : Op) → P db → P (step db op))
      → (db : WakeDb) (ops : List Op) → P db
      → P (play db ops)
  unfolding play
  play-keeps P keeps db [] h = h
  play-keeps P keeps db (op ∷ ops) h = play-keeps P keeps (step db op) ops (keeps db op h)
