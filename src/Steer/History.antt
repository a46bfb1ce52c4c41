-- ===== src/Steer/History.antt =====
-- compat/steer_store.py: any sequence of the writes, each at its clock reading. A write that raises
-- is rolled back, so it leaves the tables as they were.
use hermes_app.Base.{ℕ, String, Option, List, [], ◌∷◌, committed}
use hermes_app.Steer.Defs.{SteerDb}
use hermes_app.Steer.Runs.{Request, register_run, seal_run}
use hermes_app.Steer.Admit.{admit}
use hermes_app.Steer.Handoff.{record_handoff}
use hermes_app.Steer.Batches.{claim_batch, confirm_batch, mark_outcome_unknown}
use hermes_app.Steer.Prune.{prune_expired}

pub data Op : Type 0 where
  register : String → String → Option String → Option String → Option String → Op
  seal : ℕ → String → String → String → Op
  submit : ℕ → Request → Op
  handoff : ℕ → Request → Op
  claim : ℕ → String → String → String → Op
  confirm : ℕ → String → String → Op
  lose : ℕ → String → String → Op
  prune : ℕ → ℕ → Op

module _ (hexdigest : String → String) where
  unfoldable pub step : SteerDb → Op → SteerDb
  step db (Op.register o r a b c) = register_run db o r a b c
  step db (Op.seal now o r reason) = (seal_run now db o r reason).1
  step db (Op.submit now q) = committed db (admit hexdigest now db q)
  step db (Op.handoff now q) = committed db (record_handoff hexdigest now db q)
  step db (Op.claim now o r b) = committed db (claim_batch now db o r b)
  step db (Op.confirm now b row) = confirm_batch now db b row
  step db (Op.lose now b reason) = mark_outcome_unknown now db b reason
  step db (Op.prune now at) = (prune_expired now at db).1

  unfoldable pub play : SteerDb → List Op → SteerDb
  play db [] = db
  play db (op ∷ ops) = play (step db op) ops

  -- What every write keeps holds after any writes.
  pub play-keeps {ℓ} :
      (P : SteerDb → Type ℓ)
      → ((db : SteerDb) (op : Op) → P db → P (step db op))
      → (db : SteerDb) (ops : List Op) → P db
      → P (play db ops)
  unfolding play
  play-keeps P keeps db [] h = h
  play-keeps P keeps db (op ∷ ops) h = play-keeps P keeps (step db op) ops (keeps db op h)
