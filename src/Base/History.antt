-- ===== src/Base/History.antt =====
-- Sequences of operations, and what every operation keeps.
use mathlib.Core.List.{List, [], ◌∷◌}

module _ {ℓ κ} {S : Type ℓ} {Op : Type κ} (step : S → Op → S) where
  abbrev pub run_all : S → List Op → S
  run_all s [] = s
  run_all s (op ∷ ops) = run_all (step s op) ops

  pub run_all-keeps {μ} :
      (P : S → Type μ)
      → ((s : S) (op : Op) → P s → P (step s op))
      → (s : S) (ops : List Op) → P s
      → P (run_all s ops)
  run_all-keeps P keeps s [] h = h
  run_all-keeps P keeps s (op ∷ ops) h = run_all-keeps P keeps (step s op) ops (keeps s op h)
