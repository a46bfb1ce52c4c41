-- ===== src/Base/Table/Lengths.antt =====
-- How many rows the statements leave.
use Prim.Native.Nat.{◌≤◌, ◌<◌}
use mathlib.Core.Path.{◌≡◌, refl}
use mathlib.Core.Bool.{Bool, true}
use mathlib.Core.List.{List, [], ◌∷◌}
use native.Mathlib.Omega.{arith}
use hermes_app.Base.Lists.{length}
use hermes_app.Base.Table.Defs.{exists, update, delete}

module _ {ℓ} {A : Type ℓ} where
  pub length-delete_le : (q : A → Bool) (xs : List A) → length (delete q xs) ≤ length xs
  length-delete_le q [] = omega arith
  length-delete_le q (x ∷ xs) = ground (arith, length-delete_le q xs)

  -- A DELETE that meets a row shortens the table.
  pub length-delete_lt :
      (q : A → Bool) (xs : List A) → exists q xs ≡ true → length (delete q xs) < length xs
  length-delete_lt q [] h = cc
  length-delete_lt q (x ∷ xs) h = ground (arith, length-delete_le q xs, length-delete_lt q xs)

  pub length-update : (q : A → Bool) (f : A → A) (xs : List A) → length (update q f xs) ≡ length xs
  length-update q f [] = refl
  length-update q f (x ∷ xs) = omega (arith, length-update q f xs)
