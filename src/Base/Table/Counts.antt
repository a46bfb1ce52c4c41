-- ===== src/Base/Table/Counts.antt =====
-- What UPDATE and DELETE leave, counted exactly, and the searches that they do not touch.
use mathlib.Core.Path.{◌≡◌, refl}
use mathlib.Core.Bool.{Bool, true, false, not, ◌&&◌}
use mathlib.Core.List.{List, [], ◌∷◌}
use native.Mathlib.Omega.{arith}
use hermes_app.Base.Table.Defs.{find, count, update, delete}

module _ {ℓ} {A : Type ℓ} where
  -- After an UPDATE that makes the test false, exactly the rows that it did not reach are counted.
  pub count-update_out :
      (q p : A → Bool) (f : A → A) (xs : List A)
      → ((x : A) → q (f x) ≡ false)
      → count q (update p f xs) ≡ count (λ x. q x && not (p x)) xs
  count-update_out q p f [] out = refl
  count-update_out q p f (x ∷ xs) out = ground (arith, out x, count-update_out q p f xs out)

  -- A DELETE leaves exactly the rows that fail its test.
  pub count-delete :
      (q p : A → Bool) (xs : List A) → count q (delete p xs) ≡ count (λ x. q x && not (p x)) xs
  count-delete q p [] = refl
  count-delete q p (x ∷ xs) = ground (arith, count-delete q p xs)

  -- An UPDATE of other rows is not seen by a search.
  pub find-update_apart :
      (q p : A → Bool) (f : A → A) (xs : List A)
      → ((x : A) → q (f x) ≡ q x)
      → ((x : A) → q x ≡ true → p x ≡ false)
      → find q (update p f xs) ≡ find q xs
  find-update_apart q p f [] keeps apart = refl
  find-update_apart q p f (x ∷ xs) keeps apart =
      ground (arith, keeps x, apart x, find-update_apart q p f xs keeps apart)
