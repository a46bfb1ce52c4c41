-- ===== src/Base/Table/Keyed.antt =====
-- A primary key or a unique index: no two rows of the table clash.
use mathlib.Core.Path.{◌≡◌}
use mathlib.Core.Bool.{Bool, true, false}
use mathlib.Core.List.{List, [], ◌∷◌, ◌++◌}
use native.Mathlib.Omega.{arith}
use hermes_app.Base.Tests.{if◌then◌else◌}
use hermes_app.Base.Lists.{All, All-append}
use hermes_app.Base.Table.Defs.{exists, update, delete}
use hermes_app.Base.Table.Laws.{All-delete, All-update}

module _ {ℓ} {A : Type ℓ} where
  abbrev pub Apart : (A → A → Bool) → A → A → Type 0
  Apart clash x y = (clash x y ≡ false) × (clash y x ≡ false)

  abbrev pub Unique : (A → A → Bool) → List A → Type 0
  Unique clash [] = Unit
  Unique clash (x ∷ xs) = All (Apart clash x) xs × Unique clash xs

module _ {ℓ} {A : Type ℓ} (clash : A → A → Bool) where
  -- The test of a key is symmetric, so a row that no old row clashes with is apart from all.
  pub All-Apart :
      (symmetric : (x y : A) → clash x y ≡ clash y x) (r : A) (xs : List A)
      → exists (clash r) xs ≡ false
      → All (λ x. Apart clash x r) xs
  All-Apart symmetric r [] h = tt
  All-Apart symmetric r (x ∷ xs) h =
      ((ground (arith, symmetric x r), ground arith), All-Apart symmetric r xs (ground arith))

  pub Unique-append :
      (r : A) (xs : List A)
      → All (λ x. Apart clash x r) xs
      → Unique clash xs
      → Unique clash (xs ++ (r ∷ []))
  Unique-append r [] h u = (tt, tt)
  Unique-append r (x ∷ xs) h u =
      (All-append (Apart clash x) xs (r ∷ []) u.0 (h.0, tt), Unique-append r xs h.1 u.1)

  pub Unique-delete : (p : A → Bool) (xs : List A) → Unique clash xs → Unique clash (delete p xs)
  Unique-delete p [] u = tt
  Unique-delete p (x ∷ xs) u =
      at (p x) (All-delete (Apart clash x) p xs u.0) (Unique-delete p xs u.1)
    where
      at :
          (b : Bool)
          → All (Apart clash x) (delete p xs)
          → Unique clash (delete p xs)
          → Unique clash (if b then delete p xs else x ∷ delete p xs)
      at true apart rest = rest
      at false apart rest = (apart, rest)

  module _ (p : A → Bool) (f : A → A)
      (keeps : (x y : A) → (clash (f x) y ≡ clash x y) × (clash x (f y) ≡ clash x y)) where
    Apart-update :
        (x : A) (ys : List A) → All (Apart clash x) ys → All (Apart clash x) (update p f ys)
    Apart-update x ys h =
        All-update (Apart clash x) p f ys (λ y _ a. ground (arith, keeps x y, keeps y x)) h

    Apart-head : (x : A) (ys : List A) → All (Apart clash x) ys → All (Apart clash (f x)) ys
    Apart-head x [] h = tt
    Apart-head x (y ∷ ys) h = (ground (arith, keeps x y, keeps y x), Apart-head x ys h.1)

    -- An update that leaves the key alone keeps it unique.
    pub Unique-update : (xs : List A) → Unique clash xs → Unique clash (update p f xs)
    Unique-update [] u = tt
    Unique-update (x ∷ xs) u = (at (p x) (Apart-update x xs u.0), Unique-update xs u.1)
      where
        at :
            (b : Bool)
            → All (Apart clash x) (update p f xs)
            → All (Apart clash (if b then f x else x)) (update p f xs)
        at true h = Apart-head x (update p f xs) h
        at false h = h
