-- ===== src/Base/Table/Order.antt =====
-- ORDER BY: the rows come out sorted, every row as often as before, and a table that is already
-- in order comes out as it is.
use Prim.Native.Nat.{ℕ, ◌≤◌}
use mathlib.Core.Path.{◌≡◌, refl}
use mathlib.Core.Bool.{Bool, true, false}
use mathlib.Core.List.{List, [], ◌∷◌, ◌++◌}
use native.Mathlib.Omega.{arith}
use hermes_app.Base.Tests.{if◌then◌else◌, leb, leb→le, leb_false→lt}
use hermes_app.Base.Lists.{All, All-map, All-append}
use hermes_app.Base.Table.Laws.{All-select}
use hermes_app.Base.Table.Defs.{select, count, insert_by, order_by}

module _ {ℓ} {A : Type ℓ} (k : A → ℕ) where
  abbrev pub IsOrdered : List A → Type 0
  IsOrdered [] = Unit
  IsOrdered (x ∷ xs) = All (λ y. k x ≤ k y) xs × IsOrdered xs

  All-insert_by : (P : A → Type 0) (x : A) (ys : List A) → P x → All P ys → All P (insert_by k x ys)
  All-insert_by P x [] hx h = (hx, tt)
  All-insert_by P x (y ∷ ys) hx h = at (leb (k x) (k y)) (All-insert_by P x ys hx h.1)
    where
      at :
          (b : Bool)
          → All P (insert_by k x ys)
          → All P (if b then x ∷ y ∷ ys else y ∷ insert_by k x ys)
      at true rest = (hx, h)
      at false rest = (h.0, rest)

  All-le : (x y : A) (ys : List A) → k x ≤ k y → All (λ z. k y ≤ k z) ys → All (λ z. k x ≤ k z) ys
  All-le x y [] h hs = tt
  All-le x y (z ∷ zs) h hs = (omega arith, All-le x y zs h hs.1)

  insert_by-IsOrdered : (x : A) (ys : List A) → IsOrdered ys → IsOrdered (insert_by k x ys)
  insert_by-IsOrdered x [] h = (tt, tt)
  insert_by-IsOrdered x (y ∷ ys) h = at (leb (k x) (k y)) refl (insert_by-IsOrdered x ys h.1)
    where
      at :
          (b : Bool)
          → leb (k x) (k y) ≡ b
          → IsOrdered (insert_by k x ys)
          → IsOrdered (if b then x ∷ y ∷ ys else y ∷ insert_by k x ys)
      at true e rest = let le : k x ≤ k y = leb→le _ _ e in ((le, All-le x y ys le h.0), h)
      at false e rest =
          let lt : k y ≤ k x = ground (arith, leb_false→lt (k x) (k y)) in
          (All-insert_by (λ z. k y ≤ k z) x ys lt h.0, rest)

  pub order_by-IsOrdered : (xs : List A) → IsOrdered (order_by k xs)
  order_by-IsOrdered [] = tt
  order_by-IsOrdered (x ∷ xs) = insert_by-IsOrdered x (order_by k xs) (order_by-IsOrdered xs)

  pub All-order_by : (P : A → Type 0) (xs : List A) → All P xs → All P (order_by k xs)
  All-order_by P [] h = tt
  All-order_by P (x ∷ xs) h = All-insert_by P x (order_by k xs) h.0 (All-order_by P xs h.1)

  insert_by-first : (x : A) (ys : List A) → All (λ y. k x ≤ k y) ys → insert_by k x ys ≡ x ∷ ys
  insert_by-first x [] h = refl
  insert_by-first x (y ∷ ys) h = ground arith

  -- Sorting a table that is in order changes nothing.
  pub order_by_self : (xs : List A) → IsOrdered xs → order_by k xs ≡ xs
  order_by_self [] h = refl
  order_by_self (x ∷ xs) h = rw (order_by_self xs h.1) (insert_by-first x xs h.0)

  count-insert_by :
      (q : A → Bool) (x : A) (ys : List A) → count q (insert_by k x ys) ≡ count q (x ∷ ys)
  count-insert_by q x [] = refl
  count-insert_by q x (y ∷ ys) = ground (arith, count-insert_by q x ys)

  -- Every row comes out as often as it stood in the table.
  pub count-order_by : (q : A → Bool) (xs : List A) → count q (order_by k xs) ≡ count q xs
  count-order_by q [] = refl
  count-order_by q (x ∷ xs) =
      ground (arith, count-insert_by q x (order_by k xs), count-order_by q xs)

  pub IsOrdered-select : (p : A → Bool) (xs : List A) → IsOrdered xs → IsOrdered (select p xs)
  IsOrdered-select p [] h = tt
  IsOrdered-select p (x ∷ xs) h =
      at (p x)
        (All-map (λ y. (p y ≡ true) × (k x ≤ k y)) (λ y. k x ≤ k y) (select p xs) (λ y e. e.1)
          (All-select (λ y. k x ≤ k y) p xs h.0))
        (IsOrdered-select p xs h.1)
    where
      at :
          (b : Bool)
          → All (λ y. k x ≤ k y) (select p xs)
          → IsOrdered (select p xs)
          → IsOrdered (if b then x ∷ select p xs else select p xs)
      at true first rest = (first, rest)
      at false first rest = rest

  pub IsOrdered-append :
      (xs : List A) (r : A) → IsOrdered xs → All (λ x. k x ≤ k r) xs → IsOrdered (xs ++ (r ∷ []))
  IsOrdered-append [] r h l = (tt, tt)
  IsOrdered-append (x ∷ xs) r h l =
      (All-append (λ y. k x ≤ k y) xs (r ∷ []) h.0 (l.0, tt), IsOrdered-append xs r h.1 l.1)
