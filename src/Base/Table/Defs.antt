-- ===== src/Base/Table/Defs.antt =====
-- The statements that the stores run: SELECT, COUNT, INSERT, upsert, UPDATE, DELETE.
use Prim.Native.Nat.{ℕ, ◌+◌}
use mathlib.Core.Bool.{Bool, false, ◌||◌}
use mathlib.Core.Option.{Option, none, some}
use mathlib.Core.List.{List, [], ◌∷◌, ◌++◌}
use hermes_app.Base.Tests.{if◌then◌else◌, leb}
use hermes_app.Base.Exceptions.{Result, ok, raised, integrity_error}

module _ {ℓ} {A : Type ℓ} where
  -- SELECT * WHERE p, all rows.
  abbrev pub select : (A → Bool) → List A → List A
  select p [] = []
  select p (x ∷ xs) = let rest = select p xs in if p x then x ∷ rest else rest

  -- SELECT * WHERE p, `fetchone()`.
  abbrev pub find : (A → Bool) → List A → Option A
  find p [] = none
  find p (x ∷ xs) = let rest = find p xs in if p x then some x else rest

  -- SELECT 1 WHERE p.
  abbrev pub exists : (A → Bool) → List A → Bool
  exists p [] = false
  exists p (x ∷ xs) = p x || exists p xs

  -- SELECT COUNT(*) WHERE p.
  abbrev pub count : (A → Bool) → List A → ℕ
  count p [] = 0
  count p (x ∷ xs) = (if p x then 1 else 0) + count p xs

  -- UPDATE SET f WHERE p.
  abbrev pub update : (A → Bool) → (A → A) → List A → List A
  update p f [] = []
  update p f (x ∷ xs) = (if p x then f x else x) ∷ update p f xs

  -- DELETE WHERE p.
  abbrev pub delete : (A → Bool) → List A → List A
  delete p [] = []
  delete p (x ∷ xs) = let rest = delete p xs in if p x then rest else x ∷ rest

  -- INSERT of a row; `clash` says which rows a primary key or a unique index keeps apart.
  abbrev pub insert : (A → A → Bool) → A → List A → Result (List A)
  insert clash r xs = if exists (clash r) xs then raised integrity_error else ok (xs ++ (r ∷ []))

  -- INSERT OR IGNORE, and INSERT ... ON CONFLICT DO NOTHING.
  abbrev pub insert_or_ignore : (A → A → Bool) → A → List A → List A
  insert_or_ignore clash r xs = if exists (clash r) xs then xs else xs ++ (r ∷ [])

  -- INSERT OR REPLACE.
  abbrev pub insert_or_replace : (A → A → Bool) → A → List A → List A
  insert_or_replace clash r xs = delete (clash r) xs ++ (r ∷ [])

  -- INSERT ... ON CONFLICT DO UPDATE SET f.
  abbrev pub upsert : (A → A → Bool) → (A → A) → A → List A → List A
  upsert clash f r xs = if exists (clash r) xs then update (clash r) f xs else xs ++ (r ∷ [])

  -- ORDER BY a numeric column, ascending; equal keys keep the order of insertion.
  abbrev pub insert_by : (A → ℕ) → A → List A → List A
  insert_by k x [] = x ∷ []
  insert_by k x (y ∷ ys) =
      let rest = insert_by k x ys in if leb (k x) (k y) then x ∷ y ∷ ys else y ∷ rest

  abbrev pub order_by : (A → ℕ) → List A → List A
  order_by k [] = []
  order_by k (x ∷ xs) = insert_by k x (order_by k xs)

  -- SUM of a numeric column over the rows WHERE p, 0 for no row.
  abbrev pub sum_of : (A → ℕ) → (A → Bool) → List A → ℕ
  sum_of k p [] = 0
  sum_of k p (x ∷ xs) = (if p x then k x else 0) + sum_of k p xs
