-- ===== src/Base/Table/Laws.antt =====
-- How the statements of a table act on what the others read.
use Prim.Native.Nat.{◌+◌, ◌≤◌}
use mathlib.Core.Path.{◌≡◌, refl, subst}
use mathlib.Core.Logic.{inl, inr}
use mathlib.Core.Bool.{Bool, true, false, ◌||◌, ◌&&◌}
use mathlib.Core.Option
use mathlib.Core.Option.{none, some}
use mathlib.Core.List.{List, [], ◌∷◌, ◌++◌}
use native.Mathlib.Omega.{arith}
use hermes_app.Base.Tests.{if◌then◌else◌, is_some, coalesce, Bool-cases}
use hermes_app.Base.Lists.{All, length}
use hermes_app.Base.Table.Defs.{
  select, find, exists, count, update, delete, insert, insert_or_replace,
}
use hermes_app.Base.Exceptions.{ok, raised, integrity_error}

module _ {ℓ} {A : Type ℓ} where
  pub find-some : (q : A → Bool) (xs : List A) (x : A) → find q xs ≡ some x → q x ≡ true
  find-some q [] x h = cc
  find-some q (y ∷ ys) x h = ground (arith, find-some q ys x)

  pub find-append :
      (q : A → Bool) (xs ys : List A) → find q (xs ++ ys) ≡ coalesce (find q xs) (find q ys)
  find-append q [] ys = refl
  find-append q (x ∷ xs) ys = ground (arith, find-append q xs ys)

  pub exists-find : (q : A → Bool) (xs : List A) → exists q xs ≡ is_some (find q xs)
  exists-find q [] = refl
  exists-find q (x ∷ xs) = ground (arith, exists-find q xs)

  -- An update that leaves the test of a search alone changes what is found in place.
  pub find-update :
      (q p : A → Bool) (f : A → A) (xs : List A)
      → ((x : A) → q (f x) ≡ q x)
      → find q (update p f xs) ≡ Option.map (λ x. if p x then f x else x) (find q xs)
  find-update q p f [] keeps = refl
  find-update q p f (x ∷ xs) keeps = ground (arith, keeps x, find-update q p f xs keeps)

  -- A delete of other rows is not seen by a search.
  pub find-delete :
      (q p : A → Bool) (xs : List A)
      → ((x : A) → q x ≡ true → p x ≡ false)
      → find q (delete p xs) ≡ find q xs
  find-delete q p [] apart = refl
  find-delete q p (x ∷ xs) apart = ground (arith, apart x, find-delete q p xs apart)

  pub find-delete_all :
      (q p : A → Bool) (xs : List A)
      → ((x : A) → q x ≡ true → p x ≡ true)
      → find q (delete p xs) ≡ none
  find-delete_all q p [] covers = refl
  find-delete_all q p (x ∷ xs) covers = ground (arith, covers x, find-delete_all q p xs covers)

  pub count-append : (q : A → Bool) (xs ys : List A) → count q (xs ++ ys) ≡ count q xs + count q ys
  count-append q [] ys = omega arith
  count-append q (x ∷ xs) ys = omega (arith, count-append q xs ys)

  pub count-update :
      (q p : A → Bool) (f : A → A) (xs : List A)
      → ((x : A) → p x ≡ true → q (f x) ≡ q x)
      → count q (update p f xs) ≡ count q xs
  count-update q p f [] keeps = refl
  count-update q p f (x ∷ xs) keeps = ground (arith, keeps x, count-update q p f xs keeps)

  -- An update after which no new row passes the test does not raise the count.
  pub count-update_le :
      (q p : A → Bool) (f : A → A) (xs : List A)
      → ((x : A) → p x ≡ true → q (f x) ≡ true → q x ≡ true)
      → count q (update p f xs) ≤ count q xs
  count-update_le q p f [] keeps = omega arith
  count-update_le q p f (x ∷ xs) keeps = ground (arith, keeps x, count-update_le q p f xs keeps)

  pub count-delete_le : (q p : A → Bool) (xs : List A) → count q (delete p xs) ≤ count q xs
  count-delete_le q p [] = omega arith
  count-delete_le q p (x ∷ xs) = ground (arith, count-delete_le q p xs)

  -- A row that an update makes of a found row is found by what the update makes true.
  pub count-update_found :
      (q p r : A → Bool) (f : A → A) (xs : List A) (x : A)
      → find q xs ≡ some x
      → ((y : A) → q y ≡ true → p y ≡ true)
      → ((y : A) → q y ≡ true → r (f y) ≡ true)
      → 1 ≤ count r (update p f xs)
  count-update_found q p r f [] x h covers makes = cc
  count-update_found q p r f (y ∷ ys) x h covers makes =
      ground (arith, covers y, makes y, count-update_found q p r f ys x)

  pub count-select :
      (q p : A → Bool) (xs : List A) → count q (select p xs) ≡ count (λ x. p x && q x) xs
  count-select q p [] = refl
  count-select q p (x ∷ xs) = ground (arith, count-select q p xs)

  pub length-select : (q : A → Bool) (xs : List A) → length (select q xs) ≡ count q xs
  length-select q [] = refl
  length-select q (x ∷ xs) = ground (arith, length-select q xs)

  pub select-none : (q : A → Bool) (xs : List A) → count q xs ≡ 0 → select q xs ≡ []
  select-none q [] h = refl
  select-none q (x ∷ xs) h = ground (arith, select-none q xs)

module _ {ℓ κ} {A : Type ℓ} where
  pub All-find :
      (P : A → Type κ) (q : A → Bool) (xs : List A) (x : A) → All P xs → find q xs ≡ some x → P x
  All-find P q [] x h e = cc
  All-find P q (y ∷ ys) x h e = elim (Bool-cases (q y)) [
    | inl hit ↦ let same : y ≡ x = ground arith in subst P same h.0
    | inr miss ↦ All-find P q ys x h.1 (ground arith)
  ]

  pub All-update :
      (P : A → Type κ) (p : A → Bool) (f : A → A) (xs : List A)
      → ((x : A) → p x ≡ true → P x → P (f x))
      → All P xs
      → All P (update p f xs)
  All-update P p f [] step h = tt
  All-update P p f (x ∷ xs) step h = (at (p x) refl, All-update P p f xs step h.1)
    where
      at : (b : Bool) → p x ≡ b → P (if b then f x else x)
      at true e = step x e h.0
      at false e = h.0

  pub All-delete : (P : A → Type κ) (p : A → Bool) (xs : List A) → All P xs → All P (delete p xs)
  All-delete P p [] h = tt
  All-delete P p (x ∷ xs) h = at (p x) (All-delete P p xs h.1)
    where
      at : (b : Bool) → All P (delete p xs) → All P (if b then delete p xs else x ∷ delete p xs)
      at true rest = rest
      at false rest = (h.0, rest)

  -- What a DELETE leaves does not pass its test.
  pub All-delete_rest :
      (P : A → Type κ) (p : A → Bool) (xs : List A)
      → ((x : A) → p x ≡ false → P x)
      → All P (delete p xs)
  All-delete_rest P p [] h = tt
  All-delete_rest P p (x ∷ xs) h = at (p x) refl (All-delete_rest P p xs h)
    where
      at :
          (b : Bool)
          → p x ≡ b
          → All P (delete p xs)
          → All P (if b then delete p xs else x ∷ delete p xs)
      at true e rest = rest
      at false e rest = (h x e, rest)

  -- The rows of a SELECT keep what held of the table, and pass its test.
  pub All-select :
      (P : A → Type κ) (p : A → Bool) (xs : List A)
      → All P xs
      → All (λ x. (p x ≡ true) × P x) (select p xs)
  All-select P p [] h = tt
  All-select P p (x ∷ xs) h = at (p x) refl (All-select P p xs h.1)
    where
      at :
          (b : Bool)
          → p x ≡ b
          → All (λ x. (p x ≡ true) × P x) (select p xs)
          → All (λ x. (p x ≡ true) × P x) (if b then x ∷ select p xs else select p xs)
      at true e rest = ((e, h.0), rest)
      at false e rest = rest

module _ {ℓ} {A : Type ℓ} where
  -- An INSERT that succeeds appends a row that clashes with none.
  pub insert-ok :
      (clash : A → A → Bool) (r : A) (xs ys : List A)
      → insert clash r xs ≡ ok ys
      → (ys ≡ xs ++ (r ∷ [])) × (exists (clash r) xs ≡ false)
  insert-ok clash r xs ys h = elim (Bool-cases (exists (clash r) xs)) [
    | inl found ↦ let no : insert clash r xs ≡ raised integrity_error = rw found in cc
    | inr fresh ↦ let yes' : insert clash r xs ≡ ok (xs ++ (r ∷ [])) = rw fresh in (cc, fresh)
  ]

module _ {ℓ} {A : Type ℓ} where
  pub exists-append :
      (q : A → Bool) (xs ys : List A) → exists q (xs ++ ys) ≡ (exists q xs || exists q ys)
  exists-append q [] ys = refl
  exists-append q (x ∷ xs) ys = ground (arith, exists-append q xs ys)

  pub exists-update :
      (q p : A → Bool) (f : A → A) (xs : List A)
      → ((x : A) → q (f x) ≡ q x)
      → exists q (update p f xs) ≡ exists q xs
  exists-update q p f [] keeps = refl
  exists-update q p f (x ∷ xs) keeps = ground (arith, keeps x, exists-update q p f xs keeps)

  -- A row is deleted by a DELETE or selected by the SELECT of the same test.
  pub exists-split :
      (q p : A → Bool) (xs : List A)
      → exists q xs ≡ (exists q (delete p xs) || exists q (select p xs))
  exists-split q p [] = refl
  exists-split q p (x ∷ xs) = ground (arith, exists-split q p xs)

  -- A key that was in the table is still there after INSERT OR REPLACE.
  pub exists-insert_or_replace :
      (q : A → Bool) (clash : A → A → Bool) (r : A) (xs : List A)
      → ((x : A) → clash r x ≡ true → q x ≡ true → q r ≡ true)
      → exists q xs ≡ true
      → exists q (insert_or_replace clash r xs) ≡ true
  exists-insert_or_replace q clash r [] same h = cc
  exists-insert_or_replace q clash r (x ∷ xs) same h = ground (
    arith,
    same x,
    exists-append q (delete (clash r) (x ∷ xs)) (r ∷ []),
    exists-append q (delete (clash r) xs) (r ∷ []),
    exists-insert_or_replace q clash r xs same,
  )
