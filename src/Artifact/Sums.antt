-- ===== src/Artifact/Sums.antt =====
-- compat/artifact_quota.py: how the statements on `reservations` change a sum of bytes.
use hermes_app.Base.{ℕ, ◌+◌, ◌≤◌, Bool, false, ◌≡◌, refl, List, [], ◌∷◌, ◌++◌, arith}
use hermes_app.Base.Table.{sum_of, count, update, delete}

module _ {ℓ} {A : Type ℓ} (k : A → ℕ) where
  pub sum_of-append_one :
      (q : A → Bool) (xs : List A) (x : A) → sum_of k q (xs ++ (x ∷ [])) ≤ sum_of k q xs + k x
  sum_of-append_one q [] x = ground arith
  sum_of-append_one q (y ∷ ys) x = ground (arith, sum_of-append_one q ys x)

  -- A row that the sum leaves out adds nothing.
  pub sum_of-append_other :
      (q : A → Bool) (xs : List A) (x : A)
      → q x ≡ false
      → sum_of k q (xs ++ (x ∷ [])) ≡ sum_of k q xs
  sum_of-append_other q [] x h = ground arith
  sum_of-append_other q (y ∷ ys) x h = ground (arith, sum_of-append_other q ys x h)

  pub sum_of-delete : (q p : A → Bool) (xs : List A) → sum_of k q (delete p xs) ≤ sum_of k q xs
  sum_of-delete q p [] = omega arith
  sum_of-delete q p (x ∷ xs) = ground (arith, sum_of-delete q p xs)

  -- An update that keeps a row's number and whether it counts keeps the sum.
  pub sum_of-update :
      (q p : A → Bool) (f : A → A) (xs : List A)
      → ((x : A) → q (f x) ≡ q x)
      → ((x : A) → k (f x) ≡ k x)
      → sum_of k q (update p f xs) ≡ sum_of k q xs
  sum_of-update q p f [] same size = refl
  sum_of-update q p f (x ∷ xs) same size =
      ground (arith, same x, size x, sum_of-update q p f xs same size)

module _ {ℓ} {A : Type ℓ} where
  -- After an update that no updated row passes the test of, none passes it.
  pub count-update_none :
      (p : A → Bool) (f : A → A) (xs : List A)
      → ((x : A) → p (f x) ≡ false)
      → count p (update p f xs) ≡ 0
  count-update_none p f [] h = refl
  count-update_none p f (x ∷ xs) h = ground (arith, h x, count-update_none p f xs h)
