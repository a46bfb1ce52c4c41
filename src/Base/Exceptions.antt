-- ===== src/Base/Exceptions.antt =====
-- Python's exceptions as values. Where a `with conn` block raises, SQLite rolls the transaction
-- back, so a raised result carries no database: the caller keeps the one that it had.
use mathlib.Core.Path.{◌≡◌, refl}
use mathlib.Core.Bool.{Bool, true, false}
use mathlib.Core.Option.{Option, none, some}
use hermes_app.Base.Tests.{if◌then◌else◌}

pub data Exc : Type 0 where
  integrity_error type_error value_error runtime_error quota_exceeded unavailable : Exc

pub data Result {ℓ} (A : Type ℓ) : Type ℓ where
  ok : A → Result A
  raised : Exc → Result A

-- What follows a statement runs on its value, and not at all when the statement raised.
module _ {ℓ κ} {A : Type ℓ} {B : Type κ} where
  infixl 5 ◌>>=◌
  abbrev pub ◌>>=◌ : (statement : Result A) → (rest : A → Result B) → Result B
  raised e >>= rest = raised e
  ok value >>= rest = rest value

  -- A sequence that succeeds has a first statement that succeeded.
  pub >>=-eq-ok :
      (statement : Result A) (rest : A → Result B) {result : B}
      → statement >>= rest ≡ ok result
      → (value : A) × (statement ≡ ok value) × (rest value ≡ ok result)
  >>=-eq-ok (raised e) rest done = cc
  >>=-eq-ok (ok value) rest done = (value, refl, done)

abbrev pub or_raise {ℓ} : {A : Type ℓ} → Option A → Exc → Result A
or_raise none e = raised e
or_raise (some a) e = ok a

-- The database after a transaction: the new one if it committed, the old one if it raised.
abbrev pub committed {ℓ} : {A D : Type ℓ} → D → Result (A × D) → D
committed d (ok (a, d')) = d'
committed d (raised e) = d

-- What holds of the old database, and of the new one whatever a fallible step returns, holds after
-- the transaction.
pub committed-bind {ℓ κ} :
    {A B D : Type ℓ} (P : D → Type κ) (d : D) (m : Result B) (f : B → Result (A × D))
    → P d
    → ((b : B) → m ≡ ok b → P (committed d (f b)))
    → P (committed d (m >>= f))
committed-bind P d (ok b) f old new = new b refl
committed-bind P d (raised e) f old new = old

pub committed-if {ℓ κ} :
    {A D : Type ℓ} (P : D → Type κ) (d : D) (b : Bool) (x y : Result (A × D))
    → (b ≡ true → P (committed d x))
    → (b ≡ false → P (committed d y))
    → P (committed d (if b then x else y))
committed-if P d true x y hx hy = hx refl
committed-if P d false x y hx hy = hy refl

pub or_raise-ok {ℓ} :
    {A : Type ℓ} (o : Option A) (e : Exc) (a : A) → or_raise o e ≡ ok a → o ≡ some a
or_raise-ok none e a h = cc
or_raise-ok (some x) e a h = cc

-- A chain of fallible steps, read by its two outcomes.
pub bind-cases {ℓ κ μ} :
    {A : Type ℓ} {B : Type κ} (P : Result A → Type μ) (m : Result B) (f : B → Result A)
    → ((e : Exc) → P (raised e))
    → ((b : B) → m ≡ ok b → P (f b))
    → P (m >>= f)
bind-cases P (ok b) f bad good = good b refl
bind-cases P (raised e) f bad good = bad e
