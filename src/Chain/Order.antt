-- ===== src/Chain/Order.antt =====
-- compat/self_wake.py: messages in the order of time, and a page of them.
use hermes_app.Base.{
  ℕ, zero, suc, Bool, true, false, ◌||◌, ◌&&◌, ◌≡◌, refl, List, [], ◌∷◌, ◌++◌, arith, All,
  if◌then◌else◌, take, drop, All-take, All-map,
}
use hermes_app.Base.Table.{select, All-select}
use hermes_app.Chain.Human.{Message, Texts, is_after, any_human, last_of}

-- The rows come in the order of time and identifier, no two at the same place.
abbrev pub InOrder : List Message → Type 0
InOrder [] = Unit
InOrder (m ∷ rest) = All (λ x. is_after m.timestamp m.id x ≡ true) rest × InOrder rest

pub after_after :
    (stamp mid : ℕ) (m x : Message)
    → is_after stamp mid m ≡ true
    → is_after m.timestamp m.id x ≡ true
    → is_after stamp mid x ≡ true
unfolding is_after
after_after stamp mid m x h k = ground arith

not_before :
    (m x : Message) → is_after m.timestamp m.id x ≡ true → is_after x.timestamp x.id m ≡ false
unfolding is_after
not_before m x h = ground arith

not_after_self : (m : Message) → is_after m.timestamp m.id m ≡ false
unfolding is_after
not_after_self m = ground arith

select-all : (q : Message → Bool) (xs : List Message) → All (λ x. q x ≡ true) xs → select q xs ≡ xs
select-all q [] h = refl
select-all q (x ∷ xs) h = rw (h.0, select-all q xs h.1) refl

pub select-select :
    (p q r : Message → Bool) (xs : List Message)
    → ((x : Message) → r x ≡ (p x && q x))
    → select q (select p xs) ≡ select r xs
select-select p q r [] same = refl
select-select p q r (x ∷ xs) same = ground (arith, same x, select-select p q r xs same)

pub select-InOrder : (p : Message → Bool) (xs : List Message) → InOrder xs → InOrder (select p xs)
select-InOrder p [] h = tt
select-InOrder p (x ∷ xs) h = at (p x) (select-InOrder p xs h.1) (
    All-map (λ y. (p y ≡ true) × (is_after x.timestamp x.id y ≡ true))
      (λ y. is_after x.timestamp x.id y ≡ true) (select p xs) (λ y k. k.1) (All-select _ p xs h.0))
  where
    at :
        (b : Bool)
        → InOrder (select p xs)
        → All (λ y. is_after x.timestamp x.id y ≡ true) (select p xs)
        → InOrder (if b then x ∷ select p xs else select p xs)
    at true rest first = (first, rest)
    at false rest first = rest

-- The last row of a page lies after the rows before the page.
pub last_of-All :
    (P : Message → Type 0) (m : Message) (rest : List Message)
    → P m
    → All P rest
    → P (last_of m rest)
last_of-All P m [] h k = h
last_of-All P m (x ∷ rest) h k = last_of-All P x rest k.0 k.1

-- The rows after the last one of a page are those that the page left.
pub select-after_page :
    (n : ℕ) (m : Message) (rest : List Message)
    → InOrder (m ∷ rest)
    → select (is_after (last_of m (take n rest)).timestamp (last_of m (take n rest)).id) (m ∷ rest)
      ≡ drop n rest
select-after_page zero m rest h = rw (not_after_self m, select-all _ rest h.0) refl
select-after_page (suc n) m [] h = rw (not_after_self m) refl
select-after_page (suc n) m (x ∷ rest) h =
    let behind : is_after m.timestamp m.id (last_of x (take n rest)) ≡ true =
      last_of-All (λ y. is_after m.timestamp m.id y ≡ true) x (take n rest) h.0.0
        (All-take (λ y. is_after m.timestamp m.id y ≡ true) n rest h.0.1) in
    rw (not_before m (last_of x (take n rest)) behind) (select-after_page n x rest h.1)

pub any_human-append :
    (t : Texts) (xs ys : List Message) → any_human t (xs ++ ys) ≡ (any_human t xs || any_human t ys)
any_human-append t [] ys = refl
any_human-append t (x ∷ xs) ys = ground (arith, any_human-append t xs ys)
