-- ===== src/Steer/Pages.antt =====
-- compat/steer_store.py: `list_steers` is a page of the run's full listing.
use hermes_app.Base.{
  ℕ, zero, suc, ◌+◌, ◌≤◌, min, String, Bool, true, false, ◌&&◌, ◌≡◌, refl, List, [], ◌∷◌, arith,
  ltb, if◌then◌else◌, take, drop, length, length-take, take-append-drop, take-take_suc, All,
  All-take, ◌∙◌, ◌++◌,
}
use hermes_app.Base.Table.{
  select, count, order_by, IsOrdered, order_by-IsOrdered, All-order_by, count-order_by,
  length-select, count-append, count-select,
}
use hermes_app.Steer.Defs.{Steer, SteerDb, steer_in}
use hermes_app.Steer.Views.{list_steers}

abbrev pub after_cursor : String → String → ℕ → Steer → Bool
after_cursor o r after s = steer_in o r s && ltb after s.seq

count_all : (xs : List Steer) → length xs ≡ count (λ _. true) xs
count_all [] = refl
count_all (x ∷ xs) = omega (arith, count_all xs)

length-order_by : (xs : List Steer) → length (order_by (λ s. s.seq) xs) ≡ length xs
length-order_by xs =
    rw (count_all (order_by (λ (s : Steer). s.seq) xs), count-order_by, count_all xs) refl

IsOrdered-take :
    (n : ℕ) (xs : List Steer) → IsOrdered (λ s. s.seq) xs → IsOrdered (λ s. s.seq) (take n xs)
IsOrdered-take zero xs h = tt
IsOrdered-take (suc n) [] h = tt
IsOrdered-take (suc n) (x ∷ xs) h =
    (All-take (λ (y : Steer). x.seq ≤ y.seq) n xs h.0, IsOrdered-take n xs h.1)

select-All : (p : Steer → Bool) (xs : List Steer) → All (λ s. p s ≡ true) (select p xs)
select-All p [] = tt
select-All p (x ∷ xs) = at (p x) refl (select-All p xs)
  where
    at :
        (b : Bool)
        → p x ≡ b
        → All (λ s. p s ≡ true) (select p xs)
        → All (λ s. p s ≡ true) (if b then x ∷ select p xs else select p xs)
    at true e rest = (e, rest)
    at false e rest = rest

All-drop : (P : Steer → Type 0) (n : ℕ) (xs : List Steer) → All P xs → All P (drop n xs)
All-drop P zero xs h = h
All-drop P (suc n) [] h = tt
All-drop P (suc n) (x ∷ xs) h = All-drop P n xs h.1

-- The rows before a cut come no later than those behind it.
cut-IsOrdered :
    (n : ℕ) (xs : List Steer)
    → IsOrdered (λ s. s.seq) xs
    → All (λ s. All (λ t. s.seq ≤ t.seq) (drop n xs)) (take n xs)
cut-IsOrdered zero xs h = tt
cut-IsOrdered (suc n) [] h = tt
cut-IsOrdered (suc n) (x ∷ xs) h =
    (All-drop (λ (t : Steer). x.seq ≤ t.seq) n xs h.0, cut-IsOrdered n xs h.1)

count-cut :
    (q : Steer → Bool) (n : ℕ) (xs : List Steer)
    → count q (take n xs) + count q (drop n xs) ≡ count q xs
count-cut q n xs =
    let joined : count q (take n xs ++ drop n xs) ≡ count q xs = rw take-append-drop refl in
    omega (arith, joined, count-append q (take n xs) (drop n xs))

-- What a page is. With the rows of `rest` it has, as often as the store, every row of the run after
-- the cursor and no other; it is in the order of the numbers, no number of it is above one of `rest`,
-- it has as many rows as there are up to the limit, and the word that there is more is said exactly
-- if there are more than the limit.
pub record Page (db : SteerDb) (o r : String) (after limit : ℕ) : Type 0 where
  pub rest : List Steer
  pub rows :
      (q : Steer → Bool)
      → count q (list_steers db o r after limit).0 + count q rest
        ≡ count (λ s. after_cursor o r after s && q s) db.steers
  pub first : All (λ s. All (λ t. s.seq ≤ t.seq) rest) (list_steers db o r after limit).0
  pub size :
      length (list_steers db o r after limit).0
      ≡ min limit (count (after_cursor o r after) db.steers)
  pub ordered : IsOrdered (λ s. s.seq) (list_steers db o r after limit).0
  pub matching : All (λ s. after_cursor o r after s ≡ true) (list_steers db o r after limit).0
  pub more :
      (list_steers db o r after limit).1 ≡ ltb limit (count (after_cursor o r after) db.steers)

list_steers-lengths :
    (db : SteerDb) (o r : String) (after : ℕ)
    → length (order_by (λ s. s.seq) (select (after_cursor o r after) db.steers))
      ≡ count (after_cursor o r after) db.steers
list_steers-lengths db o r after = rw (length-order_by, length-select) refl

more_rows : (n : ℕ) (xs : List Steer) → ltb n (length (take (n + 1) xs)) ≡ ltb n (length xs)
more_rows n xs = rw length-take (ground arith)

-- `list_steers` answers the first rows of the run after the cursor, in the order of their numbers:
-- the store's rows, each as often as the store has it, as many as there are up to the limit, none
-- with a number above that of a row it leaves out; and it says that there is more exactly if
-- there are more rows than the limit.
pub list_steers-Page : (db : SteerDb) (o r : String) (after limit : ℕ) → Page db o r after limit
unfolding list_steers
list_steers-Page db o r after limit = record {
  rest = drop limit (order_by (λ s. s.seq) (select (after_cursor o r after) db.steers));
  rows = λ q. rw take-take_suc (
      count-cut q limit (order_by (λ s. s.seq) (select (after_cursor o r after) db.steers))
      ∙ count-order_by (λ s. s.seq) q (select (after_cursor o r after) db.steers)
      ∙ count-select q (after_cursor o r after) db.steers);
  first = rw take-take_suc (
      cut-IsOrdered limit _
        (order_by-IsOrdered (λ s. s.seq) (select (after_cursor o r after) db.steers)));
  size = rw (take-take_suc, length-take, list_steers-lengths db o r after) refl;
  ordered = rw take-take_suc (
      IsOrdered-take limit _
        (order_by-IsOrdered (λ s. s.seq) (select (after_cursor o r after) db.steers)));
  matching =
      All-take (λ (s : Steer). after_cursor o r after s ≡ true) limit _
        (All-take (λ (s : Steer). after_cursor o r after s ≡ true) (limit + 1) _
          (All-order_by (λ s. s.seq) (λ (s : Steer). after_cursor o r after s ≡ true) _
            (select-All (after_cursor o r after) db.steers)));
  more = rw (more_rows, list_steers-lengths db o r after) refl;
}
