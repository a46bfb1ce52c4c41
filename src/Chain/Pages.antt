-- ===== src/Chain/Pages.antt =====
-- compat/self_wake.py: the search by pages finds what a search of all rows finds.
use hermes_app.Base.{
  ℕ, zero, suc, ◌≤◌, ◌<◌, Bool, true, false, ◌||◌, ◌&&◌, ◌≡◌, ◌∙◌, refl, sym, ap, Option, some,
  List, [], ◌∷◌, ◌++◌, ltb, arith, All, if◌then◌else◌, take, drop, take-append-drop, All-take,
  length,
}
use mathlib.Core.Path.{subst}
use hermes_app.Base.Table.{select}
use hermes_app.Chain.Human.{
  Message, Texts, page_size, is_after, is_human, any_human, last_of, page, page_or, search_pages,
  human_checkpoint,
}
use hermes_app.Chain.Order.{
  InOrder, after_after, select-select, select-InOrder, last_of-All, select-after_page,
  any_human-append,
}

-- The rows that a page is cut from.
abbrev rows_left : List Message → ℕ → ℕ → ℕ → List Message
rows_left messages since stamp mid =
    select (λ m. ltb since m.timestamp && is_after stamp mid m) messages

left_after :
    (messages : List Message) (since stamp mid : ℕ) (z : Message)
    → is_after stamp mid z ≡ true
    → select (is_after z.timestamp z.id) (rows_left messages since stamp mid)
      ≡ rows_left messages since z.timestamp z.id
left_after messages since stamp mid z h =
    select-select (λ m. ltb since m.timestamp && is_after stamp mid m) (is_after z.timestamp z.id)
      (λ m. ltb since m.timestamp && is_after z.timestamp z.id m) messages
      λ m. at m (ltb since m.timestamp) (is_after z.timestamp z.id m) refl
  where
    at :
        (m : Message) (recent later : Bool)
        → is_after z.timestamp z.id m ≡ later
        → (recent && later) ≡ ((recent && is_after stamp mid m) && later)
    at m recent true e = let k = after_after stamp mid z m h e in ground (arith, k)
    at m recent false e = ground arith

all_after :
    (messages : List Message) (since stamp mid : ℕ)
    → All (λ x. is_after stamp mid x ≡ true) (rows_left messages since stamp mid)
all_after [] since stamp mid = tt
all_after (m ∷ messages) since stamp mid =
    at (ltb since m.timestamp) (is_after stamp mid m) refl (all_after messages since stamp mid)
  where
    at :
        (recent later : Bool)
        → is_after stamp mid m ≡ later
        → All (λ x. is_after stamp mid x ≡ true) (rows_left messages since stamp mid)
        → All
            (λ x. is_after stamp mid x ≡ true)
            (if recent && later
              then m ∷ rows_left messages since stamp mid
              else rows_left messages since stamp mid)
    at true true e rest = (e, rest)
    at true false e rest = rest
    at false later e rest = rest

length-drop_le : (n : ℕ) (xs : List Message) → length (drop n xs) ≤ length xs
length-drop_le zero xs = omega arith
length-drop_le (suc n) [] = omega arith
length-drop_le (suc n) (x ∷ xs) = omega (arith, length-drop_le n xs)

-- After a page the rest of the rows is left.
next_page :
    (messages : List Message) (since stamp mid n : ℕ) (m : Message) (left : List Message)
    → InOrder messages
    → rows_left messages since stamp mid ≡ m ∷ left
    → rows_left messages since (last_of m (take n left)).timestamp (last_of m (take n left)).id
      ≡ drop n left
next_page messages since stamp mid n m left ordered e =
    let behind : All (λ x. is_after stamp mid x ≡ true) (m ∷ left) =
      subst (All (λ x. is_after stamp mid x ≡ true)) e (all_after messages since stamp mid) in
    let in_order : InOrder (m ∷ left) = subst InOrder e (select-InOrder _ messages ordered) in
    let last : is_after stamp mid (last_of m (take n left)) ≡ true =
      last_of-All (λ x. is_after stamp mid x ≡ true) m (take n left) behind.0
        (All-take (λ x. is_after stamp mid x ≡ true) n left behind.1) in
    sym (left_after messages since stamp mid (last_of m (take n left)) last)
    ∙ ap (select (is_after (last_of m (take n left)).timestamp (last_of m (take n left)).id)) e
    ∙ select-after_page n m left in_order

found_later :
    (t : Texts) (hit : Bool) (front back left : List Message) (go : Option Bool)
    → front ++ back ≡ left
    → go ≡ some (any_human t back)
    → (if (if hit then true else any_human t front) then some true else go)
      ≡ some (if hit then true else any_human t left)
found_later t hit front back left go split ended =
    rw (← split, any_human-append, ended) (at hit (any_human t front) (any_human t back))
  where
    at :
        (a b c : Bool)
        → (if (if a then true else b) then some true else some c)
          ≡ some (if a then true else b || c)
    at true b c = refl
    at false true c = refl
    at false false c = refl

-- With more fuel than rows that are left, the loop ends with what a search of these finds.
search_pages-total :
    (t : Texts) (messages : List Message) (since fuel stamp mid : ℕ)
    → InOrder messages
    → length (rows_left messages since stamp mid) < fuel
    → search_pages t messages since fuel stamp mid
      ≡ some (any_human t (rows_left messages since stamp mid))
unfolding search_pages page
search_pages-total t messages since zero stamp mid ordered enough = absurd (omega arith)
search_pages-total t messages since (suc fuel) stamp mid ordered enough =
    at (rows_left messages since stamp mid) refl
      (λ z. search_pages-total t messages since fuel z.timestamp z.id ordered)
  where
    at :
        (left : List Message)
        → rows_left messages since stamp mid ≡ left
        → ((z : Message)
            → length (rows_left messages since z.timestamp z.id) < fuel
            → search_pages t messages since fuel z.timestamp z.id
              ≡ some (any_human t (rows_left messages since z.timestamp z.id)))
        → (if any_human t (take page_size left)
            then some true
            else page_or
                (take page_size left)
                (λ m. search_pages t messages since fuel m.timestamp m.id))
          ≡ some (any_human t left)
    at [] e rest = refl
    at (m ∷ left) e rest =
        let next = next_page messages since stamp mid 127 m left ordered e in
        found_later t (is_human t m) (take 127 left) (drop 127 left) left _
          (take-append-drop 127 left)
          (rest (last_of m (take 127 left))
              (omega (arith, ap length next, ap length e, length-drop_le 127 left))
            ∙ ap (λ (l : List Message). some (any_human t l)) next)

newer :
    (since : ℕ) (m : Message)
    → (ltb since m.timestamp && is_after since 0 m) ≡ ltb since m.timestamp
unfolding is_after
newer since m = ground arith

length-select_le : (q : Message → Bool) (xs : List Message) → length (select q xs) ≤ length xs
length-select_le q [] = omega arith
length-select_le q (x ∷ xs) = ground (arith, length-select_le q xs)

-- The rows newer than a fire are all left at first.
left_at_first :
    (since : ℕ) (messages : List Message)
    → rows_left messages since since 0 ≡ select (λ m. ltb since m.timestamp) messages
left_at_first since [] = refl
left_at_first since (m ∷ messages) = ground (arith, newer since m, left_at_first since messages)

-- Where the core's query answers with rows in strict order, and there is more fuel than there are
-- rows, the loop over pages of 128 ends, and answers what one search of all the rows newer than
-- `since` finds: whether one of them is a human text.
pub human_checkpoint-any :
    (t : Texts) (fuel : ℕ) (messages : List Message) (since : ℕ)
    → InOrder messages
    → length messages < fuel
    → human_checkpoint t fuel (some messages) since
      ≡ some (any_human t (select (λ m. ltb since m.timestamp) messages))
unfolding human_checkpoint
human_checkpoint-any t fuel messages since ordered enough =
    search_pages-total t messages since fuel since 0 ordered
      (omega (arith, length-select_le (λ m. ltb since m.timestamp && is_after since 0 m) messages))
    ∙ ap (λ (l : List Message). some (any_human t l)) (left_at_first since messages)
