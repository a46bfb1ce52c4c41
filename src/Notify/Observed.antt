-- ===== src/Notify/Observed.antt =====
-- compat/notification_store.py: a device that reads on from its cursor, page by page, sees what
-- another has read.
use hermes_app.Base.{
  ℕ, zero, suc, ◌+◌, ◌<◌, ◌≤◌, String, Bool, true, false, ◌≡◌, refl, some, List, [], ◌∷◌, ◌++◌, map,
  arith, ltb, lt→ltb, ◌&&◌, ◌==◌, ◌⊎◌, ◌∙◌, length-take, if◌then◌else◌, take, length, take-take_suc,
  All, All-map, All-take, inl, inr,
}
use hermes_app.Base.Table.{
  count-update_found, count-select, count-append, find, exists, count, count-order_by, order_by,
  select, All-order_by, All-select, All-update,
}
use hermes_app.Notify.Defs.{Event, NotifyDb, event_is, owned_event, read_clash}
use hermes_app.Notify.Events.{
  seq_now, new_read, stamped, mark_found, mark_read, max_change, read_by, changed_after,
  events_after,
}
use hermes_app.Notify.Feed.{IsSequenced}

-- What a device reads that asks for a page after its cursor, and for the next one after the cursor
-- that it is answered, as long as there is more, at most as often as the first argument says.
abbrev pub read_on : ℕ → NotifyDb → String → ℕ → ℕ → List (Event × ℕ)
read_on zero db o after limit = []
read_on (suc n) db o after limit =
    let page = events_after db o after limit in
    let rest = read_on n db o page.2 limit in page.0 ++ (if page.1 then rest else [])

-- The rows after the cursor in the order of their change numbers, without the limit of a page.
abbrev all_after : NotifyDb → String → ℕ → List Event
all_after db o after =
    order_by (λ e. e.change_seq)
      (select (λ e. e.owner_scope == o && ltb after e.change_seq) db.events)

module _ (o i : String) (now n after : ℕ) (ahead : after < n) where
  owned_stamped :
      (e : Event)
      → owned_event o i e ≡ true
      → (((stamped now n e).owner_scope == o && ltb after (stamped now n e).change_seq)
          && event_is i (stamped now n e))
        ≡ true
  unfolding owned_event stamped event_is
  owned_stamped e h = let below : ltb after n ≡ true = lt→ltb after n ahead in ground arith

  owned-is : (e : Event) → owned_event o i e ≡ true → event_is i e ≡ true
  unfolding owned_event event_is
  owned-is e h = ground arith

-- Every cursor below the number of the stamp has the event among the rows after it.
marked-listed :
    (now : ℕ) (db : NotifyDb) (o i reader : String) (after : ℕ) (e : Event)
    → find (owned_event o i) db.events ≡ some e
    → exists (read_clash (new_read now i reader e.created_seq)) db.read_events ≡ false
    → after < seq_now db
    → 1 ≤ count (event_is i) (all_after (mark_found now db i reader (some e)).1 o after)
unfolding mark_found
marked-listed now db o i reader after e owned fresh ahead =
    rw (fresh, count-order_by, count-select)
      (count-update_found (owned_event o i) (event_is i) _ (stamped now (seq_now db)) db.events e
        owned (owned-is o i now (seq_now db) after ahead)
        (owned_stamped o i now (seq_now db) after ahead))

-- The event, or a number below the stamp's.
abbrev Unmarked : String → ℕ → Event → Type 0
Unmarked i n e = event_is i e ≡ false → e.change_seq < n

-- Only the event has the number of the stamp.
marked-Unmarked :
    (now : ℕ) (db : NotifyDb) (i reader : String) (e : Event)
    → IsSequenced db
    → exists (read_clash (new_read now i reader e.created_seq)) db.read_events ≡ false
    → All (Unmarked i (seq_now db)) (mark_found now db i reader (some e)).1.events
unfolding mark_found stamped event_is
marked-Unmarked now db i reader e sequenced fresh = rw fresh (
    All-update (Unmarked i (seq_now db)) (event_is i) (stamped now (seq_now db)) db.events
      (λ x mine _ other. absurd (cc))
      (All-map (λ (x : Event). x.change_seq < seq_now db) (Unmarked i (seq_now db)) db.events
        (λ x below _. below) sequenced))

missed_more :
    (q : Event → Bool) (n : ℕ) (xs : List Event)
    → count q (take n xs) ≡ 0
    → 1 ≤ count q xs
    → n < length xs
missed_more q zero [] none_there some_there = absurd (omega (arith, some_there))
missed_more q zero (x ∷ xs) none_there some_there = omega arith
missed_more q (suc n) [] none_there some_there = absurd (omega (arith, some_there))
missed_more q (suc n) (x ∷ xs) none_there some_there =
    let h : n < length xs = missed_more q n xs (ground arith) (ground arith) in omega arith

none_or_some : (n : ℕ) → (n ≡ 0) ⊎ (1 ≤ n)
none_or_some zero = inl refl
none_or_some (suc n) = inr (omega arith)

count-rows :
    (db : NotifyDb) (i : String) (es : List Event)
    → count (λ (row : Event × ℕ). event_is i row.0) (map (λ e. (e, read_by db e)) es)
      ≡ count (event_is i) es
count-rows db i [] = refl
count-rows db i (e ∷ es) = omega (arith, count-rows db i es)

next_above :
    (after : ℕ) (es : List Event)
    → All (λ e. after < e.change_seq) es
    → 1 ≤ length es
    → after < max_change after es
unfolding max_change
next_above after [] h some_there = absurd (omega arith)
next_above after (e ∷ es) h some_there = omega (arith, h.0)

next_below :
    (after n : ℕ) (i : String) (es : List Event)
    → after < n
    → All (Unmarked i n) es
    → count (event_is i) es ≡ 0
    → max_change after es < n
unfolding max_change
next_below after n i [] ahead h missed = ahead
next_below after n i (e ∷ es) ahead h missed =
    let rest : max_change after es < n = next_below after n i es ahead h.1 (ground arith) in
    let here : e.change_seq < n = h.0 (ground arith) in omega arith

module _ (db : NotifyDb) (o i : String) (n limit : ℕ) (some_room : 1 ≤ limit)
    (others : All (Unmarked i n) db.events)
    (listed : (after : ℕ) → after < n → 1 ≤ count (event_is i) (all_after db o after)) where
  page_above : (after : ℕ) → All (λ e. after < e.change_seq) (take limit (all_after db o after))
  page_above after =
      All-take (λ (e : Event). after < e.change_seq) limit _
        (All-order_by (λ e. e.change_seq) (λ (e : Event). after < e.change_seq) _
          (All-map _ (λ (e : Event). after < e.change_seq) _ (λ e h. ground arith)
            (All-select (Unmarked i n) (λ e. e.owner_scope == o && ltb after e.change_seq) db.events
              others)))

  page_below : (after : ℕ) → All (Unmarked i n) (take limit (all_after db o after))
  page_below after = All-take (Unmarked i n) limit _ (
      All-order_by (λ e. e.change_seq) (Unmarked i n) _
        (All-map _ (Unmarked i n) _ (λ e h. h.1)
          (All-select (Unmarked i n) (λ e. e.owner_scope == o && ltb after e.change_seq) db.events
            others)))

  -- A page without the event says that there is more, and its cursor has moved and is below still.
  page_missed :
      (after : ℕ)
      → after < n
      → count (event_is i) (take limit (all_after db o after)) ≡ 0
      → ((events_after db o after limit).1 ≡ true)
        × (after < (events_after db o after limit).2)
        × ((events_after db o after limit).2 < n)
  unfolding events_after changed_after
  page_missed after ahead missed =
      let long : limit < length (all_after db o after) =
        missed_more (event_is i) limit (all_after db o after) missed (listed after ahead) in
      let size : length (take limit (all_after db o after)) ≡ limit =
        omega (arith, length-take limit (all_after db o after), long) in
      (
        lt→ltb limit _ (omega (arith, length-take (limit + 1) (all_after db o after), long)),
        rw take-take_suc
            (next_above after (take limit (all_after db o after)) (page_above after) (omega arith)),
        rw take-take_suc (
            next_below after n i (take limit (all_after db o after)) ahead (page_below after)
              missed),
      )

  page_rows :
      (after : ℕ)
      → count (λ (row : Event × ℕ). event_is i row.0) (events_after db o after limit).0
        ≡ count (event_is i) (take limit (all_after db o after))
  unfolding events_after changed_after
  page_rows after =
      count-rows db i (take limit (take (limit + 1) (all_after db o after))) ∙ rw take-take_suc refl

  read_on-listed :
      (fuel after : ℕ)
      → after < n
      → n ≤ after + fuel
      → 1 ≤ count (λ (row : Event × ℕ). event_is i row.0) (read_on fuel db o after limit)
  read_on-listed zero after ahead enough = absurd (omega arith)
  read_on-listed (suc fuel) after ahead enough =
      let page = events_after db o after limit in
      elim (none_or_some (count (event_is i) (take limit (all_after db o after)))) [
        | inr here ↦
            let found : 1 ≤ count (λ (row : Event × ℕ). event_is i row.0) page.0 =
              rw page_rows here in
            rw count-append (omega (arith, found))
        | inl missed ↦
            let (more, above, below) = page_missed after ahead missed in
            let later : 1
                ≤ count (λ (row : Event × ℕ). event_is i row.0) (read_on fuel db o page.2 limit) =
              read_on-listed fuel page.2 below (omega arith) in
            rw (count-append, more) (omega (arith, later))
      ]

-- When a device of the owner acknowledges an event for the first time, a device of the owner whose
-- cursor is below the ledger's next number gets the event again, whatever its old number: in a ledger
-- whose numbers are below the next one, with pages of at least one row, the pages that it reads from
-- its cursor on, for as long as there is more, contain the event, and no more of them are
-- needed than there are numbers from the cursor to the next one.
pub mark_read-observed :
    (now : ℕ) (db : NotifyDb) (o i reader : String) (after limit pages : ℕ) (e : Event)
    → IsSequenced db
    → find (owned_event o i) db.events ≡ some e
    → exists (read_clash (new_read now i reader e.created_seq)) db.read_events ≡ false
    → after < seq_now db
    → 1 ≤ limit
    → seq_now db ≤ after + pages
    → 1
      ≤ count
          (λ (row : Event × ℕ). event_is i row.0)
          (read_on pages (mark_read now db o i reader).1 o after limit)
unfolding mark_read
mark_read-observed now db o i reader after limit pages e sequenced owned fresh ahead some_room
      enough =
    rw owned (
      read_on-listed (mark_found now db i reader (some e)).1 o i (seq_now db) limit some_room
        (marked-Unmarked now db i reader e sequenced fresh)
        (λ cursor behind. marked-listed now db o i reader cursor e owned fresh behind) pages after
        ahead enough)
