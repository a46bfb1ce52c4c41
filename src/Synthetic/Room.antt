-- ===== src/Synthetic/Room.antt =====
-- compat/crosssource.py: the loop of `issue` ends, and what it leaves.
use hermes_app.Base.{
  ℕ, zero, suc, ◌+◌, ◌≤◌, ◌<◌, String, Bool, true, ◌≡◌, refl, some, List, [], ◌∷◌, leb, length,
  length-append, arith, inl, inr, Bool-cases, Option-cases, if-keeps, eq_refl, run_all,
  run_all-keeps, truthy,
}
use hermes_app.Base.Table.{
  length-delete_le, length-delete_lt, length-update, find, exists, exists-append, update, delete,
}
use hermes_app.Synthetic.Defs.{
  Entry, Policy, has_run, same_run, is_expired, prune, is_released, pop_one, Room, make_room,
  new_entry, put, issue, bind, released, release, entry_of, count_runs, Op, step,
}

-- What `find` finds under its own key is there.
own_key :
    (q : Entry → Bool) (entries : List Entry) (e : Entry)
    → find q entries ≡ some e
    → exists (has_run e.run_id) entries ≡ true
unfolding has_run
own_key q [] e h = cc
own_key q (x ∷ entries) e h = ground (arith, own_key q entries e, eq_refl x.run_id)

-- A round of the loop pops an entry of a dictionary that is not empty.
pop_one-shorter :
    (entries : List Entry)
    → 0 < length entries
    → (rest : List Entry) × (k : String) × (pop_one (find is_released entries) entries ≡ some rest)
      × (rest ≡ delete (has_run k) entries)
      × (length rest < length entries)
unfolding pop_one
pop_one-shorter [] h = absurd (omega arith)
pop_one-shorter (x ∷ entries) h = elim (Option-cases (find is_released (x ∷ entries))) [
  | inl nothing ↦ (
    delete (has_run x.run_id) (x ∷ entries),
    x.run_id,
    rw nothing refl,
    refl,
    length-delete_lt (has_run x.run_id) (x ∷ entries) (unfold has_run in rw eq_refl refl),
  )
  | inr (e, found) ↦ (
    delete (has_run e.run_id) (x ∷ entries),
    e.run_id,
    rw found refl,
    refl,
    length-delete_lt (has_run e.run_id) (x ∷ entries) (own_key is_released (x ∷ entries) e found),
  )
]

-- With a round for each entry the loop ends by its test, and what its pops keep it keeps.
pub make_room-ends :
    (P : List Entry → Type 0) (fuel entry_cap : ℕ) (entries : List Entry)
    → 1 ≤ entry_cap
    → length entries < fuel
    → ((xs rest : List Entry)
        → entry_cap ≤ length xs
        → P xs
        → pop_one (find is_released xs) xs ≡ some rest
        → P rest)
    → P entries
    → (rest : List Entry) × (make_room fuel entry_cap entries ≡ Room.room rest)
      × (length rest < entry_cap)
      × P rest
unfolding make_room
make_room-ends P zero entry_cap entries some_room enough keeps h = absurd (omega arith)
make_room-ends P (suc fuel) entry_cap entries some_room enough keeps h =
    elim (Bool-cases (leb entry_cap (length entries))) [
      | inr fits ↦ (entries, rw fits refl, ground arith, h)
      | inl full ↦
          let (less, k, popped, made, shorter) = pop_one-shorter entries (ground arith) in
          let (rest, ended, fits, kept) =
            make_room-ends P fuel entry_cap less some_room (omega arith) keeps
              (keeps entries less (ground arith) h popped) in
          (rest, rw (full, popped) ended, fits, kept)
    ]

-- A put of an entry makes the dictionary at most one longer, and has its key.
put-listed : (e : Entry) (entries : List Entry) → exists (has_run e.run_id) (put e entries) ≡ true
unfolding put same_run has_run
put-listed e entries = elim (Bool-cases (exists (same_run e) entries)) [
  | inl old ↦ rw old (written entries old)
  | inr fresh ↦ rw (fresh, exists-append, eq_refl) (ground arith)
]
  where
    written :
        (xs : List Entry)
        → exists (same_run e) xs ≡ true
        → exists (has_run e.run_id) (update (same_run e) (λ x. e) xs) ≡ true
    written [] h = cc
    written (x ∷ xs) h = ground (arith, written xs, eq_refl e.run_id)

length-put : (e : Entry) (entries : List Entry) → length (put e entries) ≤ length entries + 1
unfolding put
length-put e entries =
    if-keeps (λ (l : List Entry). length l ≤ length entries + 1) (exists (same_run e) entries) _ _
      (λ _. omega (arith, length-update (same_run e) (λ x. e) entries))
      (λ _. omega (arith, length-append entries (e ∷ [])))

-- `issue` with room for an identifier returns, remembers the new one, and remembers no more than the
-- cap allows.
pub issue-ends :
    (p : Policy) (now : ℕ) (i sid key : String) (entries : List Entry)
    → 1 ≤ p.entry_cap
    → (after : List Entry) × (issue p now i sid key entries ≡ some after)
      × (length after ≤ p.entry_cap)
      × (exists (has_run i) after ≡ true)
unfolding issue
issue-ends p now i sid key entries some_room =
    let (rest, ended, fits, kept) =
      make_room-ends (λ xs. Unit) (suc (length (prune p now entries))) p.entry_cap
        (prune p now entries) some_room (omega arith) (λ xs r over h e. tt) tt in
    (
      put (new_entry now i sid key) rest,
      rw ended refl,
      omega (arith, length-put (new_entry now i sid key) rest),
      unfold new_entry in put-listed (new_entry now i sid key) rest,
    )

step-Bounded :
    (p : Policy) (entries : List Entry) (op : Op)
    → 1 ≤ p.entry_cap
    → length entries ≤ p.entry_cap
    → length (step p entries op) ≤ p.entry_cap
unfolding step bind release entry_of count_runs prune
step-Bounded p entries (Op.issuing now i sid key) some_room h =
    let (after, made, fits, listed) = issue-ends p now i sid key entries some_room in rw made fits
step-Bounded p entries (Op.binding i named) some_room h =
    if-keeps (λ (l : List Entry). length l ≤ p.entry_cap) (truthy named) _ _
      (λ _.
        omega (arith, length-update (has_run i) (λ e. record e { admission_id = named }) entries))
      (λ _. h)
step-Bounded p entries (Op.releasing now i ended) some_room h =
    omega (arith, length-update (has_run i) (released p now ended) entries)
step-Bounded p entries (Op.reading now i) some_room h =
    omega (arith, length-delete_le (is_expired p now) entries)
step-Bounded p entries (Op.counting now) some_room h =
    omega (arith, length-delete_le (is_expired p now) entries)

-- Where the cap is at least one, the registry remembers no more identifiers than the cap, after
-- any operations from the empty one.
pub runs_bounded :
    (p : Policy) (ops : List Op) → 1 ≤ p.entry_cap → length (run_all (step p) [] ops) ≤ p.entry_cap
runs_bounded p ops some_room =
    run_all-keeps (step p) (λ entries. length entries ≤ p.entry_cap)
      (λ entries op h. step-Bounded p entries op some_room h) [] ops (omega (arith, some_room))
