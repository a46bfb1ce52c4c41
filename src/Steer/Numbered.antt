-- ===== src/Steer/Numbered.antt =====
-- compat/steer_store.py: the numbers of a run's steers rise in the order of their admission.
use hermes_app.Base.{
  ap, ℕ, ◌+◌, ◌<◌, ◌≤◌, String, Bool, true, false, ◌≡◌, ◌∙◌, refl, some, List, [], ◌∷◌, ◌++◌, arith,
  if◌then◌else◌, All, All-append, All-map, sym,
}
use hermes_app.Base.Table.{find, update, delete, All-delete, All-update, find-append}
use hermes_app.Steer.Defs.{Steer, Run, SteerDb, run_at}
use hermes_app.Steer.Runs.{Request, new_run}
use hermes_app.Steer.Effects.{Numbering, Grown, new_run-found}
use hermes_app.Steer.Next.{next_after, next_of, next_of-renumbered, appended_next, renumbered_more}

-- If of one run, numbered in this order.
abbrev Precedes : Steer → Steer → Type 0
Precedes x y = y.owner_scope ≡ x.owner_scope → y.run_id ≡ x.run_id → x.seq < y.seq

-- Every steer has a smaller number than all later ones of its run.
abbrev pub Rises : List Steer → Type 0
Rises [] = Unit
Rises (x ∷ xs) = All (Precedes x) xs × Rises xs

abbrev pub Behind : List Run → Steer → Type 0
Behind runs s = s.seq < next_of s.owner_scope s.run_id runs

-- The numbers of each run rise, and are below the one that it gives next.
abbrev pub IsNumbered : SteerDb → Type 0
IsNumbered db = Rises db.steers × All (Behind db.runs) db.steers

-- A write of the steers leaves the run and the number of each.
abbrev pub Keeps : (Steer → Steer) → Type 0
Keeps f =
    (x : Steer) → (f x).owner_scope ≡ x.owner_scope × (f x).run_id ≡ x.run_id × (f x).seq ≡ x.seq

module _ (p : Steer → Bool) (f : Steer → Steer) (keeps : Keeps f) where
  Precedes-update :
      (x : Steer) (ys : List Steer) → All (Precedes x) ys → All (Precedes x) (update p f ys)
  Precedes-update x ys h =
      All-update (Precedes x) p f ys
        (λ y _ before owner run.
          let (o, r, n) = keeps y in rw n (before (sym o ∙ owner) (sym r ∙ run)))
        h

  Precedes-head : (x : Steer) (ys : List Steer) → All (Precedes x) ys → All (Precedes (f x)) ys
  Precedes-head x ys h =
      All-map (Precedes x) (Precedes (f x)) ys
        (λ y before owner run. let (o, r, n) = keeps x in rw n (before (owner ∙ o) (run ∙ r))) h

  Rises-update : (xs : List Steer) → Rises xs → Rises (update p f xs)
  Rises-update [] h = tt
  Rises-update (x ∷ xs) h = (at (p x) (Precedes-update x xs h.0), Rises-update xs h.1)
    where
      at :
          (b : Bool)
          → All (Precedes x) (update p f xs)
          → All (Precedes (if b then f x else x)) (update p f xs)
      at true h = Precedes-head x (update p f xs) h
      at false h = h

  Behind-update :
      (runs : List Run) (xs : List Steer) → All (Behind runs) xs → All (Behind runs) (update p f xs)
  Behind-update runs xs h =
      All-update (Behind runs) p f xs (λ x _ below. let (o, r, n) = keeps x in rw (n, o, r) below) h

  pub update-IsNumbered :
      (db : SteerDb) → IsNumbered db → IsNumbered (record db { steers = update p f db.steers })
  update-IsNumbered db h = (Rises-update db.steers h.0, Behind-update db.runs db.steers h.1)

pub Rises-delete : (p : Steer → Bool) (xs : List Steer) → Rises xs → Rises (delete p xs)
Rises-delete p [] h = tt
Rises-delete p (x ∷ xs) h = at (p x) (All-delete (Precedes x) p xs h.0) (Rises-delete p xs h.1)
  where
    at :
        (b : Bool)
        → All (Precedes x) (delete p xs)
        → Rises (delete p xs)
        → Rises (if b then delete p xs else x ∷ delete p xs)
    at true first rest = rest
    at false first rest = (first, rest)

Rises-append :
    (xs : List Steer) (s : Steer) → Rises xs → All (λ x. Precedes x s) xs → Rises (xs ++ (s ∷ []))
Rises-append [] s h l = (tt, tt)
Rises-append (x ∷ xs) s h l =
    (All-append (Precedes x) xs (s ∷ []) h.0 (l.0, tt), Rises-append xs s h.1 l.1)

-- Where every run gives the same number next, or a larger one, the numbers stay below it.
pub Behind-runs :
    (runs runs' : List Run) (xs : List Steer)
    → ((o r : String) → next_of o r runs ≤ next_of o r runs')
    → All (Behind runs) xs
    → All (Behind runs') xs
Behind-runs runs runs' xs grows h =
    All-map (Behind runs) (Behind runs') xs
      (λ x below. let more = grows x.owner_scope x.run_id in omega arith) h

-- A new row of a run, with the number that the run gives next.
append-IsNumbered :
    (db : SteerDb) (s : Steer) (runs : List Run)
    → s.seq ≡ next_of s.owner_scope s.run_id db.runs
    → next_of s.owner_scope s.run_id runs ≡ s.seq + 1
    → ((o r : String) → next_of o r db.runs ≤ next_of o r runs)
    → IsNumbered db
    → IsNumbered (record db { runs = runs; steers = db.steers ++ (s ∷ []) })
append-IsNumbered db s runs number next grows h = (
  Rises-append db.steers s h.0 (
      All-map (Behind db.runs) _ db.steers
        (λ x below o r.
          let same : s.seq ≡ next_of x.owner_scope x.run_id db.runs = rw (← o, ← r) number in
          omega arith)
        h.1),
  All-append (Behind runs) db.steers (s ∷ []) (Behind-runs db.runs runs db.steers grows h.1)
      (omega (arith, next), tt),
)

-- The number of a new row is the one that its run gives next, and the run gives the one after it.
abbrev Renumbers : SteerDb → Request → ℕ → List Run → Type 0
Renumbers db q seq runs =
    (seq ≡ next_of q.owner_scope q.run_id db.runs)
    × (next_of q.owner_scope q.run_id runs ≡ seq + 1)
    × ((o r : String) → next_of o r db.runs ≤ next_of o r runs)

Numbering-Renumbers :
    (db : SteerDb) (q : Request) (seq : ℕ) (runs : List Run)
    → Numbering db q seq runs
    → Renumbers db q seq runs
unfolding new_run
Numbering-Renumbers db q seq runs (Numbering.later run there number made) = (
  number ∙ sym (ap next_after there),
  rw made (next_of-renumbered q.owner_scope q.run_id (seq + 1) db.runs run there),
  λ o r. rw made (
      renumbered_more q.owner_scope q.run_id (seq + 1) db.runs run there (omega (arith, number)) o
        r),
)
Numbering-Renumbers db q seq runs (Numbering.first none_there number made) =
    let grown = db.runs ++ (new_run q ∷ []) in
    let there : find (run_at q.owner_scope q.run_id) grown ≡ some (new_run q) =
      rw (find-append, none_there) (new_run-found q) in
    (
      number ∙ sym (ap next_after none_there),
      rw (made, number) (next_of-renumbered q.owner_scope q.run_id 2 grown (new_run q) there),
      λ o r.
          let more =
            renumbered_more q.owner_scope q.run_id 2 grown (new_run q) there (omega arith) o r in
          let same = appended_next o r (new_run q) db.runs refl in
          rw made (omega (arith, more, same)),
    )

pub Grown-IsNumbered :
    (db db' : SteerDb) (q : Request) (s : Steer)
    → s.owner_scope ≡ q.owner_scope
    → s.run_id ≡ q.run_id
    → Grown db q s db'
    → IsNumbered db
    → IsNumbered db'
Grown-IsNumbered db db' q s owner run g h =
    let (number, next, grows) = Numbering-Renumbers db q s.seq g.runs g.numbering in
    rw g.shape
      (append-IsNumbered db s g.runs (number ∙ rw (owner, run) refl) (rw (owner, run) next) grows h)
