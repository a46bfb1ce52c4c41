-- ===== src/Approval/Decided.antt =====
-- compat/approval_inbox.py: what the operations keep of a settled request.
use hermes_app.Base.{
  ℕ, ◌⊎◌, String, Bool, true, false, not, ◌&&◌, ◌≡◌, refl, Option, none, some, List, [], ◌∷◌, ◌==◌,
  leb, length, arith, inl, inr, Bool-cases, if-keeps, All, All-append, eq_iff, eq_refl, nat_eq,
  run_all,
}
use hermes_app.Base.Table.{find, find-some, exists, All-update, All-delete, All-find}
use hermes_app.Approval.Defs.{Phase, Entry, is_pending, max_pending, has_request, is_stale, listed}
use hermes_app.Approval.Inbox.{
  Bucket, Inbox, bucket_at, new_bucket, touched, entry_in, entry_at, settle_entry, settle_in,
  settle, resolved_as, withdrawn, settled_elsewhere, reconcile, swept, bumped,
}
use hermes_app.Approval.Capture.{accept, with_entry, put_entry, Op, step}
use hermes_app.Approval.Buckets.{step-Holds, Spares}

-- The entry is another one, or has the outcome.
abbrev pub Kept : String → String → Entry → Type 0
Kept i outcome e =
    (has_request i e ≡ false) ⊎ ((e.phase ≡ Phase.resolved) × (e.outcome ≡ some outcome))

-- The bucket is of another run, or its entry has the outcome.
abbrev pub Decided : ℕ → String → String → String → Bucket → Type 0
Decided a r i outcome b = (bucket_at a r b ≡ false) ⊎ All (Kept i outcome) b.entries

-- A capture of another request.
abbrev pub Other : ℕ → String → String → ℕ → String → String → Type 0
Other a r i a' r' i' = ((nat_eq a' a && r' == r) && i' == i) ≡ false

unlike_request :
    (a a' : ℕ) (r r' i i' : String) (b : Bucket) (e : Entry)
    → Other a r i a' r' i'
    → bucket_at a' r' b ≡ true
    → bucket_at a r b ≡ true
    → has_request i' e ≡ true
    → has_request i e ≡ false
unfolding bucket_at has_request
unlike_request a a' r r' i i' b e other there here mine = ground (
  arith,
  other,
  there,
  here,
  mine,
  eq_iff b.run_id r,
  eq_iff b.run_id r',
  eq_iff r' r,
  eq_iff e.request_id i,
  eq_iff e.request_id i',
  eq_iff i' i,
)

module _ (a : ℕ) (r i outcome : String) where
  reconcile-Decided :
      (ids : List String) (b : Bucket)
      → Decided a r i outcome b
      → Decided a r i outcome (reconcile ids b)
  unfolding reconcile bucket_at
  reconcile-Decided ids b (inl apart) = inl apart
  reconcile-Decided ids b (inr kept) = inr (
      All-update (Kept i outcome) (withdrawn ids) settled_elsewhere b.entries
        (λ e waits k. unfold withdrawn settled_elsewhere has_request in at e waits k) kept)
    where
      at :
          (e : Entry)
          → (is_pending e.phase && not (listed e.request_id ids)) ≡ true
          → Kept i outcome e
          → Kept i outcome (settled_elsewhere e)
      at e waits (inl apart) = inl (unfold settled_elsewhere has_request in apart)
      at e waits (inr (done, told)) =
          let no : is_pending e.phase ≡ false = rw done refl in absurd (ground (arith, waits, no))

  pub found-Decided :
      (inbox : Inbox) (e : Entry)
      → All (Decided a r i outcome) inbox.by_run
      → entry_at a r i inbox ≡ some e
      → (e.phase ≡ Phase.resolved) × (e.outcome ≡ some outcome)
  unfolding entry_at
  found-Decided inbox e h found = at (find (bucket_at a r) inbox.by_run) refl found
    where
      at :
          (o : Option Bucket)
          → find (bucket_at a r) inbox.by_run ≡ o
          → entry_in i o ≡ some e
          → (e.phase ≡ Phase.resolved) × (e.outcome ≡ some outcome)
      at none there k = cc
      at (some b) there k =
          elim (All-find (Decided a r i outcome) (bucket_at a r) inbox.by_run b h there) [
            | inl apart ↦
                let here : bucket_at a r b ≡ true =
                  find-some (bucket_at a r) inbox.by_run b there in
                absurd (cc)
            | inr kept ↦ elim (All-find (Kept i outcome) (has_request i) b.entries e kept k) [
              | inl other ↦
                  let mine : has_request i e ≡ true = find-some (has_request i) b.entries e k in
                  absurd (cc)
              | inr done ↦ done
            ]
          ]

  settle_in-Decided :
      (now a' : ℕ) (r' j told : String) (b : Bucket)
      → Other a r i a' r' j
      → bucket_at a' r' b ≡ true
      → Decided a r i outcome b
      → Decided a r i outcome (settle_in now j told b)
  unfolding settle_in
  settle_in-Decided now a' r' j told b other there (inl apart) = inl (unfold bucket_at in apart)
  settle_in-Decided now a' r' j told b other there (inr kept) =
      elim (Bool-cases (bucket_at a r b)) [
        | inr apart ↦ inl (unfold bucket_at in apart)
        | inl here ↦ inr (
            All-update (Kept i outcome) (has_request j) (resolved_as now told) b.entries
              (λ e mine _. inl (
                let no = unlike_request a a' r r' i j b e other there here mine in
                unfold has_request resolved_as in no))
              kept)
      ]

  settled_twice :
      (a' : ℕ) (r' j : String) (e : Entry) (inbox : Inbox)
      → ((nat_eq a' a && r' == r) && j == i) ≡ true
      → All (Decided a r i outcome) inbox.by_run
      → entry_at a' r' j inbox ≡ some e
      → is_pending e.phase ≡ true
      → ⊥
  settled_twice a' r' j e inbox same h found waits =
      let ea : a' ≡ a = ground (arith, same) in
      let er : r' ≡ r = ground (arith, same, eq_iff r' r) in
      let ei : j ≡ i = ground (arith, same, eq_iff j i) in
      let here : entry_at a r i inbox ≡ some e = rw (← ea, ← er, ← ei) found in
      let (done, told) = found-Decided inbox e h here in
      let no : is_pending e.phase ≡ false = rw done refl in cc

  settle-Decided :
      (now a' : ℕ) (r' j told : String) (inbox : Inbox)
      → All (Decided a r i outcome) inbox.by_run
      → All (Decided a r i outcome) (settle now a' r' j told inbox).1.by_run
  unfolding settle
  settle-Decided now a' r' j told inbox h = at (entry_at a' r' j inbox) refl
    where
      at :
          (o : Option Entry)
          → entry_at a' r' j inbox ≡ o
          → All (Decided a r i outcome) (settle_entry now a' r' j told o inbox).1.by_run
      at none found = unfold settle_entry in h
      at (some e) found =
          unfold settle_entry in
          if-keeps (λ (o : Bool × Inbox). All (Decided a r i outcome) o.1.by_run)
            (is_pending e.phase) _ _
            (λ waits. elim (Bool-cases ((nat_eq a' a && r' == r) && j == i)) [
              | inr other ↦
                  All-update (Decided a r i outcome) (bucket_at a' r') (settle_in now j told)
                    inbox.by_run (λ b there k. settle_in-Decided now a' r' j told b other there k) h
              | inl same ↦ absurd (settled_twice a' r' j e inbox same h found waits)
            ])
            (λ _. h)

  put_entry-Kept :
      (e : Entry) (entries : List Entry)
      → has_request i e ≡ false
      → All (Kept i outcome) entries
      → All (Kept i outcome) (put_entry e entries)
  unfolding put_entry
  put_entry-Kept e entries other kept =
      if-keeps (All (Kept i outcome)) (exists (has_request e.request_id) entries) _ _
        (λ _.
          All-update (Kept i outcome) (has_request e.request_id) (λ old. e) entries
            (λ x _ _. inl other) kept)
        (λ _. All-append (Kept i outcome) entries (e ∷ []) kept (inl other, tt))

  accept-Decided :
      (a' : ℕ) (r' : String) (e : Entry) (b : Bucket)
      → Other a r i a' r' e.request_id
      → bucket_at a' r' b ≡ true
      → Decided a r i outcome b
      → Decided a r i outcome (accept e b)
  unfolding accept with_entry
  accept-Decided a' r' e b other there h =
      if-keeps (Decided a r i outcome) (leb max_pending (length b.entries)) _ _ (λ _. full h)
        (λ _. elim (Bool-cases (bucket_at a r b)) [
          | inr apart ↦ inl (unfold bucket_at in apart)
          | inl here ↦ inr (
              put_entry-Kept e b.entries
                (unlike_request a a' r r' i e.request_id b e other there here
                  (unfold has_request in eq_refl e.request_id))
                (entries_kept h here))
        ])
    where
      full : Decided a r i outcome b → Decided a r i outcome (record b { degraded = true })
      full (inl apart) = inl (unfold bucket_at in apart)
      full (inr kept) = inr kept

      entries_kept :
          Decided a r i outcome b → bucket_at a r b ≡ true → All (Kept i outcome) b.entries
      entries_kept (inl apart) here = absurd (cc)
      entries_kept (inr kept) here = kept

  same_entries :
      (b c : Bucket)
      → c.adapter ≡ b.adapter
      → c.run_id ≡ b.run_id
      → c.entries ≡ b.entries
      → Decided a r i outcome b
      → Decided a r i outcome c
  unfolding bucket_at
  same_entries b c ea er ee (inl apart) = inl (rw (ea, er) apart)
  same_entries b c ea er ee (inr kept) = inr (rw ee kept)

  swept-Decided :
      (now : ℕ) (b : Bucket) → Decided a r i outcome b → Decided a r i outcome (swept now b)
  unfolding swept
  swept-Decided now b (inl apart) = inl (unfold bucket_at in apart)
  swept-Decided now b (inr kept) = inr (All-delete (Kept i outcome) (is_stale now) b.entries kept)

  step-Decided :
      (inbox : Inbox) (op : Op)
      → Spares (Other a r i) op
      → All (Decided a r i outcome) inbox.by_run
      → All (Decided a r i outcome) (step inbox op).by_run
  unfolding new_bucket touched bumped
  step-Decided inbox op spares h =
      step-Holds (Decided a r i outcome) (Other a r i) (λ now a' r' sid. inr tt)
        (λ now sid b k. same_entries b _ refl refl refl k) reconcile-Decided swept-Decided
        (λ n b k. same_entries b _ refl refl refl k) settle-Decided accept-Decided inbox op spares h

  pub run_all-Decided :
      (inbox : Inbox) (ops : List Op)
      → All (Spares (Other a r i)) ops
      → All (Decided a r i outcome) inbox.by_run
      → All (Decided a r i outcome) (run_all step inbox ops).by_run
  run_all-Decided inbox [] spares h = h
  run_all-Decided inbox (op ∷ ops) spares h =
      run_all-Decided (step inbox op) ops spares.1 (step-Decided inbox op spares.0 h)
