-- ===== src/Approval/Runs.antt =====
-- compat/approval_inbox.py: the cap on the runs, and both caps.
use hermes_app.Base.{
  ℕ, zero, suc, ◌≤◌, ◌<◌, String, Bool, true, ◌≡◌, ◌∙◌, refl, Option, none, some, List, [], ◌∷◌,
  ◌==◌, leb, ltb, length, length-append, arith, inl, inr, Bool-cases, if-keeps, All, eq_refl,
  run_all, run_all-keeps,
}
use hermes_app.Base.Table.{find, exists, update, length-update, length-delete_le, length-delete_lt}
use hermes_app.Approval.Defs.{QueueEntry, Entry, World, is_pending, max_runs, max_pending}
use hermes_app.Approval.Inbox.{
  Bucket, counted, Inbox, empty_inbox, bucket_at, note, older, least_seen, drop_oldest, evict,
  new_bucket, touched, with_bucket, bucket, entry_at, settle_entry, settle_in, settle, reconcile,
  swept, snapshot, settle_answered, bumped, after_responded, settle_hook, settle_each, settle_run,
  is_idle, prune,
}
use hermes_app.Approval.Capture.{
  Named, named_id, queued, accept, entries_of, dispatch_with, register, register_after,
  capture_found, capture_queued, capture_after, capture, Op, capturing, settling, hooking, viewing,
  responding, ending, pruning, step,
}
use hermes_app.Approval.Bounds.{entries_bounded}

own_bucket : (b : Bucket) → bucket_at b.adapter b.run_id b ≡ true
unfolding bucket_at
own_bucket b = rw (eq_refl b.run_id) (ground arith)

-- The bucket that was seen least recently is one of the registry.
least_seen-listed :
    (buckets : List Bucket) (b : Bucket)
    → least_seen buckets ≡ some b
    → exists (bucket_at b.adapter b.run_id) buckets ≡ true
least_seen-listed [] b h = cc
least_seen-listed (x ∷ rest) b h = at (least_seen rest) refl h (least_seen-listed rest)
  where
    at_head : x ≡ b → exists (bucket_at b.adapter b.run_id) (x ∷ rest) ≡ true
    at_head same =
        let here : bucket_at b.adapter b.run_id x ≡ true = rw (← same) (own_bucket x) in
        rw here refl

    at :
        (o : Option Bucket)
        → least_seen rest ≡ o
        → some (older x o) ≡ some b
        → ((c : Bucket)
            → least_seen rest ≡ some c
            → exists (bucket_at c.adapter c.run_id) rest ≡ true)
        → exists (bucket_at b.adapter b.run_id) (x ∷ rest) ≡ true
    at none e same more = at_head (cc)
    at (some c) e same more = elim (Bool-cases (leb x.last_seen c.last_seen)) [
      | inl first ↦ let k : some x ≡ some b = rw first at same in at_head (cc)
      | inr later ↦
          let k : some c ≡ some b = rw later at same in
          let there : exists (bucket_at b.adapter b.run_id) rest ≡ true = more b (e ∙ k) in
          ground (arith, there)
    ]

length-drop_oldest :
    (inbox : Inbox)
    → 0 < length inbox.by_run
    → length (drop_oldest (least_seen inbox.by_run) inbox).by_run < length inbox.by_run
unfolding drop_oldest note
length-drop_oldest inbox h = at (least_seen inbox.by_run) refl
  where
    none_is_empty : (buckets : List Bucket) → least_seen buckets ≡ none → length buckets ≡ 0
    none_is_empty [] e = refl
    none_is_empty (x ∷ rest) e = cc

    at :
        (o : Option Bucket)
        → least_seen inbox.by_run ≡ o
        → length (drop_oldest o inbox).by_run < length inbox.by_run
    at none e = absurd (omega (arith, none_is_empty inbox.by_run e))
    at (some b) e =
        length-delete_lt (bucket_at b.adapter b.run_id) inbox.by_run
          (least_seen-listed inbox.by_run b e)

-- A round for each bucket is fuel enough.
evict-bounded :
    (fuel : ℕ) (inbox : Inbox)
    → length inbox.by_run ≤ fuel
    → length (evict fuel inbox).by_run ≤ max_runs
unfolding evict
evict-bounded zero inbox enough = omega arith
evict-bounded (suc fuel) inbox enough =
    if-keeps (λ (o : Inbox). length o.by_run ≤ max_runs) (ltb max_runs (length inbox.by_run)) _ _
      (λ full.
        evict-bounded fuel (drop_oldest (least_seen inbox.by_run) inbox)
          (let less = length-drop_oldest inbox (ground arith) in omega arith))
      (λ fits. ground arith)

-- What the other operations do to the number of runs.
abbrev Few : Inbox → Type 0
Few inbox = length inbox.by_run ≤ max_runs

bucket-Few :
    (now a : ℕ) (r : String) (sid : Option String) (inbox : Inbox)
    → Few inbox
    → Few (bucket now a r sid inbox)
unfolding bucket with_bucket
bucket-Few now a r sid inbox h = rw (length-update (bucket_at a r) (touched now sid) _) (
    if-keeps Few (exists (bucket_at a r) inbox.by_run) _ _ (λ _. h)
      (λ _.
        evict-bounded (suc (length inbox.by_run)) _
          (omega (arith, length-append inbox.by_run (new_bucket now a r sid ∷ [])))))

dispatch_with-Few :
    (o : Option (Entry → Bool)) (e : Entry) (inbox : Inbox)
    → Few inbox
    → Few (dispatch_with o e inbox)
unfolding dispatch_with note
dispatch_with-Few none e inbox h = h
dispatch_with-Few (some run) e inbox h = if-keeps Few (run e) _ _ (λ _. h) (λ _. h)

register-Few :
    (w : World) (a : ℕ) (r : String) (e : Entry) (inbox : Inbox)
    → Few inbox
    → Few (register w a r e inbox).1
unfolding register note
register-Few w a r e inbox h =
    let after : Inbox = record inbox { by_run = update (bucket_at a r) (accept e) inbox.by_run } in
    let same : Few after = omega (arith, length-update (bucket_at a r) (accept e) inbox.by_run) in
    if-keeps (λ (o : Option Entry × Inbox). Few o.1)
      (leb max_pending (length (entries_of (find (bucket_at a r) inbox.by_run))))
      (none, note (counted "registry_dropped") after)
      (some e, dispatch_with w.dispatch e (note (counted "registry_accepted") after)) (λ _. same)
      (λ _. dispatch_with-Few w.dispatch e (note (counted "registry_accepted") after) same)

register_after-Few :
    (w : World) (a : ℕ) (r : String) (e : Entry) (o : Option Entry) (inbox : Inbox)
    → Few inbox
    → Few (register_after w a r e o inbox).1
unfolding register_after note
register_after-Few w a r e none inbox h = register-Few w a r e inbox h
register_after-Few w a r e (some prior) inbox h =
    if-keeps (λ (o : Option Entry × Inbox). Few o.1) (is_pending prior.phase) _ _ (λ _. h)
      (λ _. register-Few w a r e _ (if-keeps Few prior.timer _ _ (λ _. h) (λ _. h)))

capture_queued-Few :
    (w : World) (a : ℕ) (r : String) (sid : Option String) (named : Named)
    (o : Option (List QueueEntry)) (inbox : Inbox)
    → Few inbox
    → Few (capture_queued w a r sid named o inbox).1
unfolding capture_queued note
capture_queued-Few w a r sid named none inbox h = h
capture_queued-Few w a r sid named (some queue) inbox h = at (find (queued (named_id named)) queue)
  where
    at : (o : Option QueueEntry) → Few (capture_found w a r sid named o inbox).1
    at none = unfold capture_found note in h
    at (some q) =
        unfold capture_found note in register_after-Few w a r _ _ _ (bucket-Few w.mono a r sid _ h)

capture_after-Few :
    (w : World) (a : ℕ) (r : String) (sid : Option String) (named : Named)
    (queue : Option (List QueueEntry)) (o : Option Entry) (inbox : Inbox)
    → Few inbox
    → Few (capture_after w a r sid named queue o inbox).1
unfolding capture_after note
capture_after-Few w a r sid named queue none inbox h =
    capture_queued-Few w a r sid named queue inbox h
capture_after-Few w a r sid named queue (some prior) inbox h =
    if-keeps (λ (o : Option Entry × Inbox). Few o.1) (is_pending prior.phase) _ _ (λ _. h)
      (λ _. capture_queued-Few w a r sid named queue inbox h)

settle-Few :
    (now a : ℕ) (r i outcome : String) (inbox : Inbox)
    → Few inbox
    → Few (settle now a r i outcome inbox).1
unfolding settle
settle-Few now a r i outcome inbox h = at (entry_at a r i inbox)
  where
    at : (o : Option Entry) → Few (settle_entry now a r i outcome o inbox).1
    at none = unfold settle_entry in h
    at (some e) =
        unfold settle_entry in
        if-keeps (λ (o : Bool × Inbox). Few o.1) (is_pending e.phase) _ _
          (λ _. omega (arith, length-update (bucket_at a r) (settle_in now i outcome) inbox.by_run))
          (λ _. h)

settle_each-Few :
    (now a : ℕ) (r outcome : String) (ids : List String) (inbox : Inbox)
    → Few inbox
    → Few (settle_each now a r outcome ids inbox)
unfolding settle_each
settle_each-Few now a r outcome [] inbox h = h
settle_each-Few now a r outcome (i ∷ ids) inbox h =
    settle_each-Few now a r outcome ids _ (settle-Few now a r i outcome inbox h)

step-Few : (inbox : Inbox) (op : Op) → Few inbox → Few (step inbox op)
unfolding step settle_hook capture snapshot after_responded settle_answered settle_run prune
step-Few inbox (capturing w a r sid named queue) h =
    if-keeps (λ (o : Option Entry × Inbox). Few o.1) (named_id named == "") _ _ (λ _. h)
      (λ _. capture_after-Few w a r sid named queue _ inbox h)
step-Few inbox (settling now a r i outcome) h = settle-Few now a r i outcome inbox h
step-Few inbox (hooking now a r i reason) h = settle-Few now a r i _ inbox h
step-Few inbox (viewing now a r ids) h =
    rw (length-update (bucket_at a r) (λ b. swept now (reconcile ids b)) inbox.by_run) h
step-Few inbox (responding now a r i choice ids) h =
    rw (length-update (bucket_at a r) (λ b. bumped 1 (reconcile ids b)) _)
      (if-keeps Few (i == "") _ _ (λ _. h) (λ _. settle-Few now a r i _ inbox h))
step-Few inbox (ending now a r outcome) h =
    settle_each-Few now a r outcome _ _
      (rw (length-update (bucket_at a r) (bumped _) inbox.by_run) h)
step-Few inbox (pruning now) h = omega (
  arith,
  length-delete_le (is_idle now) (update (λ b. true) (swept now) inbox.by_run),
  length-update (λ (b : Bucket). true) (swept now) inbox.by_run,
)

-- After any operations of an empty registry it tracks at most `INBOX_MAX_RUNS` runs, and each has at
-- most `INBOX_MAX_PENDING` entries.
pub registry_bounded :
    (epoch : Option String) (ops : List Op)
    → (length (run_all step (empty_inbox epoch) ops).by_run ≤ max_runs)
      × All (λ b. length b.entries ≤ max_pending) (run_all step (empty_inbox epoch) ops).by_run
registry_bounded epoch ops = (
  run_all-keeps step Few step-Few (empty_inbox epoch) ops (omega arith),
  entries_bounded epoch ops,
)
