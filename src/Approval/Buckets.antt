-- ===== src/Approval/Buckets.antt =====
-- compat/approval_inbox.py: what every bucket keeps through the operations of the registry.
use hermes_app.Base.{
  ℕ, zero, suc, String, Bool, true, ◌≡◌, refl, Option, none, some, List, [], ◌∷◌, ◌==◌, leb, ltb,
  length, if-keeps, All, All-append, eq_iff,
}
use hermes_app.Base.Table.{find, find-some, exists, update, All-update, All-delete}
use hermes_app.Approval.Defs.{
  QueueEntry, Entry, World, is_pending, entry_from_data, max_runs, max_pending,
}
use hermes_app.Approval.Inbox.{
  Bucket, counted, Inbox, bucket_at, note, least_seen, drop_oldest, evict, new_bucket, touched,
  with_bucket, bucket, settle, reconcile, swept, snapshot, settle_answered, bumped, after_responded,
  settle_hook, settle_each, settle_run, is_idle, prune,
}
use hermes_app.Approval.Capture.{
  Named, by_id, by_data, named_id, queued, accept, entries_of, dispatch_with, register,
  register_after, capture_found, capture_queued, capture_after, capture, Op, capturing, settling,
  hooking, viewing, responding, ending, pruning, step,
}

-- The operation captures only what is allowed.
abbrev pub Spares : (ℕ → String → String → Type 0) → Op → Type 0
Spares Allowed (capturing w a r sid named queue) = Allowed a r (named_id named)
Spares Allowed (settling now a r i outcome) = Unit
Spares Allowed (hooking now a r i reason) = Unit
Spares Allowed (viewing now a r ids) = Unit
Spares Allowed (responding now a r i choice ids) = Unit
Spares Allowed (ending now a r outcome) = Unit
Spares Allowed (pruning now) = Unit

module _ (P : Bucket → Type 0) where
  abbrev Holds : Inbox → Type 0
  Holds inbox = All P inbox.by_run

  drop_oldest-Holds :
      (o : Option Bucket) (inbox : Inbox) → Holds inbox → Holds (drop_oldest o inbox)
  unfolding drop_oldest note
  drop_oldest-Holds none inbox h = h
  drop_oldest-Holds (some b) inbox h = All-delete P (bucket_at b.adapter b.run_id) inbox.by_run h

  evict-Holds : (fuel : ℕ) (inbox : Inbox) → Holds inbox → Holds (evict fuel inbox)
  unfolding evict
  evict-Holds zero inbox h = h
  evict-Holds (suc fuel) inbox h =
      if-keeps Holds (ltb max_runs (length inbox.by_run)) _ _
        (λ _. evict-Holds fuel _ (drop_oldest-Holds (least_seen inbox.by_run) inbox h)) (λ _. h)

  dispatch_with-Holds :
      (o : Option (Entry → Bool)) (e : Entry) (inbox : Inbox)
      → Holds inbox
      → Holds (dispatch_with o e inbox)
  unfolding dispatch_with note
  dispatch_with-Holds none e inbox h = h
  dispatch_with-Holds (some run) e inbox h = if-keeps Holds (run e) _ _ (λ _. h) (λ _. h)

  module _ (Allowed : ℕ → String → String → Type 0)
      (on_new : (now a : ℕ) (r : String) (sid : Option String) → P (new_bucket now a r sid))
      (on_touch : (now : ℕ) (sid : Option String) (b : Bucket) → P b → P (touched now sid b))
      (on_reconcile : (ids : List String) (b : Bucket) → P b → P (reconcile ids b))
      (on_sweep : (now : ℕ) (b : Bucket) → P b → P (swept now b))
      (on_bump : (n : ℕ) (b : Bucket) → P b → P (bumped n b))
      (on_settle : (now a : ℕ) (r i outcome : String) (inbox : Inbox)
        → Holds inbox
        → Holds (settle now a r i outcome inbox).1)
      (on_accept : (a : ℕ) (r : String) (e : Entry) (b : Bucket)
        → Allowed a r e.request_id
        → bucket_at a r b ≡ true
        → P b
        → P (accept e b)) where
    bucket-Holds :
        (now a : ℕ) (r : String) (sid : Option String) (inbox : Inbox)
        → Holds inbox
        → Holds (bucket now a r sid inbox)
    unfolding bucket with_bucket
    bucket-Holds now a r sid inbox h =
        All-update P (bucket_at a r) (touched now sid) _ (λ b _ k. on_touch now sid b k)
          (if-keeps Holds (exists (bucket_at a r) inbox.by_run) _ _ (λ _. h)
            (λ _.
              evict-Holds (suc (length inbox.by_run)) _
                (All-append P inbox.by_run _ h (on_new now a r sid, tt))))

    register-Holds :
        (w : World) (a : ℕ) (r : String) (e : Entry) (inbox : Inbox)
        → Allowed a r e.request_id
        → Holds inbox
        → Holds (register w a r e inbox).1
    unfolding register note
    register-Holds w a r e inbox allowed h =
        let more : All P (update (bucket_at a r) (accept e) inbox.by_run) =
          All-update P (bucket_at a r) (accept e) inbox.by_run
            (λ b here k. on_accept a r e b allowed here k) h in
        let after : Inbox = record inbox {
          by_run = update (bucket_at a r) (accept e) inbox.by_run;
        } in
        if-keeps (λ (o : Option Entry × Inbox). Holds o.1)
          (leb max_pending (length (entries_of (find (bucket_at a r) inbox.by_run))))
          (none, note (counted "registry_dropped") after)
          (some e, dispatch_with w.dispatch e (note (counted "registry_accepted") after))
          (λ _. more)
          (λ _. dispatch_with-Holds w.dispatch e (note (counted "registry_accepted") after) more)

    register_after-Holds :
        (w : World) (a : ℕ) (r : String) (e : Entry) (o : Option Entry) (inbox : Inbox)
        → Allowed a r e.request_id
        → Holds inbox
        → Holds (register_after w a r e o inbox).1
    unfolding register_after note
    register_after-Holds w a r e none inbox allowed h = register-Holds w a r e inbox allowed h
    register_after-Holds w a r e (some prior) inbox allowed h =
        if-keeps (λ (o : Option Entry × Inbox). Holds o.1) (is_pending prior.phase) _ _ (λ _. h)
          (λ _. register-Holds w a r e _ allowed (if-keeps Holds prior.timer _ _ (λ _. h) (λ _. h)))

    capture_found-Holds :
        (w : World) (a : ℕ) (r : String) (sid : Option String) (named : Named)
        (o : Option QueueEntry) (inbox : Inbox)
        → Allowed a r (named_id named)
        → ((q : QueueEntry) → o ≡ some q → queued (named_id named) q ≡ true)
        → Holds inbox
        → Holds (capture_found w a r sid named o inbox).1
    unfolding capture_found note queued
    capture_found-Holds w a r sid named none inbox allowed found h = h
    capture_found-Holds w a r sid (by_id i) (some q) inbox allowed found h =
        let same : q.request_id ≡ i = (eq_iff q.request_id i).0 (found q refl) in
        register_after-Holds w a r _ _ _ (unfold entry_from_data in rw same allowed)
          (bucket-Holds w.mono a r sid _ h)
    capture_found-Holds w a r sid (by_data given) (some q) inbox allowed found h =
        register_after-Holds w a r _ _ _ (unfold entry_from_data in allowed)
          (bucket-Holds w.mono a r sid _ h)

    capture_queued-Holds :
        (w : World) (a : ℕ) (r : String) (sid : Option String) (named : Named)
        (o : Option (List QueueEntry)) (inbox : Inbox)
        → Allowed a r (named_id named)
        → Holds inbox
        → Holds (capture_queued w a r sid named o inbox).1
    unfolding capture_queued note
    capture_queued-Holds w a r sid named none inbox allowed h = h
    capture_queued-Holds w a r sid named (some queue) inbox allowed h =
        capture_found-Holds w a r sid named _ inbox allowed
          (λ q found. find-some (queued (named_id named)) queue q found) h

    capture_after-Holds :
        (w : World) (a : ℕ) (r : String) (sid : Option String) (named : Named)
        (queue : Option (List QueueEntry)) (o : Option Entry) (inbox : Inbox)
        → Allowed a r (named_id named)
        → Holds inbox
        → Holds (capture_after w a r sid named queue o inbox).1
    unfolding capture_after note
    capture_after-Holds w a r sid named queue none inbox allowed h =
        capture_queued-Holds w a r sid named queue inbox allowed h
    capture_after-Holds w a r sid named queue (some prior) inbox allowed h =
        if-keeps (λ (o : Option Entry × Inbox). Holds o.1) (is_pending prior.phase) _ _ (λ _. h)
          (λ _. capture_queued-Holds w a r sid named queue inbox allowed h)

    settle_each-Holds :
        (now a : ℕ) (r outcome : String) (ids : List String) (inbox : Inbox)
        → Holds inbox
        → Holds (settle_each now a r outcome ids inbox)
    unfolding settle_each
    settle_each-Holds now a r outcome [] inbox h = h
    settle_each-Holds now a r outcome (i ∷ ids) inbox h =
        settle_each-Holds now a r outcome ids _ (on_settle now a r i outcome inbox h)

    pub step-Holds :
        (inbox : Inbox) (op : Op) → Spares Allowed op → Holds inbox → Holds (step inbox op)
    unfolding step settle_hook capture snapshot after_responded settle_answered settle_run prune
    step-Holds inbox (capturing w a r sid named queue) allowed h =
        if-keeps (λ (o : Option Entry × Inbox). Holds o.1) (named_id named == "") _ _ (λ _. h)
          (λ _. capture_after-Holds w a r sid named queue _ inbox allowed h)
    step-Holds inbox (settling now a r i outcome) allowed h = on_settle now a r i outcome inbox h
    step-Holds inbox (hooking now a r i reason) allowed h = on_settle now a r i _ inbox h
    step-Holds inbox (viewing now a r ids) allowed h =
        All-update P (bucket_at a r) (λ b. swept now (reconcile ids b)) inbox.by_run
          (λ b _ k. on_sweep now _ (on_reconcile ids b k)) h
    step-Holds inbox (responding now a r i choice ids) allowed h =
        All-update P (bucket_at a r) (λ b. bumped 1 (reconcile ids b)) _
          (λ b _ k. on_bump 1 _ (on_reconcile ids b k))
          (if-keeps Holds (i == "") _ _ (λ _. h) (λ _. on_settle now a r i _ inbox h))
    step-Holds inbox (ending now a r outcome) allowed h =
        settle_each-Holds now a r outcome _ _
          (All-update P (bucket_at a r) (bumped _) inbox.by_run (λ b _ k. on_bump _ b k) h)
    step-Holds inbox (pruning now) allowed h =
        All-delete P (is_idle now) _
          (All-update P (λ b. true) (swept now) inbox.by_run (λ b _ k. on_sweep now b k) h)
