-- ===== src/Approval/Bounds.antt =====
-- compat/approval_inbox.py: the cap on the entries of a run.
use hermes_app.Base.{
  ℕ, ◌+◌, ◌≤◌, String, Bool, Option, none, some, List, [], ◌∷◌, leb, length, length-append, arith,
  if-keeps, All, run_all, run_all-keeps,
}
use hermes_app.Base.Table.{exists, All-update, length-update, length-delete_le}
use hermes_app.Approval.Defs.{Entry, is_pending, max_pending, has_request, is_stale}
use hermes_app.Approval.Inbox.{
  Bucket, Inbox, empty_inbox, bucket_at, new_bucket, touched, entry_at, settle_entry, settle_in,
  settle, resolved_as, withdrawn, settled_elsewhere, reconcile, swept, bumped,
}
use hermes_app.Approval.Capture.{
  accept, with_entry, put_entry, Op, capturing, settling, hooking, viewing, responding, ending,
  pruning, step,
}
use hermes_app.Approval.Buckets.{step-Holds, Spares}

abbrev Small : Bucket → Type 0
Small b = length b.entries ≤ max_pending

length-put_entry :
    (e : Entry) (entries : List Entry) → length (put_entry e entries) ≤ length entries + 1
unfolding put_entry
length-put_entry e entries =
    if-keeps (λ (l : List Entry). length l ≤ length entries + 1)
      (exists (has_request e.request_id) entries) _ _
      (λ _. omega (arith, length-update (has_request e.request_id) (λ old. e) entries))
      (λ _. omega (arith, length-append entries (e ∷ [])))

accept-Small : (e : Entry) (b : Bucket) → Small b → Small (accept e b)
unfolding accept with_entry
accept-Small e b h =
    if-keeps Small (leb max_pending (length b.entries)) _ _ (λ _. h)
      (λ room. ground (arith, length-put_entry e b.entries))

settle-Small :
    (now a : ℕ) (r i outcome : String) (inbox : Inbox)
    → All Small inbox.by_run
    → All Small (settle now a r i outcome inbox).1.by_run
unfolding settle
settle-Small now a r i outcome inbox h = at (entry_at a r i inbox)
  where
    at : (o : Option Entry) → All Small (settle_entry now a r i outcome o inbox).1.by_run
    at none = unfold settle_entry in h
    at (some e) =
        unfold settle_entry in
        if-keeps (λ (o : Bool × Inbox). All Small o.1.by_run) (is_pending e.phase) _ _
          (λ _.
            All-update Small (bucket_at a r) (settle_in now i outcome) inbox.by_run
              (λ b _ k.
                unfold settle_in in
                omega (arith, length-update (has_request i) (resolved_as now outcome) b.entries))
              h)
          (λ _. h)

pub entries_bounded :
    (epoch : Option String) (ops : List Op)
    → All (λ b. length b.entries ≤ max_pending) (run_all step (empty_inbox epoch) ops).by_run
unfolding new_bucket touched reconcile swept bumped
entries_bounded epoch ops =
    run_all-keeps step (λ inbox. All Small inbox.by_run)
      (λ inbox op h.
        step-Holds Small (λ a r i. Unit) (λ now a r sid. omega arith) (λ now sid b k. k)
          (λ ids b k. omega (arith, length-update (withdrawn ids) settled_elsewhere b.entries))
          (λ now b k. omega (arith, length-delete_le (is_stale now) b.entries)) (λ n b k. k)
          settle-Small (λ a r e b _ _ k. accept-Small e b k) inbox op (spares op) h)
      (empty_inbox epoch) ops tt
  where
    spares : (op : Op) → Spares (λ a r i. Unit) op
    spares (capturing w a r sid named queue) = tt
    spares (settling now a r i outcome) = tt
    spares (hooking now a r i reason) = tt
    spares (viewing now a r ids) = tt
    spares (responding now a r i choice ids) = tt
    spares (ending now a r outcome) = tt
    spares (pruning now) = tt
