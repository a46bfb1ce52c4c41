-- ===== src/Approval/Settled.antt =====
-- compat/approval_inbox.py: what is pending after the registry was compared with the core's queue.
use hermes_app.Base.{
  ℕ, ◌⊎◌, String, Bool, true, false, not, ◌&&◌, ◌≡◌, refl, List, [], ◌∷◌, inl, inr, All,
  if◌then◌else◌,
}
use hermes_app.Base.Table.{update, All-delete}
use hermes_app.Approval.Defs.{Entry, is_pending, listed, is_stale}
use hermes_app.Approval.Inbox.{
  Bucket, Inbox, bucket_at, withdrawn, settled_elsewhere, reconcile, swept, snapshot,
  settle_answered, bumped, after_responded,
}

-- Every pending entry is one of the identifiers.
abbrev pub OnlyLive : List String → List Entry → Type 0
OnlyLive ids entries =
    All (λ e. (is_pending e.phase ≡ false) ⊎ (listed e.request_id ids ≡ true)) entries

-- The same for the bucket of a run.
abbrev pub LiveIn : ℕ → String → List String → List Bucket → Type 0
LiveIn a r ids buckets = All (λ b. (bucket_at a r b ≡ false) ⊎ OnlyLive ids b.entries) buckets

reconciled :
    (ids : List String) (entries : List Entry)
    → OnlyLive ids (update (withdrawn ids) settled_elsewhere entries)
unfolding withdrawn
reconciled ids [] = tt
reconciled ids (e ∷ entries) =
    (at (is_pending e.phase) (listed e.request_id ids) refl refl, reconciled ids entries)
  where
    at :
        (waits live : Bool)
        → is_pending e.phase ≡ waits
        → listed e.request_id ids ≡ live
        → (is_pending (if waits && not live then settled_elsewhere e else e).phase ≡ false)
          ⊎ (listed (if waits && not live then settled_elsewhere e else e).request_id ids ≡ true)
    at true true p l = inr l
    at true false p l = inl (unfold settled_elsewhere in refl)
    at false live p l = inl p

updated-LiveIn :
    (a : ℕ) (r : String) (ids : List String) (f : Bucket → Bucket) (buckets : List Bucket)
    → ((b : Bucket) → OnlyLive ids (f b).entries)
    → LiveIn a r ids (update (bucket_at a r) f buckets)
updated-LiveIn a r ids f [] live = tt
updated-LiveIn a r ids f (b ∷ buckets) live =
    (at (bucket_at a r b) refl, updated-LiveIn a r ids f buckets live)
  where
    at :
        (hit : Bool)
        → bucket_at a r b ≡ hit
        → (bucket_at a r (if hit then f b else b) ≡ false)
          ⊎ OnlyLive ids (if hit then f b else b).entries
    at true here = inr (live b)
    at false apart = inl apart

-- After a `snapshot` of a run, and after an answer to one of its requests, with the identifiers
-- of the core's queue, every entry of the run that is still pending is one of these.
pub pending_live :
    (now a : ℕ) (r i choice : String) (ids : List String) (inbox : Inbox)
    → LiveIn a r ids (snapshot now a r ids inbox).1.by_run
      × LiveIn a r ids (after_responded now a r i choice ids inbox).1.by_run
unfolding snapshot after_responded reconcile swept bumped
pending_live now a r i choice ids inbox = (
  updated-LiveIn a r ids _ inbox.by_run (λ b.
      All-delete (λ e. (is_pending e.phase ≡ false) ⊎ (listed e.request_id ids ≡ true))
        (is_stale now) _ (reconciled ids b.entries)),
  updated-LiveIn a r ids _ (settle_answered now a r i choice inbox).by_run
      (λ b. reconciled ids b.entries),
)
