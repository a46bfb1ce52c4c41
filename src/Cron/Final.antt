-- ===== src/Cron/Final.antt =====
-- compat/cron_delivery_store.py: a delivered receipt stays delivered, and the spool holds no
-- exhausted row.
use mathlib.Core.Option
use hermes_app.Base.{
  ℕ, ◌<◌, String, Bool, true, false, ◌≡◌, refl, Option, none, some, List, [], ◌∷◌, if◌then◌else◌,
  if-keeps, coalesce, arith, All, All-append,
}
use hermes_app.Base.Table.{
  find, exists, update, insert_or_ignore, find-append, find-update, All-update, All-delete,
}
use hermes_app.Cron.Defs.{
  Pending, Receipt, Bridge, empty_bridge, is_delivered, pending_is, receipt_is, pending_clash,
  receipt_clash, merged, put_receipt, tag_failed,
}
use hermes_app.Cron.Deliver.{postponed}
use hermes_app.Cron.Drain.{retried, Op, play}
use hermes_app.Cron.Settled.{play-Both}

abbrev delivered_row : Option Receipt → Bool
delivered_row none = false
delivered_row (some r) = is_delivered r.status

-- The receipts hold a delivered one of the key.
abbrev pub delivered_in : String → List Receipt → Bool
delivered_in k rows = delivered_row (find (receipt_is k) rows)

module _ (k : String) where
  updated-delivered :
      (q : Receipt → Bool) (f : Receipt → Receipt) (rows : List Receipt)
      → ((x : Receipt) → receipt_is k (f x) ≡ receipt_is k x)
      → ((x : Receipt) → is_delivered x.status ≡ true → is_delivered (f x).status ≡ true)
      → delivered_in k rows ≡ true
      → delivered_in k (update q f rows) ≡ true
  updated-delivered q f rows same stays h =
      rw (find-update (receipt_is k) q f rows same) (at (find (receipt_is k) rows) h)
    where
      at :
          (found : Option Receipt)
          → delivered_row found ≡ true
          → delivered_row (Option.map (λ x. if q x then f x else x) found) ≡ true
      at none t = cc
      at (some x) t = ground (arith, stays x)

  merged-stays :
      (new x : Receipt) → is_delivered x.status ≡ true → is_delivered (merged new x).status ≡ true
  unfolding merged
  merged-stays new x h = rw h h

  put-delivered :
      (r : Receipt) (rows : List Receipt)
      → delivered_in k rows ≡ true
      → delivered_in k (put_receipt r rows) ≡ true
  unfolding put_receipt
  put-delivered r rows h =
      if-keeps (λ (x : List Receipt). delivered_in k x ≡ true) (exists (receipt_clash r) rows) _ _
        (λ _.
          updated-delivered (receipt_clash r) (merged r) rows
            (λ x. unfold merged receipt_is in refl) (merged-stays r) h)
        (λ _. rw find-append (at (find (receipt_is k) rows) h))
    where
      at :
          (found : Option Receipt)
          → delivered_row found ≡ true
          → delivered_row (coalesce found (find (receipt_is k) (r ∷ []))) ≡ true
      at none t = cc
      at (some x) t = t

  tag-delivered :
      (now : ℕ) (key : String) (b : Bool) (rows : List Receipt)
      → delivered_in k rows ≡ true
      → delivered_in k (tag_failed now key b rows) ≡ true
  unfolding tag_failed receipt_is
  tag-delivered now key b rows h =
      if-keeps (λ (x : List Receipt). delivered_in k x ≡ true) b _ _ (λ _. h)
        (λ _. updated-delivered (receipt_is key) _ rows (λ x. refl) (λ x t. t) h)

-- A delivered receipt stays delivered, whatever is delivered or drained later.
pub play-delivered :
    (k : String) (db : Bridge) (ops : List Op)
    → delivered_in k db.receipts ≡ true
    → delivered_in k (play db ops).receipts ≡ true
play-delivered k db ops h =
    (play-Both (λ rows. delivered_in k rows ≡ true) (λ _. Unit {0}) (put-delivered k)
      (tag-delivered k) (λ _ _ _ _. tt) (λ _ _ _. tt) (λ _ _ _ _ _. tt) (λ _ _ _ _ _ _. tt) db ops
      (record { receipts = h; pending = tt })).receipts

-- Every row of a spool has had fewer attempts than the last one.
abbrev pub Retryable : List Pending → Type 0
Retryable rows = All (λ p. p.attempts < 24) rows

add-Retryable :
    (p : Pending) (rows : List Pending)
    → p.attempts ≡ 0
    → Retryable rows
    → Retryable (insert_or_ignore pending_clash p rows)
add-Retryable p rows start h =
    if-keeps Retryable (exists (pending_clash p) rows) _ _ (λ _. h)
      (λ _. All-append (λ (p : Pending). p.attempts < 24) rows _ h (omega arith, tt))

later-Retryable :
    (key : String) (now t : ℕ) (rows : List Pending)
    → Retryable rows
    → Retryable (update (pending_is key) (postponed now t) rows)
unfolding postponed
later-Retryable key now t rows h =
    All-update (λ (p : Pending). p.attempts < 24) (pending_is key) (postponed now t) rows
      (λ x _ few. few) h

again-Retryable :
    (key : String) (at n : ℕ) (rows : List Pending)
    → n < 24
    → Retryable rows
    → Retryable (update (pending_is key) (retried at n) rows)
unfolding retried
again-Retryable key at n rows few h =
    All-update (λ (p : Pending). p.attempts < 24) (pending_is key) (retried at n) rows
      (λ x _ _. few) h

-- Whatever is delivered and drained from an empty bridge, every row of the spool has had fewer than
-- 24 attempts, so that a drain takes it when it is due.
pub play-Retryable : (ops : List Op) → Retryable (play empty_bridge ops).pending
play-Retryable ops =
    (play-Both (λ _. Unit {0}) Retryable (λ _ _ _. tt) (λ _ _ _ _ _. tt) add-Retryable
      (λ key rows h. All-delete (λ (p : Pending). p.attempts < 24) (pending_is key) rows h)
      later-Retryable again-Retryable empty_bridge ops
      (record { receipts = tt; pending = tt })).pending
