-- ===== src/Approval/Final.antt =====
-- compat/approval_inbox.py: the first outcome of a request wins.
use hermes_app.Base.{
  ℕ, String, Bool, true, false, ◌≡◌, refl, ap, Option, none, some, List, [], ◌∷◌, inl, inr,
  Bool-cases, All, if◌then◌else◌, run_all,
}
use hermes_app.Base.Table.{update}
use hermes_app.Approval.Defs.{Phase, Entry, is_pending, has_request}
use hermes_app.Approval.Inbox.{
  Bucket, Inbox, bucket_at, entry_at, settle_entry, settle_in, settle, resolved_as,
}
use hermes_app.Approval.Capture.{Op, step}
use hermes_app.Approval.Buckets.{Spares}
use hermes_app.Approval.Decided.{Kept, Decided, Other, found-Decided, run_all-Decided}

-- The entry is gone, or resolved with the outcome.
abbrev pub HasOutcome : String → Option Entry → Type 0
HasOutcome outcome none = Unit
HasOutcome outcome (some e) = (e.phase ≡ Phase.resolved) × (e.outcome ≡ some outcome)

settle_in-decides :
    (now a : ℕ) (r i outcome : String) (b : Bucket)
    → Decided a r i outcome (settle_in now i outcome b)
unfolding settle_in
settle_in-decides now a r i outcome b = inr (at b.entries)
  where
    kept :
        (e : Entry) (hit : Bool)
        → has_request i e ≡ hit
        → Kept i outcome (if hit then resolved_as now outcome e else e)
    kept e true mine = inr (unfold resolved_as in refl, unfold resolved_as in refl)
    kept e false mine = inl mine

    at :
        (entries : List Entry)
        → All (Kept i outcome) (update (has_request i) (resolved_as now outcome) entries)
    at [] = tt
    at (e ∷ entries) = (kept e (has_request i e) refl, at entries)

decides_all :
    (now a : ℕ) (r i outcome : String) (buckets : List Bucket)
    → All (Decided a r i outcome) (update (bucket_at a r) (settle_in now i outcome) buckets)
decides_all now a r i outcome [] = tt
decides_all now a r i outcome (b ∷ buckets) =
    (at (bucket_at a r b) refl, decides_all now a r i outcome buckets)
  where
    at :
        (hit : Bool)
        → bucket_at a r b ≡ hit
        → Decided a r i outcome (if hit then settle_in now i outcome b else b)
    at true here = settle_in-decides now a r i outcome b
    at false apart = inl apart

settle_entry-decides :
    (now a : ℕ) (r i outcome : String) (e : Entry) (inbox s : Inbox)
    → settle_entry now a r i outcome (some e) inbox ≡ (true, s)
    → All (Decided a r i outcome) s.by_run
unfolding settle_entry
settle_entry-decides now a r i outcome e inbox s h = elim (Bool-cases (is_pending e.phase)) [
  | inl waits ↦
      let k = rw waits at h in
      let same : update (bucket_at a r) (settle_in now i outcome) inbox.by_run ≡ s.by_run =
        ap (λ (p : Bool × Inbox). p.1.by_run) k in
      rw (← same) (decides_all now a r i outcome inbox.by_run)
  | inr done ↦ let k = rw done at h in absurd (at (ap (λ (p : Bool × Inbox). p.0) k))
]
  where
    at : false ≡ true → ⊥
    at e = cc

settle-decides :
    (now a : ℕ) (r i outcome : String) (inbox s : Inbox)
    → settle now a r i outcome inbox ≡ (true, s)
    → All (Decided a r i outcome) s.by_run
unfolding settle
settle-decides now a r i outcome inbox s h = at (entry_at a r i inbox) h
  where
    at :
        (o : Option Entry)
        → settle_entry now a r i outcome o inbox ≡ (true, s)
        → All (Decided a r i outcome) s.by_run
    at none k = absurd (unfold settle_entry in cc)
    at (some e) k = settle_entry-decides now a r i outcome e inbox s k

settle-none :
    (now a : ℕ) (r i outcome told : String) (inbox : Inbox)
    → All (Decided a r i outcome) inbox.by_run
    → HasOutcome outcome (entry_at a r i inbox) × (settle now a r i told inbox ≡ (false, inbox))
unfolding settle
settle-none now a r i outcome told inbox h = at (entry_at a r i inbox) refl
  where
    at :
        (o : Option Entry)
        → entry_at a r i inbox ≡ o
        → HasOutcome outcome o × (settle_entry now a r i told o inbox ≡ (false, inbox))
    at none found = (tt, unfold settle_entry in refl)
    at (some e) found =
        let done : (e.phase ≡ Phase.resolved) × (e.outcome ≡ some outcome) =
          found-Decided a r i outcome inbox e h found in
        let no : is_pending e.phase ≡ false = rw (done.0) refl in
        (done, unfold settle_entry in rw no refl)

-- When a settle of a request has answered true, then after any operations that capture only other
-- requests its entry is gone or resolved with the outcome of that settle, and another settle of
-- it, with any outcome, answers false and changes nothing.
pub settled_once :
    (now later a : ℕ) (r i outcome told : String) (inbox s : Inbox) (ops : List Op)
    → settle now a r i outcome inbox ≡ (true, s)
    → All (Spares (Other a r i)) ops
    → HasOutcome outcome (entry_at a r i (run_all step s ops))
      × (settle later a r i told (run_all step s ops) ≡ (false, run_all step s ops))
settled_once now later a r i outcome told inbox s ops h spares =
    settle-none later a r i outcome told (run_all step s ops)
      (run_all-Decided a r i outcome s ops spares (settle-decides now a r i outcome inbox s h))
