-- ===== src/Steer/Claim.antt =====
-- compat/steer_store.py: what `claim_batch`, `confirm_batch` and `mark_outcome_unknown` promise.
use mathlib.Core.Option
use hermes_app.Base.{
  ℕ, ◌<◌, String, Bool, true, false, ◌≡◌, refl, Option, none, some, List, [], ◌∷◌, ◌++◌, inl, inr,
  arith, ok, if-keeps, if◌then◌else◌, Bool-cases, length, >>=-eq-ok,
}
use hermes_app.Base.Table.{
  count, find, update, insert, insert-ok, find-some, find-update, select, IsOrdered,
  order_by-IsOrdered, count-order_by, count-update,
}
use hermes_app.Steer.Defs.{
  SteerState, BatchState, Steer, Batch, SteerDb, steer_in, accepted_in, outstanding_in,
  batch_has_id, batch_clash, run_at,
}
use hermes_app.Steer.Batches.{
  claim_rows, claim_batch, claimable, new_batch, run_is_open, batch_is_open, confirm_batch,
  mark_outcome_unknown,
}

-- What a successful claim means: the run was open; the rows are the accepted steers of the run, all
-- of them, in the order of their numbers, and at least one; and afterwards none is accepted, the
-- outstanding ones are as many, and the batch lists the claimed ids.
pub record Claimed (now : ℕ) (db : SteerDb) (o r b : String) (rows : List Steer) (db' : SteerDb)
    : Type 0 where
  pub opened : run_is_open (find (run_at o r) db.runs) ≡ true
  pub ordered : IsOrdered (λ s. s.seq) rows
  pub all_of_them : (q : Steer → Bool) → count q rows ≡ count q (select (accepted_in o r) db.steers)
  pub nonempty : 0 < length rows
  pub none_left : count (accepted_in o r) db'.steers ≡ 0
  pub still_outstanding :
      count (outstanding_in o r) db'.steers ≡ count (outstanding_in o r) db.steers
  pub listed : db'.batches ≡ db.batches ++ (new_batch now o r b rows ∷ [])
  pub same_runs : db'.runs ≡ db.runs

claimed_state :
    (o r : String) (x : Steer) (b : Option String) (now : ℕ)
    → accepted_in o r (record x { state = SteerState.staged; batch_id = b; updated_at = now })
      ≡ false
unfolding accepted_in
claimed_state o r x b now = ground arith

claimed_db : ℕ → SteerDb → String → String → String → List Batch → SteerDb
claimed_db now db o r b batches = record db {
  steers =
      update (accepted_in o r)
        (λ x. record x { state = SteerState.staged; batch_id = some b; updated_at = now })
        db.steers;
  batches = batches;
}

still-outstanding :
    (o r : String) (x : Steer) (b : Option String) (now : ℕ)
    → accepted_in o r x ≡ true
    → outstanding_in o r (record x { state = SteerState.staged; batch_id = b; updated_at = now })
      ≡ outstanding_in o r x
unfolding accepted_in outstanding_in steer_in
still-outstanding o r x b now h = ground arith

not_accepted :
    (o r : String) (b : Option String) (now : ℕ) (xs : List Steer)
    → count (accepted_in o r) (
        update
          (accepted_in o r)
          (λ x. record x { state = SteerState.staged; batch_id = b; updated_at = now })
          xs)
      ≡ 0
not_accepted o r b now [] = refl
not_accepted o r b now (x ∷ xs) =
    ground (arith, claimed_state o r x b now, not_accepted o r b now xs)

claim_rows-inversion :
    (now : ℕ) (db db' : SteerDb) (o r b : String) (l rows : List Steer)
    → claim_rows now db o r b l ≡ ok (some rows, db')
    → (rows ≡ l)
      × (0 < length l)
      × (db' ≡ claimed_db now db o r b (db.batches ++ (new_batch now o r b l ∷ [])))
unfolding claim_rows claimed_db
claim_rows-inversion now db db' o r b [] rows h = absurd (cc)
claim_rows-inversion now db db' o r b (s ∷ l) rows h =
    let (batches, made, e) =
      >>=-eq-ok (insert batch_clash (new_batch now o r b (s ∷ l)) db.batches) _ h in
    let (grown, _) = insert-ok batch_clash _ db.batches batches made in
    (ground arith, omega arith, rw (← grown) (ground arith))

-- A claim that returns rows has claimed exactly the accepted steers of an open run.
pub claim_batch-Claimed :
    (now : ℕ) (db db' : SteerDb) (o r b : String) (rows : List Steer)
    → claim_batch now db o r b ≡ ok (some rows, db')
    → Claimed now db o r b rows db'
unfolding claim_batch claimable
claim_batch-Claimed now db db' o r b rows h =
    elim (Bool-cases (run_is_open (find (run_at o r) db.runs))) [
      | inr shut ↦ absurd (let no_rows : claim_batch now db o r b ≡ ok (none, db) = rw shut in cc)
      | inl opened ↦
          let claims : claim_rows now db o r b (claimable db o r) ≡ ok (some rows, db') =
            rw opened at h in
          let (same, some_row, after) =
            claim_rows-inversion now db db' o r b (claimable db o r) rows claims in
          record {
            opened = opened;
            ordered =
                rw same (order_by-IsOrdered (λ s. s.seq) (select (accepted_in o r) db.steers));
            all_of_them =
                λ q. rw same (count-order_by (λ s. s.seq) q (select (accepted_in o r) db.steers));
            nonempty = rw same some_row;
            none_left = rw after (unfold claimed_db in not_accepted o r (some b) now db.steers);
            still_outstanding = rw after (
                unfold claimed_db in
                count-update (outstanding_in o r) (accepted_in o r) _ db.steers
                  (λ x. still-outstanding o r x (some b) now));
            listed = rw (after, same) (unfold claimed_db in refl);
            same_runs = rw after (unfold claimed_db in refl);
          }
    ]

delivered_closed :
    (b row : String) (o : Option Batch)
    → ((x : Batch) → o ≡ some x → batch_has_id b x ≡ true)
    → batch_is_open (
        Option.map
          (λ x.
            if batch_has_id b x
            then record x { state = BatchState.delivered; row_id = some row }
            else x)
          o)
      ≡ false
unfolding batch_is_open
delivered_closed b row none h = refl
delivered_closed b row (some x) h = rw (h x refl)

confirmed_closed :
    (t : ℕ) (db : SteerDb) (b row : String)
    → batch_is_open (find (batch_has_id b) (confirm_batch t db b row).batches) ≡ false
unfolding confirm_batch
confirmed_closed t db b row =
    if-keeps (λ (d : SteerDb). batch_is_open (find (batch_has_id b) d.batches) ≡ false)
      (batch_is_open (find (batch_has_id b) db.batches)) _ _
      (λ _.
        rw
          (find-update (batch_has_id b) (batch_has_id b)
            (λ x. record x { state = BatchState.delivered; row_id = some row }) db.batches
            (λ x. unfold batch_has_id in refl))
          (delivered_closed b row (find (batch_has_id b) db.batches)
            (λ x. find-some (batch_has_id b) db.batches x)))
      (λ shut. shut)

-- A confirmed batch is final: a later report that its outcome is unknown changes nothing, and
-- neither does a second confirmation.
pub confirm_batch-final :
    (t u : ℕ) (db : SteerDb) (b row other reason : String)
    → (mark_outcome_unknown u (confirm_batch t db b row) b reason ≡ confirm_batch t db b row)
      × (confirm_batch u (confirm_batch t db b row) b other ≡ confirm_batch t db b row)
confirm_batch-final t u db b row other reason = (
  lost (confirm_batch t db b row) (confirmed_closed t db b row),
  again (confirm_batch t db b row) (confirmed_closed t db b row),
)
  where
    lost :
        (d : SteerDb)
        → batch_is_open (find (batch_has_id b) d.batches) ≡ false
        → mark_outcome_unknown u d b reason ≡ d
    lost d h = unfold mark_outcome_unknown in rw h

    again :
        (d : SteerDb)
        → batch_is_open (find (batch_has_id b) d.batches) ≡ false
        → confirm_batch u d b other ≡ d
    again d h = unfold confirm_batch in rw h
