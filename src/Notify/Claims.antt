-- ===== src/Notify/Claims.antt =====
-- compat/notification_store.py: a delivery is claimed once.
use mathlib.Core.Option
use hermes_app.Base.{
  ℕ, String, Bool, true, false, not, ◌≡◌, ◌≢◌, refl, Option, none, some, List, [], ◌∷◌, ◌++◌, inl,
  inr, arith, ok, committed, committed-bind, committed-if, if-keeps, if◌then◌else◌, Bool-cases,
  eq_refl, >>=-eq-ok, coalesce,
}
use hermes_app.Base.Table.{find, exists, update, insert, insert-ok, find-append, find-update}
use hermes_app.Notify.Defs.{
  DeliveryState, Event, Delivery, event_is, owned_event, event_clash, read_clash, NotifyDb,
  is_pending, is_report_outcome, delivery_at, delivery_is, delivery_clash,
}
use hermes_app.Notify.Events.{
  EventRequest, event_id_for, new_event, seq_now, record_event, new_read, mark_found, mark_read,
}
use hermes_app.Notify.Deliveries.{
  ClaimVerdict, Report, new_row, claim_row, claim_found, claim_delivery, new_delivery, queue_found,
  queue_delivery, report_allowed, noted, note_found, note_delivery,
}
use hermes_app.Notify.History.{Op, step, play, play-keeps}

abbrev taken_row : Option Delivery → Bool
taken_row none = false
taken_row (some d) = not (is_pending d.state)

-- The delivery of (event, phase, channel) is there and no longer pending.
abbrev pub taken : String → String → String → NotifyDb → Bool
taken e p c db = taken_row (find (delivery_at e p c) db.deliveries)

taken-refused :
    (now : ℕ) (db db' : NotifyDb) (e p c i j : String) (device token : Option String)
    → taken e p c db ≡ true
    → claim_delivery now db e p c i device token ≢ ok ((ClaimVerdict.claimed, j), db')
unfolding claim_delivery
taken-refused now db db' e p c i j device token h = at (find (delivery_at e p c) db.deliveries) h
  where
    at :
        (found : Option Delivery)
        → taken_row found ≡ true
        → claim_found now db e p c i device token found ≢ ok ((ClaimVerdict.claimed, j), db')
    at none t = cc
    at (some d) t = unfold claim_found in ground arith

module _ (e p c : String) where
  -- A row added at the end does not hide an earlier one.
  taken_appended :
      (db : NotifyDb) (d : Delivery)
      → taken e p c db ≡ true
      → taken_row (find (delivery_at e p c) (db.deliveries ++ (d ∷ []))) ≡ true
  taken_appended db d h = rw find-append (at (find (delivery_at e p c) db.deliveries) h)
    where
      at :
          (found : Option Delivery)
          → taken_row found ≡ true
          → taken_row (coalesce found (find (delivery_at e p c) (d ∷ []))) ≡ true
      at none t = cc
      at (some x) t = t

  -- Neither a claim nor a report makes a row pending.
  taken_updated :
      (db : NotifyDb) (q : Delivery → Bool) (f : Delivery → Delivery)
      → ((x : Delivery) → delivery_at e p c (f x) ≡ delivery_at e p c x)
      → ((x : Delivery) → is_pending (f x).state ≡ false)
      → taken e p c db ≡ true
      → taken_row (find (delivery_at e p c) (update q f db.deliveries)) ≡ true
  taken_updated db q f same moved h =
      rw (find-update (delivery_at e p c) q f db.deliveries same)
        (at (find (delivery_at e p c) db.deliveries) h)
    where
      at :
          (found : Option Delivery)
          → taken_row found ≡ true
          → taken_row (Option.map (λ x. if q x then f x else x) found) ≡ true
      at none t = cc
      at (some x) t = ground (arith, moved x)

  claim-taken :
      (now : ℕ) (db : NotifyDb) (e' p' c' i : String) (device token : Option String)
      (found : Option Delivery)
      → taken e p c db ≡ true
      → taken e p c (committed db (claim_found now db e' p' c' i device token found)) ≡ true
  unfolding claim_found
  claim-taken now db e' p' c' i device token none h =
      committed-bind (λ (d : NotifyDb). taken e p c d ≡ true) db
        (insert delivery_clash (new_row now e' p' c' i DeliveryState.claimed device token)
          db.deliveries)
        _ h
        λ rows made.
          rw (insert-ok delivery_clash _ db.deliveries rows made).0 (taken_appended db _ h)
  claim-taken now db e' p' c' i device token (some d) h = elim (Bool-cases (is_pending d.state)) [
    | inl open_row ↦ rw open_row (
        taken_updated db (delivery_is d.delivery_id) (claim_row now device token)
          (λ x. unfold claim_row delivery_at in refl) (λ x. unfold claim_row in refl) h)
    | inr shut ↦ rw shut h
  ]

  queue-taken :
      (now : ℕ) (db : NotifyDb) (e' p' c' i : String) (found : Option Delivery)
      → taken e p c db ≡ true
      → taken e p c (committed db (queue_found now db e' p' c' i found)) ≡ true
  unfolding queue_found
  queue-taken now db e' p' c' i (some d) h = h
  queue-taken now db e' p' c' i none h =
      committed-bind (λ (d : NotifyDb). taken e p c d ≡ true) db
        (insert delivery_clash (new_row now e' p' c' i DeliveryState.pending none none)
          db.deliveries)
        _ h
        λ rows made.
          rw (insert-ok delivery_clash _ db.deliveries rows made).0 (taken_appended db _ h)

  note-taken :
      (now : ℕ) (db : NotifyDb) (r : Report) (found : Option Delivery)
      → is_pending r.outcome ≡ false
      → taken e p c db ≡ true
      → taken e p c (note_found now db r found).1 ≡ true
  unfolding note_found
  note-taken now db r none ends h = h
  note-taken now db r (some d) ends h = elim (Bool-cases (report_allowed db r d)) [
    | inl fine ↦ rw fine (
        taken_updated db (delivery_is r.delivery_id) (noted now r.outcome)
          (λ x. unfold noted delivery_at in refl) (λ x. unfold noted in ends) h)
    | inr refused ↦ rw refused h
  ]

  outcome-ends : (s : DeliveryState) → is_report_outcome s ≡ true → is_pending s ≡ false
  outcome-ends s h = ground arith

  note_delivery-taken :
      (now : ℕ) (db : NotifyDb) (r : Report)
      → taken e p c db ≡ true
      → taken e p c (note_delivery now db r).1 ≡ true
  unfolding note_delivery
  note_delivery-taken now db r h = elim (Bool-cases (is_report_outcome r.outcome)) [
    | inl fine ↦ rw fine (note-taken now db r _ (outcome-ends r.outcome fine) h)
    | inr other ↦ rw other h
  ]

  record_event-taken :
      (hexdigest : String → String) (now : ℕ) (db : NotifyDb) (q : EventRequest)
      → taken e p c db ≡ true
      → taken e p c (committed db (record_event hexdigest now db q)) ≡ true
  unfolding record_event
  record_event-taken hexdigest now db q h =
      committed-if (λ (d : NotifyDb). taken e p c d ≡ true) db
        (exists (event_is (event_id_for hexdigest q.owner_scope q.run_id q.kind q.source_id))
          db.events)
        _ _ (λ _. h)
        λ _.
          committed-bind (λ (d : NotifyDb). taken e p c d ≡ true) db
            (insert event_clash (new_event hexdigest now q (seq_now db)) db.events) _ h (λ _ _. h)

  deliveries-mark_found :
      (now : ℕ) (db : NotifyDb) (i reader : String) (found : Option Event)
      → (mark_found now db i reader found).1.deliveries ≡ db.deliveries
  unfolding mark_found
  deliveries-mark_found now db i reader none = refl
  deliveries-mark_found now db i reader (some x) =
      if-keeps (λ (d : NotifyDb). d.deliveries ≡ db.deliveries)
        (exists (read_clash (new_read now i reader x.created_seq)) db.read_events) _ _ (λ _. refl)
        (λ _. refl)

  new_delivery-taken :
      (now : ℕ) (db : NotifyDb) (e' p' c' i : String) (state : DeliveryState)
      → taken e p c db ≡ true
      → taken e p c (new_delivery now db e' p' c' i state) ≡ true
  unfolding new_delivery
  new_delivery-taken now db e' p' c' i state h =
      if-keeps (λ (rows : List Delivery). taken_row (find (delivery_at e p c) rows) ≡ true)
        (exists (delivery_clash (new_row now e' p' c' i state none none)) db.deliveries) _ _
        (λ _. h) (λ _. taken_appended db _ h)

  step-taken :
      (hexdigest : String → String) (db : NotifyDb) (op : Op)
      → taken e p c db ≡ true
      → taken e p c (step hexdigest db op) ≡ true
  unfolding step
  step-taken hexdigest db (Op.announce now q) h = record_event-taken hexdigest now db q h
  step-taken hexdigest db (Op.acknowledge now o i reader) h =
      unfold mark_read in
      rw (deliveries-mark_found now db i reader (find (owned_event o i) db.events)) h
  step-taken hexdigest db (Op.claim now e' p' c' i device token) h =
      unfold claim_delivery in claim-taken now db e' p' c' i device token _ h
  step-taken hexdigest db (Op.add now e' p' c' i state) h =
      new_delivery-taken now db e' p' c' i state h
  step-taken hexdigest db (Op.queue now e' p' c' i) h =
      unfold queue_delivery in queue-taken now db e' p' c' i _ h
  step-taken hexdigest db (Op.note now r) h = note_delivery-taken now db r h

inserted-taken :
    (now : ℕ) (db : NotifyDb) (e p c i : String) (device token : Option String)
    → find (delivery_at e p c) db.deliveries ≡ none
    → taken_row (
        find
          (delivery_at e p c)
          (db.deliveries ++ (new_row now e p c i DeliveryState.claimed device token ∷ [])))
      ≡ true
unfolding new_row delivery_at
inserted-taken now db e p c i device token absent = rw (find-append, absent) (simp eq_refl)

updated-taken :
    (now : ℕ) (db : NotifyDb) (e p c : String) (device token : Option String) (x : Delivery)
    → find (delivery_at e p c) db.deliveries ≡ some x
    → taken_row (
        find
          (delivery_at e p c)
          (update (delivery_is x.delivery_id) (claim_row now device token) db.deliveries))
      ≡ true
unfolding claim_row delivery_is
updated-taken now db e p c device token x there =
    rw
      (
        find-update (delivery_at e p c) (delivery_is x.delivery_id) (claim_row now device token)
            db.deliveries (λ y. unfold delivery_at in refl),
        there,
      )
      (simp eq_refl)

claim_delivery-taken :
    (now : ℕ) (db db' : NotifyDb) (e p c i j : String) (device token : Option String)
    → claim_delivery now db e p c i device token ≡ ok ((ClaimVerdict.claimed, j), db')
    → taken e p c db' ≡ true
unfolding claim_delivery claim_found
claim_delivery-taken now db db' e p c i j device token h =
    at (find (delivery_at e p c) db.deliveries) refl h
  where
    at :
        (found : Option Delivery)
        → find (delivery_at e p c) db.deliveries ≡ found
        → claim_found now db e p c i device token found ≡ ok ((ClaimVerdict.claimed, j), db')
        → taken e p c db' ≡ true
    at none absent k =
        let (rows, made, e') =
          >>=-eq-ok
            (insert delivery_clash (new_row now e p c i DeliveryState.claimed device token)
              db.deliveries)
            _ k in
        let same : db' ≡ record db { deliveries = rows } = ground arith in
        rw (same, (insert-ok delivery_clash _ db.deliveries rows made).0)
          (inserted-taken now db e p c i device token absent)
    at (some x) there k = elim (Bool-cases (is_pending x.state)) [
      | inl waiting ↦
          let same : record db {
            deliveries =
                update (delivery_is x.delivery_id) (claim_row now device token) db.deliveries;
          }
              ≡ db' =
            ground arith in
          rw (← same) (updated-taken now db e p c device token x there)
      | inr shut ↦ absurd (ground arith)
    ]

-- A delivery is claimed at most once: after one claim of (event, phase, channel) and any later
-- operations of the store, no claim of it succeeds, by whatever device and under whatever id.
pub claimed_once :
    (hexdigest : String → String) (now later : ℕ) (db db' d : NotifyDb) (e p c i j i' j' : String)
    (device token device' token' : Option String) (ops : List Op)
    → claim_delivery now db e p c i device token ≡ ok ((ClaimVerdict.claimed, j), db')
    → claim_delivery later (play hexdigest db' ops) e p c i' device' token'
      ≢ ok ((ClaimVerdict.claimed, j'), d)
claimed_once hexdigest now later db db' d e p c i j i' j' device token device' token' ops h =
    taken-refused later (play hexdigest db' ops) d e p c i' j' device' token' (
      play-keeps hexdigest (λ x. taken e p c x ≡ true) (step-taken e p c hexdigest) db' ops
        (claim_delivery-taken now db db' e p c i j device token h))
