-- ===== src/Notify/Reports.antt =====
-- compat/notification_store.py: `note_delivery` accepts exactly the reports that show what they must,
-- and what it writes.
use hermes_app.Base.{ℕ, ◌+◌, true, ◌≡◌, ◌⊎◌, refl, none, some, inl, inr, Bool-cases, Option-cases}
use hermes_app.Base.Table.{find, update}
use hermes_app.Notify.Defs.{Delivery, NotifyDb, is_report_outcome, delivery_is}
use hermes_app.Notify.Deliveries.{Report, report_allowed, noted, note_found, note_delivery}
use hermes_app.Notify.Rightful.{Rightful, report_allowed-Rightful, Rightful-allowed}

-- The ledger with the outcome and one attempt more on the row of the report.
abbrev pub reported : ℕ → NotifyDb → Report → NotifyDb
reported now db r = record db {
  deliveries =
      update (delivery_is r.delivery_id)
        (λ x. record x { state = r.outcome; attempt = x.attempt + 1; updated_at = now })
        db.deliveries;
}

-- The report is of a row that is there and shows what it must, the state from before is answered,
-- and the outcome is written; or no row is there for which it does, and nothing is answered or
-- written.
abbrev pub Decided : ℕ → NotifyDb → Report → Type 0
Decided now db r =
    ((d : Delivery) × (find (delivery_is r.delivery_id) db.deliveries ≡ some d)
      × Rightful db r d
      × (note_delivery now db r ≡ (some d.state, reported now db r)))
    ⊎ (((d : Delivery)
          → find (delivery_is r.delivery_id) db.deliveries ≡ some d
          → ¬ Rightful db r d)
        × (note_delivery now db r ≡ (none, db)))

found-Decided :
    (now : ℕ) (db : NotifyDb) (r : Report) (d : Delivery)
    → find (delivery_is r.delivery_id) db.deliveries ≡ some d
    → is_report_outcome r.outcome ≡ true
    → Decided now db r
unfolding note_delivery note_found noted
found-Decided now db r d there final = elim (Bool-cases (report_allowed db r d)) [
  | inl allowed ↦
      inl (d, there, report_allowed-Rightful db r d final allowed, rw (final, there, allowed) refl)
  | inr refused ↦ inr (
    (λ x same h.
        let (_, allowed) = Rightful-allowed db r x h in
        let equal : x ≡ d = cc in
        let passed : report_allowed db r d ≡ true = rw (← equal) allowed in cc),
    rw (final, there, refused) refl,
  )
]

-- `note_delivery` accepts a report exactly if its row is there and it shows what it must. The outcome
-- is one a report may leave; the channel, the event, the owner and the device that it names are
-- those of the row, the event and the claim; and of a browser row, which must have been claimed, it
-- has the claim's token, which is not empty. It then answers the state from before and writes the
-- outcome, the time and one attempt more on the row; otherwise it answers none and writes nothing.
pub note_delivery-Decided : (now : ℕ) (db : NotifyDb) (r : Report) → Decided now db r
unfolding note_delivery note_found
note_delivery-Decided now db r = elim (Bool-cases (is_report_outcome r.outcome)) [
  | inr other ↦ inr ((λ d there h. let (final, _) = Rightful-allowed db r d h in cc), rw other refl)
  | inl final ↦ elim (Option-cases (find (delivery_is r.delivery_id) db.deliveries)) [
    | inl nothing ↦ inr ((λ d there h. cc), rw (final, nothing) refl)
    | inr (d, there) ↦ found-Decided now db r d there final
  ]
]
