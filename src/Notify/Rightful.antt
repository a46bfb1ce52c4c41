-- ===== src/Notify/Rightful.antt =====
-- compat/notification_store.py: what a report must show for `note_delivery`, said of the row, the
-- event and the arguments, and that the guards of the code decide it.
use hermes_app.Base.{
  String, true, false, ◌≡◌, ◌≢◌, ◌⊎◌, ◌∙◌, refl, Option, none, some, inl, inr, arith, Bool-cases,
  Option-cases, truthy, opt_eq, ◌==◌, eq_iff, sym,
}
use hermes_app.Base.Table.{find}
use hermes_app.Notify.Defs.{
  DeliveryState, Event, Delivery, NotifyDb, is_pending, is_report_outcome, event_is,
}
use hermes_app.Notify.Deliveries.{Report, agrees, owner_agrees, token_agrees, report_allowed}

-- An argument that is given has the value of a column that is never NULL.
abbrev pub Names : Option String → String → Type 0
Names none column = Unit
Names (some given) column = given ≡ column

-- An argument that is given has the value of a column that may be NULL.
abbrev pub NamesHolder : Option String → Option String → Type 0
NamesHolder none column = Unit
NamesHolder (some given) column = column ≡ some given

-- An owner that is given has the event, which is there.
abbrev pub NamesOwner : NotifyDb → Option String → String → Type 0
NamesOwner db none i = Unit
NamesOwner db (some o) i =
    (e : Event) × (find (event_is i) db.events ≡ some e) × (e.owner_scope ≡ o)

-- The states in which a report may leave a delivery.
abbrev pub Reportable : DeliveryState → Type 0
Reportable s =
    (s ≡ DeliveryState.shown)
    ⊎ ((s ≡ DeliveryState.failed)
        ⊎ ((s ≡ DeliveryState.unknown) ⊎ ((s ≡ DeliveryState.enqueued) ⊎ (s ≡ DeliveryState.sent))))

-- For a browser row: it was claimed, and the report has the token of the claim, which is not empty.
abbrev pub Tokens : Report → Delivery → Type 0
Tokens r d =
    d.channel ≡ "browser"
    → (d.state ≢ DeliveryState.pending)
      × (t : String) × (t ≢ "")
      × (d.show_token ≡ some t)
      × (r.show_token ≡ some t)

-- What a report of a row must show: an outcome that a report may leave; of the channel, the event,
-- the owner and the device it names, that they are the row's, the event's and the claim's; and for a
-- browser row that the row was claimed and the report has the claim's token, which is not empty.
pub record Rightful (db : NotifyDb) (r : Report) (d : Delivery) : Type 0 where
  pub outcome : Reportable r.outcome
  pub channel : Names r.channel d.channel
  pub event : Names r.event_id d.event_id
  pub owner : NamesOwner db r.owner_scope d.event_id
  pub device : NamesHolder r.device_id d.claimed_by
  pub token : Tokens r d

pub is_report_outcome-Reportable : (s : DeliveryState) → is_report_outcome s ≡ true → Reportable s
is_report_outcome-Reportable DeliveryState.shown h = inl refl
is_report_outcome-Reportable DeliveryState.failed h = inr (inl refl)
is_report_outcome-Reportable DeliveryState.unknown h = inr (inr (inl refl))
is_report_outcome-Reportable DeliveryState.enqueued h = inr (inr (inr (inl refl)))
is_report_outcome-Reportable DeliveryState.sent h = inr (inr (inr (inr refl)))
is_report_outcome-Reportable DeliveryState.pending h = cc
is_report_outcome-Reportable DeliveryState.queued h = cc
is_report_outcome-Reportable DeliveryState.claimed h = cc

pub Reportable-outcome : (s : DeliveryState) → Reportable s → is_report_outcome s ≡ true
Reportable-outcome s h = elim h [
  | inl e ↦ rw e refl
  | inr (inl e) ↦ rw e refl
  | inr (inr (inl e)) ↦ rw e refl
  | inr (inr (inr (inl e))) ↦ rw e refl
  | inr (inr (inr (inr e))) ↦ rw e refl
]

opt_eq-true : (a b : Option String) → opt_eq a b ≡ true → a ≡ b
opt_eq-true none none h = refl
opt_eq-true none (some b) h = cc
opt_eq-true (some a) none h = cc
opt_eq-true (some a) (some b) h = ground (arith, eq_iff a b)

agrees-Names :
    (given : Option String) (column : String)
    → agrees given (some column) ≡ true
    → Names given column
unfolding agrees
agrees-Names none column h = tt
agrees-Names (some g) column h = (eq_iff g column).0 h

Names-agrees :
    (given : Option String) (column : String)
    → Names given column
    → agrees given (some column) ≡ true
unfolding agrees
Names-agrees none column h = refl
Names-agrees (some g) column h = (eq_iff g column).1 h

agrees-NamesHolder :
    (given column : Option String) → agrees given column ≡ true → NamesHolder given column
unfolding agrees
agrees-NamesHolder none column h = tt
agrees-NamesHolder (some g) column h = sym (opt_eq-true (some g) column h)

NamesHolder-agrees :
    (given column : Option String) → NamesHolder given column → agrees given column ≡ true
unfolding agrees
NamesHolder-agrees none column h = refl
NamesHolder-agrees (some g) column h = rw h ((eq_iff g g).1 refl)

module _ (db : NotifyDb) (d : Delivery) where
  owner_agrees-NamesOwner :
      (o : Option String) → owner_agrees db o d ≡ true → NamesOwner db o d.event_id
  unfolding owner_agrees
  owner_agrees-NamesOwner none h = tt
  owner_agrees-NamesOwner (some o) h = elim (Option-cases (find (event_is d.event_id) db.events)) [
    | inl nothing ↦ let no : false ≡ true = rw (nothing, owner_agrees) at h in absurd (cc)
    | inr (e, there) ↦
        let own : (e.owner_scope == o) ≡ true = rw (there, owner_agrees) at h in
        (e, there, (eq_iff e.owner_scope o).0 own)
  ]

  NamesOwner-agrees : (o : Option String) → NamesOwner db o d.event_id → owner_agrees db o d ≡ true
  unfolding owner_agrees
  NamesOwner-agrees none h = refl
  NamesOwner-agrees (some o) (e, there, own) =
      rw (there, owner_agrees) ((eq_iff e.owner_scope o).1 own)

given_token : (o : Option String) → truthy o ≡ true → (t : String) × (t ≢ "") × (o ≡ some t)
given_token none h = cc
given_token (some t) h =
    (t, (λ e. let empty : (t == "") ≡ true = (eq_iff t "").1 e in ground (arith, h)), refl)

truthy_text : (t : String) → t ≢ "" → truthy (some t) ≡ true
truthy_text t h = elim (Bool-cases (t == "")) [
  | inl empty ↦ absurd (h ((eq_iff t "").0 empty))
  | inr full ↦ rw full refl
]

not_pending : (s : DeliveryState) → is_pending s ≡ false → s ≢ DeliveryState.pending
not_pending s h e = let yes : is_pending s ≡ true = rw e refl in cc

pending_not : (s : DeliveryState) → s ≢ DeliveryState.pending → is_pending s ≡ false
pending_not DeliveryState.pending h = absurd (h refl)
pending_not DeliveryState.queued h = refl
pending_not DeliveryState.claimed h = refl
pending_not DeliveryState.enqueued h = refl
pending_not DeliveryState.sent h = refl
pending_not DeliveryState.shown h = refl
pending_not DeliveryState.failed h = refl
pending_not DeliveryState.unknown h = refl

token_agrees-Tokens : (r : Report) (d : Delivery) → token_agrees r d ≡ true → Tokens r d
unfolding token_agrees
token_agrees-Tokens r d h browser =
    let same : (d.channel == "browser") ≡ true = rw browser in
    let claimed : is_pending d.state ≡ false = ground arith in
    let given : truthy d.show_token ≡ true = ground arith in
    let equal : opt_eq r.show_token d.show_token ≡ true = ground arith in
    let (t, not_empty, stored) = given_token d.show_token given in
    (
      not_pending d.state claimed,
      t,
      not_empty,
      stored,
      opt_eq-true r.show_token d.show_token equal ∙ stored,
    )

Tokens-agree : (r : Report) (d : Delivery) → Tokens r d → token_agrees r d ≡ true
unfolding token_agrees
Tokens-agree r d h = elim (Bool-cases (d.channel == "browser")) [
  | inr other ↦ rw other refl
  | inl browser ↦
      let (claimed, t, not_empty, stored, sent) = h ((eq_iff d.channel "browser").0 browser) in
      let shut : is_pending d.state ≡ false = pending_not d.state claimed in
      let full : truthy (some t) ≡ true = truthy_text t not_empty in
      rw (token_agrees, browser, shut, stored, sent, full) ((eq_iff t t).1 refl)
]

-- The guards of the code pass exactly the reports that show it.
pub report_allowed-Rightful :
    (db : NotifyDb) (r : Report) (d : Delivery)
    → is_report_outcome r.outcome ≡ true
    → report_allowed db r d ≡ true
    → Rightful db r d
unfolding report_allowed
report_allowed-Rightful db r d final h = record {
  outcome = is_report_outcome-Reportable r.outcome final;
  channel = agrees-Names r.channel d.channel (ground arith);
  event = agrees-Names r.event_id d.event_id (ground arith);
  owner = owner_agrees-NamesOwner db d r.owner_scope (ground arith);
  device = agrees-NamesHolder r.device_id d.claimed_by (ground arith);
  token = token_agrees-Tokens r d (ground arith);
}

pub Rightful-allowed :
    (db : NotifyDb) (r : Report) (d : Delivery)
    → Rightful db r d
    → (is_report_outcome r.outcome ≡ true) × (report_allowed db r d ≡ true)
unfolding report_allowed
Rightful-allowed db r d h = (
  Reportable-outcome r.outcome h.outcome,
  rw
      (
        Names-agrees r.channel d.channel h.channel,
        Names-agrees r.event_id d.event_id h.event,
        NamesOwner-agrees db d r.owner_scope h.owner,
        NamesHolder-agrees r.device_id d.claimed_by h.device,
        Tokens-agree r d h.token,
      )
      refl,
)
