-- ===== src/Notify/Deliveries.antt =====
-- compat/notification_store.py: `claim_delivery`, `new_delivery`, `queue_delivery`,
-- `note_delivery` and what reads the deliveries.
use hermes_app.Base.{
  ℕ, ◌+◌, String, Bool, true, false, Option, none, some, List, map, ◌==◌, ◌&&◌, not, if◌then◌else◌,
  Result, ok, ◌>>=◌, opt_eq, truthy,
}
use hermes_app.Base.Table.{select, find, update, insert, insert_or_ignore}
use hermes_app.Notify.Defs.{
  DeliveryState, Delivery, NotifyDb, is_report_outcome, is_pending, event_is, delivery_at,
  delivery_is, delivery_clash,
}

pub data ClaimVerdict : Type 0 where
  claimed already_claimed : ClaimVerdict

-- The columns that an INSERT INTO deliveries names, the others at their defaults.
unfoldable pub new_row :
    ℕ → String → String → String → String → DeliveryState → Option String → Option String → Delivery
new_row now e p c i state device token = record {
  delivery_id = i;
  event_id = e;
  phase = p;
  channel = c;
  state = state;
  attempt = 0;
  claimed_by = device;
  show_token = token;
  updated_at = now;
}

-- The UPDATE that claims a pending row.
unfoldable pub claim_row : ℕ → Option String → Option String → Delivery → Delivery
claim_row now device token d = record d {
  state = DeliveryState.claimed;
  claimed_by = device;
  show_token = token;
  updated_at = now;
}

unfoldable pub claim_found :
    ℕ
    → NotifyDb
    → String
    → String
    → String
    → String
    → Option String
    → Option String
    → Option Delivery
    → Result ((ClaimVerdict × String) × NotifyDb)
claim_found now db e p c i device token none = do
  rows ←
      insert delivery_clash (new_row now e p c i DeliveryState.claimed device token) db.deliveries
  ok ((ClaimVerdict.claimed, i), record db { deliveries = rows })
claim_found now db e p c i device token (some d) =
    if is_pending d.state
    then ok (
      (ClaimVerdict.claimed, d.delivery_id),
      record db {
        deliveries = update (delivery_is d.delivery_id) (claim_row now device token) db.deliveries;
      },
    )
    else ok ((ClaimVerdict.already_claimed, d.delivery_id), db)

-- `claim_delivery`: the first claimer of (event, phase, channel) may show it.
unfoldable pub claim_delivery :
    ℕ
    → NotifyDb
    → String
    → String
    → String
    → String
    → Option String
    → Option String
    → Result ((ClaimVerdict × String) × NotifyDb)
claim_delivery now db e p c i device token =
    claim_found now db e p c i device token (find (delivery_at e p c) db.deliveries)

unfoldable pub show_token_for : NotifyDb → String → Option String
show_token_for db i = elim (find (delivery_is i) db.deliveries) [
  | none ↦ none
  | some d ↦ d.show_token
]

-- `new_delivery`
unfoldable pub new_delivery :
    ℕ → NotifyDb → String → String → String → String → DeliveryState → NotifyDb
new_delivery now db e p c i state = record db {
  deliveries = insert_or_ignore delivery_clash (new_row now e p c i state none none) db.deliveries;
}

-- The verdict of `queue_delivery`: "queued", or "already_" with the state.
pub data QueueVerdict : Type 0 where
  queued : QueueVerdict
  already : DeliveryState → QueueVerdict

unfoldable pub queue_found :
    ℕ
    → NotifyDb
    → String
    → String
    → String
    → String
    → Option Delivery
    → Result ((QueueVerdict × String) × NotifyDb)
queue_found now db e p c i (some d) = ok (
  (if is_pending d.state then QueueVerdict.queued else QueueVerdict.already d.state, d.delivery_id),
  db,
)
queue_found now db e p c i none = do
  rows ← insert delivery_clash (new_row now e p c i DeliveryState.pending none none) db.deliveries
  ok ((QueueVerdict.queued, i), record db { deliveries = rows })

-- `queue_delivery`: records the intent and never owns the claim.
unfoldable pub queue_delivery :
    ℕ → NotifyDb → String → String → String → String → Result ((QueueVerdict × String) × NotifyDb)
queue_delivery now db e p c i = queue_found now db e p c i (find (delivery_at e p c) db.deliveries)

-- The arguments of a report: `none` is a keyword that the caller leaves out.
pub record Report : Type 0 where
  pub delivery_id : String
  pub outcome : DeliveryState
  pub channel : Option String
  pub event_id : Option String
  pub owner_scope : Option String
  pub device_id : Option String
  pub show_token : Option String

-- A given argument must be the column's value.
unfoldable pub agrees : Option String → Option String → Bool
agrees none column = true
agrees (some given) column = opt_eq (some given) column

-- `owner_scope is not None`: the event of the row is there and has that owner.
unfoldable pub owner_agrees : NotifyDb → Option String → Delivery → Bool
owner_agrees db none d = true
owner_agrees db (some o) d = elim (find (event_is d.event_id) db.events) [
  | none ↦ false
  | some e ↦ e.owner_scope == o
]

-- A browser row wants the token that its claim minted.
unfoldable pub token_agrees : Report → Delivery → Bool
token_agrees r d =
    if d.channel == "browser"
    then not (is_pending d.state)
      && (truthy d.show_token && (truthy r.show_token && opt_eq r.show_token d.show_token))
    else true

-- The guards of `note_delivery` on the row that it has found.
unfoldable pub report_allowed : NotifyDb → Report → Delivery → Bool
report_allowed db r d =
    agrees r.channel (some d.channel)
    && (agrees r.event_id (some d.event_id)
        && (owner_agrees db r.owner_scope d
            && (agrees r.device_id d.claimed_by && token_agrees r d)))

unfoldable pub noted : ℕ → DeliveryState → Delivery → Delivery
noted now outcome d = record d { state = outcome; attempt = d.attempt + 1; updated_at = now }

unfoldable pub note_found :
    ℕ → NotifyDb → Report → Option Delivery → Option DeliveryState × NotifyDb
note_found now db r none = (none, db)
note_found now db r (some d) =
    if report_allowed db r d
    then (
      some d.state,
      record db {
        deliveries = update (delivery_is r.delivery_id) (noted now r.outcome) db.deliveries;
      },
    )
    else (none, db)

-- `note_delivery`: the state before, or none if any guard refuses.
unfoldable pub note_delivery : ℕ → NotifyDb → Report → Option DeliveryState × NotifyDb
note_delivery now db r =
    if is_report_outcome r.outcome
    then note_found now db r (find (delivery_is r.delivery_id) db.deliveries)
    else (none, db)

unfoldable pub delivery_state : NotifyDb → String → String → String → Option DeliveryState
delivery_state db e p c = elim (find (delivery_at e p c) db.deliveries) [
  | none ↦ none
  | some d ↦ some d.state
]

unfoldable pub sent_phases : NotifyDb → String → List (String × String × DeliveryState)
sent_phases db e =
    map (λ d. (d.phase, d.channel, d.state)) (select (λ d. d.event_id == e) db.deliveries)
