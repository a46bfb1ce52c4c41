-- ===== src/Approval/Inbox.antt =====
-- compat/approval_inbox.py: the buckets of the runs, and how their entries are settled. A dictionary
-- is the list of its items, with their keys, in the order of insertion.
use hermes_app.Base.{
  ℕ, zero, suc, ◌+◌, String, Bool, true, false, not, ◌&&◌, ◌||◌, Option, none, some, List, [], ◌∷◌,
  ◌++◌, map, ◌==◌, leb, ltb, nat_eq, length, truthy, if◌then◌else◌,
}
use hermes_app.Base.Table.{select, find, exists, count, update, delete}
use hermes_app.Approval.Defs.{
  Phase, Entry, max_pending, max_runs, resolved_ttl, is_pending, Shown, payload_for, is_stale,
  has_request, listed,
}

pub record Bucket : Type 0 where
  pub adapter : ℕ
  pub run_id : String
  pub entries : List Entry
  pub revision : ℕ
  pub degraded : Bool
  pub session_id : Option String
  pub last_seen : ℕ

-- What an operation does outside the registry, in order.
pub data Effect : Type 0 where
  counted : String → Effect
  hooked : String → Effect
  cancelled : String → Effect
  announced : String → String → Effect
  dispatched : String → Effect

pub record Inbox : Type 0 where
  pub by_run : List Bucket
  pub epoch : Option String
  pub effects : List Effect

abbrev pub empty_inbox : Option String → Inbox
empty_inbox epoch = record { by_run = []; epoch = epoch; effects = [] }

unfoldable pub bucket_at : ℕ → String → Bucket → Bool
bucket_at a r b = nat_eq b.adapter a && b.run_id == r

unfoldable pub note : Effect → Inbox → Inbox
note e inbox = record inbox { effects = inbox.effects ++ (e ∷ []) }

-- The first of the least `last_seen`.
abbrev pub older : Bucket → Option Bucket → Bucket
older b none = b
older b (some c) = if leb b.last_seen c.last_seen then b else c

abbrev pub least_seen : List Bucket → Option Bucket
least_seen [] = none
least_seen (b ∷ rest) = some (older b (least_seen rest))

-- A mark that the oldest bucket is degraded goes with the bucket.
unfoldable pub drop_oldest : Option Bucket → Inbox → Inbox
drop_oldest none inbox = inbox
drop_oldest (some b) inbox =
    note (counted "enqueue_dropped")
      (record inbox { by_run = delete (bucket_at b.adapter b.run_id) inbox.by_run })

-- `while len(inbox["by_run"]) > INBOX_MAX_RUNS`; a round for each bucket is fuel enough.
unfoldable pub evict : ℕ → Inbox → Inbox
evict zero inbox = inbox
evict (suc fuel) inbox =
    let rest = evict fuel (drop_oldest (least_seen inbox.by_run) inbox) in
    if ltb max_runs (length inbox.by_run) then rest else inbox

unfoldable pub new_bucket : ℕ → ℕ → String → Option String → Bucket
new_bucket now a r sid = record {
  adapter = a;
  run_id = r;
  entries = [];
  revision = 0;
  degraded = false;
  session_id = sid;
  last_seen = now;
}

abbrev pub or_session : Option String → Option String → Option String
or_session old none = old
or_session old (some sid) = if truthy old then old else some sid

unfoldable pub touched : ℕ → Option String → Bucket → Bucket
touched now sid b = record b { last_seen = now; session_id = or_session b.session_id sid }

unfoldable pub with_bucket : ℕ → ℕ → String → Option String → Inbox → Inbox
with_bucket now a r sid inbox =
    if exists (bucket_at a r) inbox.by_run
    then inbox
    else evict (suc (length inbox.by_run))
        (record inbox { by_run = inbox.by_run ++ (new_bucket now a r sid ∷ []) })

-- `_bucket` with `create`. Where the bucket is dropped at once, the touch falls on a bucket that
-- is in no registry.
unfoldable pub bucket : ℕ → ℕ → String → Option String → Inbox → Inbox
bucket now a r sid inbox =
    let opened = with_bucket now a r sid inbox in
    record opened { by_run = update (bucket_at a r) (touched now sid) opened.by_run }

abbrev pub entry_in : String → Option Bucket → Option Entry
entry_in i none = none
entry_in i (some b) = find (has_request i) b.entries

-- `bucket["entries"].get(request_id)`
unfoldable pub entry_at : ℕ → String → String → Inbox → Option Entry
entry_at a r i inbox = entry_in i (find (bucket_at a r) inbox.by_run)

unfoldable pub resolved_as : ℕ → String → Entry → Entry
resolved_as now outcome e = record e {
  phase = Phase.resolved;
  outcome = some outcome;
  resolved_mono = some now;
  timer = false;
}

unfoldable pub settle_in : ℕ → String → String → Bucket → Bucket
settle_in now i outcome b = record b {
  entries = update (has_request i) (resolved_as now outcome) b.entries;
  revision = b.revision + 1;
}

-- The timer is cancelled, and `emit_resolved` tells the outcome.
unfoldable pub settle_effects : String → String → Bool → List Effect
settle_effects i outcome true = cancelled i ∷ announced i outcome ∷ []
settle_effects i outcome false = announced i outcome ∷ []

unfoldable pub settle_entry : ℕ → ℕ → String → String → String → Option Entry → Inbox → Bool × Inbox
settle_entry now a r i outcome none inbox = (false, inbox)
settle_entry now a r i outcome (some e) inbox =
    if is_pending e.phase
    then (
      true,
      record inbox {
        by_run = update (bucket_at a r) (settle_in now i outcome) inbox.by_run;
        effects = inbox.effects ++ settle_effects i outcome e.timer;
      },
    )
    else (false, inbox)

-- `settle`
unfoldable pub settle : ℕ → ℕ → String → String → String → Inbox → Bool × Inbox
settle now a r i outcome inbox = settle_entry now a r i outcome (entry_at a r i inbox) inbox

-- `_SETTLE_REASONS.get(reason, "withdrawn")`
unfoldable pub settle_reason : String → String
settle_reason reason =
    if reason == "resolved"
    then "answered"
    else if reason == "timeout" || reason == "notify_failed"
    then reason
    else "withdrawn"

-- The hook of `make_settle_hook`, which the core calls; the hook before it is not the registry's.
unfoldable pub settle_hook : ℕ → ℕ → String → String → String → Inbox → Inbox
settle_hook now a r i reason inbox = (settle now a r i (settle_reason reason) inbox).1

-- An entry that is pending here and no longer in the core's queue.
unfoldable pub withdrawn : List String → Entry → Bool
withdrawn ids e = is_pending e.phase && not (listed e.request_id ids)

unfoldable pub settled_elsewhere : Entry → Entry
settled_elsewhere e = record e { phase = Phase.resolved; outcome = some "settled" }

-- The loop over the entries in `snapshot` and in `after_responded`.
unfoldable pub reconcile : List String → Bucket → Bucket
reconcile ids b = record b {
  entries = update (withdrawn ids) settled_elsewhere b.entries;
  revision = b.revision + count (withdrawn ids) b.entries;
}

unfoldable pub pending_in : List Entry → String → List Entry
pending_in entries i = elim (find (has_request i) entries) [
  | none ↦ []
  | some e ↦ if is_pending e.phase then e ∷ [] else []
]

abbrev pub pending_of : List Entry → List String → List Entry
pending_of entries [] = []
pending_of entries (i ∷ ids) = pending_in entries i ++ pending_of entries ids

abbrev pub known : List Entry → List String → Bool
known entries [] = true
known entries (i ∷ ids) = exists (has_request i) entries && known entries ids

pub record Snapshot : Type 0 where
  pub shown : List Shown
  pub available : Bool
  pub overflow : Bool
  pub revision : ℕ

abbrev pub is_empty : List String → Bool
is_empty [] = true
is_empty (x ∷ xs) = false

unfoldable pub snapshot_of : ℕ → List String → Option Bucket → Snapshot
snapshot_of now ids none = record {
  shown = [];
  available = is_empty ids;
  overflow = ltb max_pending (length ids);
  revision = 0;
}
snapshot_of now ids (some b) = record {
  shown = map (payload_for now) (pending_of (reconcile ids b).entries ids);
  available = known (reconcile ids b).entries ids;
  overflow = if ltb max_pending (length ids) then true else b.degraded;
  revision = (reconcile ids b).revision;
}

unfoldable pub swept : ℕ → Bucket → Bucket
swept now b = record b { entries = delete (is_stale now) b.entries }

-- `snapshot`
unfoldable pub snapshot : ℕ → ℕ → String → List String → Inbox → Snapshot × Inbox
snapshot now a r ids inbox = (
  snapshot_of now ids (find (bucket_at a r) inbox.by_run),
  record inbox { by_run = update (bucket_at a r) (λ b. swept now (reconcile ids b)) inbox.by_run },
)

-- `if request_id: settle(...)`, with `choice or "answered"`.
unfoldable pub settle_answered : ℕ → ℕ → String → String → String → Inbox → Inbox
settle_answered now a r i choice inbox =
    if i == ""
    then inbox
    else (settle now a r i (if choice == "" then "answered" else choice) inbox).1

abbrev pub first_entry : List Entry → Option Entry
first_entry [] = none
first_entry (e ∷ entries) = some e

abbrev pub first_pending : List String → Option Bucket → Option Entry
first_pending ids none = none
first_pending ids (some b) = first_entry (pending_of b.entries ids)

unfoldable pub bumped : ℕ → Bucket → Bucket
bumped n b = record b { revision = b.revision + n }

-- `after_responded`
unfoldable pub after_responded :
    ℕ → ℕ → String → String → String → List String → Inbox → Option Entry × Inbox
after_responded now a r i choice ids inbox =
    let answered = settle_answered now a r i choice inbox in
    let after = record answered {
      by_run = update (bucket_at a r) (λ b. bumped 1 (reconcile ids b)) answered.by_run;
    } in
    (first_pending ids (find (bucket_at a r) after.by_run), after)

abbrev pub pending_ids : Option Bucket → List String
pending_ids none = []
pending_ids (some b) = map (λ e. e.request_id) (select (λ e. is_pending e.phase) b.entries)

unfoldable pub settle_each : ℕ → ℕ → String → String → List String → Inbox → Inbox
settle_each now a r outcome [] inbox = inbox
settle_each now a r outcome (i ∷ ids) inbox =
    settle_each now a r outcome ids (settle now a r i outcome inbox).1

-- `settle_run`
unfoldable pub settle_run : ℕ → ℕ → String → String → Inbox → List String × Inbox
settle_run now a r outcome inbox =
    let ids = pending_ids (find (bucket_at a r) inbox.by_run) in
    (
      ids,
      settle_each now a r outcome ids (record inbox {
        by_run = update (bucket_at a r) (bumped (if is_empty ids then 0 else 1)) inbox.by_run;
      }),
    )

-- A bucket that `prune` drops: it has no entry left and was not seen for `RESOLVED_TTL`.
unfoldable pub is_idle : ℕ → Bucket → Bool
is_idle now b = nat_eq (length b.entries) 0 && ltb (b.last_seen + resolved_ttl) now

unfoldable pub prune : ℕ → Inbox → Inbox
prune now inbox = record inbox {
  by_run = delete (is_idle now) (update (λ b. true) (swept now) inbox.by_run);
}
