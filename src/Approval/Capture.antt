-- ===== src/Approval/Capture.antt =====
-- compat/approval_inbox.py: `capture` of a request that the core has queued, and sequences of the
-- registry's operations.
use hermes_app.Base.{
  ℕ, ◌+◌, String, Bool, true, Option, none, some, List, [], ◌∷◌, ◌++◌, ◌==◌, leb, length,
  if◌then◌else◌,
}
use hermes_app.Base.Table.{find, exists, update}
use hermes_app.Approval.Defs.{
  QueueEntry, Entry, World, max_pending, is_pending, has_request, entry_from_data,
}
use hermes_app.Approval.Inbox.{
  Bucket, counted, hooked, cancelled, dispatched, Inbox, bucket_at, note, bucket, entry_at, settle,
  settle_hook, snapshot, after_responded, settle_run, prune,
}

-- How a request is named: by its identifier, or by its data.
pub data Named : Type 0 where
  by_id : String → Named
  by_data : QueueEntry → Named

abbrev pub named_id : Named → String
named_id (by_id i) = i
named_id (by_data q) = q.request_id

-- The payload's data: those given, or those of the core's entry.
abbrev pub named_data : Named → QueueEntry → QueueEntry
named_data (by_id i) q = q
named_data (by_data given) q = given

unfoldable pub queued : String → QueueEntry → Bool
queued i q = q.request_id == i

-- `bucket["entries"][request_id] = new_entry`
unfoldable pub put_entry : Entry → List Entry → List Entry
put_entry e entries =
    if exists (has_request e.request_id) entries
    then update (has_request e.request_id) (λ old. e) entries
    else entries ++ (e ∷ [])

abbrev pub entries_of : Option Bucket → List Entry
entries_of none = []
entries_of (some b) = b.entries

unfoldable pub with_entry : Entry → Bucket → Bucket
with_entry e b = record b { entries = put_entry e b.entries; revision = b.revision + 1 }

-- The bucket when a request is registered: a full one is only marked.
unfoldable pub accept : Entry → Bucket → Bucket
accept e b =
    if leb max_pending (length b.entries) then record b { degraded = true } else with_entry e b

-- The dispatcher runs after the registry's lock is released; what it raises is counted.
unfoldable pub dispatch_with : Option (Entry → Bool) → Entry → Inbox → Inbox
dispatch_with none e inbox = note (counted "dispatch_none") inbox
dispatch_with (some run) e inbox =
    if run e
    then note (dispatched e.request_id) inbox
    else note (counted "dispatch_error") (note (dispatched e.request_id) inbox)

unfoldable pub register : World → ℕ → String → Entry → Inbox → Option Entry × Inbox
register w a r e inbox =
    let after = record inbox { by_run = update (bucket_at a r) (accept e) inbox.by_run } in
    if leb max_pending (length (entries_of (find (bucket_at a r) inbox.by_run)))
    then (none, note (counted "registry_dropped") after)
    else (some e, dispatch_with w.dispatch e (note (counted "registry_accepted") after))

unfoldable pub register_after :
    World → ℕ → String → Entry → Option Entry → Inbox → Option Entry × Inbox
register_after w a r e none inbox = register w a r e inbox
register_after w a r e (some prior) inbox =
    if is_pending prior.phase
    then (some prior, inbox)
    else register w a r e (if prior.timer then note (cancelled prior.request_id) inbox else inbox)

unfoldable pub capture_found :
    World → ℕ → String → Option String → Named → Option QueueEntry → Inbox → Option Entry × Inbox
capture_found w a r sid named none inbox = (none, note (counted "capture_entry_missing") inbox)
capture_found w a r sid named (some q) inbox =
    let opened = bucket w.mono a r sid (note (hooked (named_id named)) inbox) in
    register_after w a r (entry_from_data w inbox.epoch r sid (named_data named q))
      (entry_at a r (named_id named) opened) opened

-- The look at the core's queue; none is an exception.
unfoldable pub capture_queued :
    World
    → ℕ
    → String
    → Option String
    → Named
    → Option (List QueueEntry)
    → Inbox
    → Option Entry × Inbox
capture_queued w a r sid named none inbox = (none, note (counted "capture_error") inbox)
capture_queued w a r sid named (some queue) inbox =
    capture_found w a r sid named (find (queued (named_id named)) queue) inbox

unfoldable pub capture_after :
    World
    → ℕ
    → String
    → Option String
    → Named
    → Option (List QueueEntry)
    → Option Entry
    → Inbox
    → Option Entry × Inbox
capture_after w a r sid named queue none inbox = capture_queued w a r sid named queue inbox
capture_after w a r sid named queue (some prior) inbox =
    if is_pending prior.phase
    then (some prior, note (counted "capture_replay") inbox)
    else capture_queued w a r sid named queue inbox

-- `capture`
unfoldable pub capture :
    World
    → ℕ
    → String
    → Option String
    → Named
    → Option (List QueueEntry)
    → Inbox
    → Option Entry × Inbox
capture w a r sid named queue inbox =
    if named_id named == ""
    then (none, inbox)
    else capture_after w a r sid named queue (entry_at a r (named_id named) inbox) inbox

pub data Op : Type 0 where
  capturing : World → ℕ → String → Option String → Named → Option (List QueueEntry) → Op
  settling : ℕ → ℕ → String → String → String → Op
  hooking : ℕ → ℕ → String → String → String → Op
  viewing : ℕ → ℕ → String → List String → Op
  responding : ℕ → ℕ → String → String → String → List String → Op
  ending : ℕ → ℕ → String → String → Op
  pruning : ℕ → Op

unfoldable pub step : Inbox → Op → Inbox
step inbox (capturing w a r sid named queue) = (capture w a r sid named queue inbox).1
step inbox (settling now a r i outcome) = (settle now a r i outcome inbox).1
step inbox (hooking now a r i reason) = settle_hook now a r i reason inbox
step inbox (viewing now a r ids) = (snapshot now a r ids inbox).1
step inbox (responding now a r i choice ids) = (after_responded now a r i choice ids inbox).1
step inbox (ending now a r outcome) = (settle_run now a r outcome inbox).1
step inbox (pruning now) = prune now inbox
