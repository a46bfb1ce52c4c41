-- ===== src/Cron/Deliver.antt =====
-- compat/cron_delivery_store.py: `delivery_key`, `report_digest`, `_identity_error`, `deliver`. The
-- clock's readings of one call are one number.
use Prim.Native.String.{◌++◌ as cat, len, find as position}
use hermes_app.Base.{
  ℕ, ◌+◌, String, Bool, true, false, ◌||◌, ◌&&◌, Option, none, some, ◌==◌, if◌then◌else◌, Result,
  ok, raised, Exc, ltb, leb, opt_eq,
}
use hermes_app.Base.Table.{find, update, delete, insert_or_ignore}
use hermes_app.Cron.Defs.{
  Status, Identity, Pending, Receipt, Bridge, report_max_bytes, drain_backoff_base, Outcome,
  is_delivered, pending_is, receipt_is, pending_clash, put_receipt, Report, new_receipt, tag_failed,
}

-- What the bridge calls: SHA-256, Python's `strip`, `_attempt` on the core's database, and
-- whether the self-wake supervisor registers an intent for a key.
pub record World : Type 0 where
  pub bindings_ready : Bool
  pub hexdigest : String → String
  pub strip : String → String
  pub attempt : String → String → String → Identity → String → Outcome
  pub registers : String → Bool

unfoldable pub delivery_key : World → String → String → String → String → String
delivery_key w home job execution sid =
    w.hexdigest (cat home (cat "|" (cat job (cat "|" (cat execution (cat "|" sid))))))

unfoldable pub report_digest : World → String → String
report_digest w content = w.hexdigest content

-- A text field that is missing or blank.
unfoldable pub blank : World → Option String → Bool
blank w none = true
blank w (some s) = w.strip s == ""

-- `_identity_error`; none for the identity is one that is no dictionary.
unfoldable pub identity_error : World → Option Identity → Option String
identity_error w none = some "missing_delivery_identity"
identity_error w (some i) =
    if blank w i.job_id
    then some "missing_job_id"
    else if blank w i.execution_id
    then some "missing_execution_id"
    else none

unfoldable pub text_of : Option String → String
text_of none = ""
text_of (some s) = s

pub data Reply : Type 0 where
  error : String → Reply
  deduplicated : Option ℕ → Reply
  attempted : Outcome → Reply

-- `part in text`: `find` answers one more than the length where there is none.
unfoldable pub contains : String → String → Bool
contains text part = leb (position text part) (len text)

-- The tests on the content.
unfoldable pub content_error : World → String → Bool → Option String
content_error w content media =
    if w.strip content == ""
    then some "empty_report"
    else if media || contains content "MEDIA:"
    then some "media_unsupported"
    else if ltb report_max_bytes (len content)
    then some "report_too_large"
    else none

unfoldable pub spooled : ℕ → Report → Identity → String → Pending
spooled now r i content = record {
  delivery_key = r.key;
  home = r.home;
  session_id = r.session_id;
  identity = i;
  content = content;
  attempts = 0;
  next_retry_at = now;
  created_at = now;
  updated_at = now;
}

unfoldable pub postponed : ℕ → ℕ → Pending → Pending
postponed now due p = record p { next_retry_at = due; updated_at = now }

-- What `deliver` writes after the attempt.
unfoldable pub settle : World → ℕ → Report → String → Outcome → Bridge → Bridge
settle w now r content (Outcome.fresh row) db = record db {
  pending = delete (pending_is r.key) db.pending;
  receipts = tag_failed now r.key (w.registers r.key) (
      put_receipt
        (new_receipt now r Status.delivered (some row) none (some (report_digest w content)))
        db.receipts);
}
settle w now r content (Outcome.dedup row) db = record db {
  pending = delete (pending_is r.key) db.pending;
  receipts =
      put_receipt
        (new_receipt now r Status.delivered (some row) none (some (report_digest w content)))
        db.receipts;
}
settle w now r content (Outcome.busy why) db = record db {
  receipts = put_receipt (new_receipt now r Status.queued none none none) db.receipts;
  pending = update (pending_is r.key) (postponed now (now + drain_backoff_base)) db.pending;
}
settle w now r content (Outcome.refused why) db = record db {
  receipts = put_receipt (new_receipt now r Status.failed none (some why) none) db.receipts;
  pending = delete (pending_is r.key) db.pending;
}
settle w now r content (Outcome.unreachable why) db = record db {
  receipts = put_receipt (new_receipt now r Status.queued none none none) db.receipts;
  pending = update (pending_is r.key) (postponed now (now + drain_backoff_base)) db.pending;
}

-- The receipt of an earlier delivery with the same digest.
unfoldable pub already : World → String → Option Receipt → Bool
already w content none = false
already w content (some r) =
    is_delivered r.status && opt_eq r.digest (some (report_digest w content))

unfoldable pub row_of : Option Receipt → Option ℕ
row_of none = none
row_of (some r) = r.row_id

-- After the guards: the spool, the test of the receipt, and the attempt.
unfoldable pub deliver_report : World → ℕ → Report → Identity → String → Bridge → Reply × Bridge
deliver_report w now r i content db =
    let pending = insert_or_ignore pending_clash (spooled now r i content) db.pending in
    let found = find (receipt_is r.key) db.receipts in
    if already w content found
    then (
      Reply.deduplicated (row_of found),
      record db { pending = delete (pending_is r.key) pending },
    )
    else (let outcome = w.attempt r.home r.session_id content i r.key in
        (Reply.attempted outcome, settle w now r content outcome (record db { pending = pending })))

-- The report of an identity that `identity_error` passes.
unfoldable pub report_of : World → String → String → Identity → Report
report_of w home sid i =
    let execution = w.strip (text_of i.execution_id) in
    record {
      key = delivery_key w home (w.strip (text_of i.job_id)) execution sid;
      home = home;
      execution_id = execution;
      session_id = sid;
    }

unfoldable pub deliver_content :
    World → ℕ → String → String → Identity → String → Option String → Bridge → Reply × Bridge
deliver_content w now home sid i content (some e) db = (Reply.error e, db)
deliver_content w now home sid i content none db =
    deliver_report w now (report_of w home sid i) i content db

unfoldable pub deliver_identity :
    World
    → ℕ
    → String
    → String
    → Option Identity
    → String
    → Bool
    → Option String
    → Bridge
    → Reply × Bridge
deliver_identity w now home sid i content media (some e) db = (Reply.error e, db)
deliver_identity w now home sid none content media none db =
    (Reply.error "missing_delivery_identity", db)
deliver_identity w now home sid (some i) content media none db =
    deliver_content w now home sid i content (content_error w content media) db

-- `deliver`; `media` says whether there are media files. The call is one step: the source releases
-- `_bridge_lock` during the attempt, so that other calls may run then.
unfoldable pub deliver :
    World → ℕ → String → String → Option Identity → String → Bool → Bridge → Result (Reply × Bridge)
deliver w now home sid i content media db =
    if w.bindings_ready
    then ok (deliver_identity w now home sid i content media (identity_error w i) db)
    else raised Exc.unavailable
