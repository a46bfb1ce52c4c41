-- ===== src/Cron/Drain.antt =====
-- compat/cron_delivery_store.py: `drain_home`, and any sequence of deliveries and drains. `at` is
-- the clock's reading when a row is written, `now` the argument of the drain.
use hermes_app.Base.{
  ℕ, ◌+◌, ◌*◌, ◌^◌, min, String, Bool, ◌&&◌, none, some, Option, List, [], ◌∷◌, if◌then◌else◌, ltb,
  leb, take, committed,
}
use hermes_app.Base.Table.{select, update, delete, order_by}
use hermes_app.Cron.Defs.{
  Status, Identity, Pending, Bridge, drain_max_attempts, drain_backoff_base, drain_backoff_cap,
  Outcome, pending_is, put_receipt, Report, new_receipt, tag_failed,
}
use hermes_app.Cron.Deliver.{World, report_digest, text_of, deliver}

unfoldable pub due : ℕ → Pending → Bool
due now p = leb p.next_retry_at now && ltb p.attempts drain_max_attempts

unfoldable pub backoff : ℕ → ℕ
backoff attempts = min drain_backoff_cap (drain_backoff_base * 2 ^ min attempts 5)

unfoldable pub report_in : Pending → Report
report_in p = record {
  key = p.delivery_key;
  home = p.home;
  execution_id = text_of p.identity.execution_id;
  session_id = p.session_id;
}

unfoldable pub retried : ℕ → ℕ → Pending → Pending
retried at attempts p = record p {
  attempts = attempts;
  next_retry_at = at + backoff attempts;
  updated_at = at;
}

-- A row whose attempt has failed: closed at the last attempt, postponed before.
unfoldable pub retry_or_close : ℕ → Pending → Bridge → Bridge
retry_or_close at p db =
    if leb drain_max_attempts (p.attempts + 1)
    then record db {
      pending = delete (pending_is p.delivery_key) db.pending;
      receipts =
          put_receipt
            (new_receipt at (report_in p) Status.failed none (some "retry_exhausted") none)
            db.receipts;
    }
    else record db {
      pending = update (pending_is p.delivery_key) (retried at (p.attempts + 1)) db.pending;
    }

-- The body of the loop, after the attempt.
unfoldable pub drain_outcome : World → ℕ → Pending → Outcome → Bridge → Bridge
drain_outcome w at p (Outcome.fresh row) db = record db {
  pending = delete (pending_is p.delivery_key) db.pending;
  receipts = tag_failed at p.delivery_key (w.registers p.delivery_key) (
      put_receipt
        (new_receipt at (report_in p) Status.delivered (some row) none
          (some (report_digest w p.content)))
        db.receipts);
}
drain_outcome w at p (Outcome.dedup row) db = record db {
  pending = delete (pending_is p.delivery_key) db.pending;
  receipts =
      put_receipt
        (new_receipt at (report_in p) Status.delivered (some row) none
          (some (report_digest w p.content)))
        db.receipts;
}
drain_outcome w at p (Outcome.refused why) db = record db {
  pending = delete (pending_is p.delivery_key) db.pending;
  receipts =
      put_receipt (new_receipt at (report_in p) Status.failed none (some why) none) db.receipts;
}
drain_outcome w at p (Outcome.busy why) db = retry_or_close at p db
drain_outcome w at p (Outcome.unreachable why) db = retry_or_close at p db

unfoldable pub drain_row : World → ℕ → Pending → Bridge → Bridge
drain_row w at p db =
    drain_outcome w at p (w.attempt p.home p.session_id p.content p.identity p.delivery_key) db

unfoldable pub drain_rows : World → ℕ → List Pending → Bridge → Bridge
drain_rows w at [] db = db
drain_rows w at (p ∷ rest) db = drain_rows w at rest (drain_row w at p db)

-- `drain_home`; the summary is left out. The call is one step, as `deliver` is.
unfoldable pub drain_home : World → ℕ → ℕ → Bridge → Bridge
drain_home w now at db =
    if w.bindings_ready
    then drain_rows w at (take 32 (order_by (λ p. p.next_retry_at) (select (due now) db.pending)))
        db
    else db

-- Every call sees the world as it is then.
pub data Op : Type 0 where
  delivering : World → ℕ → String → String → Option Identity → String → Bool → Op
  draining : World → ℕ → ℕ → Op

unfoldable pub step : Bridge → Op → Bridge
step db (Op.delivering w now home sid i content media) =
    committed db (deliver w now home sid i content media db)
step db (Op.draining w now at) = drain_home w now at db

unfoldable pub play : Bridge → List Op → Bridge
play db [] = db
play db (op ∷ ops) = play (step db op) ops

-- What every operation keeps holds after any operations.
pub play-keeps {ℓ} :
    (P : Bridge → Type ℓ)
    → ((db : Bridge) (op : Op) → P db → P (step db op))
    → (db : Bridge) (ops : List Op) → P db
    → P (play db ops)
unfolding play
play-keeps P keeps db [] h = h
play-keeps P keeps db (op ∷ ops) h = play-keeps P keeps (step db op) ops (keeps db op h)
