-- ===== src/Cron/Settled.antt =====
-- compat/cron_delivery_store.py: what the statements of the bridge keep, every call keeps.
use hermes_app.Base.{
  ℕ, ◌+◌, ◌<◌, String, Bool, ◌≡◌, refl, Option, none, some, List, [], ◌∷◌, if-keeps, committed, leb,
  leb_false→lt, Result,
}
use hermes_app.Base.Table.{find, update, delete, insert_or_ignore}
use hermes_app.Cron.Defs.{
  Identity, Pending, Receipt, Bridge, drain_max_attempts, Outcome, pending_is, receipt_is,
  pending_clash, put_receipt, Report, tag_failed,
}
use hermes_app.Cron.Deliver.{
  World, identity_error, content_error, spooled, postponed, settle, already, deliver_report,
  report_of, deliver_content, deliver_identity, deliver, Reply,
}
use hermes_app.Cron.Drain.{
  retried, retry_or_close, drain_outcome, drain_row, drain_rows, drain_home, Op, step, play,
  play-keeps,
}

-- A property of the receipts and one of the spool that the statements of both operations keep.
module _ {ℓ κ} (R : List Receipt → Type ℓ) (Q : List Pending → Type κ)
    (put : (r : Receipt) (rows : List Receipt) → R rows → R (put_receipt r rows))
    (tag : (now : ℕ) (key : String) (b : Bool) (rows : List Receipt)
      → R rows
      → R (tag_failed now key b rows))
    (add : (p : Pending) (rows : List Pending)
      → p.attempts ≡ 0
      → Q rows
      → Q (insert_or_ignore pending_clash p rows))
    (gone : (key : String) (rows : List Pending) → Q rows → Q (delete (pending_is key) rows))
    (later : (key : String) (now t : ℕ) (rows : List Pending)
      → Q rows
      → Q (update (pending_is key) (postponed now t) rows))
    (again : (key : String) (at n : ℕ) (rows : List Pending)
      → n < 24
      → Q rows
      → Q (update (pending_is key) (retried at n) rows)) where
  pub record Both (db : Bridge) : Type (ℓ ⊔ κ) where
    pub receipts : R db.receipts
    pub pending : Q db.pending

  settle-Both :
      (w : World) (now : ℕ) (r : Report) (content : String) (o : Outcome) (db : Bridge)
      → Both db
      → Both (settle w now r content o db)
  unfolding settle
  settle-Both w now r content (Outcome.fresh row) db h = record {
    receipts = tag now r.key _ _ (put _ _ h.receipts);
    pending = gone r.key _ h.pending;
  }
  settle-Both w now r content (Outcome.dedup row) db h = record {
    receipts = put _ _ h.receipts;
    pending = gone r.key _ h.pending;
  }
  settle-Both w now r content (Outcome.busy why) db h = record {
    receipts = put _ _ h.receipts;
    pending = later r.key now _ _ h.pending;
  }
  settle-Both w now r content (Outcome.refused why) db h = record {
    receipts = put _ _ h.receipts;
    pending = gone r.key _ h.pending;
  }
  settle-Both w now r content (Outcome.unreachable why) db h = record {
    receipts = put _ _ h.receipts;
    pending = later r.key now _ _ h.pending;
  }

  deliver_report-Both :
      (w : World) (now : ℕ) (r : Report) (i : Identity) (content : String) (db : Bridge)
      → Both db
      → Both (deliver_report w now r i content db).1
  unfolding deliver_report
  deliver_report-Both w now r i content db h =
      let spool = add (spooled now r i content) db.pending (unfold spooled in refl) h.pending in
      if-keeps (λ (x : Reply × Bridge). Both x.1)
        (already w content (find (receipt_is r.key) db.receipts)) _ _
        (λ _. record { receipts = h.receipts; pending = gone r.key _ spool })
        (λ _. settle-Both w now r content _ _ (record { receipts = h.receipts; pending = spool }))

  deliver_content-Both :
      (w : World) (now : ℕ) (home sid : String) (i : Identity) (content : String)
      (e : Option String) (db : Bridge)
      → Both db
      → Both (deliver_content w now home sid i content e db).1
  unfolding deliver_content
  deliver_content-Both w now home sid i content (some e) db h = h
  deliver_content-Both w now home sid i content none db h =
      deliver_report-Both w now (report_of w home sid i) i content db h

  deliver_identity-Both :
      (w : World) (now : ℕ) (home sid : String) (i : Option Identity) (content : String)
      (media : Bool) (e : Option String) (db : Bridge)
      → Both db
      → Both (deliver_identity w now home sid i content media e db).1
  unfolding deliver_identity
  deliver_identity-Both w now home sid i content media (some e) db h = h
  deliver_identity-Both w now home sid none content media none db h = h
  deliver_identity-Both w now home sid (some i) content media none db h =
      deliver_content-Both w now home sid i content (content_error w content media) db h

  retry_or_close-Both :
      (at : ℕ) (p : Pending) (db : Bridge) → Both db → Both (retry_or_close at p db)
  unfolding retry_or_close
  retry_or_close-Both at p db h =
      if-keeps Both (leb drain_max_attempts (p.attempts + 1)) _ _
        (λ _. record { receipts = put _ _ h.receipts; pending = gone p.delivery_key _ h.pending })
        (λ fewer. record {
          receipts = h.receipts;
          pending =
              again p.delivery_key at (p.attempts + 1) _ (leb_false→lt 24 (p.attempts + 1) fewer)
                h.pending;
        })

  drain_outcome-Both :
      (w : World) (at : ℕ) (p : Pending) (o : Outcome) (db : Bridge)
      → Both db
      → Both (drain_outcome w at p o db)
  unfolding drain_outcome
  drain_outcome-Both w at p (Outcome.fresh row) db h = record {
    receipts = tag at p.delivery_key _ _ (put _ _ h.receipts);
    pending = gone p.delivery_key _ h.pending;
  }
  drain_outcome-Both w at p (Outcome.dedup row) db h = record {
    receipts = put _ _ h.receipts;
    pending = gone p.delivery_key _ h.pending;
  }
  drain_outcome-Both w at p (Outcome.refused why) db h = record {
    receipts = put _ _ h.receipts;
    pending = gone p.delivery_key _ h.pending;
  }
  drain_outcome-Both w at p (Outcome.busy why) db h = retry_or_close-Both at p db h
  drain_outcome-Both w at p (Outcome.unreachable why) db h = retry_or_close-Both at p db h

  drain_rows-Both :
      (w : World) (at : ℕ) (rows : List Pending) (db : Bridge)
      → Both db
      → Both (drain_rows w at rows db)
  unfolding drain_rows drain_row
  drain_rows-Both w at [] db h = h
  drain_rows-Both w at (p ∷ rest) db h =
      drain_rows-Both w at rest _ (drain_outcome-Both w at p _ db h)

  step-Both : (db : Bridge) (op : Op) → Both db → Both (step db op)
  unfolding step deliver drain_home
  step-Both db (Op.delivering w now home sid i content media) h =
      if-keeps (λ (r : Result (Reply × Bridge)). Both (committed db r)) w.bindings_ready _ _
        (λ _. deliver_identity-Both w now home sid i content media (identity_error w i) db h)
        (λ _. h)
  step-Both db (Op.draining w now at) h =
      if-keeps Both w.bindings_ready _ _ (λ _. drain_rows-Both w at _ db h) (λ _. h)

  pub play-Both : (db : Bridge) (ops : List Op) → Both db → Both (play db ops)
  play-Both db ops h = play-keeps Both step-Both db ops h
