-- ===== src/Wake/Release.antt =====
-- compat/auto_wake_store.py: what a successful `release` gives back.
use hermes_app.Base.{
  ℕ, String, Bool, true, false, not, ◌&&◌, ◌≡◌, ◌∙◌, refl, Option, none, some, List, arith, is_some,
  opt_eq, ◌==◌, eq_iff,
}
use hermes_app.Base.Table.{
  find, count, update, delete, find-some, find-update, find-update_apart, count-update_out,
  count-delete,
}
use hermes_app.Wake.Defs.{WakeState, WakeBatch, Consumption, WakeDb, is_reserved, batch_is}
use hermes_app.Wake.Reports.{in_window, profile_used, session_used}
use hermes_app.Wake.Dispatch.{View, ReportReply, released_row, consumed_by, release_found, release}

-- What a release has done. The batch was reserved, of the caller's session and without a run; it is
-- now released, as of now. No other batch is changed. The rows of consumption that are left are all
-- those of other batches and no more; and both quotas count what they counted, without the batch.
pub record Freed (now : ℕ) (i resolved : String) (db db' : WakeDb) : Type 0 where
  pub batch : WakeBatch
  pub found : find (batch_is i) db.batches ≡ some batch
  pub was_reserved : batch.state ≡ WakeState.reserved
  pub no_run : batch.run_id ≡ none
  pub own : batch.session_id ≡ resolved
  pub ended :
      find (batch_is i) db'.batches
      ≡ some (record batch {
        state = WakeState.released;
        updated_at = now;
        terminal_at = some now;
        reason = some "released";
      })
  pub others :
      (j : String) → (j == i) ≡ false → find (batch_is j) db'.batches ≡ find (batch_is j) db.batches
  pub forgotten :
      (q : Consumption → Bool)
      → count q db'.consumption
        ≡ count (λ c. q c && not (opt_eq c.batch_id (some i))) db.consumption
  pub profile :
      (at : ℕ) → profile_used db' at ≡ count (λ b. in_window at b && not (batch_is i b)) db.batches
  pub session :
      (s : String) (at : ℕ)
      → session_used db' s at
        ≡ count (λ b. (in_window at b && b.session_id == s) && not (batch_is i b)) db.batches

run_none : (o : Option String) → is_some o ≡ false → o ≡ none
run_none none h = refl
run_none (some r) h = cc

is_reserved-state : (s : WakeState) → is_reserved s ≡ true → s ≡ WakeState.reserved
is_reserved-state WakeState.reserved h = refl
is_reserved-state WakeState.dispatching h = cc
is_reserved-state WakeState.accepted h = cc
is_reserved-state WakeState.terminal h = cc
is_reserved-state WakeState.uncertain_consumed h = cc
is_reserved-state WakeState.released h = cc

window_released : (now at : ℕ) (x : WakeBatch) → in_window at (released_row now x) ≡ false
unfolding in_window released_row
window_released now at x = ground arith

session_released :
    (now at : ℕ) (s : String) (x : WakeBatch)
    → (in_window at (released_row now x) && (released_row now x).session_id == s) ≡ false
session_released now at s x = rw (window_released now at x) refl

other_batch :
    (i j : String) → (j == i) ≡ false → (x : WakeBatch) → batch_is j x ≡ true → batch_is i x ≡ false
unfolding batch_is
other_batch i j apart x h = rw ((eq_iff x.batch_id j).0 h) apart

batch-released :
    (now : ℕ) (i : String) (xs : List WakeBatch) (b : WakeBatch)
    → find (batch_is i) xs ≡ some b
    → find (batch_is i) (update (batch_is i) (released_row now) xs) ≡ some (released_row now b)
unfolding batch_is released_row
batch-released now i xs b here =
    find-update (batch_is i) (batch_is i) (released_row now) xs (λ x. refl)
    ∙ rw (here, find-some (batch_is i) xs b here) refl

batch-other :
    (now : ℕ) (i j : String) (xs : List WakeBatch)
    → (j == i) ≡ false
    → find (batch_is j) (update (batch_is i) (released_row now) xs) ≡ find (batch_is j) xs
unfolding batch_is released_row
batch-other now i j xs apart =
    find-update_apart (batch_is j) (batch_is i) (released_row now) xs (λ x. refl)
      (other_batch i j apart)

freed-tables :
    (now : ℕ) (db db' : WakeDb) (i resolved : String) (view : View) (b : WakeBatch)
    → release_found now db i resolved (some b) ≡ (ReportReply.done view, db')
    → (is_reserved b.state ≡ true)
      × (is_some b.run_id ≡ false)
      × ((b.session_id == resolved) ≡ true)
      × (db'.consumption ≡ delete (consumed_by i) db.consumption)
      × (db'.batches ≡ update (batch_is i) (released_row now) db.batches)
unfolding release_found
freed-tables now db db' i resolved view b e =
    (ground arith, ground arith, ground arith, ground arith, ground arith)

-- A release that answers with the batch was of a reserved batch of the caller's session without a
-- run. The batch is released afterwards, as of now, and no other batch is changed; of the
-- consumption exactly the rows of other batches are left; and the quotas of the profile and of each
-- session count what they counted without the batch.
pub release-Freed :
    (now : ℕ) (db db' : WakeDb) (i resolved : String) (view : View)
    → release now db i resolved ≡ (ReportReply.done view, db')
    → Freed now i resolved db db'
unfolding release release_found
release-Freed now db db' i resolved view e = at (find (batch_is i) db.batches) refl e
  where
    at :
        (found : Option WakeBatch)
        → find (batch_is i) db.batches ≡ found
        → release_found now db i resolved found ≡ (ReportReply.done view, db')
        → Freed now i resolved db db'
    at none here k = cc
    at (some b) here k =
        let (reserved, no_run, own, rows, batches) = freed-tables now db db' i resolved view b k in
        record {
          batch = b;
          found = here;
          was_reserved = is_reserved-state b.state reserved;
          no_run = run_none b.run_id no_run;
          own = (eq_iff b.session_id resolved).0 own;
          ended = rw batches (unfold released_row in batch-released now i db.batches b here);
          others = λ j apart. rw batches (batch-other now i j db.batches apart);
          forgotten =
              λ q. rw rows (unfold consumed_by in count-delete q (consumed_by i) db.consumption);
          profile = λ t.
              unfold profile_used in
              rw batches (
                count-update_out (in_window t) (batch_is i) (released_row now) db.batches
                  (window_released now t));
          session = λ s t.
              unfold session_used in
              rw batches (
                count-update_out (λ x. in_window t x && x.session_id == s) (batch_is i)
                  (released_row now) db.batches (session_released now t s));
        }
