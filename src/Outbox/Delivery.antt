-- ===== src/Outbox/Delivery.antt =====
-- compat/crosssource.py: how a run of `_run` and a call of `deliver` end.
use hermes_app.Base.{
  ℕ, zero, suc, ◌+◌, ◌≤◌, ◌<◌, String, true, false, ◌≡◌, ◌⊎◌, refl, Option, none, some, List, [],
  ◌∷◌, ◌++◌, ◌==◌, arith, inl, inr, Bool-cases,
}
use hermes_app.Base.Table.{find, find-update}
use hermes_app.Outbox.Defs.{
  Status, Row, max_attempts, is_delivered, has_id, recorded, record_row, get_row,
}
use hermes_app.Outbox.Bridge.{
  World, Spool, RunReply, record_in, settle_attempt, attempt_loop, run_route, run_found, run_row,
}

-- The row stands in the spool with a status, an error, and more attempts than `lo`, at most `hi`.
abbrev pub EndedAs : Status → Option String → ℕ → ℕ → String → List String → Spool → Type 0
EndedAs status error lo hi i log t =
    (row : Row) × (get_row i t.rows ≡ some row)
    × (row.status ≡ status)
    × (row.last_error ≡ error)
    × (lo < row.attempts)
    × (row.attempts ≤ hi)
    × (t.injected ≡ log)

-- An answer with no error goes with a delivered row whose text went out once more, an error with a
-- failed row that keeps it.
abbrev pub Ended : ℕ → ℕ → String → List String → RunReply × Spool → Type 0
Ended lo hi i log (RunReply.crashed, t) = ⊥
Ended lo hi i log (RunReply.answered none b, t) =
    (b ≡ true) × EndedAs Status.delivered none lo hi i (log ++ (i ∷ [])) t
Ended lo hi i log (RunReply.answered (some e) b, t) =
    (b ≡ false) × EndedAs Status.failed (some e) lo hi i log t

pub get_row-record_in :
    (now : ℕ) (i : String) (attempts : ℕ) (status : Status) (error trigger : Option String)
    (s : Spool) (row : Row)
    → get_row i s.rows ≡ some row
    → get_row i (record_in now i attempts status error trigger s).rows
      ≡ some (recorded now attempts status error trigger row)
unfolding get_row record_in record_row has_id recorded
get_row-record_in now i attempts status error trigger s row found = ground (
  arith,
  find-update (has_id i) (has_id i) (recorded now attempts status error trigger) s.rows (λ x. refl),
  find-hit s.rows,
)
  where
    find-hit : (rows : List Row) → find (λ r. r.id == i) rows ≡ some row → (row.id == i) ≡ true
    find-hit [] h = cc
    find-hit (r ∷ rows) h = ground (arith, find-hit rows)

-- A round of the loop, where the rounds that are left end well.
settle_attempt-Ended :
    (w : World) (i : String) (n left attempts lo hi : ℕ) (error : Option String)
    (go : Spool → RunReply × Spool) (s : Spool) (row : Row)
    → get_row i s.rows ≡ some row
    → lo < attempts
    → attempts ≤ hi
    → ((t : Spool) (row' : Row)
        → 0 < left
        → get_row i t.rows ≡ some row'
        → t.injected ≡ s.injected
        → Ended lo hi i s.injected (go t))
    → Ended lo hi i s.injected (settle_attempt w i n left attempts error go s)
unfolding settle_attempt
settle_attempt-Ended w i n left attempts lo hi none go s row found l h more = (
  refl,
  (
    recorded (w.clock n) attempts Status.delivered none (some "injected") row,
    get_row-record_in (w.clock n) i attempts Status.delivered none (some "injected")
        (record s { injected = s.injected ++ (i ∷ []) }) row found,
    unfold recorded in refl,
    unfold recorded in refl,
    unfold recorded in l,
    unfold recorded in h,
    unfold record_in in refl,
  ),
)
settle_attempt-Ended w i n zero attempts lo hi (some e) go s row found l h more = (
  refl,
  (
    recorded (w.clock n) attempts Status.failed (some e) none row,
    get_row-record_in (w.clock n) i attempts Status.failed (some e) none s row found,
    unfold recorded in refl,
    unfold recorded in refl,
    unfold recorded in l,
    unfold recorded in h,
    unfold record_in in refl,
  ),
)
settle_attempt-Ended w i n (suc left) attempts lo hi (some e) go s row found l h more =
    more _ _ (omega arith)
      (get_row-record_in (w.clock n) i attempts Status.pending (some e) none s row found)
      (unfold record_in in refl)

attempt_loop-Ended :
    (w : World) (i key text : String) (left n attempts lo hi : ℕ) (s : Spool) (row : Row)
    → get_row i s.rows ≡ some row
    → lo ≤ attempts
    → attempts + left < hi
    → Ended lo hi i s.injected (attempt_loop w i key text left n attempts s)
unfolding attempt_loop
attempt_loop-Ended w i key text zero n attempts lo hi s row found l h =
    settle_attempt-Ended w i n 0 (attempts + 1) lo hi _ _ s row found (omega arith) (omega arith)
      λ t row' none_left. absurd (omega arith)
attempt_loop-Ended w i key text (suc left) n attempts lo hi s row found l h =
    settle_attempt-Ended w i n (suc left) (attempts + 1) lo hi _ _ s row found (omega arith)
      (omega arith)
      λ t row' some_left there same. rw (← same) (
        attempt_loop-Ended w i key text left (n + 1) (attempts + 1) lo hi t row' there (omega arith)
          (omega arith))

run_route-Ended :
    (w : World) (i : String) (row : Row) (refusal : Option String) (s : Spool)
    → get_row i s.rows ≡ some row
    → Ended row.attempts (row.attempts + 3) i s.injected (run_route w i row refusal s)
unfolding run_route
run_route-Ended w i row none s found =
    attempt_loop-Ended w i row.session_key (w.unmark row.text) 2 1 row.attempts row.attempts
      (row.attempts + 3) s row found (omega arith) (omega arith)
run_route-Ended w i row (some refusal) s found = (
  refl,
  (
    recorded (w.clock 0) (row.attempts + 1) Status.failed (some refusal) none row,
    get_row-record_in (w.clock 0) i (row.attempts + 1) Status.failed (some refusal) none s row
        found,
    unfold recorded in refl,
    unfold recorded in refl,
    unfold recorded in (omega arith),
    unfold recorded in (omega arith),
    unfold record_in in refl,
  ),
)

-- A run of a row that is in the spool ends. On a delivered row it answers no error, starts no turn
-- and changes nothing. On any other row it answers either no error and a started turn, with the row
-- delivered without an error and its identifier added once to the injected texts, or an error and
-- no turn, with the row failed, that error recorded and the injected texts as they were. In
-- both cases the row has one to three attempts more.
pub run_row-Ended :
    (w : World) (i : String) (s : Spool) (row : Row)
    → get_row i s.rows ≡ some row
    → ((is_delivered row.status ≡ true) × (run_row w i s ≡ (RunReply.answered none false, s)))
      ⊎ ((is_delivered row.status ≡ false)
          × Ended row.attempts (row.attempts + max_attempts) i s.injected (run_row w i s))
unfolding run_row run_found
run_row-Ended w i s row found = elim (Bool-cases (is_delivered row.status)) [
  | inl done ↦ inl (done, rw (found, done) refl)
  | inr open_row ↦
      inr (
        open_row,
        rw (found, open_row) (run_route-Ended w i row (w.refusal row.session_key) s found),
      )
]
