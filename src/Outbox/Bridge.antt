-- ===== src/Outbox/Bridge.antt =====
-- compat/crosssource.py: `_trigger`, `_attempt`, `_run`, `deliver`, `drain` of the class `Bridge`.
-- A call runs to its end before the next one begins.
use Prim.Native.String.{◌++◌ as cat}
use hermes_app.Base.{
  ℕ, zero, suc, ◌+◌, ◌-◌, String, Bool, true, false, ◌&&◌, Option, none, some, List, [], ◌∷◌, ◌++◌,
  ◌==◌, if◌then◌else◌, ltb, Result, ok, raised,
}
use hermes_app.Base.Table.{find}
use hermes_app.Outbox.Defs.{
  Status, Row, drain_max_age_seconds, is_delivered, enqueue, record_row, get_row, undelivered,
}

-- What `ctx.inject_message` does: there is no context, it raises, or it answers.
pub data Injection : Type 0 where
  missing raises refused accepted : Injection

-- What a delivery reads outside the spool: `_refusal` for a session's key, the injection of a text
-- at an attempt's number, the clock at the record of an attempt, Python's `removesuffix` of the
-- legacy mark and its `str` of a number.
pub record World : Type 0 where
  pub refusal : String → Option String
  pub inject : ℕ → String → String → Injection
  pub clock : ℕ → ℕ
  pub unmark : String → String
  pub decimal : ℕ → String

-- The spool, and the rows whose text the core has accepted, in order.
pub record Spool : Type 0 where
  pub rows : List Row
  pub injected : List String

abbrev pub empty_spool : Spool
empty_spool = record { rows = []; injected = [] }

-- `_trigger` and `_attempt`: none is "injected".
unfoldable pub attempt_error : Injection → Option String
attempt_error Injection.missing = some "plugin_context_missing"
attempt_error Injection.raises = some "inject_error"
attempt_error Injection.refused = some "inject_refused"
attempt_error Injection.accepted = none

-- What `_run` answers of a row, its error and whether a turn was started. On a missing row it raises.
pub data RunReply : Type 0 where
  crashed : RunReply
  answered : Option String → Bool → RunReply

unfoldable pub record_in : ℕ → String → ℕ → Status → Option String → Option String → Spool → Spool
record_in now i attempts status error trigger s = record s {
  rows = record_row now i attempts status error trigger s.rows;
}

-- A round of the loop: the round's number `n`, with `left` rounds after it.
unfoldable pub settle_attempt :
    World
    → String
    → ℕ
    → ℕ
    → ℕ
    → Option String
    → (Spool → RunReply × Spool)
    → Spool
    → RunReply × Spool
settle_attempt w i n left attempts none go s = (
  RunReply.answered none true,
  record_in (w.clock n) i attempts Status.delivered none (some "injected")
      (record s { injected = s.injected ++ (i ∷ []) }),
)
settle_attempt w i n zero attempts (some error) go s = (
  RunReply.answered (some error) false,
  record_in (w.clock n) i attempts Status.failed (some error) none s,
)
settle_attempt w i n (suc left) attempts (some error) go s =
    go (record_in (w.clock n) i attempts Status.pending (some error) none s)

-- The loop over the attempts, from the number `n` on: `left` more after this one.
unfoldable pub attempt_loop :
    World → String → String → String → ℕ → ℕ → ℕ → Spool → RunReply × Spool
attempt_loop w i key text zero n attempts s =
    settle_attempt w i n 0 (attempts + 1) (attempt_error (w.inject n key text))
      (λ t. (RunReply.crashed, t)) s
attempt_loop w i key text (suc left) n attempts s =
    settle_attempt w i n (suc left) (attempts + 1) (attempt_error (w.inject n key text))
      (attempt_loop w i key text left (n + 1) (attempts + 1)) s

-- `_run` on a row that is not delivered, after the test of the route.
unfoldable pub run_route : World → String → Row → Option String → Spool → RunReply × Spool
run_route w i row (some refusal) s = (
  RunReply.answered (some refusal) false,
  record_in (w.clock 0) i (row.attempts + 1) Status.failed (some refusal) none s,
)
run_route w i row none s = attempt_loop w i row.session_key (w.unmark row.text) 2 1 row.attempts s

unfoldable pub run_found : World → String → Option Row → Spool → RunReply × Spool
run_found w i none s = (RunReply.crashed, s)
run_found w i (some row) s =
    if is_delivered row.status
    then (RunReply.answered none false, s)
    else run_route w i row (w.refusal row.session_key) s

-- `_run`; no write of the spool fails, also not the record of an accepted injection.
unfoldable pub run_row : World → String → Spool → RunReply × Spool
run_row w i s = run_found w i (get_row i s.rows) s

unfoldable pub deliver_queued :
    World → Spool → Result ((String × Bool) × List Row) → Result ((String × RunReply) × Spool)
deliver_queued w s (raised e) = raised e
deliver_queued w s (ok ((i, folded), rows)) =
    let (reply, after) = run_row w i (record s { rows = rows }) in ok ((i, reply), after)

-- `deliver`
unfoldable pub deliver :
    World
    → ℕ
    → String
    → String
    → String
    → String
    → String
    → Spool
    → Result ((String × RunReply) × Spool)
deliver w now i sid key platform text s =
    deliver_queued w s (enqueue now i sid key platform text s.rows)

-- An entry of the dictionary `heads`.
pub record Head : Type 0 where
  pub session_id : String
  pub text : String
  pub row_id : String

unfoldable pub head_of : Row → Head → Bool
head_of r h = h.session_id == r.session_id && h.text == r.text

-- `setdefault`, and the mark of a row that is not the head.
unfoldable pub mark_merged : World → ℕ → Row → Option Head → List Head → Spool → List Head × Spool
mark_merged w now r none heads s =
    (heads ++ (record { session_id = r.session_id; text = r.text; row_id = r.id } ∷ []), s)
mark_merged w now r (some h) heads s = (
  heads,
  if h.row_id == r.id
      then s
      else record_in now r.id r.attempts Status.merged (some (cat "merged_into:" h.row_id)) none s,
)

unfoldable pub mark_row : World → ℕ → Row → List Head → Spool → List Head × Spool
mark_row w now r heads s =
    if ltb (r.created_at + drain_max_age_seconds) now
    then (
      heads,
      record_in now r.id r.attempts Status.stale_dropped
          (some (cat "age:" (cat (w.decimal (now - r.created_at)) "s"))) none s,
    )
    else mark_merged w now r (find (head_of r) heads) heads s

-- The first loop of `drain`.
unfoldable pub mark_rows : World → ℕ → List Row → List Head → Spool → List Head × Spool
mark_rows w now [] heads s = (heads, s)
mark_rows w now (r ∷ rest) heads s =
    let (more, after) = mark_row w now r heads s in mark_rows w now rest more after

-- The second loop of `drain`, over the heads; a row that is missing ends it.
unfoldable pub run_heads : World → List Head → Spool → Spool
run_heads w [] s = s
run_heads w (h ∷ rest) s =
    let (reply, after) = run_row w h.row_id s in
    let later = run_heads w rest after in
    elim reply [ RunReply.crashed ↦ after | RunReply.answered e b ↦ later ]

-- `drain`; its summary is left out.
unfoldable pub drain : World → ℕ → Spool → Spool
drain w now s =
    let (heads, after) = mark_rows w now (undelivered s.rows) [] s in run_heads w heads after

pub data Op : Type 0 where
  delivery : World → ℕ → String → String → String → String → String → Op
  draining : World → ℕ → Op

unfoldable pub after_delivery : Spool → Result ((String × RunReply) × Spool) → Spool
after_delivery s (raised e) = s
after_delivery s (ok (reply, t)) = t

unfoldable pub step : Spool → Op → Spool
step s (Op.delivery w now i sid key platform text) =
    after_delivery s (deliver w now i sid key platform text s)
step s (Op.draining w now) = drain w now s
