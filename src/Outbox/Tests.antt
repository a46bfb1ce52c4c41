-- ===== src/Outbox/Tests.antt =====
-- compat/crosssource.py: small runs of the spool, and the theorems at inputs that meet their
-- hypotheses.
use hermes_app.Base.{
  String, Bool, true, false, ◌≡◌, ◌≤◌, ◌⊎◌, refl, none, some, List, [], ◌∷◌, ok, arith, run_all,
  ◌==◌, if◌then◌else◌, nat_eq, ◌+◌,
}
use hermes_app.Base.Table.{count, exists}
use hermes_app.Outbox.Defs.{
  Status, Row, has_id, row_clash, waiting, just_delivered, oldest, new_row, fold_or_add, enqueue,
  is_delivered, recorded, record_row, get_row, undelivered, all_rows, max_attempts,
}
use hermes_app.Outbox.Bridge.{
  Injection, World, Spool, empty_spool, attempt_error, RunReply, record_in, settle_attempt,
  attempt_loop, run_route, run_found, run_row, deliver_queued, deliver, head_of, mark_merged,
  mark_row, mark_rows, run_heads, drain, Op, after_delivery, step,
}
use hermes_app.Outbox.Fold.{enqueue-folds}
use hermes_app.Outbox.Delivery.{Ended, run_row-Ended}
use hermes_app.Outbox.Accepted.{deliver-accepted}
use hermes_app.Outbox.Once.{injected_once}

program : Unit {0}
unfolding has_id row_clash waiting just_delivered oldest new_row fold_or_add enqueue recorded
    record_row get_row undelivered all_rows attempt_error record_in settle_attempt attempt_loop
    run_route run_found run_row deliver_queued deliver head_of mark_merged mark_row mark_rows
    run_heads drain after_delivery step
program = tt

-- The core refuses a text once and then accepts it.
abbrev second_try : World
second_try = record {
  refusal = λ key. none;
  inject = λ n key text. if nat_eq n 2 then Injection.accepted else Injection.refused;
  clock = λ n. 100 + n;
  unmark = λ text. text;
  decimal = λ n. "n";
}

abbrev no_route : World
no_route = record second_try { refusal = λ key. some "route_not_found" }

abbrev hello : Row
hello = record {
  id = "a";
  session_id = "s";
  session_key = "k";
  platform = "p";
  text = "hello";
  status = Status.pending;
  attempts = 0;
  last_error = none;
  created_at = 50;
  updated_at = 50;
  message_id = none;
  trigger = none;
}

abbrev waiting_spool : Spool
waiting_spool = record { rows = hello ∷ []; injected = [] }

abbrev ops : List Op
ops =
    Op.delivery no_route 50 "a" "s" "k" "p" "hello"
    ∷ Op.delivery second_try 60 "b" "s" "k" "p" "hello"
    ∷ Op.draining second_try 70
    ∷ []

-- The resend of a failed text runs the first row, in its second and third attempt.
delivers_second : (run_all step empty_spool ops).injected ≡ "a" ∷ []
unfolding program
delivers_second = refl

spools_hello : enqueue 50 "a" "s" "k" "p" "hello" [] ≡ ok (("a", false), hello ∷ [])
unfolding program
spools_hello = refl

injected_once_example : count (λ j. j == "a") (run_all step empty_spool ops).injected ≤ 1
injected_once_example = injected_once ops "a"

enqueue-folds_example :
    enqueue 90 "b" "s" "k" "p" "hello" (hello ∷ []) ≡ ok (("a", true), hello ∷ [])
enqueue-folds_example =
    enqueue-folds 50 90 "a" "a" "b" "s" "k" "k" "p" "p" "hello" [] (hello ∷ []) spools_hello
      (omega arith) (omega arith)

finds_hello : get_row "a" waiting_spool.rows ≡ some hello
unfolding program
finds_hello = refl

run_row-Ended_example :
    ((is_delivered hello.status ≡ true)
      × (run_row second_try "a" waiting_spool ≡ (RunReply.answered none false, waiting_spool)))
    ⊎ ((is_delivered hello.status ≡ false)
        × Ended hello.attempts
            (hello.attempts + max_attempts)
            "a"
            waiting_spool.injected
            (run_row second_try "a" waiting_spool))
run_row-Ended_example = run_row-Ended second_try "a" waiting_spool hello finds_hello

has_no_b : exists (has_id "b") waiting_spool.rows ≡ false
unfolding program
has_no_b = refl

always_routed : (k : String) → second_try.refusal k ≡ none
always_routed k = refl

second_accepted : (k body : String) → second_try.inject 2 k body ≡ Injection.accepted
second_accepted k body = refl

deliver-accepted_example :
    (j : String) × (b : Bool) × (t : Spool) × (end : Row) × (deliver second_try 60 "b" "s" "k" "p"
        "hello" waiting_spool
      ≡ ok ((j, RunReply.answered none b), t))
    × (get_row j t.rows ≡ some end)
    × (is_delivered end.status ≡ true)
deliver-accepted_example =
    deliver-accepted second_try 60 "b" "s" "k" "p" "hello" waiting_spool 2 has_no_b always_routed
      (omega arith) (omega arith) second_accepted
