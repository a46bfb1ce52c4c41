-- ===== src/Outbox/Accepted.antt =====
-- compat/crosssource.py: a text that the core accepts is delivered.
use hermes_app.Base.{
  ℕ, zero, suc, ◌+◌, ◌≤◌, String, Bool, true, false, ◌≡◌, ◌∙◌, ◌≢◌, ok, is_some, ltb, ◌⊎◌, refl,
  sym, ap, none, some, List, arith, inl, inr, Bool-cases, Option-cases,
}
use hermes_app.Outbox.Fold.{enqueue-listed, enqueue-total}
use hermes_app.Base.Table.{exists, exists-find, find}
use hermes_app.Outbox.Defs.{Row, max_attempts, is_delivered, has_id, get_row}
use hermes_app.Outbox.Bridge.{
  Injection, World, Spool, attempt_error, RunReply, settle_attempt, attempt_loop, run_route,
  run_found, run_row, deliver_queued, deliver,
}
use hermes_app.Outbox.Delivery.{Ended, run_row-Ended}

-- A round that is not the accepted one comes before it.
earlier_round :
    (w : World) (key text : String) (n m : ℕ)
    → n ≤ m
    → w.inject m key text ≡ Injection.accepted
    → w.inject n key text ≢ Injection.accepted
    → n + 1 ≤ m
earlier_round w key text n m low good bad = elim (Bool-cases (ltb n m)) [
  | inl lt ↦ ground arith
  | inr le ↦ let same : m ≡ n = ground arith in absurd (bad (rw same at good))
]

-- An injection that is accepted in one of the rounds ends the loop without an error.
attempt_loop-accepted :
    (w : World) (i key text : String) (left n attempts m : ℕ) (s : Spool)
    → n ≤ m
    → m ≤ n + left
    → w.inject m key text ≡ Injection.accepted
    → (attempt_loop w i key text left n attempts s).0 ≡ RunReply.answered none true
unfolding attempt_loop settle_attempt attempt_error
attempt_loop-accepted w i key text zero n attempts m s low high good =
    let here : m ≡ n = omega arith in
    let now_good : w.inject n key text ≡ Injection.accepted = rw here at good in rw now_good refl
attempt_loop-accepted w i key text (suc left) n attempts m s low high good =
    at (w.inject n key text) refl
      λ t e. attempt_loop-accepted w i key text left (n + 1) (attempts + 1) m t e (omega arith) good
  where
    at :
        (injection : Injection)
        → w.inject n key text ≡ injection
        → ((t : Spool)
            → n + 1 ≤ m
            → (attempt_loop w i key text left (n + 1) (attempts + 1) t).0
              ≡ RunReply.answered none true)
        → (settle_attempt w i n
            (suc left)
            (attempts + 1)
            (attempt_error injection)
            (attempt_loop w i key text left (n + 1) (attempts + 1))
            s).0
          ≡ RunReply.answered none true
    at Injection.accepted e go = refl
    at Injection.missing e go = go _ (earlier_round w key text n m low good λ h. cc)
    at Injection.raises e go = go _ (earlier_round w key text n m low good λ h. cc)
    at Injection.refused e go = go _ (earlier_round w key text n m low good λ h. cc)

-- A row that is delivered, or becomes so.
run_row-delivers :
    (w : World) (i : String) (m : ℕ) (s : Spool) (row : Row)
    → get_row i s.rows ≡ some row
    → w.refusal row.session_key ≡ none
    → 1 ≤ m
    → m ≤ max_attempts
    → w.inject m row.session_key (w.unmark row.text) ≡ Injection.accepted
    → (b : Bool) × ((run_row w i s).0 ≡ RunReply.answered none b)
unfolding run_row run_found run_route
run_row-delivers w i m s row found route low high good =
    elim (Bool-cases (is_delivered row.status)) [
      | inl done ↦ (false, rw (found, done) refl)
      | inr open_row ↦ (
        true,
        rw (found, open_row, route)
            (attempt_loop-accepted w i row.session_key (w.unmark row.text) 2 1 row.attempts m s low
              (omega arith) good),
      )
    ]

-- A row in the spool for which no route is refused, and whose text the core accepts in one
-- of the first `MAX_ATTEMPTS` rounds, is delivered when the run is over, and the run answers no error.
pub run_row-accepted :
    (w : World) (i : String) (m : ℕ) (s : Spool) (row : Row)
    → get_row i s.rows ≡ some row
    → w.refusal row.session_key ≡ none
    → 1 ≤ m
    → m ≤ max_attempts
    → w.inject m row.session_key (w.unmark row.text) ≡ Injection.accepted
    → (b : Bool) × (end : Row) × ((run_row w i s).0 ≡ RunReply.answered none b)
      × (get_row i (run_row w i s).1.rows ≡ some end)
      × (is_delivered end.status ≡ true)
run_row-accepted w i m s row found route low high good =
    let (b, told) = run_row-delivers w i m s row found route low high good in
    at (run_row w i s) b told (run_row-Ended w i s row found)
  where
    at :
        (end : RunReply × Spool) (b : Bool)
        → end.0 ≡ RunReply.answered none b
        → ((is_delivered row.status ≡ true) × (end ≡ (RunReply.answered none false, s)))
          ⊎ ((is_delivered row.status ≡ false)
              × Ended row.attempts (row.attempts + max_attempts) i s.injected end)
        → (b : Bool) × (last : Row) × (end.0 ≡ RunReply.answered none b)
          × (get_row i end.1.rows ≡ some last)
          × (is_delivered last.status ≡ true)
    at end b told (inl (done, same)) = (
      false,
      row,
      ap (λ (p : RunReply × Spool). p.0) same,
      ap (λ (p : RunReply × Spool). get_row i p.1.rows) same ∙ found,
      done,
    )
    at (RunReply.answered none c, t) b told
          (inr (undone, (started, (last, there, status, clean, few, many, log)))) =
        (c, last, refl, there, rw status refl)
    at (RunReply.answered (some e) c, t) b told (inr more) = absurd (cc)
    at (RunReply.crashed, t) b told (inr more) = absurd (cc)

get_row-listed :
    (i : String) (rows : List Row)
    → exists (has_id i) rows ≡ true
    → (row : Row) × (get_row i rows ≡ some row)
unfolding get_row
get_row-listed i rows h = elim (Option-cases (find (has_id i) rows)) [
  | inl nothing ↦
      let no : is_some (find (has_id i) rows) ≡ true = sym (exists-find (has_id i) rows) ∙ h in
      absurd (ground (arith, no, nothing))
  | inr found ↦ found
]

-- With a fresh identifier, where no session's route is refused and the core accepts every text in
-- the round `m`, one of the first `MAX_ATTEMPTS`, `deliver` returns, answers no error, and leaves a
-- row of the identifier that it answers in the spool, delivered.
pub deliver-accepted :
    (w : World) (now : ℕ) (i sid key platform text : String) (s : Spool) (m : ℕ)
    → exists (has_id i) s.rows ≡ false
    → ((k : String) → w.refusal k ≡ none)
    → 1 ≤ m
    → m ≤ max_attempts
    → ((k body : String) → w.inject m k body ≡ Injection.accepted)
    → (j : String) × (b : Bool) × (t : Spool) × (end : Row) × (deliver w now i sid key platform text
          s
        ≡ ok ((j, RunReply.answered none b), t))
      × (get_row j t.rows ≡ some end)
      × (is_delivered end.status ≡ true)
unfolding deliver deliver_queued
deliver-accepted w now i sid key platform text s m fresh route low high good =
    let (j, folded, rows, queued) = enqueue-total now i sid key platform text s.rows fresh in
    let (row, found) =
      get_row-listed j rows
        (enqueue-listed now i sid key platform text j folded s.rows rows queued) in
    let (b, end, told, there, done) =
      run_row-accepted w j m (record s { rows = rows }) row found (route _) low high (good _ _) in
    (j, b, (run_row w j (record s { rows = rows })).1, end, rw (queued, told) refl, there, done)
