-- ===== src/Outbox/Once.antt =====
-- compat/crosssource.py: a row's text is accepted by the core at most once.
use hermes_app.Base.{
  ℕ, ◌+◌, ◌≤◌, ◌⊎◌, String, true, false, ◌≡◌, refl, Option, none, some, List, [], ◌∷◌, ◌==◌, arith,
  inl, inr, if-keeps, All, All-map, run_all, run_all-keeps, ltb,
}
use hermes_app.Base.Table.{count, find, All-select, All-order_by}
use hermes_app.Outbox.Defs.{Status, Row, is_undelivered, has_id, undelivered, drain_max_age_seconds}
use hermes_app.Outbox.Bridge.{
  World, Spool, empty_spool, RunReply, record_in, run_row, Head, head_of, mark_merged, mark_row,
  mark_rows, run_heads, drain, Op, step,
}
use hermes_app.Outbox.Turns.{times, OneTurn, record_in-OneTurn, run_row-OneTurn, deliver-OneTurn}

-- The rows of a drain's query are marked under their own identifiers.
mark_row-OneTurn :
    (w : World) (i : String) (now : ℕ) (r : Row) (heads : List Head) (s : Spool)
    → (times i s ≡ 0) ⊎ ((r.id == i) ≡ false)
    → OneTurn i s
    → OneTurn i (mark_row w now r heads s).1
unfolding mark_row
mark_row-OneTurn w i now r heads s which h =
    if-keeps (λ (o : List Head × Spool). OneTurn i o.1)
      (ltb (r.created_at + drain_max_age_seconds) now) _ _
      (λ _. record_in-OneTurn i r.id now r.attempts _ _ _ s which h)
      (λ _. at (find (head_of r) heads))
  where
    at : (o : Option Head) → OneTurn i (mark_merged w now r o heads s).1
    at none = unfold mark_merged in h
    at (some x) =
        unfold mark_merged in
        if-keeps (λ (t : Spool). OneTurn i t) (x.row_id == r.id) _ _ (λ _. h)
          (λ _. record_in-OneTurn i r.id now r.attempts _ _ _ s which h)

mark_row-log :
    (w : World) (now : ℕ) (r : Row) (heads : List Head) (s : Spool)
    → (mark_row w now r heads s).1.injected ≡ s.injected
unfolding mark_row record_in
mark_row-log w now r heads s =
    if-keeps (λ (o : List Head × Spool). o.1.injected ≡ s.injected)
      (ltb (r.created_at + drain_max_age_seconds) now) _ _ (λ _. refl)
      (λ _. at (find (head_of r) heads))
  where
    at : (o : Option Head) → (mark_merged w now r o heads s).1.injected ≡ s.injected
    at none = unfold mark_merged in refl
    at (some x) =
        unfold mark_merged in
        if-keeps (λ (t : Spool). t.injected ≡ s.injected) (x.row_id == r.id) _ _ (λ _. refl)
          (λ _. refl)

-- The rows of the query are other rows, or the text has not gone out.
abbrev Others : String → List Row → Spool → Type 0
Others i rows s = (times i s ≡ 0) ⊎ All (λ r. (r.id == i) ≡ false) rows

mark_rows-OneTurn :
    (w : World) (i : String) (now : ℕ) (rows : List Row) (heads : List Head) (s : Spool)
    → Others i rows s
    → OneTurn i s
    → OneTurn i (mark_rows w now rows heads s).1
unfolding mark_rows
mark_rows-OneTurn w i now [] heads s others h = h
mark_rows-OneTurn w i now (r ∷ rows) heads s (inl fresh) h =
    mark_rows-OneTurn w i now rows _ (mark_row w now r heads s).1
      (inl (rw (mark_row-log w now r heads s) fresh))
      (mark_row-OneTurn w i now r heads s (inl fresh) h)
mark_rows-OneTurn w i now (r ∷ rows) heads s (inr (apart, rest)) h =
    mark_rows-OneTurn w i now rows _ (mark_row w now r heads s).1 (inr rest)
      (mark_row-OneTurn w i now r heads s (inr apart) h)

undelivered-Others : (i : String) (s : Spool) → OneTurn i s → Others i (undelivered s.rows) s
unfolding undelivered
undelivered-Others i s (inl fresh) = inl fresh
undelivered-Others i s (inr (once, sealed, there)) = inr (
    All-map
      (λ r.
        (is_undelivered r.status ≡ true) × ((has_id i r ≡ false) ⊎ (r.status ≡ Status.delivered)))
      (λ r. (r.id == i) ≡ false) _ at
      (All-order_by (λ r. r.created_at) _ _
        (All-select _ (λ r. is_undelivered r.status) s.rows sealed)))
  where
    at :
        (r : Row)
        → (is_undelivered r.status ≡ true) × ((has_id i r ≡ false) ⊎ (r.status ≡ Status.delivered))
        → (r.id == i) ≡ false
    at r (waits, inl apart) = unfold has_id in apart
    at r (waits, inr done) = let no : is_undelivered r.status ≡ false = rw done refl in absurd (cc)

run_heads-OneTurn :
    (w : World) (i : String) (heads : List Head) (s : Spool)
    → OneTurn i s
    → OneTurn i (run_heads w heads s)
unfolding run_heads
run_heads-OneTurn w i [] s h = h
run_heads-OneTurn w i (x ∷ heads) s h =
    at (run_row w x.row_id s) (run_row-OneTurn w i x.row_id s h) (run_heads-OneTurn w i heads)
  where
    at :
        (o : RunReply × Spool)
        → OneTurn i o.1
        → ((t : Spool) → OneTurn i t → OneTurn i (run_heads w heads t))
        → OneTurn i
            (elim o.0 [ RunReply.crashed ↦ o.1 | RunReply.answered e b ↦ run_heads w heads o.1 ])
    at (RunReply.crashed, t) now rest = now
    at (RunReply.answered e b, t) now rest = rest t now

step-OneTurn : (i : String) (s : Spool) (op : Op) → OneTurn i s → OneTurn i (step s op)
unfolding step drain
step-OneTurn i s (Op.delivery w now k sid key platform text) h =
    deliver-OneTurn w i now k sid key platform text s h
step-OneTurn i s (Op.draining w now) h =
    run_heads-OneTurn w i _ _
      (mark_rows-OneTurn w i now (undelivered s.rows) [] s (undelivered-Others i s h) h)

-- From an empty spool, after any calls of `deliver` and `drain`, whatever routes, injections and
-- clocks they meet, the core has accepted the text of each row at most once.
pub injected_once :
    (ops : List Op) (i : String) → count (λ j. j == i) (run_all step empty_spool ops).injected ≤ 1
injected_once ops i =
    at (run_all step empty_spool ops)
      (run_all-keeps step (OneTurn i) (step-OneTurn i) empty_spool ops (inl refl))
  where
    at : (s : Spool) → OneTurn i s → times i s ≤ 1
    at s (inl fresh) = omega (arith, fresh)
    at s (inr (once, sealed, there)) = omega (arith, once)
