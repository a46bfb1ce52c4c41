-- ===== src/Chain/Limit.antt =====
-- compat/self_wake.py: the limit of the fires, and the fuse of three failures.
use hermes_app.Base.{
  ℕ, ◌+◌, ◌≤◌, ◌⊎◌, String, Bool, true, false, ◌≡◌, ◌∙◌, refl, ap, Option, none, some, List, [],
  ◌∷◌, ◌==◌, leb, arith, inl, inr, if-keeps, All, run_all,
}
use hermes_app.Base.Table.{find, upsert}
use hermes_app.Chain.Defs.{
  Chain, ChainDb, Params, switched_on, chain_of, chain_clash, fault_fused, limit_reached, Verdict,
  gate_row, chain_gate, noted, fused_at, fresh_chain, audited, fault_fuse, failed_at, fails_of,
  chain_fail, third_failure, resettable, checkpoint_if_human, chain_gate_checkpoint, Op, noting,
  failing, fusing, gating, checking, releasing, step,
}
use hermes_app.Chain.Fused.{fault_fuse-fuses}
use hermes_app.Chain.Rows.{
  Has, chain_note-Has, chain_fail-Has, fault_fuse-Has, checkpoint_if_human-Has, chain_release-Has,
  unlike_lineage, made, find-upsert_own,
}

-- The chain is not released, and the search finds no human message for it.
abbrev pub Unproven : String → Op → Type 0
Unproven lineage (releasing now l expected) = (l == lineage) ≡ false
Unproven lineage (gating conf now l human) = ((l == lineage) ≡ false) ⊎ ((t : ℕ) → human t ≡ false)
Unproven lineage (checking now l human) = ((l == lineage) ≡ false) ⊎ ((t : ℕ) → human t ≡ false)
Unproven lineage (noting now l) = Unit
Unproven lineage (failing now l reason) = Unit
Unproven lineage (fusing now l reason) = Unit

abbrev Reached : ℕ → Chain → Type 0
Reached limit c = limit ≤ c.fires

checkpoint-Reached :
    (limit : ℕ) (lineage : String) (now : ℕ) (l : String) (human : ℕ → Bool) (db : ChainDb)
    → ((l == lineage) ≡ false) ⊎ ((t : ℕ) → human t ≡ false)
    → Has (Reached limit) lineage db
    → Has (Reached limit) lineage (checkpoint_if_human now l human db).1
checkpoint-Reached limit lineage now l human db which h =
    checkpoint_if_human-Has (Reached limit) lineage now l human db
      (λ c fires last found k proven hit. absurd (at which c fires last found proven hit)) h
  where
    at :
        ((l == lineage) ≡ false) ⊎ ((t : ℕ) → human t ≡ false)
        → (c : Chain) (fires last : ℕ) → find (chain_of lineage) db.chains ≡ some c
        → human last ≡ true
        → resettable l fires (some last) false c ≡ true
        → ⊥
    at (inl apart) c fires last found proven hit =
        unlike_lineage l lineage fires (some last) false c db.chains apart found hit
    at (inr unproven) c fires last found proven hit = let no = unproven last in cc

step-Reached :
    (limit : ℕ) (lineage : String) (db : ChainDb) (op : Op)
    → Unproven lineage op
    → Has (Reached limit) lineage db
    → Has (Reached limit) lineage (step db op)
unfolding step noted failed_at fused_at chain_gate_checkpoint
step-Reached limit lineage db (noting now l) which h =
    chain_note-Has (Reached limit) lineage (λ n c k. omega arith) (λ n c k. k) (λ n c k. k) now l db
      h
step-Reached limit lineage db (failing now l reason) which h =
    chain_fail-Has (Reached limit) lineage (λ n c k. omega arith) (λ n c k. k) (λ n c k. k) now l
      reason db h
step-Reached limit lineage db (fusing now l reason) which h =
    fault_fuse-Has (Reached limit) lineage (λ n c k. omega arith) (λ n c k. k) (λ n c k. k) now l
      reason db h
step-Reached limit lineage db (gating conf now l human) which h =
    if-keeps (λ (o : Verdict × ChainDb). Has (Reached limit) lineage o.1) _ _ _ (λ _. h)
      (λ _. checkpoint-Reached limit lineage now l human db which h)
step-Reached limit lineage db (checking now l human) which h =
    checkpoint-Reached limit lineage now l human db which h
step-Reached limit lineage db (releasing now l expected) which h =
    chain_release-Has (Reached limit) lineage now l expected db which h

run_all-Reached :
    (limit : ℕ) (lineage : String) (db : ChainDb) (ops : List Op)
    → All (Unproven lineage) ops
    → Has (Reached limit) lineage db
    → Has (Reached limit) lineage (run_all step db ops)
run_all-Reached limit lineage db [] which h = h
run_all-Reached limit lineage db (op ∷ ops) which h =
    run_all-Reached limit lineage (step db op) ops which.1
      (step-Reached limit lineage db op which.0 h)

-- Where the row of a lineage has the limit's fires or more, the gate refuses it at any time after
-- any operations that neither release it nor find a human message for it: as fused, or as
-- at the limit.
pub limit_until_human :
    (p : Params) (later : ℕ) (lineage : String) (db : ChainDb) (c : Chain) (ops : List Op)
    → find (chain_of lineage) db.chains ≡ some c
    → p.chain_limit ≤ c.fires
    → All (Unproven lineage) ops
    → ((chain_gate (switched_on p) later lineage (run_all step db ops)).refusal ≡ some fault_fused)
      ⊎ ((chain_gate (switched_on p) later lineage (run_all step db ops)).refusal
          ≡ some limit_reached)
unfolding chain_gate
limit_until_human p later lineage db c ops found reached unproven =
    let (last, there, still) =
      run_all-Reached p.chain_limit lineage db ops unproven (c, found, reached) in
    rw there (at last still last.fused refl)
  where
    at :
        (x : Chain)
        → p.chain_limit ≤ x.fires
        → (fused : Bool) → x.fused ≡ fused
        → ((gate_row p later fused x.fires x.last_fire_at).refusal ≡ some fault_fused)
          ⊎ ((gate_row p later fused x.fires x.last_fire_at).refusal ≡ some limit_reached)
    at x still true e = inl (unfold gate_row in refl)
    at x still false e =
        let full : leb p.chain_limit x.fires ≡ true = ground arith in
        inr (unfold gate_row in rw full refl)

fails-fault_fuse :
    (now : ℕ) (lineage reason : String) (db : ChainDb)
    → fails_of (find (chain_of lineage) (fault_fuse now lineage reason db).chains)
      ≡ fails_of (find (chain_of lineage) db.chains)
unfolding fault_fuse audited
fails-fault_fuse now lineage reason db =
    ap fails_of (
      find-upsert_own lineage (fused_at now) (fresh_chain now lineage true 0) db.chains
        (unfold fresh_chain in refl) (λ y. unfold chain_of fused_at in refl))
    ∙ at (find (chain_of lineage) db.chains)
  where
    at :
        (o : Option Chain)
        → fails_of (some (made (fused_at now) (fresh_chain now lineage true 0) o)) ≡ fails_of o
    at none = unfold fresh_chain in refl
    at (some c) = unfold fused_at in refl

find-failed :
    (now : ℕ) (lineage : String) (db : ChainDb)
    → fails_of (
        find
          (chain_of lineage)
          (upsert chain_clash (failed_at now) (fresh_chain now lineage false 1) db.chains))
      ≡ fails_of (find (chain_of lineage) db.chains) + 1
find-failed now lineage db =
    ap fails_of (
      find-upsert_own lineage (failed_at now) (fresh_chain now lineage false 1) db.chains
        (unfold fresh_chain in refl) (λ y. unfold chain_of failed_at in refl))
    ∙ at (find (chain_of lineage) db.chains)
  where
    at :
        (o : Option Chain)
        → fails_of (some (made (failed_at now) (fresh_chain now lineage false 1) o))
          ≡ fails_of o + 1
    at none = unfold fresh_chain in refl
    at (some c) = unfold failed_at in refl

find-chain_fail :
    (now : ℕ) (lineage reason : String) (db : ChainDb)
    → fails_of (find (chain_of lineage) (chain_fail now lineage reason db).1.chains)
      ≡ fails_of (find (chain_of lineage) db.chains) + 1
unfolding chain_fail
find-chain_fail now lineage reason db =
    let counted : ChainDb = record db {
      chains = upsert chain_clash (failed_at now) (fresh_chain now lineage false 1) db.chains;
    } in
    if-keeps
      (λ (o : Bool × ChainDb).
        fails_of (find (chain_of lineage) o.1.chains)
        ≡ fails_of (find (chain_of lineage) db.chains) + 1)
      (leb 3 (fails_of (find (chain_of lineage) counted.chains)))
      (true, fault_fuse now lineage (third_failure reason) counted) (false, counted)
      (λ _.
        fails-fault_fuse now lineage (third_failure reason) counted ∙ find-failed now lineage db)
      (λ _. find-failed now lineage db)

chain_fail-fuses :
    (now later : ℕ) (lineage reason : String) (db : ChainDb) (p : Params)
    → 2 ≤ fails_of (find (chain_of lineage) db.chains)
    → ((chain_fail now lineage reason db).0 ≡ true)
      × ((chain_gate (switched_on p) later lineage (chain_fail now lineage reason db).1).refusal
          ≡ some fault_fused)
unfolding chain_fail chain_gate
chain_fail-fuses now later lineage reason db p enough =
    let counted : ChainDb = record db {
      chains = upsert chain_clash (failed_at now) (fresh_chain now lineage false 1) db.chains;
    } in
    let many : leb 3 (fails_of (find (chain_of lineage) counted.chains)) ≡ true =
      ground (arith, find-failed now lineage db) in
    let (c, found, blown) = fault_fuse-fuses now lineage (third_failure reason) counted in
    rw many (refl, rw found (unfold gate_row in rw blown refl))

-- A third failure of a lineage in a row answers true and leaves it fused: the gate refuses it as
-- fused at any time, with any settings that are on.
pub third_failure-fuses :
    (now next last later : ℕ) (lineage reason reason' reason'' : String) (db : ChainDb) (p : Params)
    → ((chain_fail last lineage reason''
          (chain_fail next lineage reason' (chain_fail now lineage reason db).1).1).0
        ≡ true)
      × ((chain_gate
            (switched_on p)
            later
            lineage
            (chain_fail last lineage reason''
              (chain_fail next lineage reason' (chain_fail now lineage reason db).1).1).1).refusal
          ≡ some fault_fused)
third_failure-fuses now next last later lineage reason reason' reason'' db p =
    let one = find-chain_fail now lineage reason db in
    let two = find-chain_fail next lineage reason' (chain_fail now lineage reason db).1 in
    chain_fail-fuses last later lineage reason''
      (chain_fail next lineage reason' (chain_fail now lineage reason db).1).1 p
      (omega (arith, one, two))
