-- ===== src/Chain/Fused.antt =====
-- compat/self_wake.py: what opens a closed chain, and what does not.
use hermes_app.Base.{
  ℕ, String, Bool, true, false, ◌≡◌, refl, Option, none, some, List, [], ◌∷◌, ◌==◌, arith, if-keeps,
  All, run_all,
}
use hermes_app.Base.Table.{find}
use hermes_app.Chain.Defs.{
  Chain, ChainDb, Params, switched_on, chain_of, fault_fused, Verdict, gate_row, chain_gate, noted,
  fused_at, fresh_chain, audited, fault_fuse, failed_at, resettable, checkpoint_if_human,
  chain_gate_checkpoint, Op, noting, failing, fusing, gating, checking, releasing, step,
}
use hermes_app.Chain.Rows.{
  made, find-upsert_own, Has, chain_note-Has, fault_fuse-Has, chain_fail-Has,
  checkpoint_if_human-Has, chain_release-Has,
}

-- The chain is not released by an administrator.
abbrev pub Unreleased : String → Op → Type 0
Unreleased lineage (releasing now l expected) = (l == lineage) ≡ false
Unreleased lineage (noting now l) = Unit
Unreleased lineage (failing now l reason) = Unit
Unreleased lineage (fusing now l reason) = Unit
Unreleased lineage (gating conf now l human) = Unit
Unreleased lineage (checking now l human) = Unit

-- The chain is fused.
abbrev pub IsFused : Chain → Type 0
IsFused c = c.fused ≡ true

checkpoint_if_human-IsFused :
    (lineage : String) (now : ℕ) (l : String) (human : ℕ → Bool) (db : ChainDb)
    → Has IsFused lineage db
    → Has IsFused lineage (checkpoint_if_human now l human db).1
checkpoint_if_human-IsFused lineage now l human db h =
    checkpoint_if_human-Has IsFused lineage now l human db
      (λ c fires last found blown yes' hit. absurd (at l fires last c blown hit)) h
  where
    at :
        (l : String) (fires last : ℕ) (c : Chain)
        → IsFused c
        → resettable l fires (some last) false c ≡ true
        → ⊥
    at l fires last c blown hit = unfold resettable in ground (arith, blown, hit)

pub fault_fuse-fuses :
    (now : ℕ) (lineage reason : String) (db : ChainDb)
    → Has IsFused lineage (fault_fuse now lineage reason db)
unfolding fault_fuse audited
fault_fuse-fuses now lineage reason db = (
  made (fused_at now) (fresh_chain now lineage true 0) (find (chain_of lineage) db.chains),
  find-upsert_own lineage (fused_at now) (fresh_chain now lineage true 0) db.chains
      (unfold fresh_chain in refl) (λ y. unfold chain_of fused_at in refl),
  at (find (chain_of lineage) db.chains),
)
  where
    at : (o : Option Chain) → (made (fused_at now) (fresh_chain now lineage true 0) o).fused ≡ true
    at none = unfold fresh_chain in refl
    at (some c) = unfold fused_at in refl

step-IsFused :
    (lineage : String) (db : ChainDb) (op : Op)
    → Unreleased lineage op
    → Has IsFused lineage db
    → Has IsFused lineage (step db op)
unfolding step noted failed_at fused_at chain_gate_checkpoint
step-IsFused lineage db (noting now l) unreleased h =
    chain_note-Has IsFused lineage (λ n c k. k) (λ n c k. k) (λ n c k. refl) now l db h
step-IsFused lineage db (failing now l reason) unreleased h =
    chain_fail-Has IsFused lineage (λ n c k. k) (λ n c k. k) (λ n c k. refl) now l reason db h
step-IsFused lineage db (fusing now l reason) unreleased h =
    fault_fuse-Has IsFused lineage (λ n c k. k) (λ n c k. k) (λ n c k. refl) now l reason db h
step-IsFused lineage db (gating conf now l human) unreleased h =
    if-keeps (λ (o : Verdict × ChainDb). Has IsFused lineage o.1) _ _ _ (λ _. h)
      (λ _. checkpoint_if_human-IsFused lineage now l human db h)
step-IsFused lineage db (checking now l human) unreleased h =
    checkpoint_if_human-IsFused lineage now l human db h
step-IsFused lineage db (releasing now l expected) unreleased h =
    chain_release-Has IsFused lineage now l expected db unreleased h

run_all-IsFused :
    (lineage : String) (db : ChainDb) (ops : List Op)
    → All (Unreleased lineage) ops
    → Has IsFused lineage db
    → Has IsFused lineage (run_all step db ops)
run_all-IsFused lineage db [] unreleased h = h
run_all-IsFused lineage db (op ∷ ops) unreleased h =
    run_all-IsFused lineage (step db op) ops unreleased.1
      (step-IsFused lineage db op unreleased.0 h)

-- Once `fault_fuse` has fused a lineage, the gate refuses it as fused, at any time and with any
-- settings that are on, after any operations but an administrator's release of that lineage: no
-- human checkpoint, fire or time opens it.
pub fused_until_release :
    (now later : ℕ) (lineage reason : String) (db : ChainDb) (ops : List Op) (p : Params)
    → All (Unreleased lineage) ops
    → (chain_gate
        (switched_on p)
        later
        lineage
        (run_all step (fault_fuse now lineage reason db) ops)).refusal
      ≡ some fault_fused
unfolding chain_gate
fused_until_release now later lineage reason db ops p unreleased =
    let (c, found, blown) =
      run_all-IsFused lineage (fault_fuse now lineage reason db) ops unreleased
        (fault_fuse-fuses now lineage reason db) in
    rw found (unfold gate_row in rw blown refl)
