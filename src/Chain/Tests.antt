-- ===== src/Chain/Tests.antt =====
-- compat/self_wake.py: small runs of the chain, and the theorems at inputs that meet their
-- hypotheses.
use hermes_app.Base.{
  ℕ, Bool, true, false, ◌≡◌, ◌⊎◌, refl, none, some, List, [], ◌∷◌, arith, run_all, inr, ltb,
}
use hermes_app.Base.Table.{find, select}
use hermes_app.Chain.Defs.{
  Chain, ChainDb, empty_chains, Params, switched_on, chain_of, chain_clash, fault_fused,
  limit_reached, gate_row, chain_gate, noted, fired_once, chain_note, fused_at, fresh_chain,
  audited, fault_fuse, failed_at, chain_fail, resettable, reset_at, reset_chain, release_found,
  chain_release, checkpoint_found, checkpoint_if_human, chain_gate_checkpoint, Op, noting, failing,
  gating, checking, releasing, step,
}
use hermes_app.Chain.Human.{
  Message, Texts, is_after, is_human_text, is_human, any_human, page, search_pages,
  human_checkpoint,
}
use hermes_app.Chain.Fused.{fused_until_release}
use hermes_app.Chain.Limit.{limit_until_human, third_failure-fuses}
use hermes_app.Chain.Pages.{human_checkpoint-any}

program : Unit {0}
unfolding chain_of chain_clash gate_row chain_gate noted fired_once chain_note fused_at fresh_chain
    audited fault_fuse failed_at chain_fail resettable reset_at reset_chain release_found
    chain_release checkpoint_found checkpoint_if_human chain_gate_checkpoint step is_after
    is_human_text is_human page search_pages human_checkpoint
program = tt

abbrev limits : Params
limits = record { chain_limit = 2; cooldown_seconds = 60 }

abbrev two_fires : ChainDb
two_fires = run_all step empty_chains (noting 10 "s" ∷ noting 100 "s" ∷ [])

abbrev found_human : ℕ → Bool
found_human t = true

abbrev found_none : ℕ → Bool
found_none t = false

-- A human message after the second fire opens the chain again.
opens : (chain_gate_checkpoint (switched_on limits) 500 "s" found_human two_fires).0.refusal ≡ none
unfolding program
opens = refl

abbrev ops : List Op
ops =
    gating (switched_on limits) 200 "s" found_human
    ∷ noting 300 "s"
    ∷ releasing 400 "other" none
    ∷ []

fused_until_release_example :
    (chain_gate
      (switched_on limits)
      500
      "s"
      (run_all step (fault_fuse 5 "s" "poison" empty_chains) ops)).refusal
    ≡ some fault_fused
fused_until_release_example =
    fused_until_release 5 500 "s" "poison" empty_chains ops limits (tt, (tt, (refl, tt)))

abbrev row : Chain
row = record {
  session_id = "s";
  fires = 2;
  last_fire_at = some 100;
  fused = false;
  fails = 0;
  updated_at = 100;
}

has_row : find (chain_of "s") two_fires.chains ≡ some row
unfolding program
has_row = refl

abbrev quiet : List Op
quiet = checking 150 "s" found_none ∷ failing 200 "s" "run.failed" ∷ []

none_found : (t : ℕ) → found_none t ≡ false
none_found t = refl

limit_until_human_example :
    ((chain_gate (switched_on limits) 500 "s" (run_all step two_fires quiet)).refusal
      ≡ some fault_fused)
    ⊎ ((chain_gate (switched_on limits) 500 "s" (run_all step two_fires quiet)).refusal
        ≡ some limit_reached)
limit_until_human_example =
    limit_until_human limits 500 "s" two_fires row quiet has_row (omega arith)
      (inr none_found, (tt, tt))

third_failure-fuses_example :
    ((chain_fail 3 "s" "c" (chain_fail 2 "s" "b" (chain_fail 1 "s" "a" two_fires).1).1).0 ≡ true)
    × ((chain_gate
          (switched_on limits)
          500
          "s"
          (chain_fail 3 "s" "c"
            (chain_fail 2 "s" "b" (chain_fail 1 "s" "a" two_fires).1).1).1).refusal
        ≡ some fault_fused)
third_failure-fuses_example = third_failure-fuses 1 2 3 500 "s" "a" "b" "c" two_fires limits

abbrev texts : Texts
texts = record { strip = λ t. t; is_report = λ t. false; without_inputs = λ t. t }

abbrev messages : List Message
messages =
    record { id = 1; timestamp = 90; content = some "before" }
    ∷ record { id = 2; timestamp = 110; content = none }
    ∷ record { id = 3; timestamp = 110; content = some "after" }
    ∷ []

finds_after : human_checkpoint texts 4 (some messages) 100 ≡ some true
unfolding program
finds_after = refl

messages-InOrder :
    ((is_after 90 1 (record { id = 2; timestamp = 110; content = none }) ≡ true)
      × ((is_after 90 1 (record { id = 3; timestamp = 110; content = some "after" }) ≡ true)
          × Unit {0}))
    × (((is_after 110 2 (record { id = 3; timestamp = 110; content = some "after" }) ≡ true)
          × Unit {0})
        × (Unit {0} × Unit {0}))
unfolding program
messages-InOrder = ((refl, (refl, tt)), ((refl, tt), (tt, tt)))

human_checkpoint-any_example :
    human_checkpoint texts 4 (some messages) 100
    ≡ some (any_human texts (select (λ m. ltb 100 m.timestamp) messages))
human_checkpoint-any_example =
    human_checkpoint-any texts 4 messages 100 messages-InOrder (omega arith)
