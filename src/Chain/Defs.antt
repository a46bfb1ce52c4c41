-- ===== src/Chain/Defs.antt =====
-- compat/self_wake.py: the tables `selfwake_chain` and `selfwake_audit`, and what `chain_gate` and
-- the writes do.
use Prim.Native.String.{◌++◌ as cat}
use hermes_app.Base.{
  ℕ, ◌+◌, ◌-◌, String, Bool, true, false, not, ◌&&◌, ◌||◌, Option, none, some, List, [], ◌∷◌, ◌++◌,
  ◌==◌, leb, ltb, nat_eq, if◌then◌else◌,
}
use hermes_app.Base.Table.{find, update, upsert, exists}

pub record Chain : Type 0 where
  pub session_id : String
  pub fires : ℕ
  pub last_fire_at : Option ℕ
  pub fused : Bool
  pub fails : ℕ
  pub updated_at : ℕ

-- A row of the audit, of the phases that the chain writes.
pub data AuditPhase : Type 0 where
  fuse chain_reset : AuditPhase

pub record Audit : Type 0 where
  pub at : ℕ
  pub session_resolved : String
  pub phase : AuditPhase
  pub reason : String
  pub chain_count : Option ℕ

pub record ChainDb : Type 0 where
  pub chains : List Chain
  pub audits : List Audit

abbrev pub empty_chains : ChainDb
empty_chains = record { chains = []; audits = [] }

-- What `settings` answers.
pub record Params : Type 0 where
  pub chain_limit : ℕ
  pub cooldown_seconds : ℕ

pub data Settings : Type 0 where
  switched_off : Settings
  switched_on : Params → Settings

unfoldable pub chain_of : String → Chain → Bool
chain_of lineage c = c.session_id == lineage

unfoldable pub chain_clash : Chain → Chain → Bool
chain_clash a b = chain_of a.session_id b

pub data Reason : Type 0 where
  off fault_fused limit_reached cooling : Reason

-- The reason of a refusal, the count, and the time to wait.
pub record Verdict : Type 0 where
  pub refusal : Option Reason
  pub chain_count : ℕ
  pub retry_after : Option ℕ

abbrev pub verdict : Option Reason → ℕ → Option ℕ → Verdict
verdict reason count wait = record { refusal = reason; chain_count = count; retry_after = wait }

-- The last test, of the cooldown.
abbrev pub cooled : Params → ℕ → ℕ → Option ℕ → Verdict
cooled p now fires none = verdict none fires none
cooled p now fires (some last) =
    if ltb now (last + p.cooldown_seconds)
    then verdict (some cooling) fires (some (last + p.cooldown_seconds - now))
    else verdict none fires none

unfoldable pub gate_row : Params → ℕ → Bool → ℕ → Option ℕ → Verdict
gate_row p now fused fires last =
    if fused
    then verdict (some fault_fused) fires none
    else if leb p.chain_limit fires
    then verdict (some limit_reached) fires none
    else cooled p now fires last

abbrev pub gate_found : Params → ℕ → Option Chain → Verdict
gate_found p now none = gate_row p now false 0 none
gate_found p now (some c) = gate_row p now c.fused c.fires c.last_fire_at

-- `chain_gate`
unfoldable pub chain_gate : Settings → ℕ → String → ChainDb → Verdict
chain_gate switched_off now lineage db = verdict (some off) 0 none
chain_gate (switched_on p) now lineage db = gate_found p now (find (chain_of lineage) db.chains)

unfoldable pub noted : ℕ → Chain → Chain
noted now c = record c { fires = c.fires + 1; last_fire_at = some now; fails = 0; updated_at = now }

unfoldable pub fired_once : ℕ → String → Chain
fired_once now lineage = record {
  session_id = lineage;
  fires = 1;
  last_fire_at = some now;
  fused = false;
  fails = 0;
  updated_at = now;
}

-- `chain_note`
unfoldable pub chain_note : ℕ → String → ChainDb → ChainDb
chain_note now lineage db = record db {
  chains = upsert chain_clash (noted now) (fired_once now lineage) db.chains;
}

unfoldable pub fused_at : ℕ → Chain → Chain
fused_at now c = record c { fused = true; updated_at = now }

unfoldable pub fresh_chain : ℕ → String → Bool → ℕ → Chain
fresh_chain now lineage fused fails = record {
  session_id = lineage;
  fires = 0;
  last_fire_at = none;
  fused = fused;
  fails = fails;
  updated_at = now;
}

unfoldable pub audited : Audit → ChainDb → ChainDb
audited a db = record db { audits = db.audits ++ (a ∷ []) }

-- `fault_fuse`
unfoldable pub fault_fuse : ℕ → String → String → ChainDb → ChainDb
fault_fuse now lineage reason db =
    audited
      (record {
        at = now;
        session_resolved = lineage;
        phase = fuse;
        reason = reason;
        chain_count = none;
      })
      (record db {
        chains = upsert chain_clash (fused_at now) (fresh_chain now lineage true 0) db.chains;
      })

unfoldable pub failed_at : ℕ → Chain → Chain
failed_at now c = record c { fails = c.fails + 1; updated_at = now }

abbrev pub fails_of : Option Chain → ℕ
fails_of none = 0
fails_of (some c) = c.fails

abbrev pub third_failure : String → String
third_failure reason = cat "3 consecutive failures (" (cat reason ")")

-- `chain_fail`
unfoldable pub chain_fail : ℕ → String → String → ChainDb → Bool × ChainDb
chain_fail now lineage reason db =
    let counted = record db {
      chains = upsert chain_clash (failed_at now) (fresh_chain now lineage false 1) db.chains;
    } in
    if leb 3 (fails_of (find (chain_of lineage) counted.chains))
    then (true, fault_fuse now lineage (third_failure reason) counted)
    else (false, counted)

-- `last_fire_at IS ?`
abbrev pub same_time : Option ℕ → Option ℕ → Bool
same_time none none = true
same_time none (some b) = false
same_time (some a) none = false
same_time (some a) (some b) = nat_eq a b

-- The WHERE clause of `_chain_reset`.
unfoldable pub resettable : String → ℕ → Option ℕ → Bool → Chain → Bool
resettable lineage fires last clear_fuse c =
    (chain_of lineage c && nat_eq c.fires fires)
    && (same_time c.last_fire_at last && (clear_fuse || not c.fused))

unfoldable pub reset_at : ℕ → Chain → Chain
reset_at now c = record c { fires = 0; fused = false; fails = 0; updated_at = now }

-- `_chain_reset`
unfoldable pub reset_chain : ℕ → String → String → ℕ → Option ℕ → Bool → ChainDb → Bool × ChainDb
reset_chain now lineage reason fires last clear_fuse db =
    if exists (resettable lineage fires last clear_fuse) db.chains
    then (
      true,
      audited
          (record {
            at = now;
            session_resolved = lineage;
            phase = chain_reset;
            reason = reason;
            chain_count = some fires;
          })
          (record db {
            chains = update (resettable lineage fires last clear_fuse) (reset_at now) db.chains;
          }),
    )
    else (false, db)

abbrev pub differs : Option ℕ → ℕ → Bool
differs none fires = false
differs (some expected) fires = not (nat_eq fires expected)

unfoldable pub release_found : ℕ → String → Option ℕ → Option Chain → ChainDb → Bool × ChainDb
release_found now lineage expected none db = (false, db)
release_found now lineage expected (some c) db =
    if differs expected c.fires
    then (false, db)
    else reset_chain now lineage "admin" c.fires c.last_fire_at true db

-- `chain_release`
unfoldable pub chain_release : ℕ → String → Option ℕ → ChainDb → Bool × ChainDb
chain_release now lineage expected db =
    release_found now lineage expected (find (chain_of lineage) db.chains) db

-- The end of `_checkpoint_if_human`; `human` is the answer of the search after a fire's time.
abbrev pub checkpoint_at : ℕ → String → (ℕ → Bool) → ℕ → Option ℕ → ChainDb → Bool × ChainDb
checkpoint_at now lineage human fires none db = (false, db)
checkpoint_at now lineage human fires (some last) db =
    if human last
    then reset_chain now lineage "human-checkpoint" fires (some last) false db
    else (false, db)

unfoldable pub checkpoint_found : ℕ → String → (ℕ → Bool) → Option Chain → ChainDb → Bool × ChainDb
checkpoint_found now lineage human none db = (false, db)
checkpoint_found now lineage human (some c) db =
    if c.fused || nat_eq c.fires 0
    then (false, db)
    else checkpoint_at now lineage human c.fires c.last_fire_at db

-- `_checkpoint_if_human`
unfoldable pub checkpoint_if_human : ℕ → String → (ℕ → Bool) → ChainDb → Bool × ChainDb
checkpoint_if_human now lineage human db =
    checkpoint_found now lineage human (find (chain_of lineage) db.chains) db

abbrev pub is_final : Option Reason → Bool
is_final none = false
is_final (some off) = true
is_final (some fault_fused) = true
is_final (some limit_reached) = false
is_final (some cooling) = false

-- `chain_gate_checkpoint`
unfoldable pub chain_gate_checkpoint :
    Settings → ℕ → String → (ℕ → Bool) → ChainDb → Verdict × ChainDb
chain_gate_checkpoint conf now lineage human db =
    let first = chain_gate conf now lineage db in
    let after = (checkpoint_if_human now lineage human db).1 in
    if is_final first.refusal then (first, db) else (chain_gate conf now lineage after, after)

pub data Op : Type 0 where
  noting : ℕ → String → Op
  failing : ℕ → String → String → Op
  fusing : ℕ → String → String → Op
  gating : Settings → ℕ → String → (ℕ → Bool) → Op
  checking : ℕ → String → (ℕ → Bool) → Op
  releasing : ℕ → String → Option ℕ → Op

unfoldable pub step : ChainDb → Op → ChainDb
step db (noting now lineage) = chain_note now lineage db
step db (failing now lineage reason) = (chain_fail now lineage reason db).1
step db (fusing now lineage reason) = fault_fuse now lineage reason db
step db (gating conf now lineage human) = (chain_gate_checkpoint conf now lineage human db).1
step db (checking now lineage human) = (checkpoint_if_human now lineage human db).1
step db (releasing now lineage expected) = (chain_release now lineage expected db).1
