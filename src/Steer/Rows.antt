-- ===== src/Steer/Rows.antt =====
-- compat/steer_store.py: the digest, the id and the row of a new steer. `hexdigest` is the hex
-- form of SHA-256, which is not the program's own.
use Prim.Native.String.{◌++◌ as cat, slice}
use hermes_app.Base.{ℕ, String, none}
use hermes_app.Steer.Defs.{SteerState, Steer}
use hermes_app.Steer.Runs.{Request}

-- The text with a NUL between the parts.
unfoldable pub nul_join : String → String → String → String
nul_join a b c = cat a (cat "\0" (cat b (cat "\0" c)))

module _ (hexdigest : String → String) where
  unfoldable pub digest_of : String → String
  digest_of text = hexdigest text

  -- The first 32 characters of the digest, which is ASCII.
  unfoldable pub derive_steer_id : String → String → String → String
  derive_steer_id o r k = slice (hexdigest (nul_join o r k)) 0 32

  -- The row that an admission inserts.
  unfoldable pub new_steer : ℕ → Request → ℕ → Steer
  new_steer now q seq = record {
    steer_id = derive_steer_id q.owner_scope q.run_id q.key;
    owner_scope = q.owner_scope;
    run_id = q.run_id;
    key = q.key;
    digest = digest_of q.input_text;
    input = q.input_text;
    seq = seq;
    state = SteerState.accepted;
    batch_id = none;
    row_id = none;
    error = none;
    created_at = now;
    updated_at = now;
  }
