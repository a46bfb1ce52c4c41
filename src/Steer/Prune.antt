-- ===== src/Steer/Prune.antt =====
-- compat/steer_store.py: `prune_expired`, which forgets the receipts of runs closed long ago.
use hermes_app.Base.{
  ℕ, ◌+◌, ◌-◌, Bool, false, ◌&&◌, none, some, List, [], ◌∷◌, ltb, is_some, length,
}
use hermes_app.Base.Table.{select, delete, insert_or_replace}
use hermes_app.Steer.Defs.{
  Run, Steer, PurgedKey, SteerDb, receipt_ttl_seconds, steer_in, batch_in, purged_clash,
}

-- `closed_reason IS NOT NULL AND closed_at IS NOT NULL AND closed_at < cutoff`
unfoldable pub is_expired : ℕ → Run → Bool
is_expired cutoff run =
    is_some run.closed_reason && elim run.closed_at [ none ↦ false | some t ↦ ltb t cutoff ]

-- The loop over the steers of a run: each key is remembered as purged.
unfoldable pub purge_keys : ℕ → List Steer → List PurgedKey → List PurgedKey
purge_keys at [] purged = purged
purge_keys at (s ∷ rest) purged = purge_keys at rest (
    insert_or_replace purged_clash
      (record { owner_scope = s.owner_scope; run_id = s.run_id; key = s.key; purged_at = at })
      purged)

-- The body of the loop over the expired runs.
unfoldable pub prune_run : ℕ → SteerDb → Run → ℕ × SteerDb
prune_run at db run =
    let rows = select (steer_in run.owner_scope run.run_id) db.steers in
    (
      length rows,
      record db {
        purged_keys = purge_keys at rows db.purged_keys;
        steers = delete (steer_in run.owner_scope run.run_id) db.steers;
        batches = delete (batch_in run.owner_scope run.run_id) db.batches;
      },
    )

unfoldable pub prune_runs : ℕ → List Run → ℕ → SteerDb → ℕ × SteerDb
prune_runs at [] removed db = (removed, db)
prune_runs at (run ∷ rest) removed db =
    let (n, db') = prune_run at db run in prune_runs at rest (removed + n) db'

-- `prune_expired`: `now` is the argument, `at` the clock's reading that dates the purge. A cutoff
-- below 0 and the cutoff 0 select the same runs, none.
unfoldable pub prune_expired : ℕ → ℕ → SteerDb → ℕ × SteerDb
prune_expired now at db =
    prune_runs at (select (is_expired (now - receipt_ttl_seconds)) db.runs) 0 db
