-- ===== src/Retention/Archived.antt =====
-- compat/ledger_retention.py: what a sweep deletes is in the archive.
use hermes_app.Base.{
  ℕ, String, true, false, ◌≡◌, refl, List, [], ◌∷◌, ◌==◌, eq_refl, eq_iff, arith, if-keeps, inl,
  inr, Bool-cases,
}
use hermes_app.Base.Table.{exists, insert_or_ignore, exists-append, exists-split}
use hermes_app.Wake.Defs.{WakeBatch, Consumption, WakeDb, key_is}
use hermes_app.Retention.Defs.{
  Row, Archived, archived_as, archive_clash, entry, archive, in_ids, swept_batches, batch_ids,
  prune_wake,
}

module _ (t k : String) where
  -- INSERT OR IGNORE forgets nothing.
  ignore_keeps :
      (a : Archived) (kept : List Archived)
      → exists (archived_as t k) kept ≡ true
      → exists (archived_as t k) (insert_or_ignore archive_clash a kept) ≡ true
  ignore_keeps a kept h =
      if-keeps (λ (x : List Archived). exists (archived_as t k) x ≡ true)
        (exists (archive_clash a) kept) _ _ (λ _. h) (λ _. rw (exists-append, h) refl)

  entry_is : (now : ℕ) (row : Row) → archived_as t k (entry t now k row) ≡ true
  unfolding archived_as entry
  entry_is now row = simp eq_refl

  -- After it the entry's key is there, from this row or from an earlier one.
  ignore_adds :
      (now : ℕ) (row : Row) (kept : List Archived)
      → exists (archived_as t k) (insert_or_ignore archive_clash (entry t now k row) kept) ≡ true
  unfolding archive_clash entry
  ignore_adds now row kept =
      if-keeps (λ (x : List Archived). exists (archived_as t k) x ≡ true)
        (exists (archived_as t k) kept) _ _ (λ found. found)
        (λ _. let own = entry_is now row in rw exists-append (ground arith))

module _ {ℓ} {A : Type ℓ} (t : String) (key : A → String) (wrap : A → Row) (now : ℕ)
    (k : String) where
  archive-keeps :
      (u : String) (xs : List A) (kept : List Archived)
      → exists (archived_as u k) kept ≡ true
      → exists (archived_as u k) (archive t key wrap now xs kept) ≡ true
  unfolding archive
  archive-keeps u [] kept h = h
  archive-keeps u (x ∷ xs) kept h = archive-keeps u xs _ (ignore_keeps u k _ kept h)

  -- Every row of the list is archived.
  archive-exists :
      (xs : List A) (kept : List Archived)
      → exists (λ x. key x == k) xs ≡ true
      → exists (archived_as t k) (archive t key wrap now xs kept) ≡ true
  unfolding archive
  archive-exists [] kept h = cc
  archive-exists (x ∷ xs) kept h = elim (Bool-cases (key x == k)) [
    | inl here ↦
        let same : key x ≡ k = ground (arith, eq_iff (key x) k) in
        archive-keeps t xs _ (rw same (ignore_adds t k now (wrap x) kept))
    | inr other ↦ archive-exists xs _ (ground arith)
  ]

-- A consumption row that a sweep of the wake ledger deletes is in the archive after it, by its key.
pub prune_wake-archived :
    (cutoff now : ℕ) (db : WakeDb) (kept : List Archived) (k : String)
    → exists (key_is k) db.consumption ≡ true
    → exists (key_is k) (prune_wake cutoff now db kept).1.0.consumption ≡ false
    → exists (archived_as "wake_consumption" k) (prune_wake cutoff now db kept).1.1 ≡ true
unfolding prune_wake key_is
prune_wake-archived cutoff now db kept k held gone =
    let split =
      exists-split (key_is k)
        (λ (c : Consumption). in_ids (batch_ids (swept_batches cutoff db)) c.batch_id)
        db.consumption in
    archive-keeps "wake_batches" (λ (b : WakeBatch). b.batch_id) Row.batch now k "wake_consumption"
      (swept_batches cutoff db) _
      (archive-exists "wake_consumption" (λ (c : Consumption). c.delivery_key) Row.consumption now k
        _ kept (ground arith))
