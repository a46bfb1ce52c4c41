-- ===== src/Wake/Grown.antt =====
-- compat/auto_wake_store.py: `admit` only adds rows, so what added rows keep, it keeps.
use hermes_app.Base.{
  ℕ, String, false, not, Option, none, some, List, [], ◌∷◌, ◌++◌, ◌||◌, Result, ok, raised, ◌>>=◌,
  committed, committed-bind, committed-if, if-keeps, bind-cases, take, nat_eq, ltb, length,
}
use hermes_app.Base.Table.{exists, find, insert, insert-ok}
use hermes_app.Wake.Defs.{
  WakeBatch, Consumption, WakeDb, Session, ReportRow, Core, batch_clash, key_is, consumption_clash,
  admit_max_delivery_ids, batch_max,
}
use hermes_app.Wake.Keys.{clean_keys}
use hermes_app.Wake.Reports.{quota, session_busy, same_source_recent}
use hermes_app.Wake.Admit.{
  Reason, Claim, Scan, Reply, session_refused, suspect, ignored_row, reject, ignore_report,
  scan_row, scan_prior, scan_key, scan_keys, claim_row, insert_claims, reserved_batch, reserve,
  overflow, admit_keys, admit_quota, admit_session, admit_cleaned, admit,
}

module _ {ℓ} (P : WakeDb → Type ℓ)
    (more_rows : (db : WakeDb) (c : Consumption)
      → P db
      → P (record db { consumption = db.consumption ++ (c ∷ []) })) where
  abbrev pub ScanKeeps : Result Scan → Type ℓ
  ScanKeeps (ok s) = P s.db
  ScanKeeps (raised e) = Unit

  ignore_report-keeps :
      (resolved : String) (at : ℕ) (key : String) (row : ReportRow) (s : Scan)
      → P s.db
      → ScanKeeps (ignore_report resolved at key row s)
  unfolding ignore_report
  ignore_report-keeps resolved at key row s h =
      bind-cases ScanKeeps
        (insert consumption_clash (ignored_row resolved at key row) s.db.consumption) _ (λ _. tt)
        λ rows made.
          rw (insert-ok consumption_clash _ s.db.consumption rows made).0 (more_rows s.db _ h)

  scan_row-keeps :
      (core : Core) (resolved : String) (at : ℕ) (key : String) (row : Option ReportRow) (s : Scan)
      → P s.db
      → ScanKeeps (scan_row core resolved at key row s)
  unfolding scan_row reject
  scan_row-keeps core resolved at key none s h = h
  scan_row-keeps core resolved at key (some row) s h =
      if-keeps ScanKeeps (not (elim row.sch [ none ↦ false | some n ↦ nat_eq n 1 ])) _ _ (λ _. h)
        λ _.
          if-keeps ScanKeeps (core.is_ignored_report row.content) _ _
            (λ _. ignore_report-keeps resolved at key row s h)
            λ _.
              if-keeps ScanKeeps (exists (suspect resolved row.timestamp) s.db.batches) _ _ (λ _. h)
                λ _.
                  if-keeps ScanKeeps (same_source_recent core s.db resolved row at) _ _
                    (λ _. ignore_report-keeps resolved at key row s h) (λ _. h)

  scan_prior-keeps :
      (core : Core) (resolved : String) (at : ℕ) (key : String) (prior : Option Consumption)
      (s : Scan)
      → P s.db
      → ScanKeeps (scan_prior core resolved at key prior s)
  unfolding scan_prior reject
  scan_prior-keeps core resolved at key none s h = scan_row-keeps core resolved at key _ s h
  scan_prior-keeps core resolved at key (some prior) s h =
      if-keeps (λ (t : Scan). P t.db) prior.ignored _ _ (λ _. h) (λ _. h)

  pub scan_keys-keeps :
      (core : Core) (resolved : String) (at : ℕ) (keys : List String) (s : Scan)
      → P s.db
      → ScanKeeps (scan_keys core resolved at keys s)
  unfolding scan_keys scan_key
  scan_keys-keeps core resolved at [] s h = h
  scan_keys-keeps core resolved at (key ∷ rest) s h =
      next (scan_prior core resolved at key (find (key_is key) s.db.consumption) s)
        (scan_keys-keeps core resolved at rest) (scan_prior-keeps core resolved at key _ s h)
    where
      next :
          (m : Result Scan)
          → ((t : Scan) → P t.db → ScanKeeps (scan_keys core resolved at rest t))
          → ScanKeeps m
          → ScanKeeps (m >>= scan_keys core resolved at rest)
      next (ok t) go k = go t k
      next (raised e) go k = tt

  abbrev RowsKeep : List WakeBatch → Result (List Consumption) → Type ℓ
  RowsKeep batches (ok rows) = P (record { batches = batches; consumption = rows })
  RowsKeep batches (raised e) = Unit

  insert_claims-keeps :
      (resolved : String) (at : ℕ) (i : String) (claims : List Claim) (batches : List WakeBatch)
      (rows : List Consumption)
      → P (record { batches = batches; consumption = rows })
      → RowsKeep batches (insert_claims resolved at i claims rows)
  unfolding insert_claims
  insert_claims-keeps resolved at i [] batches rows h = h
  insert_claims-keeps resolved at i (c ∷ rest) batches rows h =
      bind-cases (RowsKeep batches) (insert consumption_clash (claim_row resolved at i c) rows) _
        (λ _. tt)
        λ more made. insert_claims-keeps resolved at i rest batches more (
          rw (insert-ok consumption_clash _ rows more made).0
            (more_rows (record { batches = batches; consumption = rows }) _ h))

module _ {ℓ} (P : WakeDb → Type ℓ)
    (more_rows : (db : WakeDb) (c : Consumption)
      → P db
      → P (record db { consumption = db.consumption ++ (c ∷ []) }))
    (more_batches : (db : WakeDb) (b : WakeBatch)
      → P db
      → P (record db { batches = db.batches ++ (b ∷ []) })) where
  reserve-keeps :
      (core : Core) (resolved : String) (at : ℕ) (i : String) (owner : Option String)
      (claims : List Claim) (rejected : List (String × Reason)) (s : Scan) (db : WakeDb)
      → P db
      → P s.db
      → P (committed db (reserve core resolved at i owner claims rejected s))
  unfolding reserve
  reserve-keeps core resolved at i owner [] rejected s db old h = h
  reserve-keeps core resolved at i owner (c ∷ claims) rejected s db old h =
      committed-bind P db
        (insert batch_clash (reserved_batch core resolved at i owner (c ∷ claims)) s.db.batches) _
        old
        λ batches made. inner batches (insert_claims resolved at i (c ∷ claims) s.db.consumption) (
          insert_claims-keeps P more_rows resolved at i (c ∷ claims) batches s.db.consumption
            (rw (insert-ok batch_clash _ s.db.batches batches made).0 (more_batches s.db _ h)))
    where
      inner :
          (batches : List WakeBatch) (m : Result (List Consumption))
          → RowsKeep P more_rows batches m
          → P (
              committed db (
                m >>= λ rows. ok (
                  (Reply.admitted i (c ∷ claims) s.ignored rejected),
                  record { batches = batches; consumption = rows },
                )))
      inner batches (ok rows) k = k
      inner batches (raised e) k = old

  admit_keys-keeps :
      (core : Core) (at : ℕ) (db : WakeDb) (resolved : String) (keys : List String) (i : String)
      (owner : Option String)
      → P db
      → P (committed db (admit_keys core at db resolved keys i owner))
  unfolding admit_keys
  admit_keys-keeps core at db resolved keys i owner h =
      next
        (scan_keys core resolved at keys
          (record { db = db; claims = []; ignored = []; rejected = [] }))
        (scan_keys-keeps P more_rows core resolved at keys
          (record { db = db; claims = []; ignored = []; rejected = [] }) h)
    where
      next :
          (m : Result Scan)
          → ScanKeeps P more_rows m
          → P (
              committed db (
                m >>= λ s.
                reserve core resolved at i owner
                  (take batch_max s.claims)
                  (s.rejected ++ overflow s.claims)
                  s))
      next (ok s) k = reserve-keeps core resolved at i owner _ _ s db h k
      next (raised e) k = h

  admit_cleaned-keeps :
      (core : Core) (at : ℕ) (db : WakeDb) (resolved : String) (keys : Option (List String))
      (i : String) (owner : Option String)
      → P db
      → P (committed db (admit_cleaned core at db resolved keys i owner))
  unfolding admit_cleaned admit_session admit_quota
  admit_cleaned-keeps core at db resolved none i owner h = h
  admit_cleaned-keeps core at db resolved (some []) i owner h = h
  admit_cleaned-keeps core at db resolved (some (key ∷ keys)) i owner h =
      committed-if P db (ltb admit_max_delivery_ids (length (key ∷ keys))) _ _ (λ _. h)
        λ _. session (core.get_session resolved)
    where
      session :
          (found : Option Session)
          → P (committed db (admit_session core at db resolved (key ∷ keys) i owner found))
      session none = h
      session (some x) =
          committed-if P db (session_refused x) _ _ (λ _. h)
            λ _.
              committed-if P db (session_busy core resolved at) _ _ (λ _. h)
                λ _.
                  committed-if P db
                    (nat_eq (quota db resolved at).session_remaining 0
                      || nat_eq (quota db resolved at).profile_remaining 0)
                    _ _ (λ _. h) (λ _. admit_keys-keeps core at db resolved (key ∷ keys) i owner h)

  pub admit-keeps :
      (core : Core) (at : ℕ) (db : WakeDb) (resolved : String) (keys : List String) (i : String)
      (owner : Option String)
      → P db
      → P (committed db (admit core at db resolved keys i owner))
  unfolding admit
  admit-keeps core at db resolved keys i owner h =
      committed-if P db core.bindings_ready _ _
        (λ _.
          admit_cleaned-keeps core at db resolved (clean_keys core.strip_lower keys []) i owner h)
        (λ _. h)
