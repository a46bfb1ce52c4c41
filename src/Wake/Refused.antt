-- ===== src/Wake/Refused.antt =====
-- compat/auto_wake_store.py: `admit` does not claim a key that has a row.
use hermes_app.Base.{
  ℕ, zero, suc, inl, inr, String, Bool, true, false, not, ◌||◌, ◌≡◌, refl, Option, none, some, List,
  [], ◌∷◌, ◌++◌, ◌==◌, eq_iff, arith, Result, ok, raised, ◌>>=◌, bind-cases, if-keeps, take, nat_eq,
  ltb, length, Bool-cases,
}
use mathlib.Core.Path.{subst}
use hermes_app.Base.Table.{exists, find, insert, insert-ok, exists-append, exists-find}
use hermes_app.Wake.Defs.{
  Consumption, WakeDb, Session, ReportRow, Core, batch_clash, key_is, consumption_clash,
  admit_max_delivery_ids, batch_max,
}
use hermes_app.Wake.Keys.{clean_keys}
use hermes_app.Wake.Reports.{quota, session_busy, same_source_recent}
use hermes_app.Wake.Admit.{
  Reason, Claim, Scan, Reply, session_refused, suspect, ignored_row, reject, ignore_report,
  scan_row, scan_prior, scan_key, scan_keys, insert_claims, reserved_batch, reserve, overflow,
  admit_keys, admit_quota, admit_session, admit_cleaned, admit,
}

abbrev pub claim_is : String → Claim → Bool
claim_is k c = c.key == k

module _ (k : String) where
  -- A row has the key, and no claim has it.
  record Clear (s : Scan) : Type 0 where
    held : exists (key_is k) s.db.consumption ≡ true
    unclaimed : exists (claim_is k) s.claims ≡ false

  abbrev AllClear : Result Scan → Type 0
  AllClear (ok s) = Clear s
  AllClear (raised e) = Unit

  ignore_report-Clear :
      (resolved : String) (at : ℕ) (key : String) (row : ReportRow) (s : Scan)
      → Clear s
      → AllClear (ignore_report resolved at key row s)
  unfolding ignore_report
  ignore_report-Clear resolved at key row s h =
      bind-cases AllClear
        (insert consumption_clash (ignored_row resolved at key row) s.db.consumption) _ (λ _. tt)
        λ rows made. record {
          held =
              rw
                (
                  (insert-ok consumption_clash _ s.db.consumption rows made).0,
                  exists-append,
                  h.held,
                )
                refl;
          unclaimed = h.unclaimed;
        }

  reject-Clear : (key : String) (why : Reason) (s : Scan) → Clear s → Clear (reject key why s)
  unfolding reject
  reject-Clear key why s h = record { held = h.held; unclaimed = h.unclaimed }

  scan_row-Clear :
      (core : Core) (resolved : String) (at : ℕ) (key : String) (row : Option ReportRow) (s : Scan)
      → (key == k) ≡ false
      → Clear s
      → AllClear (scan_row core resolved at key row s)
  unfolding scan_row
  scan_row-Clear core resolved at key none s other h = reject-Clear key _ s h
  scan_row-Clear core resolved at key (some row) s other h =
      if-keeps AllClear (not (elim row.sch [ none ↦ false | some n ↦ nat_eq n 1 ])) _ _
        (λ _. reject-Clear key _ s h)
        λ _.
          if-keeps AllClear (core.is_ignored_report row.content) _ _
            (λ _. ignore_report-Clear resolved at key row s h)
            λ _.
              if-keeps AllClear (exists (suspect resolved row.timestamp) s.db.batches) _ _
                (λ _. reject-Clear key _ s h)
                λ _.
                  if-keeps AllClear (same_source_recent core s.db resolved row at) _ _
                    (λ _. ignore_report-Clear resolved at key row s h)
                    λ _. record {
                      held = h.held;
                      unclaimed = rw (exists-append, h.unclaimed, other) refl;
                    }

  -- Only a key without a row is looked up.
  fresh_other :
      (key : String) (rows : List Consumption)
      → exists (key_is k) rows ≡ true
      → find (key_is key) rows ≡ none
      → (key == k) ≡ false
  fresh_other key rows held fresh = elim (Bool-cases (key == k)) [
    | inl same ↦
        let equal : key ≡ k = ground (arith, eq_iff key k) in
        let nothing : find (key_is k) rows ≡ none = rw equal at fresh in
        let missing : exists (key_is k) rows ≡ false = rw (exists-find, nothing) refl in cc
    | inr other ↦ other
  ]

  scan_key-Clear :
      (core : Core) (resolved : String) (at : ℕ) (key : String) (s : Scan)
      → Clear s
      → AllClear (scan_key core resolved at key s)
  unfolding scan_key scan_prior
  scan_key-Clear core resolved at key s h = go (find (key_is key) s.db.consumption) refl
    where
      go :
          (prior : Option Consumption)
          → find (key_is key) s.db.consumption ≡ prior
          → AllClear (scan_prior core resolved at key prior s)
      go none e =
          scan_row-Clear core resolved at key _ s (fresh_other key s.db.consumption h.held e) h
      go (some prior) e =
          if-keeps Clear prior.ignored _ _ (λ _. record { held = h.held; unclaimed = h.unclaimed })
            (λ _. reject-Clear key _ s h)

  scan_keys-Clear :
      (core : Core) (resolved : String) (at : ℕ) (keys : List String) (s : Scan)
      → Clear s
      → AllClear (scan_keys core resolved at keys s)
  unfolding scan_keys
  scan_keys-Clear core resolved at [] s h = h
  scan_keys-Clear core resolved at (key ∷ rest) s h =
      next (scan_key core resolved at key s) (scan_keys-Clear core resolved at rest)
        (scan_key-Clear core resolved at key s h)
    where
      next :
          (m : Result Scan)
          → ((t : Scan) → Clear t → AllClear (scan_keys core resolved at rest t))
          → AllClear m
          → AllClear (m >>= scan_keys core resolved at rest)
      next (ok t) later h' = later t h'
      next (raised e) later h' = tt

  exists-take :
      (n : ℕ) (claims : List Claim)
      → exists (claim_is k) claims ≡ false
      → exists (claim_is k) (take n claims) ≡ false
  exists-take zero claims h = refl
  exists-take (suc n) [] h = refl
  exists-take (suc n) (c ∷ claims) h = ground (arith, exists-take n claims)

  -- The claims of a reply, none for the replies that claim nothing.
  abbrev Unclaimed : Result (Reply × WakeDb) → Type 0
  Unclaimed (ok (Reply.admitted j claims ignored rejected, db)) = exists (claim_is k) claims ≡ false
  Unclaimed (ok (other, db)) = Unit
  Unclaimed (raised e) = Unit

  reserve-Unclaimed :
      (core : Core) (resolved : String) (at : ℕ) (i : String) (owner : Option String)
      (claims : List Claim) (rejected : List (String × Reason)) (s : Scan)
      → exists (claim_is k) claims ≡ false
      → Unclaimed (reserve core resolved at i owner claims rejected s)
  unfolding reserve
  reserve-Unclaimed core resolved at i owner [] rejected s h = tt
  reserve-Unclaimed core resolved at i owner (c ∷ claims) rejected s h =
      bind-cases Unclaimed
        (insert batch_clash (reserved_batch core resolved at i owner (c ∷ claims)) s.db.batches) _
        (λ _. tt)
        λ batches _.
          bind-cases Unclaimed (insert_claims resolved at i (c ∷ claims) s.db.consumption) _
            (λ _. tt) λ rows _. h

  admit_keys-Unclaimed :
      (core : Core) (at : ℕ) (db : WakeDb) (resolved : String) (keys : List String) (i : String)
      (owner : Option String)
      → exists (key_is k) db.consumption ≡ true
      → Unclaimed (admit_keys core at db resolved keys i owner)
  unfolding admit_keys
  admit_keys-Unclaimed core at db resolved keys i owner h =
      next
        (scan_keys core resolved at keys
          (record { db = db; claims = []; ignored = []; rejected = [] }))
        (scan_keys-Clear core resolved at keys
          (record { db = db; claims = []; ignored = []; rejected = [] })
          (record { held = h; unclaimed = refl }))
    where
      next :
          (m : Result Scan)
          → AllClear m
          → Unclaimed (
              m >>= λ s.
              reserve core resolved at i owner
                (take batch_max s.claims)
                (s.rejected ++ overflow s.claims)
                s)
      next (ok s) clear =
          reserve-Unclaimed core resolved at i owner (take batch_max s.claims) _ s
            (exists-take batch_max s.claims clear.unclaimed)
      next (raised e) clear = tt

  admit_session-Unclaimed :
      (core : Core) (at : ℕ) (db : WakeDb) (resolved : String) (keys : List String) (i : String)
      (owner : Option String) (found : Option Session)
      → exists (key_is k) db.consumption ≡ true
      → Unclaimed (admit_session core at db resolved keys i owner found)
  unfolding admit_session admit_quota
  admit_session-Unclaimed core at db resolved keys i owner none h = tt
  admit_session-Unclaimed core at db resolved keys i owner (some x) h =
      if-keeps Unclaimed (session_refused x) _ _ (λ _. tt)
        λ _.
          if-keeps Unclaimed (session_busy core resolved at) _ _ (λ _. tt)
            λ _.
              if-keeps Unclaimed
                (nat_eq (quota db resolved at).session_remaining 0
                  || nat_eq (quota db resolved at).profile_remaining 0)
                _ _ (λ _. tt) (λ _. admit_keys-Unclaimed core at db resolved keys i owner h)

  admit_cleaned-Unclaimed :
      (core : Core) (at : ℕ) (db : WakeDb) (resolved : String) (keys : Option (List String))
      (i : String) (owner : Option String)
      → exists (key_is k) db.consumption ≡ true
      → Unclaimed (admit_cleaned core at db resolved keys i owner)
  unfolding admit_cleaned
  admit_cleaned-Unclaimed core at db resolved none i owner h = tt
  admit_cleaned-Unclaimed core at db resolved (some []) i owner h = tt
  admit_cleaned-Unclaimed core at db resolved (some (key ∷ keys)) i owner h =
      if-keeps Unclaimed (ltb admit_max_delivery_ids (length (key ∷ keys))) _ _ (λ _. tt)
        (λ _.
          admit_session-Unclaimed core at db resolved (key ∷ keys) i owner
            (core.get_session resolved) h)

  admit-Unclaimed :
      (core : Core) (at : ℕ) (db : WakeDb) (resolved : String) (keys : List String) (i : String)
      (owner : Option String)
      → exists (key_is k) db.consumption ≡ true
      → Unclaimed (admit core at db resolved keys i owner)
  unfolding admit
  admit-Unclaimed core at db resolved keys i owner h =
      if-keeps Unclaimed core.bindings_ready _ _
        (λ _.
          admit_cleaned-Unclaimed core at db resolved (clean_keys core.strip_lower keys []) i owner
            h)
        (λ _. tt)

  -- No claim of an admitted batch has a key that the ledger holds a row of.
  pub admit-refuses :
      (core : Core) (at : ℕ) (db db' : WakeDb) (resolved : String) (keys : List String)
      (i j : String) (owner : Option String) (claims : List Claim) (ignored : List String)
      (rejected : List (String × Reason))
      → exists (key_is k) db.consumption ≡ true
      → admit core at db resolved keys i owner ≡ ok (Reply.admitted j claims ignored rejected, db')
      → exists (claim_is k) claims ≡ false
  admit-refuses core at db db' resolved keys i j owner claims ignored rejected held e =
      subst Unclaimed e (admit-Unclaimed core at db resolved keys i owner held)
