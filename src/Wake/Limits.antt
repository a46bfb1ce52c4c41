-- ===== src/Wake/Limits.antt =====
-- compat/auto_wake_store.py: an admission stays within the hourly limits.
use mathlib.Core.Path.{subst}
use hermes_app.Base.{
  ℕ, ◌+◌, ◌≤◌, ◌<◌, String, Bool, false, ◌&&◌, ◌||◌, ◌≡◌, Option, none, some, List, [], ◌∷◌, ◌++◌,
  ◌==◌, arith, Result, ok, raised, ◌>>=◌, bind-cases, if-keeps, take, nat_eq, ltb, length,
}
use hermes_app.Base.Table.{insert, insert-ok, count, count-append}
use hermes_app.Wake.Defs.{
  WakeBatch, Consumption, WakeDb, Session, Core, batch_clash, admit_max_delivery_ids, batch_max,
}
use hermes_app.Wake.Keys.{clean_keys}
use hermes_app.Wake.Reports.{in_window, profile_used, session_used, quota, session_busy}
use hermes_app.Wake.Grown.{ScanKeeps, scan_keys-keeps}
use hermes_app.Wake.Admit.{
  Reason, Claim, Scan, Reply, session_refused, scan_keys, insert_claims, reserved_batch, reserve,
  overflow, admit_keys, admit_quota, admit_session, admit_cleaned, admit,
}

-- One more row raises a count by at most one.
count-append_one :
    (q : WakeBatch → Bool) (xs : List WakeBatch) (b : WakeBatch)
    → count q (xs ++ (b ∷ [])) ≤ count q xs + 1
count-append_one q xs b = rw count-append (ground arith)

module _ (core : Core) (at : ℕ) (resolved : String) where
  -- A database with as many wakes as the limits allow, or fewer.
  abbrev WithinLimits : WakeDb → Type 0
  WithinLimits db = (session_used db resolved at ≤ 6) × (profile_used db at ≤ 12)

  abbrev Within : Result (Reply × WakeDb) → Type 0
  Within (ok (Reply.admitted j claims ignored rejected, db)) = WithinLimits db
  Within (ok (other, db)) = Unit
  Within (raised e) = Unit

  -- A database with room for one more wake.
  abbrev HasRoom : List WakeBatch → Type 0
  HasRoom batches =
      (count (λ b. in_window at b && b.session_id == resolved) batches < 6)
      × (count (in_window at) batches < 12)

  grown-WithinLimits :
      (batches : List WakeBatch) (b : WakeBatch) (rows : List Consumption)
      → HasRoom batches
      → WithinLimits (record { batches = batches ++ (b ∷ []); consumption = rows })
  unfolding session_used profile_used
  grown-WithinLimits batches b rows h = (
    let one = count-append_one (λ b. in_window at b && b.session_id == resolved) batches b in
        omega arith,
    let one = count-append_one (in_window at) batches b in omega arith,
  )

  reserve-Within :
      (i : String) (owner : Option String) (claims : List Claim) (rejected : List (String × Reason))
      (s : Scan)
      → HasRoom s.db.batches
      → Within (reserve core resolved at i owner claims rejected s)
  unfolding reserve
  reserve-Within i owner [] rejected s h = tt
  reserve-Within i owner (c ∷ claims) rejected s h =
      bind-cases Within
        (insert batch_clash (reserved_batch core resolved at i owner (c ∷ claims)) s.db.batches) _
        (λ _. tt)
        λ batches made.
          bind-cases Within (insert_claims resolved at i (c ∷ claims) s.db.consumption) _ (λ _. tt)
            λ rows _.
              rw (insert-ok batch_clash _ s.db.batches batches made).0
                (grown-WithinLimits s.db.batches _ rows h)

  admit_keys-Within :
      (db : WakeDb) (keys : List String) (i : String) (owner : Option String)
      → HasRoom db.batches
      → Within (admit_keys core at db resolved keys i owner)
  unfolding admit_keys
  admit_keys-Within db keys i owner h =
      next
        (scan_keys core resolved at keys
          (record { db = db; claims = []; ignored = []; rejected = [] }))
        (scan_keys-keeps (λ (d : WakeDb). HasRoom d.batches) (λ d c h'. h') core resolved at keys
          (record { db = db; claims = []; ignored = []; rejected = [] }) h)
    where
      next :
          (m : Result Scan)
          → ScanKeeps (λ (d : WakeDb). HasRoom d.batches) (λ d c h'. h') m
          → Within (
              m >>= λ s.
              reserve core resolved at i owner
                (take batch_max s.claims)
                (s.rejected ++ overflow s.claims)
                s)
      next (ok s) k = reserve-Within i owner (take batch_max s.claims) _ s k
      next (raised e) k = tt

  quota-HasRoom :
      (db : WakeDb)
      → (nat_eq (quota db resolved at).session_remaining 0
          || nat_eq (quota db resolved at).profile_remaining 0)
        ≡ false
      → HasRoom db.batches
  unfolding quota session_used profile_used
  quota-HasRoom db h = (ground arith, ground arith)

  admit_session-Within :
      (db : WakeDb) (keys : List String) (i : String) (owner : Option String)
      (found : Option Session)
      → Within (admit_session core at db resolved keys i owner found)
  unfolding admit_session admit_quota
  admit_session-Within db keys i owner none = tt
  admit_session-Within db keys i owner (some x) =
      if-keeps Within (session_refused x) _ _ (λ _. tt)
        λ _.
          if-keeps Within (session_busy core resolved at) _ _ (λ _. tt)
            λ _.
              if-keeps Within
                (nat_eq (quota db resolved at).session_remaining 0
                  || nat_eq (quota db resolved at).profile_remaining 0)
                _ _ (λ _. tt) (λ room. admit_keys-Within db keys i owner (quota-HasRoom db room))

  admit_cleaned-Within :
      (db : WakeDb) (keys : Option (List String)) (i : String) (owner : Option String)
      → Within (admit_cleaned core at db resolved keys i owner)
  unfolding admit_cleaned
  admit_cleaned-Within db none i owner = tt
  admit_cleaned-Within db (some []) i owner = tt
  admit_cleaned-Within db (some (key ∷ keys)) i owner =
      if-keeps Within (ltb admit_max_delivery_ids (length (key ∷ keys))) _ _ (λ _. tt)
        (λ _. admit_session-Within db (key ∷ keys) i owner (core.get_session resolved))

  admit-Within :
      (db : WakeDb) (keys : List String) (i : String) (owner : Option String)
      → Within (admit core at db resolved keys i owner)
  unfolding admit
  admit-Within db keys i owner =
      if-keeps Within core.bindings_ready _ _
        (λ _. admit_cleaned-Within db (clean_keys core.strip_lower keys []) i owner) (λ _. tt)

-- After an admission, at the time of it, the window of the last hour holds at most 6 unreleased
-- batches of the session and at most 12 of the profile.
pub admit-within_limits :
    (core : Core) (at : ℕ) (db db' : WakeDb) (resolved : String) (keys : List String) (i j : String)
    (owner : Option String) (claims : List Claim) (ignored : List String)
    (rejected : List (String × Reason))
    → admit core at db resolved keys i owner ≡ ok (Reply.admitted j claims ignored rejected, db')
    → (session_used db' resolved at ≤ 6) × (profile_used db' at ≤ 12)
admit-within_limits core at db db' resolved keys i j owner claims ignored rejected e =
    subst (Within core at resolved) e (admit-Within core at resolved db keys i owner)
