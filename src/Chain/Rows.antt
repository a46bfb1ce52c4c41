-- ===== src/Chain/Rows.antt =====
-- compat/self_wake.py: what the writes do to the row of a lineage.
use hermes_app.Base.{
  ℕ, String, Bool, true, false, ◌||◌, ◌≡◌, ◌∙◌, refl, Option, none, some, List, [], ◌∷◌, ◌==◌, leb,
  arith, inl, inr, Bool-cases, if-keeps, eq_iff, if◌then◌else◌, nat_eq,
}
use hermes_app.Base.Table.{find, find-some, find-append, find-update, exists-find, exists, upsert}
use hermes_app.Chain.Defs.{
  Chain, ChainDb, chain_of, chain_clash, noted, fired_once, chain_note, fused_at, fresh_chain,
  audited, fault_fuse, failed_at, fails_of, chain_fail, third_failure, resettable, reset_at,
  reset_chain, release_found, chain_release, checkpoint_at, checkpoint_found, checkpoint_if_human,
}

missed :
    (q p : Chain → Bool) (xs : List Chain) (x : Chain)
    → find q xs ≡ some x
    → exists p xs ≡ false
    → p x ≡ false
missed q p [] x found none_there = cc
missed q p (y ∷ xs) x found none_there = ground (arith, missed q p xs x)

find-upsert :
    (q : Chain → Bool) (clash : Chain → Chain → Bool) (f : Chain → Chain) (r : Chain)
    (xs : List Chain) (x : Chain)
    → find q xs ≡ some x
    → ((y : Chain) → q (f y) ≡ q y)
    → find q (upsert clash f r xs) ≡ some (if clash r x then f x else x)
find-upsert q clash f r xs x found keeps = elim (Bool-cases (exists (clash r) xs)) [
  | inl there ↦ rw there (find-update q (clash r) f xs keeps ∙ rw found refl)
  | inr absent ↦
      rw absent (find-append q xs (r ∷ []) ∙ rw (found, missed q (clash r) xs x found absent) refl)
]

own_lineage : (lineage : String) (r : Chain) → r.session_id ≡ lineage → chain_of lineage r ≡ true
unfolding chain_of
own_lineage lineage r named = ground (arith, named, eq_iff r.session_id lineage)

-- The row of a lineage after an upsert under it.
abbrev pub made : (Chain → Chain) → Chain → Option Chain → Chain
made f r none = r
made f r (some c) = f c

pub find-upsert_own :
    (lineage : String) (f : Chain → Chain) (r : Chain) (xs : List Chain)
    → r.session_id ≡ lineage
    → ((y : Chain) → chain_of lineage (f y) ≡ chain_of lineage y)
    → find (chain_of lineage) (upsert chain_clash f r xs)
      ≡ some (made f r (find (chain_of lineage) xs))
unfolding chain_clash
find-upsert_own lineage f r xs named keeps = at (find (chain_of lineage) xs) refl
  where
    at :
        (o : Option Chain)
        → find (chain_of lineage) xs ≡ o
        → find (chain_of lineage) (upsert chain_clash f r xs) ≡ some (made f r o)
    at (some c) found =
        find-upsert (chain_of lineage) chain_clash f r xs c found keeps
        ∙ rw (named, find-some (chain_of lineage) xs c found) refl
    at none found =
        let absent : exists (chain_of r.session_id) xs ≡ false =
          rw named (exists-find (chain_of lineage) xs ∙ rw found refl) in
        rw absent (
          find-append (chain_of lineage) xs (r ∷ []) ∙ rw (found, own_lineage lineage r named) refl)

-- A reset of a lineage does not meet the row of another.
pub unlike_lineage :
    (l lineage : String) (fires : ℕ) (last : Option ℕ) (clear_fuse : Bool) (c : Chain)
    (chains : List Chain)
    → (l == lineage) ≡ false
    → find (chain_of lineage) chains ≡ some c
    → resettable l fires last clear_fuse c ≡ true
    → ⊥
unfolding chain_of resettable
unlike_lineage l lineage fires last clear_fuse c chains apart found hit = ground (
  arith,
  apart,
  hit,
  find-some (chain_of lineage) chains c found,
  eq_iff c.session_id l,
  eq_iff c.session_id lineage,
  eq_iff l lineage,
)

-- The lineage has a row with a property.
module _ (P : Chain → Type 0) (lineage : String) where
  abbrev pub Has : ChainDb → Type 0
  Has db = (c : Chain) × (find (chain_of lineage) db.chains ≡ some c) × P c

  upsert-Has :
      (f : Chain → Chain) (r : Chain) (db : ChainDb)
      → ((y : Chain) → chain_of lineage (f y) ≡ chain_of lineage y)
      → ((y : Chain) → P y → P (f y))
      → Has db
      → Has (record db { chains = upsert chain_clash f r db.chains })
  upsert-Has f r db same keeps (c, found, h) = (
    (if chain_clash r c then f c else c),
    find-upsert (chain_of lineage) chain_clash f r db.chains c found same,
    if-keeps P (chain_clash r c) (f c) c (λ _. keeps c h) (λ _. h),
  )

  module _ (on_note : (now : ℕ) (c : Chain) → P c → P (noted now c))
      (on_fail : (now : ℕ) (c : Chain) → P c → P (failed_at now c))
      (on_fuse : (now : ℕ) (c : Chain) → P c → P (fused_at now c)) where
    pub chain_note-Has : (now : ℕ) (l : String) (db : ChainDb) → Has db → Has (chain_note now l db)
    unfolding chain_note
    chain_note-Has now l db h =
        upsert-Has (noted now) (fired_once now l) db (λ y. unfold chain_of noted in refl)
          (on_note now) h

    pub fault_fuse-Has :
        (now : ℕ) (l reason : String) (db : ChainDb) → Has db → Has (fault_fuse now l reason db)
    unfolding fault_fuse audited
    fault_fuse-Has now l reason db h =
        upsert-Has (fused_at now) (fresh_chain now l true 0) db
          (λ y. unfold chain_of fused_at in refl) (on_fuse now) h

    pub chain_fail-Has :
        (now : ℕ) (l reason : String) (db : ChainDb) → Has db → Has (chain_fail now l reason db).1
    unfolding chain_fail
    chain_fail-Has now l reason db h =
        let counted : ChainDb = record db {
          chains = upsert chain_clash (failed_at now) (fresh_chain now l false 1) db.chains;
        } in
        let more : Has counted =
          upsert-Has (failed_at now) (fresh_chain now l false 1) db
            (λ y. unfold chain_of failed_at in refl) (on_fail now) h in
        if-keeps (λ (o : Bool × ChainDb). Has o.1)
          (leb 3 (fails_of (find (chain_of l) counted.chains)))
          (true, fault_fuse now l (third_failure reason) counted) (false, counted)
          (λ _. fault_fuse-Has now l (third_failure reason) counted more) (λ _. more)

  reset_chain-Has :
      (now : ℕ) (l reason : String) (fires : ℕ) (last : Option ℕ) (clear_fuse : Bool) (db : ChainDb)
      → ((c : Chain)
          → find (chain_of lineage) db.chains ≡ some c
          → P c
          → resettable l fires last clear_fuse c ≡ true
          → P (reset_at now c))
      → Has db
      → Has (reset_chain now l reason fires last clear_fuse db).1
  unfolding reset_chain audited
  reset_chain-Has now l reason fires last clear_fuse db keeps (c, found, h) =
      if-keeps (λ (o : Bool × ChainDb). Has o.1)
        (exists (resettable l fires last clear_fuse) db.chains) _ _
        (λ _. (
          (if resettable l fires last clear_fuse c then reset_at now c else c),
          find-update (chain_of lineage) (resettable l fires last clear_fuse) (reset_at now)
                db.chains (λ y. unfold chain_of reset_at in refl)
              ∙ rw found refl,
          if-keeps P (resettable l fires last clear_fuse c) (reset_at now c) c
              (λ hit. keeps c found h hit) (λ _. h),
        ))
        (λ _. (c, found, h))

  pub checkpoint_if_human-Has :
      (now : ℕ) (l : String) (human : ℕ → Bool) (db : ChainDb)
      → ((c : Chain) (fires last : ℕ)
          → find (chain_of lineage) db.chains ≡ some c
          → P c
          → human last ≡ true
          → resettable l fires (some last) false c ≡ true
          → P (reset_at now c))
      → Has db
      → Has (checkpoint_if_human now l human db).1
  unfolding checkpoint_if_human
  checkpoint_if_human-Has now l human db keeps h = at (find (chain_of l) db.chains)
    where
      timed : (fires : ℕ) (last : Option ℕ) → Has (checkpoint_at now l human fires last db).1
      timed fires none = h
      timed fires (some last) =
          if-keeps (λ (o : Bool × ChainDb). Has o.1) (human last) _ _
            (λ yes'.
              reset_chain-Has now l "human-checkpoint" fires (some last) false db
                (λ c found k hit. keeps c fires last found k yes' hit) h)
            (λ _. h)

      at : (o : Option Chain) → Has (checkpoint_found now l human o db).1
      at none = unfold checkpoint_found in h
      at (some c) =
          unfold checkpoint_found in
          if-keeps (λ (o : Bool × ChainDb). Has o.1) (c.fused || nat_eq c.fires 0) _ _ (λ _. h)
            (λ _. timed c.fires c.last_fire_at)

  pub chain_release-Has :
      (now : ℕ) (l : String) (expected : Option ℕ) (db : ChainDb)
      → (l == lineage) ≡ false
      → Has db
      → Has (chain_release now l expected db).1
  unfolding chain_release
  chain_release-Has now l expected db apart h = at (find (chain_of l) db.chains)
    where
      at : (o : Option Chain) → Has (release_found now l expected o db).1
      at none = unfold release_found in h
      at (some c) =
          unfold release_found in
          if-keeps (λ (o : Bool × ChainDb). Has o.1) _ _ _ (λ _. h)
            (λ _.
              reset_chain-Has now l "admin" c.fires c.last_fire_at true db
                (λ x found k hit.
                  absurd (unlike_lineage l lineage _ _ _ x db.chains apart found hit))
                h)
