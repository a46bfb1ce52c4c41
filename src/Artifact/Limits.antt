-- ===== src/Artifact/Limits.antt =====
-- compat/artifact_quota.py: the live bytes stay within the limits, and a reservation is finalized
-- once.
use hermes_app.Base.{
  ℕ, ◌+◌, ◌≤◌, String, Bool, true, false, not, ◌||◌, ◌≡◌, refl, List, [], ◌∷◌, ◌++◌, ◌==◌, arith,
  ok, raised, Exc, committed, committed-bind, committed-if, ltb, nat_eq, inl, inr, Bool-cases,
  eq_iff,
}
use hermes_app.Base.Table.{exists, count, update, delete, insert, insert-ok, sum_of}
use hermes_app.Artifact.Defs.{
  Reservation, Settings, principal_bytes, global_bytes, limit, has_token, of_principal, is_artifact,
  clash, is_expired, global_used, principal_used, new_reservation, reserve_live, reserve, unnamed,
  named, finalize, cancel, release, expire, Op, step, play,
}
use hermes_app.Artifact.Sums.{
  sum_of-append_one, sum_of-append_other, sum_of-delete, sum_of-update, count-update_none,
}

module _ (env : Settings) where
  -- The bytes of all rows and of each principal's rows are within the limits.
  pub record WithinLimits (rows : List Reservation) : Type 0 where
    pub globally : global_used rows ≤ limit env.global_setting global_bytes
    pub per_principal :
        (p : String) → principal_used p rows ≤ limit env.principal_setting principal_bytes

  delete-WithinLimits :
      (gone : Reservation → Bool) (rows : List Reservation)
      → WithinLimits rows
      → WithinLimits (delete gone rows)
  unfolding global_used principal_used
  delete-WithinLimits gone rows h = record {
    globally =
        let less = sum_of-delete (λ (r : Reservation). r.size_bytes) (λ _. true) gone rows in
        let bound = h.globally in omega arith;
    per_principal = λ p.
        let less = sum_of-delete (λ (r : Reservation). r.size_bytes) (of_principal p) gone rows in
        let bound = h.per_principal p in omega arith;
  }

  reserved-WithinLimits :
      (now : ℕ) (token principal : String) (size ttl : ℕ) (rows : List Reservation)
      → principal_used principal rows + size ≤ limit env.principal_setting principal_bytes
      → global_used rows + size ≤ limit env.global_setting global_bytes
      → WithinLimits rows
      → WithinLimits (rows ++ (new_reservation now token principal size ttl ∷ []))
  unfolding global_used principal_used new_reservation
  reserved-WithinLimits now token principal size ttl rows room_principal room_global h = record {
    globally =
        let more =
          sum_of-append_one (λ (r : Reservation). r.size_bytes) (λ _. true) rows
            (new_reservation now token principal size ttl) in
        omega arith;
    per_principal = λ p. elim (Bool-cases (principal == p)) [
      | inl same ↦
          let more =
            sum_of-append_one (λ (r : Reservation). r.size_bytes) (of_principal p) rows
              (new_reservation now token principal size ttl) in
          let equal : principal ≡ p = ground (arith, eq_iff principal p) in
          let room : sum_of (λ (r : Reservation). r.size_bytes) (of_principal p) rows + size
              ≤ limit env.principal_setting principal_bytes =
            rw equal at room_principal in
          omega arith
      | inr other ↦
          let others =
            sum_of-append_other (λ (r : Reservation). r.size_bytes) (of_principal p) rows
              (new_reservation now token principal size ttl) (unfold of_principal in other) in
          let bound = h.per_principal p in rw others bound
    ];
  }

  reserve_live-WithinLimits :
      (now : ℕ) (token principal : String) (size ttl : ℕ) (rows old : List Reservation)
      → WithinLimits old
      → WithinLimits rows
      → WithinLimits (committed old (reserve_live env now token principal size ttl rows))
  unfolding reserve_live
  reserve_live-WithinLimits now token principal size ttl rows old before h =
      committed-if WithinLimits old
        (ltb (limit env.principal_setting principal_bytes) (principal_used principal rows + size)
          || ltb (limit env.global_setting global_bytes) (global_used rows + size))
        _ _ (λ _. before)
        λ fits.
          committed-bind WithinLimits old
            (insert clash (new_reservation now token principal size ttl) rows) _ before
            λ more made. rw (insert-ok clash _ rows more made).0 (
              reserved-WithinLimits now token principal size ttl rows (ground arith) (ground arith)
                h)

  named-WithinLimits :
      (token root artifact : String) (expires : ℕ) (rows : List Reservation)
      → WithinLimits rows
      → WithinLimits (update (unnamed token) (named root artifact expires) rows)
  unfolding global_used principal_used named of_principal
  named-WithinLimits token root artifact expires rows h = record {
    globally =
        rw
          (sum_of-update (λ (r : Reservation). r.size_bytes) (λ _. true) (unnamed token)
            (named root artifact expires) rows (λ _. refl) (λ _. refl))
          h.globally;
    per_principal = λ p.
        rw
          (sum_of-update (λ (r : Reservation). r.size_bytes) (of_principal p) (unnamed token)
            (named root artifact expires) rows (λ _. refl) (λ _. refl))
          (h.per_principal p);
  }

  finalize-WithinLimits :
      (token root artifact : String) (expires : ℕ) (rows : List Reservation)
      → WithinLimits rows
      → WithinLimits (committed rows (finalize token root artifact expires rows))
  unfolding finalize
  finalize-WithinLimits token root artifact expires rows h =
      committed-if WithinLimits rows (not (nat_eq (count (unnamed token) rows) 1)) _ _ (λ _. h)
        λ _.
          committed-if WithinLimits rows (exists (is_artifact root artifact) rows) _ _ (λ _. h)
            λ _. named-WithinLimits token root artifact expires rows h

  step-WithinLimits :
      (rows : List Reservation) (op : Op) → WithinLimits rows → WithinLimits (step env rows op)
  unfolding step reserve cancel release expire
  step-WithinLimits rows (Op.reserving now token principal size ttl) h =
      committed-if WithinLimits rows (principal == "") _ _ (λ _. h)
        λ _.
          reserve_live-WithinLimits now token principal size ttl (delete (is_expired now) rows) rows
            h (delete-WithinLimits (is_expired now) rows h)
  step-WithinLimits rows (Op.finalizing token root artifact expires) h =
      finalize-WithinLimits token root artifact expires rows h
  step-WithinLimits rows (Op.cancelling token) h = delete-WithinLimits (has_token token) rows h
  step-WithinLimits rows (Op.releasing root artifact) h =
      delete-WithinLimits (is_artifact root artifact) rows h
  step-WithinLimits rows (Op.expiring now) h = delete-WithinLimits (is_expired now) rows h

  play-keeps :
      (rows : List Reservation) (ops : List Op)
      → WithinLimits rows
      → WithinLimits (play env rows ops)
  unfolding play
  play-keeps rows [] h = h
  play-keeps rows (op ∷ ops) h = play-keeps (step env rows op) ops (step-WithinLimits rows op h)

  none-WithinLimits : WithinLimits []
  unfolding global_used principal_used
  none-WithinLimits = record { globally = omega arith; per_principal = λ p. omega arith }

-- Whatever operations run from an empty table while the environment stays, the reserved bytes are
-- within the global limit, and those of every principal within the limit of a principal.
pub play-WithinLimits : (env : Settings) (ops : List Op) → WithinLimits env (play env [] ops)
play-WithinLimits env ops = play-keeps env [] ops (none-WithinLimits env)

renamed :
    (root artifact token : String) (expires : ℕ) (r : Reservation)
    → unnamed token (named root artifact expires r) ≡ false
unfolding unnamed named
renamed root artifact token expires r = ground arith

-- A reservation is finalized once: a second call with its token raises, with any artifact.
pub finalize-once :
    (token root artifact root' artifact' : String) (expires expires' : ℕ)
    (rows rows' : List Reservation)
    → finalize token root artifact expires rows ≡ ok (tt, rows')
    → finalize token root' artifact' expires' rows' ≡ raised Exc.runtime_error
unfolding finalize
finalize-once token root artifact root' artifact' expires expires' rows rows' h =
    let made : rows' ≡ update (unnamed token) (named root artifact expires) rows = ground arith in
    let gone =
      count-update_none (unnamed token) (named root artifact expires) rows
        (renamed root artifact token expires) in
    let none_left : count (unnamed token) rows' ≡ 0 = rw made gone in rw none_left refl
