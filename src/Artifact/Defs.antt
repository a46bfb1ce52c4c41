-- ===== src/Artifact/Defs.antt =====
-- compat/artifact_quota.py: the table `reservations` and its operations. `now` is the clock's
-- reading, `token` the fresh identifier that `reserve` makes, `root` the resolved path of a store.
use hermes_app.Base.{
  ℕ, ◌+◌, ◌*◌, ◌^◌, max, String, Bool, true, not, ◌&&◌, ◌||◌, Option, none, some, List, [], ◌∷◌,
  ◌==◌, if◌then◌else◌, Result, ok, raised, Exc, ◌>>=◌, ltb, leb, nat_eq, opt_eq, is_some, committed,
}
use hermes_app.Base.Table.{exists, count, update, delete, insert, sum_of}

pub record Reservation : Type 0 where
  pub token : String
  pub principal : String
  pub size_bytes : ℕ
  pub store_root : Option String
  pub artifact_id : Option String
  pub expires_at : ℕ

abbrev pub principal_bytes : ℕ
principal_bytes = 2 ^ 30

abbrev pub global_bytes : ℕ
global_bytes = 4 * 2 ^ 30

-- `_limit`, on the number that the environment's variable holds: none if it is not set or is no
-- number, and 0 for any number that is not above 0.
unfoldable pub limit : Option ℕ → ℕ → ℕ
limit none default = default
limit (some value) default = if ltb 0 value then value else default

unfoldable pub has_token : String → Reservation → Bool
has_token t r = r.token == t

unfoldable pub of_principal : String → Reservation → Bool
of_principal p r = r.principal == p

-- WHERE store_root=? AND artifact_id=?
unfoldable pub is_artifact : String → String → Reservation → Bool
is_artifact root artifact r =
    opt_eq r.store_root (some root) && opt_eq r.artifact_id (some artifact)

-- The two columns of the unique index, which keeps no rows apart where one of them is NULL.
unfoldable pub same_artifact : Reservation → Reservation → Bool
same_artifact a b =
    is_some a.store_root
    && (is_some a.artifact_id
        && (opt_eq b.store_root a.store_root && opt_eq b.artifact_id a.artifact_id))

unfoldable pub clash : Reservation → Reservation → Bool
clash a b = has_token a.token b || same_artifact a b

-- expires_at <= now
unfoldable pub is_expired : ℕ → Reservation → Bool
is_expired now r = leb r.expires_at now

unfoldable pub global_used : List Reservation → ℕ
global_used rows = sum_of (λ r. r.size_bytes) (λ _. true) rows

unfoldable pub principal_used : String → List Reservation → ℕ
principal_used p rows = sum_of (λ r. r.size_bytes) (of_principal p) rows

-- The limits that the environment sets.
pub record Settings : Type 0 where
  pub principal_setting : Option ℕ
  pub global_setting : Option ℕ

unfoldable pub new_reservation : ℕ → String → String → ℕ → ℕ → Reservation
new_reservation now token principal size ttl = record {
  token = token;
  principal = principal;
  size_bytes = size;
  store_root = none;
  artifact_id = none;
  expires_at = now + max 3600 (ttl + 60);
}

-- The transaction of `reserve` after the expired rows are gone.
unfoldable pub reserve_live :
    Settings → ℕ → String → String → ℕ → ℕ → List Reservation → Result (String × List Reservation)
reserve_live env now token principal size ttl rows =
    if ltb (limit env.principal_setting principal_bytes) (principal_used principal rows + size)
      || ltb (limit env.global_setting global_bytes) (global_used rows + size)
    then raised Exc.quota_exceeded
    else (do
      more ← insert clash (new_reservation now token principal size ttl) rows
      ok (token, more))

-- `reserve`; a size below 0 is refused there, and a size here is not below 0.
unfoldable pub reserve :
    Settings → ℕ → String → String → ℕ → ℕ → List Reservation → Result (String × List Reservation)
reserve env now token principal size ttl rows =
    if principal == ""
    then raised Exc.quota_exceeded
    else reserve_live env now token principal size ttl (delete (is_expired now) rows)

-- WHERE token=? AND artifact_id IS NULL
unfoldable pub unnamed : String → Reservation → Bool
unnamed t r = has_token t r && not (is_some r.artifact_id)

unfoldable pub named : String → String → ℕ → Reservation → Reservation
named root artifact expires r = record r {
  store_root = some root;
  artifact_id = some artifact;
  expires_at = expires;
}

-- `finalize`: the unique index refuses an artifact that another row has.
unfoldable pub finalize :
    String → String → String → ℕ → List Reservation → Result (Unit {0} × List Reservation)
finalize token root artifact expires rows =
    if not (nat_eq (count (unnamed token) rows) 1)
    then raised Exc.runtime_error
    else if exists (is_artifact root artifact) rows
    then raised Exc.integrity_error
    else ok (tt, update (unnamed token) (named root artifact expires) rows)

unfoldable pub cancel : String → List Reservation → List Reservation
cancel token rows = delete (has_token token) rows

unfoldable pub release : String → String → List Reservation → List Reservation
release root artifact rows = delete (is_artifact root artifact) rows

unfoldable pub expire : ℕ → List Reservation → List Reservation
expire now rows = delete (is_expired now) rows

pub data Op : Type 0 where
  reserving : ℕ → String → String → ℕ → ℕ → Op
  finalizing : String → String → String → ℕ → Op
  cancelling : String → Op
  releasing : String → String → Op
  expiring : ℕ → Op

module _ (env : Settings) where
  -- A write that raises is rolled back.
  unfoldable pub step : List Reservation → Op → List Reservation
  step rows (Op.reserving now token principal size ttl) =
      committed rows (reserve env now token principal size ttl rows)
  step rows (Op.finalizing token root artifact expires) =
      committed rows (finalize token root artifact expires rows)
  step rows (Op.cancelling token) = cancel token rows
  step rows (Op.releasing root artifact) = release root artifact rows
  step rows (Op.expiring now) = expire now rows

  unfoldable pub play : List Reservation → List Op → List Reservation
  play rows [] = rows
  play rows (op ∷ ops) = play (step rows op) ops
