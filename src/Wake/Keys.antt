-- ===== src/Wake/Keys.antt =====
-- compat/auto_wake_store.py: how `admit` cleans the keys of a request.
use Prim.Native.Char.{Char, code}
use Prim.Native.String.{String, count}
use hermes_app.Base.{
  Bool, true, ◌&&◌, ◌||◌, Option, none, some, List, [], ◌∷◌, ◌++◌, leb, nat_eq, ◌==◌, if◌then◌else◌,
}
use hermes_app.Base.Table.{exists}

-- `c in "0123456789abcdef"`
unfoldable pub is_hex_digit : Char → Bool
is_hex_digit c = (leb 48 (code c) && leb (code c) 57) || (leb 97 (code c) && leb (code c) 102)

unfoldable pub all_hex : String → Bool
all_hex String.[] = true
all_hex (String.◌∷◌ c s) = is_hex_digit c && all_hex s

-- A key has the form of a digest.
unfoldable pub is_delivery_key : String → Bool
is_delivery_key key = nat_eq (count key) 64 && all_hex key

-- The loop over the raw keys; none for a duplicate.
unfoldable pub clean_keys : (String → String) → List String → List String → Option (List String)
clean_keys clean [] seen = some seen
clean_keys clean (raw ∷ rest) seen =
    let skip = clean_keys clean rest seen in
    let keep = clean_keys clean rest (seen ++ (clean raw ∷ [])) in
    if is_delivery_key (clean raw)
    then (if exists (λ k. k == clean raw) seen then none else keep)
    else skip
