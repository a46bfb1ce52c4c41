-- ===== src/Tickets/Store.antt =====
-- compat/wsbridge.py: the class `TicketStore`. The dictionary is the list of its items, in the order
-- of insertion; `digest` is SHA-256 in hexadecimal.
use hermes_app.Base.{
  ℕ, ◌+◌, String, Bool, false, Option, none, some, List, [], ◌∷◌, ◌++◌, ◌==◌, leb, length,
  if◌then◌else◌,
}
use hermes_app.Base.Table.{exists, update, delete}

pub record Ticket : Type 0 where
  pub digest : String
  pub stops_at : ℕ

abbrev pub ticket_ttl : ℕ
ticket_ttl = 60

unfoldable pub has_digest : String → Ticket → Bool
has_digest d t = t.digest == d

unfoldable pub same_digest : Ticket → Ticket → Bool
same_digest a b = has_digest a.digest b

unfoldable pub is_over : ℕ → Ticket → Bool
is_over now t = leb t.stops_at now

unfoldable pub prune : ℕ → List Ticket → List Ticket
prune now tickets = delete (is_over now) tickets

-- `live`
unfoldable pub live : ℕ → List Ticket → ℕ × List Ticket
live now tickets = let kept = prune now tickets in (length kept, kept)

-- `self.expiry[digest] = at`
unfoldable pub put : String → ℕ → List Ticket → List Ticket
put d at tickets =
    if exists (has_digest d) tickets
    then update (has_digest d) (λ t. record t { stops_at = at }) tickets
    else tickets ++ (record { digest = d; stops_at = at } ∷ [])

-- `mint` of a fresh ticket; the clock is read for the prune and again for the new ticket.
unfoldable pub mint : (String → String) → ℕ → ℕ → ℕ → String → List Ticket → List Ticket
mint digest ttl now later ticket tickets = put (digest ticket) (later + ttl) (prune now tickets)

-- The loop over the known digests: the last one that is equal.
abbrev pub last_known : String → Option String → List Ticket → Option String
last_known d found [] = found
last_known d found (t ∷ tickets) =
    last_known d (if has_digest d t then some t.digest else found) tickets

abbrev pub pop_found : Option String → List Ticket → Bool × List Ticket
pop_found none tickets = (false, tickets)
pop_found (some d) tickets = (exists (has_digest d) tickets, delete (has_digest d) tickets)

-- `redeem`
unfoldable pub redeem : (String → String) → ℕ → String → List Ticket → Bool × List Ticket
redeem digest now ticket tickets =
    let kept = prune now tickets in pop_found (last_known (digest ticket) none kept) kept
