-- ===== src/Tickets/Sniff.antt =====
-- compat/wsbridge.py: `TicketConnection.data_received`, which reads the first bytes of a connection.
use hermes_app.Base.{
  ℕ, ◌*◌, Bool, true, false, not, ◌&&◌, ◌||◌, List, [], ◌∷◌, ◌++◌, ltb, nat_eq, length,
  if◌then◌else◌,
}
use hermes_app.Base.Table.{exists}

abbrev pub ticket_request_max : ℕ
ticket_request_max = 16 * 1024

-- `passed` is what the websocket parser has received, `answers` what was answered in its place.
pub record Connection : Type 0 where
  pub sniffed : List ℕ
  pub sniffing : Bool
  pub answered : Bool
  pub passed : List ℕ
  pub answers : List (List ℕ)

abbrev pub opened : Connection
opened = record { sniffed = []; sniffing = true; answered = false; passed = []; answers = [] }

unfoldable pub starts_with : List ℕ → List ℕ → Bool
starts_with xs [] = true
starts_with [] (p ∷ ps) = false
starts_with (x ∷ xs) (p ∷ ps) = nat_eq x p && starts_with xs ps

unfoldable pub contains : List ℕ → List ℕ → Bool
contains [] sub = starts_with [] sub
contains (x ∷ xs) sub = starts_with (x ∷ xs) sub || contains xs sub

abbrev pub line_end : List ℕ
line_end = 13 ∷ 10 ∷ []

abbrev pub head_end : List ℕ
head_end = 13 ∷ 10 ∷ 13 ∷ 10 ∷ []

-- "POST ", "GET " and their beginnings.
abbrev pub ticket_partials : List (List ℕ)
ticket_partials =
    (80 ∷ 79 ∷ 83 ∷ 84 ∷ 32 ∷ [])
    ∷ (71 ∷ 69 ∷ 84 ∷ 32 ∷ [])
    ∷ (80 ∷ [])
    ∷ (80 ∷ 79 ∷ [])
    ∷ (80 ∷ 79 ∷ 83 ∷ [])
    ∷ (71 ∷ [])
    ∷ (71 ∷ 69 ∷ [])
    ∷ []

-- Whether the bytes are no ticket request; `matches` is the regular expression `TICKET_LINE`.
unfoldable pub is_settled : (List ℕ → Bool) → List ℕ → Bool
is_settled matches head =
    if contains head line_end
    then not (matches head)
    else if ltb ticket_request_max (length head)
    then true
    else not (exists (starts_with head) ticket_partials)

unfoldable pub sniff : (List ℕ → Bool) → List ℕ → Connection → Connection
sniff matches head c =
    if is_settled matches head
    then record c { sniffing = false; sniffed = []; passed = c.passed ++ head }
    else if contains head head_end
    then record c {
      sniffing = false;
      sniffed = [];
      answered = true;
      answers = c.answers ++ (head ∷ []);
    }
    else record c { sniffed = head }

-- `data_received`
unfoldable pub data_received : (List ℕ → Bool) → Connection → List ℕ → Connection
data_received matches c bytes =
    if c.answered
    then c
    else if not c.sniffing
    then record c { passed = c.passed ++ bytes }
    else sniff matches (c.sniffed ++ bytes) c
