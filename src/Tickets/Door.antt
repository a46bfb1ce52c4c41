-- ===== src/Tickets/Door.antt =====
-- compat/wsbridge.py: who gets a ticket, and who may open the websocket: `_authorization_of`,
-- `bearer_ok`, `authorize` and `answer_ticket_request`. Bytes and texts are lists of numbers.
use hermes_app.Base.{
  ℕ, ◌+◌, String, Bool, true, false, not, ◌&&◌, ◌||◌, List, [], ◌∷◌, map, ◌==◌, leb, nat_eq,
  if◌then◌else◌,
}
use hermes_app.Base.Table.{select}
use hermes_app.Tickets.Store.{Ticket, mint, redeem}

abbrev pub same_bytes : List ℕ → List ℕ → Bool
same_bytes [] [] = true
same_bytes [] (y ∷ ys) = false
same_bytes (x ∷ xs) [] = false
same_bytes (x ∷ xs) (y ∷ ys) = nat_eq x y && same_bytes xs ys

-- `split(b"\r\n")`: the line that is read, in reverse, then the lines after it.
abbrev pub reversed : List ℕ → List ℕ → List ℕ
reversed [] out = out
reversed (x ∷ xs) out = reversed xs (x ∷ out)

unfoldable pub split_lines : List ℕ → List ℕ → List (List ℕ)
split_lines line [] = reversed line [] ∷ []
split_lines line (x ∷ []) = reversed (x ∷ line) [] ∷ []
split_lines line (x ∷ y ∷ rest) =
    let next = split_lines (x ∷ line) (y ∷ rest) in
    let cut = split_lines [] rest in
    if nat_eq x 13 && nat_eq y 10 then reversed line [] ∷ cut else next

-- `partition`, before and after the first separator.
unfoldable pub before : ℕ → List ℕ → List ℕ
before sep [] = []
before sep (x ∷ xs) = let rest = before sep xs in if nat_eq x sep then [] else x ∷ rest

unfoldable pub after : ℕ → List ℕ → List ℕ
after sep [] = []
after sep (x ∷ xs) = let rest = after sep xs in if nat_eq x sep then xs else rest

-- The white space of bytes: tab to carriage return, and the space.
abbrev pub is_space : ℕ → Bool
is_space x = nat_eq x 32 || (leb 9 x && leb x 13)

unfoldable pub left_strip : List ℕ → List ℕ
left_strip [] = []
left_strip (x ∷ xs) = let rest = left_strip xs in if is_space x then rest else x ∷ xs

unfoldable pub strip_bytes : List ℕ → List ℕ
strip_bytes xs = reversed (left_strip (reversed (left_strip xs) [])) []

abbrev pub lower_byte : ℕ → ℕ
lower_byte x = if leb 65 x && leb x 90 then x + 32 else x

-- b"authorization"
abbrev pub authorization_name : List ℕ
authorization_name = 97 ∷ 117 ∷ 116 ∷ 104 ∷ 111 ∷ 114 ∷ 105 ∷ 122 ∷ 97 ∷ 116 ∷ 105 ∷ 111 ∷ 110 ∷ []

unfoldable pub is_authorization : List ℕ → Bool
is_authorization line =
    same_bytes (map lower_byte (strip_bytes (before 58 line))) authorization_name

abbrev pub only_value : List (List ℕ) → List ℕ
only_value [] = []
only_value (v ∷ []) = strip_bytes (after 58 v)
only_value (v ∷ w ∷ rest) = []

abbrev pub tail_lines : List (List ℕ) → List (List ℕ)
tail_lines [] = []
tail_lines (x ∷ xs) = xs

-- `_authorization_of`; Latin-1 keeps the numbers.
unfoldable pub authorization_of : List ℕ → List ℕ
authorization_of head = only_value (select is_authorization (tail_lines (split_lines [] head)))

-- What is read elsewhere: the digest, the bridge's key as bytes, Python's `lower`, `strip` and
-- `encode` of a text, and `parse_qs(query).get("ticket", [])`.
pub record Door : Type 0 where
  pub digest : String → String
  pub ttl : ℕ
  pub key : List ℕ
  pub lower : List ℕ → List ℕ
  pub strip : List ℕ → List ℕ
  pub encode : List ℕ → List ℕ
  pub tickets_of : String → List String

-- "bearer"
abbrev pub bearer_name : List ℕ
bearer_name = 98 ∷ 101 ∷ 97 ∷ 114 ∷ 101 ∷ 114 ∷ []

abbrev pub is_set : List ℕ → Bool
is_set [] = false
is_set (x ∷ xs) = true

unfoldable pub bearer_ok : Door → List ℕ → Bool
bearer_ok door authorization =
    same_bytes (door.lower (before 32 authorization)) bearer_name
    && (is_set door.key && same_bytes (door.encode (door.strip (after 32 authorization))) door.key)

-- A request to open the websocket, with its target cut at the question mark.
pub record Request : Type 0 where
  pub path : String
  pub query : String
  pub authorization : List ℕ

-- `authorize` answers nothing where it lets a request through.
pub data Gate : Type 0 where
  let_in not_found unauthorized : Gate

unfoldable pub try_tickets : Door → ℕ → List String → List Ticket → Gate × List Ticket
try_tickets door now [] tickets = (unauthorized, tickets)
try_tickets door now (t ∷ []) tickets =
    let (good, left) = redeem door.digest now t tickets in
    ((if good then let_in else unauthorized), left)
try_tickets door now (t ∷ u ∷ rest) tickets = (unauthorized, tickets)

-- `authorize`
unfoldable pub authorize : Door → ℕ → Request → List Ticket → Gate × List Ticket
authorize door now request tickets =
    if not (request.path == "/api/bridge/ws")
    then (not_found, tickets)
    else if bearer_ok door request.authorization
    then (let_in, tickets)
    else try_tickets door now (door.tickets_of request.query) tickets

-- A new ticket with its lifetime, or a refusal.
pub data TicketAnswer : Type 0 where
  refused : TicketAnswer
  issued : String → ℕ → TicketAnswer

-- `answer_ticket_request`, with the fresh ticket and two readings of the clock.
unfoldable pub answer_ticket_request :
    Door → ℕ → ℕ → String → List ℕ → List Ticket → TicketAnswer × List Ticket
answer_ticket_request door now later ticket head tickets =
    if bearer_ok door (authorization_of head)
    then (issued ticket door.ttl, mint door.digest door.ttl now later ticket tickets)
    else (refused, tickets)

pub data Op : Type 0 where
  asking : ℕ → ℕ → String → List ℕ → Op
  opening : ℕ → Request → Op

pub data Reply : Type 0 where
  told : TicketAnswer → Reply
  gated : Gate → Reply

unfoldable pub step : Door → Op → List Ticket → Reply × List Ticket
step door (asking now later ticket head) tickets =
    let (answer, after) = answer_ticket_request door now later ticket head tickets in
    (told answer, after)
step door (opening now request) tickets =
    let (gate, after) = authorize door now request tickets in (gated gate, after)

unfoldable pub serve : Door → List Op → List Ticket → List Reply
serve door [] tickets = []
serve door (op ∷ ops) tickets =
    let (reply, after) = step door op tickets in reply ∷ serve door ops after
