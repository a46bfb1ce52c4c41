-- ===== src/Tickets/Refine.antt =====
-- compat/wsbridge.py: the door with its dictionary answers as a door with a book of tickets, a
-- function from digests to the time at which a ticket stops.
use hermes_app.Base.{
  ℕ, ◌+◌, String, Bool, not, ◌≡◌, ◌∙◌, refl, ap, Option, none, some, List, [], ◌∷◌, ◌==◌, arith,
  inl, inr, Bool-cases, if-keeps, eq_iff, if◌then◌else◌, is_some,
}
use hermes_app.Base.Table.{exists, Unique, Unique-delete, Unique-update, Unique-append, All-Apart}
use hermes_app.Tickets.Store.{Ticket, has_digest, same_digest, is_over, prune, put, mint, redeem}
use hermes_app.Tickets.Door.{
  Door, let_in, unauthorized, authorization_of, bearer_ok, try_tickets, authorize,
  answer_ticket_request, Op, asking, opening, Reply, gated, step, serve,
}
use hermes_app.Tickets.Book.{
  Book, alive, written, use_ticket, spec_step, spec_serve, Agrees, stop_of-prune, stop_of-put,
  stop_of-delete, exists-stop_of, pop_found-last_known,
}

prune-Agrees :
    (now : ℕ) (tickets : List Ticket) (book : Book)
    → Agrees tickets book
    → Agrees (prune now tickets) (λ d. alive now (book d))
prune-Agrees now tickets book (u, same) = (
  unfold prune in Unique-delete same_digest (is_over now) tickets u,
  λ d. stop_of-prune now d tickets u ∙ ap (alive now) (same d),
)

put-Unique :
    (d : String) (at : ℕ) (tickets : List Ticket)
    → Unique same_digest tickets
    → Unique same_digest (put d at tickets)
unfolding put
put-Unique d at tickets u =
    if-keeps (Unique same_digest) (exists (has_digest d) tickets) _ _
      (λ _.
        Unique-update same_digest (has_digest d) (λ t. record t { stops_at = at })
          (λ x y. unfold same_digest has_digest in (refl, refl)) tickets u)
      (λ absent.
        Unique-append same_digest (record { digest = d; stops_at = at }) tickets
          (All-Apart same_digest symmetric (record { digest = d; stops_at = at }) tickets
            (unfold same_digest in absent))
          u)
  where
    symmetric : (x y : Ticket) → same_digest x y ≡ same_digest y x
    symmetric x y =
        unfold same_digest has_digest in
        ground (arith, eq_iff x.digest y.digest, eq_iff y.digest x.digest)

mint-Agrees :
    (digest : String → String) (ttl now later : ℕ) (ticket : String) (tickets : List Ticket)
    (book : Book)
    → Agrees tickets book
    → Agrees
        (mint digest ttl now later ticket tickets)
        (written now (digest ticket) (some (later + ttl)) book)
unfolding mint
mint-Agrees digest ttl now later ticket tickets book h =
    let (u, same) = prune-Agrees now tickets book h in
    (
      put-Unique (digest ticket) (later + ttl) (prune now tickets) u,
      λ d.
          stop_of-put (digest ticket) d (later + ttl) (prune now tickets)
          ∙ ap (λ (o : Option ℕ). if digest ticket == d then some (later + ttl) else o) (same d),
    )

-- A redeem answers whether the book has the ticket, and strikes it out.
redeem-Agrees :
    (digest : String → String) (now : ℕ) (ticket : String) (tickets : List Ticket) (book : Book)
    → Agrees tickets book
    → ((redeem digest now ticket tickets).0 ≡ is_some (alive now (book (digest ticket))))
      × Agrees (redeem digest now ticket tickets).1 (written now (digest ticket) none book)
unfolding redeem
redeem-Agrees digest now ticket tickets book h =
    let (u, same) = prune-Agrees now tickets book h in
    rw (pop_found-last_known (digest ticket) (prune now tickets)) (
      exists-stop_of (digest ticket) (prune now tickets) ∙ ap is_some (same (digest ticket)),
      (
        Unique-delete same_digest (has_digest (digest ticket)) (prune now tickets) u,
        λ d.
            stop_of-delete (digest ticket) d (prune now tickets)
            ∙ ap (λ (o : Option ℕ). if digest ticket == d then none else o) (same d),
      ),
    )

try_tickets-Agrees :
    (door : Door) (now : ℕ) (sent : List String) (tickets : List Ticket) (book : Book)
    → Agrees tickets book
    → ((try_tickets door now sent tickets).0 ≡ (use_ticket door now sent book).0)
      × Agrees (try_tickets door now sent tickets).1 (use_ticket door now sent book).1
unfolding try_tickets
try_tickets-Agrees door now [] tickets book h = (refl, h)
try_tickets-Agrees door now (t ∷ []) tickets book h =
    let (told_same, left) = redeem-Agrees door.digest now t tickets book h in
    (ap (λ (b : Bool). if b then let_in else unauthorized) told_same, left)
try_tickets-Agrees door now (t ∷ u ∷ rest) tickets book h = (refl, h)

-- The same reply, and dictionary and book agree again.
abbrev Matched : Reply × List Ticket → Reply × Book → Type 0
Matched a b = (a.0 ≡ b.0) × Agrees a.1 b.1

step-Matched :
    (door : Door) (op : Op) (tickets : List Ticket) (book : Book)
    → Agrees tickets book
    → Matched (step door op tickets) (spec_step door op book)
unfolding step answer_ticket_request authorize
step-Matched door (asking now later ticket head) tickets book h =
    elim (Bool-cases (bearer_ok door (authorization_of head))) [
      | inl good ↦ rw good (refl, mint-Agrees door.digest door.ttl now later ticket tickets book h)
      | inr bad ↦ rw bad (refl, h)
    ]
step-Matched door (opening now request) tickets book h =
    elim (Bool-cases (not (request.path == "/api/bridge/ws"))) [
      | inl wrong ↦ rw wrong (refl, h)
      | inr right ↦ elim (Bool-cases (bearer_ok door request.authorization)) [
        | inl good ↦ rw (right, good) (refl, h)
        | inr bad ↦
            let (same, left) =
              try_tickets-Agrees door now (door.tickets_of request.query) tickets book h in
            rw (right, bad) (ap gated same, left)
      ]
    ]

serve-Agrees :
    (door : Door) (ops : List Op) (tickets : List Ticket) (book : Book)
    → Agrees tickets book
    → serve door ops tickets ≡ spec_serve door ops book
unfolding serve
serve-Agrees door [] tickets book h = refl
serve-Agrees door (op ∷ ops) tickets book h =
    let (same, after) = step-Matched door op tickets book h in
    rw same (
      ap (λ (l : List Reply). (spec_step door op book).0 ∷ l)
        (serve-Agrees door ops (step door op tickets).1 (spec_step door op book).1 after))

-- From an empty store, every sequence of requests for tickets and requests to open the websocket,
-- with any tickets, digests, keys and readings of the clock, is answered as by the book: a ticket
-- opens the door where it is the only one sent, was issued, has not stopped, and was not used
-- since.
pub serve-refines :
    (door : Door) (ops : List Op) → serve door ops [] ≡ spec_serve door ops (λ d. none)
serve-refines door ops = serve-Agrees door ops [] (λ d. none) (tt, λ d. refl)
