-- ===== src/Tickets/Book.antt =====
-- compat/wsbridge.py: the book of tickets, and how the dictionary's statements act on it.
use hermes_app.Base.{
  ℕ, ◌+◌, String, Bool, true, false, not, ◌||◌, ◌≡◌, ◌∙◌, refl, ap, Option, none, some, List, [],
  ◌∷◌, ◌++◌, ◌==◌, leb, arith, inl, inr, Bool-cases, All, eq_iff, if◌then◌else◌, is_some,
}
use hermes_app.Base.Table.{find, exists, update, delete, Unique, Apart}
use hermes_app.Tickets.Store.{
  Ticket, has_digest, same_digest, is_over, prune, put, last_known, pop_found,
}
use hermes_app.Tickets.Door.{
  Door, Gate, let_in, not_found, unauthorized, refused, issued, authorization_of, bearer_ok, Op,
  asking, opening, Reply, told, gated,
}

abbrev pub Book : Type 0
Book = String → Option ℕ

-- A ticket that has stopped is none.
abbrev pub alive : ℕ → Option ℕ → Option ℕ
alive now none = none
alive now (some at) = if leb at now then none else some at

-- A ticket's time is written into the book, or struck out, and stopped tickets go.
abbrev pub written : ℕ → String → Option ℕ → Book → Book
written now d time book e = if d == e then time else alive now (book e)

-- One ticket opens the door while it is in the book, and is struck out.
abbrev pub use_ticket : Door → ℕ → List String → Book → Gate × Book
use_ticket door now [] book = (unauthorized, book)
use_ticket door now (t ∷ []) book = (
  (if is_some (alive now (book (door.digest t))) then let_in else unauthorized),
  written now (door.digest t) none book,
)
use_ticket door now (t ∷ u ∷ rest) book = (unauthorized, book)

abbrev pub spec_step : Door → Op → Book → Reply × Book
spec_step door (asking now later ticket head) book =
    if bearer_ok door (authorization_of head)
    then (
      told (issued ticket door.ttl),
      written now (door.digest ticket) (some (later + door.ttl)) book,
    )
    else (told refused, book)
spec_step door (opening now request) book =
    if not (request.path == "/api/bridge/ws")
    then (gated not_found, book)
    else if bearer_ok door request.authorization
    then (gated let_in, book)
    else (
      gated (use_ticket door now (door.tickets_of request.query) book).0,
      (use_ticket door now (door.tickets_of request.query) book).1,
    )

abbrev pub spec_serve : Door → List Op → Book → List Reply
spec_serve door [] book = []
spec_serve door (op ∷ ops) book =
    (spec_step door op book).0 ∷ spec_serve door ops (spec_step door op book).1

abbrev stop_in : Option Ticket → Option ℕ
stop_in none = none
stop_in (some t) = some t.stops_at

abbrev stop_of : String → List Ticket → Option ℕ
stop_of d tickets = stop_in (find (has_digest d) tickets)

-- The dictionary holds what the book says, each digest once.
abbrev pub Agrees : List Ticket → Book → Type 0
Agrees tickets book = Unique same_digest tickets × ((d : String) → stop_of d tickets ≡ book d)

no_other :
    (d : String) (t : Ticket) (p : Ticket → Bool) (tickets : List Ticket)
    → All (Apart same_digest t) tickets
    → has_digest d t ≡ true
    → find (has_digest d) (delete p tickets) ≡ none
unfolding same_digest has_digest
no_other d t p [] apart mine = refl
no_other d t p (x ∷ tickets) apart mine = ground (
  arith,
  mine,
  apart.0.0,
  eq_iff t.digest d,
  eq_iff x.digest d,
  eq_iff x.digest t.digest,
  no_other d t p tickets apart.1 mine,
)

pub stop_of-prune :
    (now : ℕ) (d : String) (tickets : List Ticket)
    → Unique same_digest tickets
    → stop_of d (prune now tickets) ≡ alive now (stop_of d tickets)
unfolding prune is_over
stop_of-prune now d [] u = refl
stop_of-prune now d (t ∷ tickets) u =
    at (leb t.stops_at now) (has_digest d t) refl refl (stop_of-prune now d tickets u.1)
  where
    at :
        (over mine : Bool)
        → leb t.stops_at now ≡ over
        → has_digest d t ≡ mine
        → stop_of d (prune now tickets) ≡ alive now (stop_of d tickets)
        → stop_of d (if over then prune now tickets else t ∷ prune now tickets)
          ≡ alive now (stop_in (if mine then some t else find (has_digest d) tickets))
    at true true e m rest = ap stop_in (no_other d t (is_over now) tickets u.0 m) ∙ rw e refl
    at true false e m rest = rest
    at false true e m rest = rw (m, e) refl
    at false false e m rest = rw m rest

stop_of-update :
    (d e : String) (at : ℕ) (tickets : List Ticket)
    → exists (has_digest d) tickets ≡ true
    → stop_of e (update (has_digest d) (λ t. record t { stops_at = at }) tickets)
      ≡ (if d == e then some at else stop_of e tickets)
unfolding has_digest
stop_of-update d e at [] there = cc
stop_of-update d e at (t ∷ tickets) there = ground (
  arith,
  there,
  eq_iff t.digest d,
  eq_iff t.digest e,
  eq_iff d e,
  stop_of-update d e at tickets,
  unlisted d e at tickets,
)
  where
    unlisted :
        (d e : String) (at : ℕ) (xs : List Ticket)
        → (d == e) ≡ false
        → stop_of e (update (has_digest d) (λ t. record t { stops_at = at }) xs) ≡ stop_of e xs
    unlisted d e at [] apart = refl
    unlisted d e at (x ∷ xs) apart =
        ground (arith, apart, eq_iff x.digest d, eq_iff x.digest e, eq_iff d e, unlisted d e at xs)

stop_of-append :
    (d e : String) (at : ℕ) (tickets : List Ticket)
    → exists (has_digest d) tickets ≡ false
    → stop_of e (tickets ++ (record { digest = d; stops_at = at } ∷ []))
      ≡ (if d == e then some at else stop_of e tickets)
unfolding has_digest
stop_of-append d e at [] absent = ground arith
stop_of-append d e at (t ∷ tickets) absent =
    ground (
      arith,
      absent,
      eq_iff t.digest d,
      eq_iff t.digest e,
      eq_iff d e,
      stop_of-append d e at tickets,
    )

pub stop_of-put :
    (d e : String) (at : ℕ) (tickets : List Ticket)
    → stop_of e (put d at tickets) ≡ (if d == e then some at else stop_of e tickets)
unfolding put
stop_of-put d e at tickets = elim (Bool-cases (exists (has_digest d) tickets)) [
  | inl there ↦ rw there (stop_of-update d e at tickets there)
  | inr absent ↦ rw absent (stop_of-append d e at tickets absent)
]

pub stop_of-delete :
    (d e : String) (tickets : List Ticket)
    → stop_of e (delete (has_digest d) tickets) ≡ (if d == e then none else stop_of e tickets)
unfolding has_digest
stop_of-delete d e [] = ground arith
stop_of-delete d e (t ∷ tickets) =
    ground (arith, eq_iff t.digest d, eq_iff t.digest e, eq_iff d e, stop_of-delete d e tickets)

pub exists-stop_of :
    (d : String) (tickets : List Ticket)
    → exists (has_digest d) tickets ≡ is_some (stop_of d tickets)
exists-stop_of d [] = refl
exists-stop_of d (t ∷ tickets) = ground (arith, exists-stop_of d tickets)

-- The loop over the digests finds the one that it looks for, or keeps what it had.
last_known-found :
    (d : String) (found : Option String) (tickets : List Ticket)
    → last_known d found tickets ≡ (if exists (has_digest d) tickets then some d else found)
unfolding has_digest
last_known-found d found [] = refl
last_known-found d found (t ∷ tickets) =
    at (t.digest == d) refl (last_known-found d (some t.digest) tickets)
      (last_known-found d found tickets)
  where
    at :
        (mine : Bool)
        → (t.digest == d) ≡ mine
        → last_known d (some t.digest) tickets
          ≡ (if exists (has_digest d) tickets then some d else some t.digest)
        → last_known d found tickets ≡ (if exists (has_digest d) tickets then some d else found)
        → last_known d (if mine then some t.digest else found) tickets
          ≡ (if mine || exists (has_digest d) tickets then some d else found)
    at true e now later = ground (arith, now, e, eq_iff t.digest d)
    at false e now later = later

delete-absent :
    (q : Ticket → Bool) (tickets : List Ticket)
    → exists q tickets ≡ false
    → delete q tickets ≡ tickets
delete-absent q [] h = refl
delete-absent q (t ∷ tickets) h = ground (arith, delete-absent q tickets)

pub pop_found-last_known :
    (d : String) (tickets : List Ticket)
    → pop_found (last_known d none tickets) tickets
      ≡ (exists (has_digest d) tickets, delete (has_digest d) tickets)
pop_found-last_known d tickets = elim (Bool-cases (exists (has_digest d) tickets)) [
  | inl there ↦
      rw (last_known-found d none tickets, there)
        (ap (λ (b : Bool). (b, delete (has_digest d) tickets)) there)
  | inr absent ↦
      rw (last_known-found d none tickets, absent, delete-absent (has_digest d) tickets absent) refl
]
