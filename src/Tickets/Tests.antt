-- ===== src/Tickets/Tests.antt =====
-- compat/wsbridge.py: small runs of the door and of a connection, and the theorems at concrete
-- inputs. The key is "k"; a text's bytes are its code points.
use hermes_app.Base.{
  ℕ, ◌⊎◌, String, Bool, true, false, ◌≡◌, ◌++◌, refl, none, List, [], ◌∷◌, run_all,
}
use hermes_app.Tickets.Store.{has_digest, same_digest, is_over, prune, live, put, mint, redeem}
use hermes_app.Tickets.Door.{
  split_lines, before, after, left_strip, strip_bytes, is_authorization, authorization_of, Door,
  bearer_ok, Request, let_in, unauthorized, try_tickets, authorize, issued, answer_ticket_request,
  Op, asking, opening, told, gated, step, serve,
}
use hermes_app.Tickets.Sniff.{
  opened, starts_with, contains, head_end, is_settled, sniff, data_received,
}
use hermes_app.Tickets.Book.{spec_serve}
use hermes_app.Tickets.Refine.{serve-refines}
use hermes_app.Tickets.Passed.{joined, connection_transparent}

program : Unit {0}
unfolding has_digest same_digest is_over prune live put mint redeem split_lines before after
    left_strip strip_bytes is_authorization authorization_of bearer_ok try_tickets authorize
    answer_ticket_request step serve starts_with contains is_settled sniff data_received
program = tt

abbrev door : Door
door = record {
  digest = λ t. t;
  ttl = 60;
  key = 107 ∷ [];
  lower = λ t. t;
  strip = λ t. t;
  encode = λ t. t;
  tickets_of = λ query. query ∷ [];
}

-- "x", a line end, "Authorization: bearer k", a line end.
abbrev head : List ℕ
head =
    120 ∷ 13 ∷ 10 ∷ 65 ∷ 117 ∷ 116 ∷ 104 ∷ 111 ∷ 114 ∷ 105 ∷ 122 ∷ 97 ∷ 116 ∷ 105 ∷ 111 ∷ 110 ∷ 58
    ∷ 32 ∷ 98 ∷ 101 ∷ 97 ∷ 114 ∷ 101 ∷ 114 ∷ 32 ∷ 107 ∷ 13 ∷ 10 ∷ []

abbrev with_ticket : String → Request
with_ticket t = record { path = "/api/bridge/ws"; query = t; authorization = [] }

abbrev ops : List Op
ops =
    asking 10 10 "t" head
    ∷ opening 20 (with_ticket "t")
    ∷ opening 21 (with_ticket "t")
    ∷ asking 30 30 "u" head
    ∷ opening 90 (with_ticket "u")
    ∷ []

-- A ticket opens the door once, and not after its time.
opens_once :
    serve door ops []
    ≡ told (issued "t" 60)
      ∷ gated let_in
      ∷ gated unauthorized
      ∷ told (issued "u" 60)
      ∷ gated unauthorized
      ∷ []
unfolding program
opens_once = refl

serve-refines_example : serve door ops [] ≡ spec_serve door ops (λ d. none)
serve-refines_example = serve-refines door ops

abbrev never : List ℕ → Bool
never bytes = false

abbrev chunks : List (List ℕ)
chunks = (71 ∷ 69 ∷ []) ∷ (84 ∷ 32 ∷ 47 ∷ 13 ∷ 10 ∷ []) ∷ (1 ∷ 2 ∷ []) ∷ []

passes_all :
    (run_all (data_received never) opened chunks).passed
    ≡ 71 ∷ 69 ∷ 84 ∷ 32 ∷ 47 ∷ 13 ∷ 10 ∷ 1 ∷ 2 ∷ []
unfolding program
passes_all = refl

connection_transparent_example :
    let c = run_all (data_received never) opened chunks in
    ((c.answered ≡ false) × (c.answers ≡ []) × (c.passed ++ c.sniffed ≡ joined chunks))
    ⊎ ((c.answered ≡ true)
        × (c.passed ≡ [])
        × ((head : List ℕ) × (rest : List ℕ) × (c.answers ≡ head ∷ [])
            × (head ++ rest ≡ joined chunks)
            × (contains head head_end ≡ true)))
connection_transparent_example = connection_transparent never chunks
