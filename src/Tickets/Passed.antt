-- ===== src/Tickets/Passed.antt =====
-- compat/wsbridge.py: what reaches the websocket parser of a connection.
use hermes_app.Base.{
  ℕ, ◌⊎◌, Bool, true, false, not, ◌≡◌, ◌∙◌, refl, sym, ap, List, [], ◌∷◌, ◌++◌, inl, inr, if-keeps,
  run_all,
}
use mathlib.Core.Path.{subst}
use mathlib.Core.List.{append-nil, append_assoc}
use hermes_app.Tickets.Sniff.{
  Connection, opened, contains, head_end, is_settled, sniff, data_received,
}

abbrev pub joined : List (List ℕ) → List ℕ
joined [] = []
joined (x ∷ xs) = x ++ joined xs

-- Answered: one head was, a beginning of the bytes that came in.
abbrev Answered : List ℕ → Connection → Type 0
Answered all c =
    (head : List ℕ) × (rest : List ℕ) × (c.answers ≡ head ∷ [])
    × (head ++ rest ≡ all)
    × (contains head head_end ≡ true)

-- Not answered: all bytes are kept back, or all are passed on.
abbrev Flowing : List ℕ → Connection → Type 0
Flowing all c =
    ((c.sniffing ≡ true) × (c.passed ≡ []) × (c.sniffed ≡ all))
    ⊎ ((c.sniffing ≡ false) × (c.sniffed ≡ []) × (c.passed ≡ all))

abbrev Transparent : List ℕ → Connection → Type 0
Transparent all c =
    ((c.answered ≡ false) × (c.answers ≡ []) × Flowing all c)
    ⊎ ((c.answered ≡ true) × (c.passed ≡ []) × Answered all c)

not_both : (b : Bool) → b ≡ true → not b ≡ true → ⊥
not_both true p q = cc
not_both false p q = cc

not_neither : (b : Bool) → b ≡ false → not b ≡ false → ⊥
not_neither true p q = cc
not_neither false p q = cc

sniff-Transparent :
    (matches : List ℕ → Bool) (head : List ℕ) (c : Connection)
    → c.answered ≡ false
    → c.answers ≡ []
    → c.sniffing ≡ true
    → c.passed ≡ []
    → Transparent head (sniff matches head c)
unfolding sniff
sniff-Transparent matches head c open_one none_told on none_passed =
    if-keeps (Transparent head) (is_settled matches head) _ _
      (λ _. inl (open_one, none_told, inr (refl, refl, ap (λ (l : List ℕ). l ++ head) none_passed)))
      (λ _.
        if-keeps (Transparent head) (contains head head_end) _ _
          (λ whole. inr (
            refl,
            none_passed,
            (
              head,
              [],
              ap (λ (l : List (List ℕ)). l ++ (head ∷ [])) none_told,
              append-nil head,
              whole,
            ),
          ))
          (λ _. inl (open_one, none_told, inl (on, none_passed, refl))))

data_received-Transparent :
    (matches : List ℕ → Bool) (all bytes : List ℕ) (c : Connection)
    → Transparent all c
    → Transparent (all ++ bytes) (data_received matches c bytes)
unfolding data_received
data_received-Transparent matches all bytes c
      (inr (done, none_passed, (head, rest, told, start, whole))) =
    if-keeps (Transparent (all ++ bytes)) c.answered _ _
      (λ _. inr (
        done,
        none_passed,
        (
          head,
          rest ++ bytes,
          told,
          sym (append_assoc head rest bytes) ∙ ap (λ (l : List ℕ). l ++ bytes) start,
          whole,
        ),
      ))
      (λ no. absurd (at done no))
  where
    at : {b : Bool} → b ≡ true → b ≡ false → ⊥
    at p q = cc
data_received-Transparent matches all bytes c (inl (open_one, none_told, flow)) =
    if-keeps (Transparent (all ++ bytes)) c.answered _ _ (λ yes'. absurd (at yes' open_one))
      (λ _.
        if-keeps (Transparent (all ++ bytes)) (not c.sniffing) _ _ (λ off. passing flow off)
          (λ on. reading flow on))
  where
    at : {b : Bool} → b ≡ true → b ≡ false → ⊥
    at p q = cc

    passing :
        Flowing all c
        → not c.sniffing ≡ true
        → Transparent (all ++ bytes) (record c { passed = c.passed ++ bytes })
    passing (inl (on, none_passed, kept)) off = absurd (not_both c.sniffing on off)
    passing (inr (off, none_kept, sent)) _ =
        inl (open_one, none_told, inr (off, none_kept, ap (λ (l : List ℕ). l ++ bytes) sent))

    reading :
        Flowing all c
        → not c.sniffing ≡ false
        → Transparent (all ++ bytes) (sniff matches (c.sniffed ++ bytes) c)
    reading (inl (on, none_passed, kept)) _ =
        rw (← kept)
          (sniff-Transparent matches (c.sniffed ++ bytes) c open_one none_told on none_passed)
    reading (inr (off, none_kept, sent)) on = absurd (not_neither c.sniffing off on)

run_all-Transparent :
    (matches : List ℕ → Bool) (all : List ℕ) (c : Connection) (chunks : List (List ℕ))
    → Transparent all c
    → Transparent (all ++ joined chunks) (run_all (data_received matches) c chunks)
run_all-Transparent matches all c [] h = subst (λ l. Transparent l c) (sym (append-nil all)) h
run_all-Transparent matches all c (bytes ∷ chunks) h =
    subst
      (λ l. Transparent l (run_all (data_received matches) (data_received matches c bytes) chunks))
      (append_assoc all bytes (joined chunks))
      (run_all-Transparent matches (all ++ bytes) (data_received matches c bytes) chunks
        (data_received-Transparent matches all bytes c h))

-- However the bytes of a connection are cut into chunks: either it was not answered and the bytes
-- passed on, with those still kept back behind them, are the bytes received; or it was answered
-- once, on a head that is a beginning of the bytes received and contains the blank line, and nothing
-- was passed on.
pub connection_transparent :
    (matches : List ℕ → Bool) (chunks : List (List ℕ))
    → let c = run_all (data_received matches) opened chunks in
      ((c.answered ≡ false) × (c.answers ≡ []) × (c.passed ++ c.sniffed ≡ joined chunks))
      ⊎ ((c.answered ≡ true)
          × (c.passed ≡ [])
          × ((head : List ℕ) × (rest : List ℕ) × (c.answers ≡ head ∷ [])
              × (head ++ rest ≡ joined chunks)
              × (contains head head_end ≡ true)))
connection_transparent matches chunks =
    read (run_all (data_received matches) opened chunks)
      (run_all-Transparent matches [] opened chunks (inl (refl, refl, inl (refl, refl, refl))))
  where
    read :
        (c : Connection)
        → Transparent (joined chunks) c
        → ((c.answered ≡ false) × (c.answers ≡ []) × (c.passed ++ c.sniffed ≡ joined chunks))
          ⊎ ((c.answered ≡ true)
              × (c.passed ≡ [])
              × ((head : List ℕ) × (rest : List ℕ) × (c.answers ≡ head ∷ [])
                  × (head ++ rest ≡ joined chunks)
                  × (contains head head_end ≡ true)))
    read c (inr done) = inr done
    read c (inl (open_one, none_told, inl (on, none_passed, kept))) =
        inl (open_one, none_told, ap (λ (l : List ℕ). l ++ c.sniffed) none_passed ∙ kept)
    read c (inl (open_one, none_told, inr (off, none_kept, sent))) = inl (
      open_one,
      none_told,
      ap (λ (l : List ℕ). c.passed ++ l) none_kept ∙ append-nil c.passed ∙ sent,
    )
