-- ===== src/Chain/Human.antt =====
-- compat/self_wake.py: `chain_human_checkpoint`, the search for a human message after a fire.
use hermes_app.Base.{
  ℕ, zero, suc, String, Bool, true, false, not, ◌&&◌, ◌||◌, Option, none, some, List, [], ◌∷◌, ◌==◌,
  ltb, nat_eq, take, if◌then◌else◌,
}
use hermes_app.Base.Table.{select}

-- A row of the core's query, a message of a user that is shown as such; content that is no text is none.
pub record Message : Type 0 where
  pub id : ℕ
  pub timestamp : ℕ
  pub content : Option String

-- What the search does with a text: Python's `strip`, whether it starts with the prefix of a report,
-- and the text after the loop that cuts the canonical inputs off its end.
pub record Texts : Type 0 where
  pub strip : String → String
  pub is_report : String → Bool
  pub without_inputs : String → String

abbrev pub page_size : ℕ
page_size = 128

-- `m.timestamp > stamp OR (m.timestamp = stamp AND m.id > mid)`
unfoldable pub is_after : ℕ → ℕ → Message → Bool
is_after stamp mid m = ltb stamp m.timestamp || (nat_eq m.timestamp stamp && ltb mid m.id)

unfoldable pub is_human_text : Texts → String → Bool
is_human_text t text = if t.is_report text then false else not (t.without_inputs text == "")

unfoldable pub is_human : Texts → Message → Bool
is_human t m = elim m.content [ none ↦ false | some content ↦ is_human_text t (t.strip content) ]

-- The `for` over a page.
abbrev pub any_human : Texts → List Message → Bool
any_human t [] = false
any_human t (m ∷ rest) = let more = any_human t rest in if is_human t m then true else more

-- The last row of a page.
abbrev pub last_of : Message → List Message → Message
last_of m [] = m
last_of m (x ∷ rest) = last_of x rest

-- The rows of the query: `messages` are the user's rows in the order of time and identifier.
unfoldable pub page : List Message → ℕ → ℕ → ℕ → List Message
page messages since stamp mid =
    take page_size (select (λ m. ltb since m.timestamp && is_after stamp mid m) messages)

abbrev pub page_or : List Message → (Message → Option Bool) → Option Bool
page_or [] go = some false
page_or (m ∷ rest) go = go (last_of m rest)

-- The `while` loop, on fuel; none is a loop that has not ended.
unfoldable pub search_pages : Texts → List Message → ℕ → ℕ → ℕ → ℕ → Option Bool
search_pages t messages since zero stamp mid = none
search_pages t messages since (suc fuel) stamp mid =
    let rest =
      page_or (page messages since stamp mid)
        (λ m. search_pages t messages since fuel m.timestamp m.id) in
    if any_human t (page messages since stamp mid) then some true else rest

-- What the core's query does: it raises, or it has rows.
unfoldable pub human_checkpoint : Texts → ℕ → Option (List Message) → ℕ → Option Bool
human_checkpoint t fuel none since = some false
human_checkpoint t fuel (some messages) since = search_pages t messages since fuel since 0
