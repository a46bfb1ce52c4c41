-- ===== src/Synthetic/Defs.antt =====
-- compat/crosssource.py: the class `SyntheticRuns`. An OrderedDict is the list of its entries, with
-- their keys, in the order of insertion.
use hermes_app.Base.{
  ℕ, zero, suc, ◌+◌, ◌*◌, String, Bool, false, ◌||◌, Option, none, some, List, [], ◌∷◌, ◌++◌, ◌==◌,
  leb, length, is_some, truthy, or_text, if◌then◌else◌,
}
use hermes_app.Base.Table.{find, exists, update, delete}

pub record Entry : Type 0 where
  pub run_id : String
  pub session_id : String
  pub session_key : String
  pub admission_id : Option String
  pub terminal : Option String
  pub issued_at : ℕ
  pub expires_at : Option ℕ

-- The arguments of `__init__`.
pub record Policy : Type 0 where
  pub entry_cap : ℕ
  pub grace : ℕ
  pub max_age : ℕ

abbrev pub default_policy : Policy
default_policy = record { entry_cap = 256; grace = 300; max_age = 24 * 3600 }

unfoldable pub has_run : String → Entry → Bool
has_run i e = e.run_id == i

unfoldable pub same_run : Entry → Entry → Bool
same_run a b = has_run a.run_id b

abbrev pub due : ℕ → Option ℕ → Bool
due now none = false
due now (some at) = leb at now

-- What `_prune` deletes.
unfoldable pub is_expired : Policy → ℕ → Entry → Bool
is_expired p now e = leb (e.issued_at + p.max_age) now || due now e.expires_at

unfoldable pub prune : Policy → ℕ → List Entry → List Entry
prune p now entries = delete (is_expired p now) entries

unfoldable pub is_released : Entry → Bool
is_released e = is_some e.expires_at

-- What a round of the loop pops; none is the StopIteration of an empty dictionary.
unfoldable pub pop_one : Option Entry → List Entry → Option (List Entry)
pop_one (some e) entries = some (delete (has_run e.run_id) entries)
pop_one none [] = none
pop_one none (e ∷ entries) = some (delete (has_run e.run_id) (e ∷ entries))

-- How a loop may end: by its test, by an exception, or with no fuel left.
pub data Room : Type 0 where
  room : List Entry → Room
  stopped : Room
  unfinished : Room

abbrev pub continue_with : Option (List Entry) → (List Entry → Room) → Room
continue_with none go = stopped
continue_with (some entries) go = go entries

-- `while len(self._entries) >= self.cap`.
unfoldable pub make_room : ℕ → ℕ → List Entry → Room
make_room zero cap' entries = unfinished
make_room (suc fuel) cap' entries =
    let rest = continue_with (pop_one (find is_released entries) entries) (make_room fuel cap') in
    if leb cap' (length entries) then rest else room entries

unfoldable pub new_entry : ℕ → String → String → String → Entry
new_entry now i sid key = record {
  run_id = i;
  session_id = sid;
  session_key = key;
  admission_id = none;
  terminal = none;
  issued_at = now;
  expires_at = none;
}

-- `self._entries[run_id] = ...`
unfoldable pub put : Entry → List Entry → List Entry
put e entries =
    if exists (same_run e) entries
    then update (same_run e) (λ old. e) entries
    else entries ++ (e ∷ [])

abbrev pub put_in_room : Entry → Room → Option (List Entry)
put_in_room e (room entries) = some (put e entries)
put_in_room e stopped = none
put_in_room e unfinished = none

-- `issue`, with the fresh identifier `i`; a round for each entry is fuel enough.
unfoldable pub issue : Policy → ℕ → String → String → String → List Entry → Option (List Entry)
issue p now i sid key entries =
    let kept = prune p now entries in
    put_in_room (new_entry now i sid key) (make_room (suc (length kept)) p.entry_cap kept)

unfoldable pub bind : String → Option String → List Entry → List Entry
bind i named entries =
    if truthy named
    then update (has_run i) (λ e. record e { admission_id = named }) entries
    else entries

-- `_TERMINAL_STATUS.get`
unfoldable pub terminal_status : Option String → Option String
terminal_status none = none
terminal_status (some ended) =
    if ended == "run.completed"
    then some "completed"
    else if ended == "run.failed"
    then some "failed"
    else if ended == "run.cancelled"
    then some "cancelled"
    else if ended == "run.interrupted"
    then some "interrupted"
    else none

unfoldable pub released : Policy → ℕ → Option String → Entry → Entry
released p now ended e = record e {
  terminal = terminal_status ended;
  expires_at = some (now + p.grace);
}

unfoldable pub release : Policy → ℕ → String → Option String → List Entry → List Entry
release p now i ended entries = update (has_run i) (released p now ended) entries

-- `entry`
unfoldable pub entry_of : Policy → ℕ → String → List Entry → Option Entry × List Entry
entry_of p now i entries = let kept = prune p now entries in (find (has_run i) kept, kept)

-- `__len__`
unfoldable pub count_runs : Policy → ℕ → List Entry → ℕ × List Entry
count_runs p now entries = let kept = prune p now entries in (length kept, kept)

-- What the core knows of an entry's turn: it fails, it has no admission, or it projects one.
pub data CoreView : Type 0 where
  unreadable absent : CoreView
  admission : String → CoreView

-- `resolve`: an identifier that is not known, a turn that the core projects, or a terminal answer.
pub data RunView : Type 0 where
  unknown : RunView
  projected : String → RunView
  ended_as : String → String → Option String → RunView

abbrev pub status_or : Option String → String → String
status_or none other = other
status_or (some s) other = or_text s other

unfoldable pub view_of : CoreView → Entry → RunView
view_of (CoreView.admission text) e = RunView.projected text
view_of CoreView.absent e =
    RunView.ended_as (status_or e.terminal "completed") e.session_id e.admission_id
view_of CoreView.unreadable e =
    RunView.ended_as (status_or e.terminal "completed") e.session_id e.admission_id

abbrev pub view_found : (Entry → CoreView) → Option Entry → RunView
view_found core none = RunView.unknown
view_found core (some e) = view_of (core e) e

unfoldable pub resolve :
    Policy → (Entry → CoreView) → ℕ → String → List Entry → RunView × List Entry
resolve p core now i entries =
    let (found, kept) = entry_of p now i entries in (view_found core found, kept)

pub data Op : Type 0 where
  issuing : ℕ → String → String → String → Op
  binding : String → Option String → Op
  releasing : ℕ → String → Option String → Op
  reading : ℕ → String → Op
  counting : ℕ → Op

abbrev pub kept_or : List Entry → Option (List Entry) → List Entry
kept_or old none = old
kept_or old (some new) = new

-- An `issue` that raises has popped every entry before.
unfoldable pub step : Policy → List Entry → Op → List Entry
step p entries (Op.issuing now i sid key) = kept_or [] (issue p now i sid key entries)
step p entries (Op.binding i named) = bind i named entries
step p entries (Op.releasing now i ended) = release p now i ended entries
step p entries (Op.reading now i) = (entry_of p now i entries).1
step p entries (Op.counting now) = (count_runs p now entries).1
