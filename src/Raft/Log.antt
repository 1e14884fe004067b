-- ===== src/Raft/Log.antt =====
-- The private helpers of a node that read its log.
pub mod Facts
use kaelix.Base.{
  ℕ, suc, ◌+◌, ◌-◌, ltb, leb, ◌==◌, not, ◌||◌, if◌then◌else◌, Bool, true, false, List, [], ◌∷◌,
  ◌++◌, Option, none, some, length, get_elem?, get_last?, take, drop,
}
use kaelix.Raft.Types.{Term, LogIndex, LogEntry}

-- `last_log_info`, of the last entry.
abbrev pub entry_info : Option LogEntry → LogIndex × Term
entry_info none = (0, 0)
entry_info (some e) = (e.index, e.term)

unfoldable pub last_log_info : List LogEntry → LogIndex × Term
last_log_info log = entry_info (get_last? log)

unfoldable pub is_log_up_to_date : List LogEntry → LogIndex → Term → Bool
unfolding last_log_info
is_log_up_to_date log last_log_index last_log_term =
    let (our_last_index, our_last_term) = last_log_info log in
    if not (last_log_term == our_last_term)
    then ltb our_last_term last_log_term
    else leb our_last_index last_log_index

abbrev has_term : Term → Option LogEntry → Bool
has_term t none = false
has_term t (some e) = e.term == t

unfoldable pub check_log_consistency : List LogEntry → LogIndex → Term → Bool
check_log_consistency log prev_log_index prev_log_term =
    if prev_log_index == 0
    then true
    else has_term prev_log_term (get_elem? log (prev_log_index - 1))

-- The position of the first entry of a term, counted from `i`.
unfoldable pub first_of_term : Term → ℕ → List LogEntry → Option ℕ
first_of_term t i [] = none
first_of_term t i (e ∷ es) = if e.term == t then some i else first_of_term t (suc i) es

-- The position of the last entry of a term: the search from the back.
unfoldable pub last_of_term : Term → ℕ → List LogEntry → Option ℕ
last_of_term t i [] = none
last_of_term t i (e ∷ es) = elim (last_of_term t (suc i) es) [
  | some j ↦ some j
  | none ↦ if e.term == t then some i else none
]

abbrev conflict_of_term : Term → Option ℕ → LogIndex × Option Term
conflict_of_term t none = (1, none)
conflict_of_term t (some i) = (i + 1, some t)

abbrev conflict_of_entry : List LogEntry → Option LogEntry → LogIndex × Option Term
conflict_of_entry log none = (1, none)
conflict_of_entry log (some e) = conflict_of_term e.term (first_of_term e.term 0 log)

unfoldable pub find_conflict_info : List LogEntry → LogIndex → LogIndex × Option Term
find_conflict_info log prev_log_index =
    if ltb (length log) prev_log_index
    then (length log, none)
    else if ltb 0 prev_log_index
    then conflict_of_entry log (get_elem? log (prev_log_index - 1))
    else (1, none)

-- `truncate`, then a push of each entry.
unfoldable pub append_new_entries : List LogEntry → LogIndex → List LogEntry → List LogEntry
append_new_entries log prev_log_index entries = take prev_log_index log ++ entries

unfoldable pub get_entries_from : List LogEntry → LogIndex → List LogEntry
get_entries_from log start_index =
    if start_index == 0 || ltb (length log) start_index then [] else drop (start_index - 1) log
