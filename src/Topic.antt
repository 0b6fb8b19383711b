-- ===== src/Topic.antt =====
-- src/topic.cpp: topic names, topic filters and their matching. A string is the list of its bytes;
-- an index into it is the rest of the list from it on.
pub mod Levels
pub mod Valid
pub mod Match
mod Tests
use paho_cpp_static.Utf8.{is_valid_mqtt_string}
use paho_cpp_static.Prelude.{
  ℕ, List, Option, Bool, true, false, ◌==◌, none, length, if◌then◌else◌, ◌||◌, ltb, is_empty, ◌∷◌,
  ◌&&◌, get_or, [], not, some, ◌++◌, zero,
}
use Prim.Native.Nat.{ℕ, suc}

abbrev pub slash : ℕ
slash = b'/'

abbrev pub plus : ℕ
plus = b'+'

abbrev pub hash : ℕ
hash = b'#'

abbrev pub dollar : ℕ
dollar = b'$'

-- `c == '+' || c == '#'`.
abbrev pub is_wildcard : ℕ → Bool
is_wildcard c = c == plus || c == hash

-- The range-for over a topic name's bytes.
unfoldable pub name_chars : List ℕ → Bool
name_chars [] = true
name_chars (c ∷ rest) = if c == plus || c == hash || c == 0 then false else name_chars rest

unfoldable pub is_valid_topic_name : List ℕ → Bool
unfolding name_chars
is_valid_topic_name name =
    if is_empty name || ltb 65535 (length name)
    then false
    else if not (is_valid_mqtt_string name)
    then false
    else name_chars name

-- The inner loop over one level: no byte of it is a wildcard.
unfoldable pub no_wildcard : List ℕ → Bool
no_wildcard [] = true
no_wildcard (c ∷ rest) = if is_wildcard c then false else no_wildcard rest

-- The tests at a level's end.
unfoldable pub level_ok : List ℕ → Bool → Bool
level_ok level at_end =
    if ltb 1 (length level)
    then no_wildcard level
    else if length level == 1 && get_or level 0 0 == hash
    then at_end
    else true

-- The outer loop: `level` is filter[level_start, i), and the list is what is left from i on.
unfoldable pub filter_loop : List ℕ → List ℕ → Bool
filter_loop level [] = level_ok level true
filter_loop level (c ∷ rest) = elim (c == slash) [
  | true ↦ if level_ok level false then filter_loop [] rest else false
  | false ↦ if c == 0 then false else filter_loop (level ++ (c ∷ [])) rest
]

unfoldable pub is_valid_filter : List ℕ → Bool
unfolding filter_loop level_ok no_wildcard
is_valid_filter filter =
    if is_empty filter || ltb 65535 (length filter)
    then false
    else if not (is_valid_mqtt_string filter)
    then false
    else filter_loop [] filter

-- `a == b` on string views.
unfoldable pub eq_bytes : List ℕ → List ℕ → Bool
eq_bytes [] [] = true
eq_bytes [] (y ∷ ys) = false
eq_bytes (x ∷ xs) [] = false
eq_bytes (x ∷ xs) (y ∷ ys) = x == y && eq_bytes xs ys

-- The level at the front, and what stands behind its separator if there is one.
unfoldable pub next_level : List ℕ → List ℕ × Option (List ℕ)
next_level [] = ([], none)
next_level (c ∷ rest) =
    let (level, more) = next_level rest in if c == slash then ([], some rest) else (c ∷ level, more)

-- `level.size() == 1 && level[0] == c`.
abbrev pub is_single : List ℕ → ℕ → Bool
is_single level c = length level == 1 && get_or level 0 0 == c

-- One round of the loop over the levels of both: the tests on the two levels, and what follows
-- when one side has no more of them.
unfoldable pub match_round :
    (List ℕ → List ℕ → Bool) → List ℕ × Option (List ℕ) → List ℕ × Option (List ℕ) → Bool
match_round again (f_level, f_rest) (t_level, t_rest) = elim (is_single f_level hash) [
  | true ↦ true
  | false ↦
      if not (is_single f_level plus) && not (eq_bytes f_level t_level)
      then false
      else (elim f_rest [
        | none ↦ elim t_rest [ none ↦ true | some t ↦ false ]
        | some f ↦ elim t_rest [ none ↦ is_single f hash | some t ↦ again f t ]
      ])
]

-- Each round takes a byte of the filter at least, or is the last.
unfoldable pub match_loop : ℕ → List ℕ → List ℕ → Bool
match_loop zero f t = false
match_loop (suc fuel) f t = match_round (match_loop fuel) (next_level f) (next_level t)

unfoldable pub topic_matches : List ℕ → List ℕ → Bool
unfolding match_loop match_round next_level eq_bytes
topic_matches filter topic =
    if is_empty filter || is_empty topic
    then false
    else if get_or topic 0 0 == dollar && is_wildcard (get_or filter 0 0)
    then false
    else match_loop (suc (length filter)) filter topic
