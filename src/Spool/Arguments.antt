-- ===== src/Spool/Arguments.antt =====
-- The words of a command and the number of a job: hw4/src/cli.c, hw4/src/helpingFunction.c.
pub mod Numbers
use cse_320_repository.Base.{
  ℕ, ◌+◌, ◌-◌, ◌*◌, leb, ◌==◌, if◌then◌else◌, Bool, ◌&&◌, Option, none, some, List, [], ◌∷◌, get_or,
  Text,
}

-- A word in front of the words that follow, unless it is empty: `strtok` skips the spaces.
abbrev pub add_word : Text → List Text → List Text
add_word [] ws = ws
add_word (c ∷ w) ws = (c ∷ w) ∷ ws

-- The word that is read, and the words behind it.
unfoldable pub split_words : Text → Text × List Text
split_words [] = ([], [])
split_words (c ∷ cs) =
    let (w, ws) = split_words cs in if c == b' ' then ([], add_word w ws) else (c ∷ w, ws)

-- The words that the calls `strtok(s, " ")`, `strtok(NULL, " ")` return until NULL.
unfoldable pub strtok : Text → List Text
strtok cs = let (w, ws) = split_words cs in add_word w ws

abbrev pub is_digit : ℕ → Bool
is_digit c = leb b'0' c && leb c b'9'

-- Empty for -1. The terminator is read as 0.
unfoldable pub string_to_integer : Text → Option ℕ
string_to_integer str =
    let first = get_or str 0 0 in
    let second = get_or str 1 0 in
    let output = (first - b'0') * 10 + (second - b'0') in
    if second == 0
    then (if is_digit first then some (first - b'0') else none)
    else if is_digit first && is_digit second
    then (if leb 64 output then none else some output)
    else none
