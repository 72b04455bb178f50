-- ===== src/Strings.antt =====
-- `Split` at a character, `Join` and `Strip` of src/common/util/string_util.cpp. A string is the
-- list of its characters, and a character is a number.
pub mod Lines
mod Tests
use cmu.Common.{ℕ, zero, suc, List, [], ◌∷◌, ◌++◌, if◌then◌else◌, ◌==◌, length}

-- `std::getline` on what is left of the stream: the characters up to the delimiter, which is taken
-- out of the stream too, and the rest.
unfoldable pub getline : ℕ → List ℕ → List ℕ × List ℕ
getline delimiter [] = ([], [])
getline delimiter (c ∷ cs) =
    let r = getline delimiter cs in if c == delimiter then ([], cs) else (c ∷ r.0, r.1)

-- The loop of `Split`: `getline` fails when the stream is at its end. `fuel` bounds its rounds.
unfoldable pub split_loop : ℕ → ℕ → List ℕ → List (List ℕ)
split_loop zero delimiter ss = []
split_loop (suc fuel) delimiter [] = []
split_loop (suc fuel) delimiter (c ∷ cs) =
    let r = getline delimiter (c ∷ cs) in r.0 ∷ split_loop fuel delimiter r.1

-- Each round takes a character at least.
unfoldable pub split : List ℕ → ℕ → List (List ℕ)
split str delimiter = split_loop (length str) delimiter str

-- The loop of `Join`, from the second component on.
unfoldable pub join_rest : List (List ℕ) → List ℕ → List ℕ
join_rest [] separator = []
join_rest (x ∷ input) separator = (separator ++ x) ++ join_rest input separator

unfoldable pub join : List (List ℕ) → List ℕ → List ℕ
join [] separator = []
join (x ∷ input) separator = x ++ join_rest input separator

unfoldable pub strip : List ℕ → ℕ → List ℕ
strip [] c = []
strip (d ∷ str) c = if d == c then strip str c else d ∷ strip str c
