-- ===== src/Strings/Tests.antt =====
-- Runs of src/common/util/string_util.cpp.
use cmu.Common.{ℕ, ◌≡◌, true, List, [], ◌∷◌}
use cmu.Strings.{split, join, strip}
use cmu.Strings.Lines.{are_lines, join-split, chop}

-- Two delimiters 7 in a row, and one at the end.
abbrev text : List ℕ
text = 1 ∷ 7 ∷ 7 ∷ 2 ∷ 7 ∷ []

join-split_example :
    (are_lines 7 (split text 7) ≡ true)
    × (join (split text 7) (7 ∷ []) ≡ 1 ∷ 7 ∷ 7 ∷ 2 ∷ [])
    × (join (split text 7) [] ≡ 1 ∷ 2 ∷ [])
unfolding chop strip
join-split_example = join-split text 7
