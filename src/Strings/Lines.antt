-- ===== src/Strings/Lines.antt =====
-- What `Split` keeps of a string.
use cmu.Common.{
  ℕ, zero, suc, ◌≤◌, ◌≡◌, refl, ap, ◌∙◌, sym, inl, inr, Bool, true, not, List, [], ◌∷◌, ◌++◌, arith,
  if◌then◌else◌, ◌==◌, ◌&&◌, length, Bool-cases,
}
use mathlib.Core.List.{append-nil}
use cmu.Strings.{getline, split_loop, split, join_rest, join, strip}

-- The string without a delimiter at its end.
unfoldable pub chop : List ℕ → ℕ → List ℕ
chop [] d = []
chop (c ∷ []) d = if c == d then [] else c ∷ []
chop (c ∷ e ∷ cs) d = c ∷ chop (e ∷ cs) d

-- The string does not have the delimiter.
unfoldable pub is_line : ℕ → List ℕ → Bool
is_line d [] = true
is_line d (c ∷ cs) = not (c == d) && is_line d cs

unfoldable pub are_lines : ℕ → List (List ℕ) → Bool
are_lines d [] = true
are_lines d (x ∷ xs) = is_line d x && are_lines d xs

length-getline : (d c : ℕ) (cs : List ℕ) → length (getline d (c ∷ cs)).1 ≤ length cs
unfolding getline
length-getline d c [] = ground arith
length-getline d c (e ∷ cs) = ground (arith, length-getline d e cs)

getline-is_line : (d : ℕ) (s : List ℕ) → is_line d (getline d s).0 ≡ true
unfolding getline is_line
getline-is_line d [] = refl
getline-is_line d (c ∷ cs) = ground (arith, getline-is_line d cs)

split_loop-are_lines : (n d : ℕ) (s : List ℕ) → are_lines d (split_loop n d s) ≡ true
unfolding split_loop are_lines
split_loop-are_lines zero d s = refl
split_loop-are_lines (suc n) d [] = refl
split_loop-are_lines (suc n) d (c ∷ cs) =
    let r = getline d (c ∷ cs) in
    ground (arith, getline-is_line d (c ∷ cs), split_loop-are_lines n d r.1)

-- A first line and the rest of the string.
rejoin : ℕ → List ℕ → List ℕ → List ℕ
rejoin d l [] = l
rejoin d l (c ∷ r) = l ++ d ∷ chop (c ∷ r) d

rejoin-cons : (d c : ℕ) (l r : List ℕ) → rejoin d (c ∷ l) r ≡ c ∷ rejoin d l r
unfolding rejoin
rejoin-cons d c l [] = refl
rejoin-cons d c l (e ∷ r) = refl

chop-getline : (d : ℕ) (s : List ℕ) → chop s d ≡ rejoin d (getline d s).0 (getline d s).1
unfolding getline chop rejoin
chop-getline d [] = refl
chop-getline d (c ∷ []) = ground arith
chop-getline d (c ∷ e ∷ cs) = elim (Bool-cases (c == d)) [
  | inl y ↦ ground arith
  | inr n ↦
      let r = getline d (e ∷ cs) in ground (arith, chop-getline d (e ∷ cs), rejoin-cons d c r.0 r.1)
]

join_rest-rejoin :
    (n d : ℕ) (l r : List ℕ)
    → length r ≤ n
    → join (split_loop n d r) (d ∷ []) ≡ chop r d
    → l ++ join_rest (split_loop n d r) (d ∷ []) ≡ rejoin d l r
unfolding split_loop join join_rest rejoin
join_rest-rejoin zero d l [] h e = append-nil l
join_rest-rejoin (suc n) d l [] h e = append-nil l
join_rest-rejoin zero d l (c ∷ r) h e = absurd (omega arith)
join_rest-rejoin (suc n) d l (c ∷ r) h e = ap (λ (x : List ℕ). l ++ d ∷ x) e

join-split_loop :
    (n d : ℕ) (s : List ℕ) → length s ≤ n → join (split_loop n d s) (d ∷ []) ≡ chop s d
unfolding split_loop join join_rest
join-split_loop zero d [] h = unfold chop in refl
join-split_loop (suc n) d [] h = unfold chop in refl
join-split_loop zero d (c ∷ cs) h = absurd (omega arith)
join-split_loop (suc n) d (c ∷ cs) h =
    let r = getline d (c ∷ cs) in
    let shorter : length r.1 ≤ n = omega (arith, h, length-getline d c cs) in
    join_rest-rejoin n d r.0 r.1 shorter (join-split_loop n d r.1 shorter)
    ∙ sym (chop-getline d (c ∷ cs))

strip-getline : (d : ℕ) (s : List ℕ) → strip s d ≡ (getline d s).0 ++ strip (getline d s).1 d
unfolding strip getline
strip-getline d [] = refl
strip-getline d (c ∷ cs) = ground (arith, strip-getline d cs)

join_rest-empty : (x : List (List ℕ)) → join_rest x [] ≡ join x []
unfolding join join_rest
join_rest-empty [] = refl
join_rest-empty (x ∷ xs) = refl

strip-split_loop : (n d : ℕ) (s : List ℕ) → length s ≤ n → join (split_loop n d s) [] ≡ strip s d
unfolding split_loop join strip
strip-split_loop zero d [] h = refl
strip-split_loop (suc n) d [] h = refl
strip-split_loop zero d (c ∷ cs) h = absurd (omega arith)
strip-split_loop (suc n) d (c ∷ cs) h =
    let r = getline d (c ∷ cs) in
    let rest = split_loop n d r.1 in
    ap (λ (x : List ℕ). r.0 ++ x)
      (join_rest-empty rest ∙ strip-split_loop n d r.1 (omega (arith, h, length-getline d c cs)))
    ∙ sym (strip-getline d (c ∷ cs))

-- No line that Split at a character gives has that character. Join of the lines with the character
-- between them gives the string back, without one such character at its end if it has one, and Join
-- of the lines with nothing between them gives what Strip of the character leaves.
pub join-split :
    (str : List ℕ) (d : ℕ)
    → (are_lines d (split str d) ≡ true)
      × (join (split str d) (d ∷ []) ≡ chop str d)
      × (join (split str d) [] ≡ strip str d)
unfolding split
join-split str d = (
  split_loop-are_lines (length str) d str,
  join-split_loop (length str) d str (omega arith),
  strip-split_loop (length str) d str (omega arith),
)
