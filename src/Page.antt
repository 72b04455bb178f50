-- ===== src/Page.antt =====
-- The pages of the B+ tree: what src/storage/page/b_plus_tree_page.cpp gives to both kinds, and
-- the array of key-value pairs that follows their header.
pub mod Leaf
pub mod Internal
pub mod Numbers
use cmu.Common.{
  ap, Bool-cases, inl, inr, ℕ, zero, suc, ◌+◌, ◌-◌, ◌/◌, ◌≤◌, ◌<◌, ◌≡◌, refl, Bool, true, false,
  Option, none, some, arith, if◌then◌else◌, ◌==◌, leb, ltb, ◌&&◌,
}

-- What a comparator returns: -1, 0 or 1.
pub data Sign : Type 0 where
  negative : Sign
  equal : Sign
  positive : Sign

unfoldable pub compare_ranks : ℕ → ℕ → Sign
compare_ranks a b = if ltb a b then negative else if ltb b a then positive else equal

-- The `KeyComparator` of the templates is a total order of the keys, which are finitely many.
pub record Comparator (K : Type 0) : Type 0 where
  pub compare : K → K → Sign
  pub rank : K → ℕ
  pub rank_injective : (a b : K) → rank a ≡ rank b → a ≡ b
  pub compare_rank : (a b : K) → compare a b ≡ compare_ranks (rank a) (rank b)

abbrev pub is_negative : Sign → Bool
is_negative negative = true
is_negative equal = false
is_negative positive = false

abbrev pub is_equal : Sign → Bool
is_equal negative = false
is_equal equal = true
is_equal positive = false

abbrev pub is_positive : Sign → Bool
is_positive negative = false
is_positive equal = false
is_positive positive = true

-- `array_`: memory from the end of the header on, indexed by slots.
abbrev pub Slots : Type 0 → Type 0 → Type 0
Slots K V = ℕ → K × V

-- `INVALID_PAGE_ID` is `none`.
abbrev pub PageId : Type 0
PageId = Option ℕ

pub data PageType : Type 0 where
  invalid_index_page : PageType
  leaf_page : PageType
  internal_page : PageType

-- `GetMinSize` of a page with this `max_size_`.
unfoldable pub get_min_size : ℕ → ℕ
get_min_size max_size = (max_size + 1) / 2

module _ {K V : Type 0} where
  unfoldable pub write : ℕ → K × V → Slots K V → Slots K V
  write i x a = λ j. if j == i then x else a j

  -- `std::move_backward` of the `n` slots from `first` on, one slot up, the last of them first.
  unfoldable pub move_backward : ℕ → ℕ → Slots K V → Slots K V
  unfolding write
  move_backward first zero a = a
  move_backward first (suc n) a = move_backward first n (write (first + suc n) (a (first + n)) a)

  pub move_backward_lem :
      (first n : ℕ) (a : Slots K V) (j : ℕ)
      → move_backward first n a j ≡ (if ltb first j && leb j (first + n) then a (j - 1) else a j)
  unfolding move_backward write
  move_backward_lem first zero a j = ground arith
  move_backward_lem first (suc n) a j =
      ground (arith, move_backward_lem first n (write (first + suc n) (a (first + n)) a) j)

  -- `std::copy` of the `n` slots of `source` from `i` on to the slots from `j` on.
  unfoldable pub copy : Slots K V → ℕ → ℕ → ℕ → Slots K V → Slots K V
  unfolding write
  copy source i zero j a = a
  copy source i (suc n) j a = copy source (i + 1) n (j + 1) (write j (source i) a)

  pub copy_lem :
      (source : Slots K V) (i n j : ℕ) (a : Slots K V) (x : ℕ)
      → copy source i n j a x ≡ (if leb j x && ltb x (j + n) then source (i + (x - j)) else a x)
  unfolding copy write
  copy_lem source i zero j a x = ground arith
  copy_lem source i (suc n) j a x =
      let rest = copy_lem source (i + 1) n (j + 1) (write j (source i) a) x in
      elim (Bool-cases (x == j)) [
        | inl e ↦
            let same : x ≡ j = ground arith in
            let start : i + (x - j) ≡ i = omega arith in rw (rest, start) (ground arith)
        | inr e ↦ elim (Bool-cases (ltb j x)) [
          | inl lt ↦
              let next : i + 1 + (x - (j + 1)) ≡ i + (x - j) = ground arith in
              ground (arith, rest, ap source next)
          | inr ge ↦ ground (arith, rest)
        ]
      ]
