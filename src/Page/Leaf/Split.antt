-- ===== src/Page/Leaf/Split.antt =====
-- What `Split` does to a full leaf page.
use cmu.Common.{
  ℕ, ◌+◌, ◌-◌, ◌≤◌, ◌<◌, ◌≡◌, refl, ap, inl, inr, Option, none, arith, if◌then◌else◌, ◌==◌, ltb,
  Bool-cases,
}
use cmu.Page.{Comparator, PageId, get_min_size, copy_lem}
use cmu.Page.Leaf.{LeafPage, init, split}
use cmu.Page.Leaf.Search.{rank_at, IsOrdered}
use cmu.Page.Leaf.Insert.{get, Answers, get-Answers, Answers-get}

module _ {K V : Type 0} ⦃key : Comparator K⦄ (leaf_max_size : ℕ) (new_page_id : PageId)
    (p blank : LeafPage K V) (ordered : IsOrdered p.array 0 p.size) (full : p.size ≡ p.max_size)
    (room : 1 < p.max_size) where
  left : LeafPage K V
  left = (split leaf_max_size new_page_id p blank).0

  right : LeafPage K V
  right = (split leaf_max_size new_page_id p blank).1

  half : ℕ
  half = get_min_size p.max_size

  half_bounds : (0 < half) × (half < p.size)
  unfolding half get_min_size
  half_bounds = ground arith

  sizes : (left.size ≡ half) × (right.size ≡ p.size - half)
  unfolding left right half split init
  sizes = (refl, omega (arith, full))

  right_slot : (j : ℕ) → j < p.size - half → right.array j ≡ p.array (half + j)
  unfolding right half split init
  right_slot j lt = ground (
    arith,
    copy_lem p.array (get_min_size p.max_size) (p.size - get_min_size p.max_size) 0 blank.array j,
    full,
  )

  rank_right : (j : ℕ) → j < p.size - half → rank_at right.array j ≡ rank_at p.array (half + j)
  rank_right j lt = ap (λ (x : K × V). key.rank x.0) (right_slot j lt)

  left-IsOrdered : IsOrdered left.array 0 left.size
  unfolding left split
  left-IsOrdered i j a b c = ordered i j a b (omega (arith, half_bounds, sizes))

  right-IsOrdered : IsOrdered right.array 0 right.size
  right-IsOrdered i j a b c =
      let ri = rank_right i (omega (arith, sizes)) in
      let rj = rank_right j (omega (arith, sizes)) in
      let order =
        ordered (half + i) (half + j) (omega arith) (omega arith) (omega (arith, sizes)) in
      omega (arith, ri, rj, order)

  -- The key that goes to the parent: `sibling_leaf_node->KeyAt(0)`.
  pivot : rank_at right.array 0 ≡ rank_at p.array half
  pivot =
      let r = rank_right 0 (omega (arith, half_bounds)) in
      let same : half + 0 ≡ half = omega arith in ground (arith, r, ap (rank_at p.array) same)

  upper : (i : ℕ) → half ≤ i → i < p.size → rank_at p.array half ≤ rank_at p.array i
  upper i le lt = elim (Bool-cases (i == half)) [
    | inl e ↦ let same : i ≡ half = ground arith in ground (arith, ap (rank_at p.array) same)
    | inr ne ↦
        let above = ordered half i (omega arith) (ground arith) (omega arith) in
        omega (arith, above)
  ]

  left_rank : (j : ℕ) → rank_at left.array j ≡ rank_at p.array j
  unfolding left split
  left_rank j = refl

  left_value : (j : ℕ) → (left.array j).1 ≡ (p.array j).1
  unfolding left split
  left_value j = refl

  left-Answers :
      (q : K) (o : Option V)
      → Answers p q o
      → Answers left q (if ltb (key.rank q) (rank_at right.array 0) then o else none)
  left-Answers q o (inl (e, all)) =
      inl (ground arith, λ j lt. ground (arith, left_rank j, all j, sizes, half_bounds))
  left-Answers q o (inr (i, lt, r, e)) = elim (Bool-cases (ltb i half)) [
    | inl low ↦
        let below = ordered i half (omega arith) (ground arith) (omega (arith, half_bounds)) in
        inr (
          i,
          ground (arith, sizes),
          ground (arith, left_rank i, r),
          ground (arith, pivot, below, left_value i),
        )
    | inr high ↦ inl (
      ground (arith, pivot, upper i, r),
      λ j in_left. ground (arith, left_rank j, ordered j i, sizes, half_bounds),
    )
  ]

  right-Answers :
      (q : K) (o : Option V)
      → Answers p q o
      → Answers right q (if ltb (key.rank q) (rank_at right.array 0) then none else o)
  right-Answers q o (inl (e, all)) =
      inl (ground arith, λ j lt. ground (arith, rank_right j, all (half + j), sizes, half_bounds))
  right-Answers q o (inr (i, lt, r, e)) = elim (Bool-cases (ltb i half)) [
    | inl low ↦
        let below = ordered i half (omega arith) (ground arith) (omega (arith, half_bounds)) in
        inl (
          ground (arith, pivot, below),
          λ j in_right. ground (arith, rank_right j, ordered i (half + j), sizes, half_bounds),
        )
    | inr high ↦
        let back : half + (i - half) ≡ i = ground arith in
        inr (
          i - half,
          ground (arith, sizes, half_bounds),
          ground (arith, rank_right (i - half), ap (rank_at p.array) back),
          ground (
            arith,
            pivot,
            upper i,
            r,
            e,
            ap (λ (x : K × V). x.1) (right_slot (i - half) (ground arith)),
            ap (λ (j : ℕ). (p.array j).1) back,
          ),
        )
  ]

  -- Let a leaf with two slots or more be full and in order. Split leaves both pages in order and
  -- not empty, and together they have as many slots as before. A key is found on the left as before
  -- if it is below the first key on the right, and else on the right; on the other side it is not.
  pub split-get :
      (q : K)
      → let (l, r) = split leaf_max_size new_page_id p blank in
        IsOrdered l.array 0 l.size
        × IsOrdered r.array 0 r.size
        × (0 < l.size)
        × (0 < r.size)
        × (l.size + r.size ≡ p.size)
        × (get q l ≡ (if ltb (key.rank q) (rank_at r.array 0) then get q p else none))
        × (get q r ≡ (if ltb (key.rank q) (rank_at r.array 0) then none else get q p))
  unfolding left right
  split-get q =
      let found = get-Answers q p in
      (
        left-IsOrdered,
        right-IsOrdered,
        omega (arith, half_bounds, sizes),
        omega (arith, half_bounds, sizes),
        omega (arith, half_bounds, sizes),
        Answers-get q left _ left-IsOrdered (left-Answers q (get q p) found),
        Answers-get q right _ right-IsOrdered (right-Answers q (get q p) found),
      )
