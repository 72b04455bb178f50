-- ===== src/Tree/Search.antt =====
-- Which leaf `Findleaf` ends at.
use cmu.Common.{
  ℕ, zero, suc, ◌+◌, ◌≤◌, ◌<◌, ◌≡◌, refl, sym, ap, subst, ◌∙◌, inl, inr, some, arith, if◌then◌else◌,
  ◌==◌, ltb, Bool-cases,
}
use cmu.Page.{Comparator}
use cmu.Page.Leaf.{LeafPage}
use cmu.Page.Leaf.Search.{rank_at, IsOrdered}
use cmu.Page.Internal.{InternalPage, child, child_slot, value_at}
use cmu.Page.Internal.Route.{IsSorted, IsRoute, child_slot-IsRoute}
use cmu.Tree.{TreePage, leaf, internal, BPlusTree, find_leaf_from, get_value, scan_leaf}

module _ {K : Type 0} ⦃key : Comparator K⦄ where
  -- The ranks of the keys below child `j` start at `low`, and end before `high`.
  unfoldable pub low : ℕ → ℕ → InternalPage K → ℕ
  low lo j p = if j == 0 then lo else rank_at p.array j

  unfoldable pub high : ℕ → ℕ → InternalPage K → ℕ
  high hi j p = if j + 1 == p.size then hi else rank_at p.array (j + 1)

module _ {K V : Type 0} ⦃key : Comparator K⦄ (pages : ℕ → TreePage K V) where
  -- The page `id` is the root of a tree of height `h`, whose keys have ranks from `lo` to below `hi`.
  unfoldable pub IsTree : ℕ → ℕ → ℕ → ℕ → Type 0
  unfolding low high
  IsTree zero id lo hi =
      (p : LeafPage K V) × (pages id ≡ leaf p)
      × IsOrdered p.array 0 p.size
      × ((j : ℕ) → j < p.size → (lo ≤ rank_at p.array j) × (rank_at p.array j < hi))
  IsTree (suc h) id lo hi =
      (p : InternalPage K) × (pages id ≡ internal p)
      × IsSorted p
      × ((j : ℕ) → 1 ≤ j → j < p.size → (lo ≤ rank_at p.array j) × (rank_at p.array j ≤ hi))
      × ((j : ℕ) → j < p.size → IsTree h (p.array j).1 (low lo j p) (high hi j p))

  -- The leaf `q` is a leaf of the tree of height `h` below page `id`.
  unfoldable pub IsUnder : ℕ → ℕ → LeafPage K V → Type 0
  IsUnder zero id q = pages id ≡ leaf q
  IsUnder (suc h) id q =
      (p : InternalPage K) × (pages id ≡ internal p)
      × (j : ℕ) × (j < p.size)
      × IsUnder h (p.array j).1 q

  abbrev pub Has : K → LeafPage K V → Type 0
  Has k q = (i : ℕ) × (i < q.size) × (rank_at q.array i ≡ key.rank k)

  -- A key below a page is in the page's range.
  under-range :
      (h id lo hi : ℕ) (k : K) (q : LeafPage K V)
      → IsTree h id lo hi
      → IsUnder h id q
      → Has k q
      → (lo ≤ key.rank k) × (key.rank k < hi)
  unfolding IsTree IsUnder low high
  under-range zero id lo hi k q (p, at, ordered, inside) at' (i, lt, e) =
      let same : p ≡ q = ground (arith, at, at') in
      let here : Has k p = subst (Has k) (sym same) (i, lt, e) in
      let bound = inside here.0 here.1 in
      (omega (arith, bound, here.2), omega (arith, bound, here.2))
  under-range (suc h) id lo hi k q (p, at, sorted, keys, kids) (p', at', j, lt, under) has =
      let same : p' ≡ p = ground (arith, at, at') in
      let lt' : j < p.size = subst (λ (x : InternalPage K). j < x.size) same lt in
      let under' : IsUnder h (p.array j).1 q =
        subst (λ (x : InternalPage K). IsUnder h (x.array j).1 q) same under in
      let r = under-range h (p.array j).1 (low lo j p) (high hi j p) k q (kids j lt') under' has in
      (ground (arith, r.0, keys j), ground (arith, r.1, keys (j + 1), lt'))

  -- A leaf below a page that has the key is below the child that the search goes down to.
  under-route :
      (h lo hi : ℕ) (k : K) (p : InternalPage K) (s : ℕ)
      → IsRoute k p s
      → ((j : ℕ) → j < p.size → IsTree h (p.array j).1 (low lo j p) (high hi j p))
      → (q : LeafPage K V) (j : ℕ) → j < p.size
      → IsUnder h (p.array j).1 q
      → Has k q
      → j ≡ s
  unfolding low high
  under-route h lo hi k p s route kids q j lt under has =
      let r = under-range h (p.array j).1 (low lo j p) (high hi j p) k q (kids j lt) under has in
      elim (Bool-cases (ltb j s)) [
        | inl below ↦
            let upto = route.upto (j + 1) (omega arith) (ground arith) in
            absurd (ground (arith, r.1, upto, route.inside, below))
        | inr not_below ↦ elim (Bool-cases (ltb s j)) [
          | inl beyond ↦
              let above = route.above j (ground arith) lt in
              absurd (ground (arith, r.0, above, beyond))
          | inr not_beyond ↦ ground arith
        ]
      ]

  child-eq : (k : K) (p : InternalPage K) → child k p ≡ (p.array (child_slot k p)).1
  unfolding child value_at
  child-eq k p = refl

  -- `Findleaf` in a tree of height h ends within h + 1 rounds, at the only leaf that can have the key.
  pub find_leaf_from-Has :
      (h id lo hi fuel : ℕ) (k : K)
      → IsTree h id lo hi
      → h < fuel
      → (x : ℕ) × (p : LeafPage K V) × (find_leaf_from fuel k id pages ≡ some (x, p))
        × (pages x ≡ leaf p)
        × IsUnder h id p
        × ((q : LeafPage K V) → IsUnder h id q → Has k q → q ≡ p)
  unfolding IsTree IsUnder find_leaf_from
  find_leaf_from-Has h id lo hi zero k tree enough = absurd (omega (arith, enough))
  find_leaf_from-Has zero id lo hi (suc fuel) k (p, at, ordered, inside) enough =
      (id, p, rw (find_leaf_from, at) refl, at, at, λ q under has. ground (arith, at, under))
  find_leaf_from-Has (suc h) id lo hi (suc fuel) k (p, at, sorted, keys, kids) enough =
      let s = child_slot k p in
      let route = child_slot-IsRoute k p sorted in
      let (x, found, run, there, under, only) =
        find_leaf_from-Has h (p.array s).1 (low lo s p) (high hi s p) fuel k (kids s route.inside)
          (omega (arith, enough)) in
      (
        x,
        found,
        rw (find_leaf_from, at)
            (ap (λ (y : ℕ). find_leaf_from fuel k y pages) (child-eq k p) ∙ run),
        there,
        (p, at, s, route.inside, under),
        λ q (p', at', j, lt, below) has.
            let same : p' ≡ p = ground (arith, at, at') in
            let lt' : j < p.size = subst (λ (x : InternalPage K). j < x.size) same lt in
            let below' : IsUnder h (p.array j).1 q =
              subst (λ (x : InternalPage K). IsUnder h (x.array j).1 q) same below in
            let here = under-route h lo hi k p s route kids q j lt' below' has in
            only q (subst (λ (x : ℕ). IsUnder h (p.array x).1 q) here below') has,
      )

-- In a tree of height h whose pages are in order, with the keys below each child between the keys
-- beside it, the search of GetValue ends within h + 1 rounds. The leaf whose slots it then goes
-- through is a leaf of the tree, and every leaf of the tree that has the key is that leaf.
pub get_value-Has :
    {K V : Type 0} ⦃key : Comparator K⦄ (t : BPlusTree K V) (h root lo hi fuel : ℕ) (k : K)
    → t.root_page_id ≡ some root
    → IsTree t.pages h root lo hi
    → h < fuel
    → (p : LeafPage K V) × (get_value fuel k t ≡ some (scan_leaf k p))
      × IsUnder t.pages h root p
      × ((q : LeafPage K V) → IsUnder t.pages h root q → Has t.pages k q → q ≡ p)
unfolding get_value
get_value-Has t h root lo hi fuel k at tree enough =
    let (x, p, run, there, under, only) =
      find_leaf_from-Has t.pages h root lo hi fuel k tree enough in
    (p, rw (get_value, at, run) refl, under, only)
