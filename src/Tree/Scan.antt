-- ===== src/Tree/Scan.antt =====
-- What `GetValue` reads from a leaf page.
use cmu.Common.{
  ℕ, zero, suc, ◌+◌, ◌≤◌, ◌<◌, ◌≡◌, ◌≢◌, refl, inl, inr, not, none, some, arith, if◌then◌else◌,
  ◌==◌, length, Bool-cases,
}
use cmu.Page.{Comparator, Slots, is_equal}
use cmu.Page.Leaf.{LeafPage, find_from, find_key}
use cmu.Page.Leaf.Search.{rank_at, is_equal_lem, IsOrdered}
use cmu.Page.Leaf.Insert.{get}
use cmu.Tree.{collect, scan_leaf}

module _ {K V : Type 0} ⦃key : Comparator K⦄ where
  collect_all :
      (k : K) (i n : ℕ) (a : Slots K V)
      → ((j : ℕ) → i ≤ j → j < i + n → rank_at a j ≢ key.rank k)
      → length (collect k i n a) ≡ n
  unfolding collect
  collect_all k i zero a other = refl
  collect_all k i (suc n) a other =
      let here = other i (omega arith) (omega arith) in
      let rest = collect_all k (i + 1) n a (λ j p q. other j (omega arith) (omega arith)) in
      ground (arith, is_equal_lem (a i).0 k, here, rest)

  collect_lem :
      (k : K) (i n : ℕ) (a : Slots K V)
      → IsOrdered a i n
      → length (collect k i n a) + (if find_from k i n a == i + n then 0 else 1) ≡ n
  unfolding collect find_from
  collect_lem k i zero a ordered = ground arith
  collect_lem k i (suc n) a ordered =
      let test = is_equal_lem (a i).0 k in
      elim (Bool-cases (is_equal (key.compare (a i).0 k))) [
        | inl e ↦
            let rest = collect_all k (i + 1) n a (λ j p q r.
              let above = ordered i j (omega arith) (omega arith) (omega arith) in
              ground (arith, above, test, e, r)) in
            ground (arith, e, rest)
        | inr ne ↦
            let rest =
              collect_lem k (i + 1) n a (λ x y p q r. ordered x y (omega arith) q (omega arith)) in
            ground (arith, ne, rest)
      ]

  -- On a leaf in order, the loop of GetValue collects as many values as there are slots with
  -- another key. It returns true exactly if there is one, be the key in the page or not.
  pub scan_leaf-count :
      (k : K) (p : LeafPage K V)
      → IsOrdered p.array 0 p.size
      → (length (scan_leaf k p).0 + elim (get k p) [ none ↦ 0 | some _ ↦ 1 ] ≡ p.size)
        × ((scan_leaf k p).1 ≡ not (elim (get k p) [ none ↦ p.size == 0 | some _ ↦ p.size == 1 ]))
  unfolding scan_leaf get find_key
  scan_leaf-count k p ordered =
      let count = collect_lem k 0 p.size p.array ordered in
      (ground (arith, count), ground (arith, count))
