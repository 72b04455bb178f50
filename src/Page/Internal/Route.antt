-- ===== src/Page/Internal/Route.antt =====
-- Where a search goes down from an internal page.
use cmu.Common.{ℕ, zero, suc, ◌+◌, ◌-◌, ◌≤◌, ◌<◌, ◌≡◌, ap, inl, inr, arith, ◌==◌, ltb, Bool-cases}
use cmu.Page.{Comparator, compare_ranks, is_positive, Slots}
use cmu.Page.Leaf.Search.{rank_at, IsOrdered}
use cmu.Page.Internal.{InternalPage, first_above, child_slot}

module _ {K : Type 0} ⦃key : Comparator K⦄ where
  is_positive_lem : (a b : K) → is_positive (key.compare a b) ≡ ltb (key.rank b) (key.rank a)
  unfolding compare_ranks
  is_positive_lem a b = ground (arith, key.compare_rank a b)

  -- The keys of slots 1 and on are in order; slot 0 has none.
  abbrev pub IsSorted : InternalPage K → Type 0
  IsSorted p = (0 < p.size) × IsOrdered p.array 1 (p.size - 1)

  -- The slot `s` is the last whose key is not above `k`, or slot 0.
  pub record IsRoute (k : K) (p : InternalPage K) (s : ℕ) : Type 0 where
    pub inside : s < p.size
    pub upto : (j : ℕ) → 1 ≤ j → j ≤ s → rank_at p.array j ≤ key.rank k
    pub above : (j : ℕ) → s < j → j < p.size → key.rank k < rank_at p.array j

  first_above_lem :
      (k : K) (i n : ℕ) (a : Slots K ℕ)
      → (i ≤ first_above k i n a)
        × (first_above k i n a ≤ i + n)
        × ((j : ℕ) → i ≤ j → j < first_above k i n a → rank_at a j ≤ key.rank k)
        × (first_above k i n a < i + n → key.rank k < rank_at a (first_above k i n a))
  unfolding first_above
  first_above_lem k i zero a =
      (omega arith, omega arith, λ j p q. absurd (omega arith), λ p. absurd (omega arith))
  first_above_lem k i (suc n) a =
      let test = is_positive_lem (a i).0 k in
      elim (Bool-cases (is_positive (key.compare (a i).0 k))) [
        | inl e ↦ rw e (omega arith, omega arith, λ j p q. absurd (omega arith), λ p. ground arith)
        | inr ne ↦
            let r = first_above_lem k (i + 1) n a in
            rw ne (
              omega (arith, r.0),
              omega (arith, r.1),
              λ j p q. elim (Bool-cases (j == i)) [
                | inl h ↦
                    let same : j ≡ i = ground arith in ground (arith, ap (rank_at a) same, test, ne)
                | inr h ↦ r.2 j (ground arith) q
              ],
              λ p. r.3 (omega arith),
            )
      ]

  -- Findleaf goes down from a page in order at the last slot whose key is not above its key, or at
  -- slot 0.
  pub child_slot-IsRoute : (k : K) (p : InternalPage K) → IsSorted p → IsRoute k p (child_slot k p)
  unfolding child_slot
  child_slot-IsRoute k p sorted =
      let r = first_above_lem k 1 (p.size - 1) p.array in
      let idx = first_above k 1 (p.size - 1) p.array in
      record {
        inside = omega (arith, r.0, r.1, sorted.0);
        upto = λ j a b. r.2 j a (omega (arith, r.0));
        above = λ j a b. elim (Bool-cases (j == idx)) [
          | inl h ↦
              let same : j ≡ idx = ground arith in ground (arith, ap (rank_at p.array) same, r.3)
          | inr h ↦
              let first : key.rank k < rank_at p.array idx = r.3 (omega (arith, r.0)) in
              let order = sorted.1 idx j r.0 (ground (arith, r.0)) (omega arith) in
              omega (arith, first, order)
        ];
      }

  route_le : (k : K) (p : InternalPage K) (s s' : ℕ) → IsRoute k p s → IsRoute k p s' → s ≤ s'
  route_le k p s s' h h' = elim (Bool-cases (ltb s' s)) [
    | inl lt ↦
        let above = h'.above s (ground arith) h.inside in
        let upto = h.upto s (ground arith) (omega arith) in absurd (omega (arith, above, upto))
    | inr ge ↦ ground arith
  ]

  pub route_unique :
      (k : K) (p : InternalPage K) (s s' : ℕ) → IsRoute k p s → IsRoute k p s' → s ≡ s'
  route_unique k p s s' h h' = omega (arith, route_le k p s s' h h', route_le k p s' s h' h)
