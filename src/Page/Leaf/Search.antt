-- ===== src/Page/Leaf/Search.antt =====
-- What the searches in a leaf page return.
use cmu.Common.{
  ℕ, zero, suc, ◌+◌, ◌-◌, ◌/◌, ◌≤◌, ◌<◌, ◌≡◌, ◌≢◌, ap, ◌⊎◌, inl, inr, arith, ◌==◌, ltb, Bool-cases,
}
use cmu.Page.{Comparator, compare_ranks, Slots, is_negative, is_equal}
use cmu.Page.Leaf.{LeafPage, find_from, find_key, lower_bound, key_index}

module _ {K : Type 0} ⦃key : Comparator K⦄ where
  pub is_negative_lem : (a b : K) → is_negative (key.compare a b) ≡ ltb (key.rank a) (key.rank b)
  unfolding compare_ranks
  is_negative_lem a b = ground (arith, key.compare_rank a b)

  pub is_equal_lem : (a b : K) → is_equal (key.compare a b) ≡ (key.rank a == key.rank b)
  unfolding compare_ranks
  is_equal_lem a b = ground (arith, key.compare_rank a b)

module _ {K V : Type 0} ⦃key : Comparator K⦄ where
  abbrev pub rank_at : Slots K V → ℕ → ℕ
  rank_at a i = key.rank (a i).0

  -- The `n` slots from `first` on are in the order of their keys, and no key occurs twice.
  abbrev pub IsOrdered : Slots K V → ℕ → ℕ → Type 0
  IsOrdered a first n = (i j : ℕ) → first ≤ i → i < j → j < first + n → rank_at a i < rank_at a j

  pub record IsLowerBound (a : Slots K V) (k : K) (first n d : ℕ) : Type 0 where
    pub from : first ≤ d
    pub upto : d ≤ first + n
    pub before : (i : ℕ) → first ≤ i → i < d → rank_at a i < key.rank k
    pub after : (i : ℕ) → d ≤ i → i < first + n → key.rank k ≤ rank_at a i

  lower_bound-IsLowerBound :
      (fuel : ℕ) (k : K) (first n : ℕ) (a : Slots K V)
      → n ≤ fuel
      → IsOrdered a first n
      → IsLowerBound a k first n (lower_bound fuel k first n a)
  unfolding lower_bound
  lower_bound-IsLowerBound zero k first n a enough o = record {
    from = omega arith;
    upto = omega arith;
    before = λ i p q. absurd (omega arith);
    after = λ i p q. absurd (omega arith);
  }
  lower_bound-IsLowerBound (suc fuel) k first n a enough o = elim (Bool-cases (n == 0)) [
    | inl e ↦ rw e (record {
      from = omega arith;
      upto = omega arith;
      before = λ i p q. absurd (omega arith);
      after = λ i p q. absurd (ground arith);
    })
    | inr ne ↦
        let half = n / 2 in
        let test = is_negative_lem (a (first + half)).0 k in
        elim (Bool-cases (is_negative (key.compare (a (first + half)).0 k))) [
          | inl less ↦
              let r =
                lower_bound-IsLowerBound fuel k (first + half + 1) (n - half - 1) a (ground arith)
                  (λ i j p q s. o i j (omega arith) q (ground arith)) in
              rw (ne, less)
                (record {
                  from = ground (arith, r.from);
                  upto = ground (arith, r.upto);
                  before = λ i p q. ground (arith, r.before i, o i (first + half), test, less);
                  after = λ i p q. r.after i p (ground arith);
                })
          | inr more ↦
              let r =
                lower_bound-IsLowerBound fuel k first half a (ground arith)
                  (λ i j p q s. o i j p q (ground arith)) in
              rw (ne, more)
                (record {
                  from = r.from;
                  upto = ground (arith, r.upto);
                  before = r.before;
                  after = λ i p q. ground (arith, r.after i, o (first + half) i, test, more);
                })
        ]
  ]

  -- On a page in order, KeyIndex is the first slot whose key is not below the key, or the size.
  pub key_index-IsLowerBound :
      (k : K) (p : LeafPage K V)
      → IsOrdered p.array 0 p.size
      → IsLowerBound p.array k 0 p.size (key_index k p)
  unfolding key_index
  key_index-IsLowerBound k p o = lower_bound-IsLowerBound p.size k 0 p.size p.array (omega arith) o

  -- `FindKey` is a slot with the key, or the size where there is none.
  abbrev pub IsSlot : K → LeafPage K V → ℕ → Type 0
  IsSlot k p i =
      ((i ≡ p.size) × ((j : ℕ) → j < p.size → rank_at p.array j ≢ key.rank k))
      ⊎ ((i < p.size) × (rank_at p.array i ≡ key.rank k))

  find_from_lem :
      (k : K) (i n : ℕ) (a : Slots K V)
      → ((find_from k i n a ≡ i + n) × ((j : ℕ) → i ≤ j → j < i + n → rank_at a j ≢ key.rank k))
        ⊎ ((find_from k i n a < i + n) × (rank_at a (find_from k i n a) ≡ key.rank k))
  unfolding find_from
  find_from_lem k i zero a = inl (omega arith, λ j p q. absurd (omega arith))
  find_from_lem k i (suc n) a =
      let test = is_equal_lem (a i).0 k in
      elim (Bool-cases (is_equal (key.compare (a i).0 k))) [
        | inl e ↦ rw e (inr (omega arith, ground arith))
        | inr ne ↦ rw ne (elim (find_from_lem k (i + 1) n a) [
          | inl (e, all) ↦ inl (
            omega (arith, e),
            λ j p q s. elim (Bool-cases (j == i)) [
              | inl h ↦
                  let same : j ≡ i = ground arith in ground (arith, ap (rank_at a) same, test, ne)
              | inr h ↦ all j (ground arith) (omega arith) s
            ],
          )
          | inr (lt, e) ↦ inr (omega (arith, lt), e)
        ])
      ]

  pub find_key-IsSlot : (k : K) (p : LeafPage K V) → IsSlot k p (find_key k p)
  unfolding find_key
  find_key-IsSlot k p = elim (find_from_lem k 0 p.size p.array) [
    | inl (e, all) ↦ inl (omega (arith, e), λ j q. all j (omega arith) (omega arith))
    | inr (lt, e) ↦ inr (omega (arith, lt), e)
  ]
