-- ===== src/Page/Leaf/Insert.antt =====
-- What `InsertKey` does to what a leaf page holds.
use cmu.Common.{
  ℕ, ◌+◌, ◌-◌, ◌≤◌, ◌<◌, ◌≡◌, ◌≢◌, refl, ap, ◌∙◌, ◌⊎◌, inl, inr, Option, none, some, arith,
  if◌then◌else◌, ◌==◌, ltb, Bool-cases,
}
use cmu.Page.{Comparator, is_equal, write, move_backward, move_backward_lem}
use cmu.Page.Leaf.{LeafPage, find_key, key_index, insert_key, value_at}
use cmu.Page.Leaf.Search.{
  rank_at, is_equal_lem, IsOrdered, IsLowerBound, key_index-IsLowerBound, find_key-IsSlot,
}

module _ {K V : Type 0} ⦃key : Comparator K⦄ where
  -- The value under a key, through `FindKey` and `ValueAt`.
  unfoldable pub get : K → LeafPage K V → Option V
  unfolding value_at
  get k p = if find_key k p == p.size then none else some (value_at (find_key k p) p)

  -- The answer `o` is what the slots of the page say of the key.
  abbrev pub Answers : LeafPage K V → K → Option V → Type 0
  Answers p k o =
      ((o ≡ none) × ((j : ℕ) → j < p.size → rank_at p.array j ≢ key.rank k))
      ⊎ ((i : ℕ) × (i < p.size) × (rank_at p.array i ≡ key.rank k) × (o ≡ some (p.array i).1))

  pub get-Answers : (k : K) (p : LeafPage K V) → Answers p k (get k p)
  unfolding get value_at
  get-Answers k p = elim (find_key-IsSlot k p) [
    | inl (e, all) ↦ inl (ground arith, all)
    | inr (lt, e) ↦ inr (find_key k p, lt, e, ground arith)
  ]

  one_slot :
      (p : LeafPage K V) (i j : ℕ)
      → IsOrdered p.array 0 p.size
      → i < p.size
      → j < p.size
      → rank_at p.array i ≡ rank_at p.array j
      → i ≡ j
  one_slot p i j o a b e = ground (arith, o i j, o j i)

  pub Answers-get :
      (k : K) (p : LeafPage K V) (o : Option V)
      → IsOrdered p.array 0 p.size
      → Answers p k o
      → get k p ≡ o
  Answers-get k p o ordered (inl (e, all)) = elim (get-Answers k p) [
    | inl (f, _) ↦ ground arith
    | inr (i, lt, r, f) ↦ absurd (all i lt r)
  ]
  Answers-get k p o ordered (inr (j, lt, r, e)) = elim (get-Answers k p) [
    | inl (f, all) ↦ absurd (all j lt r)
    | inr (i, lt', r', f) ↦
        let same : i ≡ j = one_slot p i j ordered lt' lt (ground arith) in
        ground (arith, ap (λ (i : ℕ). (p.array i).1) same)
  ]

  -- The page after an insertion of a key that it does not hold, at slot `d`.
  inserted : ℕ → K → V → LeafPage K V → LeafPage K V
  unfolding write move_backward
  inserted d k v p = record p {
    array = write d (k, v) (move_backward d (p.size - d) p.array);
    size = p.size + 1;
  }

  inserted_size : (d : ℕ) (k : K) (v : V) (p : LeafPage K V) → (inserted d k v p).size ≡ p.size + 1
  unfolding inserted
  inserted_size d k v p = refl

  inserted_slot :
      (d : ℕ) (k : K) (v : V) (p : LeafPage K V) (j : ℕ)
      → d ≤ p.size
      → j ≤ p.size
      → (inserted d k v p).array j
        ≡ (if j == d then (k, v) else if ltb d j then p.array (j - 1) else p.array j)
  unfolding inserted write
  inserted_slot d k v p j le in_page = ground (arith, move_backward_lem d (p.size - d) p.array j)

  module _ (p : LeafPage K V) (ordered : IsOrdered p.array 0 p.size) (k : K) (v : V) where
    place : ℕ
    place = key_index k p

    bound : IsLowerBound p.array k 0 p.size place
    unfolding place
    bound = key_index-IsLowerBound k p ordered

    insert_key-cases :
        ((i : ℕ) × (i < p.size) × (rank_at p.array i ≡ key.rank k) × (insert_key k v p ≡ p))
        ⊎ (((j : ℕ) → j < p.size → rank_at p.array j ≢ key.rank k)
            × (insert_key k v p ≡ inserted place k v p))
    unfolding insert_key place inserted move_backward
    insert_key-cases =
        let d = key_index k p in
        let test = is_equal_lem (p.array d).0 k in
        elim (Bool-cases (d == p.size)) [
          | inl last ↦
              let none_left : p.size - d ≡ 0 = ground arith in
              inr (λ j q e. ground (arith, bound.before j), rw (last, none_left) refl)
          | inr inner ↦ elim (Bool-cases (is_equal (key.compare (p.array d).0 k))) [
            | inl held ↦ inl (d, ground (arith, bound.upto), ground arith, rw (inner, held) refl)
            | inr new ↦ inr (
              λ j q e. elim (Bool-cases (j == d)) [
                | inl at ↦
                    let same : j ≡ d = ground arith in
                    ground (arith, ap (rank_at p.array) same, test, new, e)
                | inr off ↦ ground (arith, bound.before j, bound.after d, ordered d j, e)
              ],
              rw (inner, new) refl,
            )
          ]
        ]

    -- A key that the page has already changes nothing.
    pub insert_key-held :
        (i : ℕ) → i < p.size → rank_at p.array i ≡ key.rank k → insert_key k v p ≡ p
    insert_key-held i lt held = elim insert_key-cases [
      | inl (j, lt', r, same) ↦ same
      | inr (absent, new) ↦ absurd (absent i lt held)
    ]

    inserted-IsOrdered :
        ((j : ℕ) → j < p.size → rank_at p.array j ≢ key.rank k)
        → IsOrdered (inserted place k v p).array 0 (p.size + 1)
    inserted-IsOrdered absent i j a b c =
        let le : place ≤ p.size = omega (arith, bound.upto) in
        let si = ap (λ (x : K × V). key.rank x.0) (inserted_slot place k v p i le (omega arith)) in
        let sj = ap (λ (x : K × V). key.rank x.0) (inserted_slot place k v p j le (omega arith)) in
        ground (
          arith,
          si,
          sj,
          ordered i j,
          ordered (i - 1) (j - 1),
          ordered i (j - 1),
          bound.before i,
          bound.after (j - 1),
          absent (j - 1),
          absent i,
        )

    inserted-Answers :
        (q : K) (o : Option V)
        → ((j : ℕ) → j < p.size → rank_at p.array j ≢ key.rank k)
        → Answers p q o
        → Answers (inserted place k v p) q (if key.rank q == key.rank k then some v else o)
    inserted-Answers q o absent (inl (e, all)) =
        let le : place ≤ p.size = omega (arith, bound.upto) in
        elim (Bool-cases (key.rank q == key.rank k)) [
          | inl same ↦
              let slot = inserted_slot place k v p place le le in
              let here : (inserted place k v p).array place ≡ (k, v) = ground (arith, slot) in
              inr (
                place,
                omega (arith, inserted_size place k v p),
                ground (arith, ap (λ (x : K × V). key.rank x.0) here),
                ground (arith, ap (λ (x : K × V). x.1) here),
              )
          | inr other ↦ inl (
            ground arith,
            λ j lt r.
                let in_page : j ≤ p.size = omega (arith, inserted_size place k v p) in
                let slot = inserted_slot place k v p j le in_page in
                ground (arith, ap (λ (x : K × V). key.rank x.0) slot, all j, all (j - 1)),
          )
        ]
    inserted-Answers q o absent (inr (i, lt, r, e)) =
        let le : place ≤ p.size = omega (arith, bound.upto) in
        let other = absent i lt in
        let rest : (if key.rank q == key.rank k then some v else o) ≡ o = ground arith in
        rw rest (elim (Bool-cases (ltb i place)) [
          | inl low ↦
              let slot = inserted_slot place k v p i le (omega arith) in
              let here : (inserted place k v p).array i ≡ p.array i = ground (arith, slot) in
              inr (
                i,
                omega (arith, inserted_size place k v p),
                ground (arith, ap (λ (x : K × V). key.rank x.0) here, r),
                ground (arith, ap (λ (x : K × V). x.1) here, e),
              )
          | inr high ↦
              let slot = inserted_slot place k v p (i + 1) le (omega arith) in
              let here : (inserted place k v p).array (i + 1) ≡ p.array i = ground (arith, slot) in
              inr (
                i + 1,
                omega (arith, inserted_size place k v p),
                ground (arith, ap (λ (x : K × V). key.rank x.0) here, r),
                ground (arith, ap (λ (x : K × V). x.1) here, e),
              )
        ])

    -- InsertKey into a leaf page in order keeps the order. If the page has the key, nothing
    -- changes, although InsertKey returns true; else the size grows by one and the value is found
    -- under the key. What is found under every other key is as before.
    pub insert_key-get :
        (q : K)
        → IsOrdered (insert_key k v p).array 0 (insert_key k v p).size
          × ((insert_key k v p).size ≡ elim (get k p) [ none ↦ p.size + 1 | some _ ↦ p.size ])
          × (get q (insert_key k v p) ≡ (
              if key.rank q == key.rank k
              then elim (get k p) [ none ↦ some v | some w ↦ some w ]
              else get q p))
    unfolding inserted
    insert_key-get q = elim insert_key-cases [
      | inl (i, lt, r, same) ↦
          let held = Answers-get k p (some (p.array i).1) ordered (inr (i, lt, r, refl)) in
          rw (same, held)
            (
              ordered,
              refl,
              elim (Bool-cases (key.rank q == key.rank k)) [
                | inl e ↦
                    let key_eq : q ≡ k = key.rank_injective q k (ground arith) in
                    rw e (ap (λ (x : K). get x p) key_eq ∙ held)
                | inr e ↦ rw e refl
              ],
            )
      | inr (absent, same) ↦
          let new = Answers-get k p none ordered (inl (refl, absent)) in
          let sorted = inserted-IsOrdered absent in
          let found =
            Answers-get q (inserted place k v p)
              (if key.rank q == key.rank k then some v else get q p) sorted
              (inserted-Answers q (get q p) absent (get-Answers q p)) in
          rw (same, new) (sorted, refl, found)
    ]
