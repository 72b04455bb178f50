-- ===== src/Hash/Buckets/Laws.antt =====
-- The items of a bucket as a map.
use cmu.Common.{
  suc, ◌+◌, ◌≤◌, ◌<◌, ◌≡◌, refl, true, false, none, some, List, [], ◌∷◌, ◌++◌, arith, if◌then◌else◌,
  ◌&&◌, length, length-append,
}
use cmu.Hash.Buckets.{
  HashKey, Bucket, is_full, lookup, erase, assign, has, find_item, remove_item, insert_item, count,
}

module _ {K V : Type 0} ⦃key : HashKey K⦄ where
  pub lookup-eq-none : (q : K) (l : List (K × V)) → count q l ≡ 0 → lookup q l ≡ none
  unfolding lookup count
  lookup-eq-none q [] h = refl
  lookup-eq-none q ((k, v) ∷ l) h = ground (arith, lookup-eq-none q l)

  pub lookup-erase :
      (k q : K) (l : List (K × V))
      → count q l ≤ 1
      → lookup q (erase k l) ≡ (if key.equal k q then none else lookup q l)
  unfolding lookup erase count
  lookup-erase k q [] h = ground arith
  lookup-erase k q ((i, v) ∷ l) h = ground (
    arith,
    lookup-erase k q l,
    lookup-eq-none q l,
    key.equal_iff k q,
    key.equal_iff i q,
    key.equal_iff i k,
  )

  pub lookup-assign :
      (k q : K) (v : V) (l : List (K × V))
      → lookup q (assign k v l) ≡ (if key.equal k q && has k l then some v else lookup q l)
  unfolding lookup assign
  lookup-assign k q v [] = ground arith
  lookup-assign k q v ((i, w) ∷ l) =
      ground (arith, lookup-assign k q v l, key.equal_iff k q, key.equal_iff i q, key.equal_iff i k)

  pub lookup-append :
      (k q : K) (v : V) (l : List (K × V))
      → lookup k l ≡ none
      → lookup q (l ++ (k, v) ∷ []) ≡ (if key.equal k q then some v else lookup q l)
  unfolding lookup
  lookup-append k q v [] h = refl
  lookup-append k q v ((i, w) ∷ l) h =
      ground (arith, lookup-append k q v l, key.equal_iff k q, key.equal_iff i q, key.equal_iff i k)

  pub count-erase-le : (k q : K) (l : List (K × V)) → count q (erase k l) ≤ count q l
  unfolding count erase
  count-erase-le k q [] = omega arith
  count-erase-le k q ((i, v) ∷ l) = ground (arith, count-erase-le k q l)

  pub count-assign : (k q : K) (v : V) (l : List (K × V)) → count q (assign k v l) ≡ count q l
  unfolding count assign
  count-assign k q v [] = refl
  count-assign k q v ((i, w) ∷ l) = ground (arith, count-assign k q v l)

  pub count-append :
      (k q : K) (v : V) (l : List (K × V))
      → count q (l ++ (k, v) ∷ []) ≡ (if key.equal k q then suc (count q l) else count q l)
  unfolding count
  count-append k q v [] = refl
  count-append k q v ((i, w) ∷ l) = ground (arith, count-append k q v l)

  pub count-eq-zero : (k : K) (l : List (K × V)) → lookup k l ≡ none → count k l ≡ 0
  unfolding count lookup
  count-eq-zero k [] h = refl
  count-eq-zero k ((i, v) ∷ l) h = ground (arith, count-eq-zero k l)

  pub length-erase-le : (k : K) (l : List (K × V)) → length (erase k l) ≤ length l
  unfolding erase
  length-erase-le k [] = omega arith
  length-erase-le k ((i, v) ∷ l) = ground (arith, length-erase-le k l)

  pub length-assign : (k : K) (v : V) (l : List (K × V)) → length (assign k v l) ≡ length l
  unfolding assign
  length-assign k v [] = refl
  length-assign k v ((i, w) ∷ l) = ground (arith, length-assign k v l)

  -- Each key at most once, and no more items than the bucket has room for.
  pub record IsBucket (b : Bucket K V) : Type 0 where
    pub distinct : (q : K) → count q b.items ≤ 1
    pub bounded : length b.items ≤ b.size

  pub remove_item-IsBucket : (k : K) (b : Bucket K V) → IsBucket b → IsBucket (remove_item k b).0
  unfolding remove_item
  remove_item-IsBucket k b h = record {
    distinct = λ q. omega (arith, h.distinct q, count-erase-le k q b.items);
    bounded = omega (arith, h.bounded, length-erase-le k b.items);
  }

  pub insert_item-IsBucket :
      (k : K) (v : V) (b : Bucket K V) → IsBucket b → IsBucket (insert_item k v b).0
  unfolding insert_item is_full
  insert_item-IsBucket k v b h = record {
    distinct = λ q. ground (
      arith,
      h.distinct q,
      count-assign k q v b.items,
      count-append k q v b.items,
      count-eq-zero k b.items,
      key.equal_iff k q,
    );
    bounded =
        ground (arith, length-assign k v b.items, length-append b.items ((k, v) ∷ []), h.bounded);
  }

  pub find_item-remove_item :
      (k q : K) (b : Bucket K V)
      → IsBucket b
      → find_item q (remove_item k b).0 ≡ (if key.equal k q then none else find_item q b)
  unfolding find_item remove_item
  find_item-remove_item k q b h = lookup-erase k q b.items (h.distinct q)

  -- An insertion that succeeds stores the value; one that fails changes nothing, and then the bucket
  -- is full of other keys.
  pub find_item-insert_item :
      (k q : K) (v : V) (b : Bucket K V)
      → find_item q (insert_item k v b).0
        ≡ (if key.equal k q && (insert_item k v b).1 then some v else find_item q b)
  unfolding find_item insert_item is_full
  find_item-insert_item k q v b =
      ground (arith, lookup-assign k q v b.items, lookup-append k q v b.items)

  pub insert_item-full :
      (k : K) (v : V) (b : Bucket K V)
      → (insert_item k v b).1 ≡ false
      → (find_item k b ≡ none) × (length b.items ≡ b.size)
  unfolding find_item insert_item is_full
  insert_item-full k v b h = ground arith

  pub insert_item-ok :
      (k : K) (v : V) (b : Bucket K V) → length b.items < b.size → (insert_item k v b).1 ≡ true
  unfolding insert_item is_full
  insert_item-ok k v b h = ground arith

  pub length-insert_item-le :
      (k : K) (v : V) (b : Bucket K V) → length (insert_item k v b).0.items ≤ length b.items + 1
  unfolding insert_item is_full
  length-insert_item-le k v b =
      ground (arith, length-assign k v b.items, length-append b.items ((k, v) ∷ []))

  -- Neither changes the room or the local depth.
  pub insert_item-fields :
      (k : K) (v : V) (b : Bucket K V)
      → ((insert_item k v b).0.size ≡ b.size) × ((insert_item k v b).0.depth ≡ b.depth)
  unfolding insert_item is_full
  insert_item-fields k v b = ground arith

  pub remove_item-fields :
      (k : K) (b : Bucket K V)
      → ((remove_item k b).0.size ≡ b.size) × ((remove_item k b).0.depth ≡ b.depth)
  unfolding remove_item
  remove_item-fields k b = (refl, refl)
