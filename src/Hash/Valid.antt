-- ===== src/Hash/Valid.antt =====
-- The invariant of the hash table, and the operations that leave the directory's shape alone.
use cmu.Common.{
  ap, refl, [], ◌∷◌, zero, suc, ℕ, ◌%◌, ◌^◌, ◌≤◌, ◌<◌, ◌≡◌, ◌≢◌, inl, inr, true, false, none, some,
  arith, if◌then◌else◌, ◌==◌, ltb, ◌&&◌, length, get_or, set, length-set, Bool-cases,
}
use cmu.Common.Bits.{two-pow_pos}
use native.Mathlib.Nat.{mod-lt}
use cmu.Hash.Buckets.{HashKey, Bucket, lookup, count, find_item, remove_item, insert_item}
use cmu.Hash.Buckets.Laws.{
  IsBucket, remove_item-IsBucket, insert_item-IsBucket, find_item-remove_item,
  find_item-insert_item, insert_item-fields, remove_item-fields,
}
use cmu.Hash.Move.{bucket_at-set}
use cmu.Hash.{Table, new, bucket_at, index_of, home, find, remove}

module _ {K V : Type 0} ⦃key : HashKey K⦄ where
  pub record IsValid (t : Table K V) : Type 0 where
    -- The directory has an entry for each value of the low `global_depth_` bits.
    pub width : length t.dir ≡ 2 ^ t.global_depth
    pub inside : (i : ℕ) → i < length t.dir → get_or t.dir i 0 < length t.heap
    -- No bucket holds a key twice or more than its room.
    pub buckets : (b : ℕ) → IsBucket (bucket_at t b)
    pub sizes : (b : ℕ) → (bucket_at t b).size ≡ t.bucket_size
    -- A key is found in its home bucket only.
    pub placed : (b : ℕ) (q : K) → home q t ≢ b → find_item q (bucket_at t b) ≡ none
    -- No local depth is above the global one, and entries that share a bucket agree in as many low
    -- bits as its depth says.
    pub shallow :
        (i : ℕ) → i < length t.dir → (bucket_at t (get_or t.dir i 0)).depth ≤ t.global_depth
    pub agree :
        (i j : ℕ)
        → i < length t.dir
        → j < length t.dir
        → get_or t.dir i 0 ≡ get_or t.dir j 0
        → i % 2 ^ (bucket_at t (get_or t.dir i 0)).depth
          ≡ j % 2 ^ (bucket_at t (get_or t.dir i 0)).depth

  -- The constructor makes an empty table.
  pub new-IsValid :
      (size : ℕ) → IsValid (new {K = K} {V = V} size) × ((q : K) → find q (new {V = V} size) ≡ none)
  unfolding new find bucket_at home index_of find_item lookup count
  new-IsValid size = (
    record {
      width = refl;
      inside = λ i p. ground (arith, i);
      buckets = λ b. rw (pointee b) (record { distinct = λ q. omega arith; bounded = omega arith });
      sizes = λ b. ground (arith, pointee b);
      placed = λ b q p. ground (arith, pointee b);
      shallow = λ i p. ground (arith, pointee (get_or (0 ∷ []) i 0));
      agree = λ i j p q e. ground arith;
    },
    λ q. ap (find_item q) (pointee (home q (new {V = V} size))),
  )
    where
      pointee :
          (b : ℕ)
          → bucket_at (new {K = K} {V = V} size) b ≡ record { size = size; depth = 0; items = [] }
      pointee zero = refl
      pointee (suc b) = refl

  pub index_of-lt : (k : K) (t : Table K V) → IsValid t → index_of k t < length t.dir
  unfolding index_of
  index_of-lt k t h = rw h.width (mod-lt (key.hash k) (two-pow_pos t.global_depth))

  pub home-lt : (k : K) (t : Table K V) → IsValid t → home k t < length t.heap
  unfolding home
  home-lt k t h = h.inside (index_of k t) (index_of-lt k t h)

  -- A bucket is written back; the key that `x` answers otherwise than the old one is at home there.
  pub write-IsValid :
      (t : Table K V) (b : ℕ) (x : Bucket K V)
      → IsValid t
      → IsBucket x
      → (x.size ≡ (bucket_at t b).size) × (x.depth ≡ (bucket_at t b).depth)
      → ((q : K) → home q t ≢ b → find_item q x ≡ none)
      → IsValid (record t { heap = set t.heap b x })
  write-IsValid t b x h valid fields placed = record {
    width = h.width;
    inside = λ i p. omega (arith, h.inside i p, length-set t.heap b x);
    buckets = λ c. rw (bucket_at-set t b c x) (elim (Bool-cases (b == c && ltb b (length t.heap))) [
      | inl e ↦ rw e valid
      | inr e ↦ rw e (h.buckets c)
    ]);
    sizes = λ c. ground (arith, bucket_at-set t b c x, h.sizes c, fields);
    placed = λ c q p.
        unfold home index_of in ground (arith, bucket_at-set t b c x, h.placed c q, placed q);
    shallow = λ i p. ground (arith, bucket_at-set t b (get_or t.dir i 0) x, h.shallow i p, fields);
    agree = λ i j p r e.
        let d : (bucket_at (record t { heap = set t.heap b x }) (get_or t.dir i 0)).depth
            ≡ (bucket_at t (get_or t.dir i 0)).depth =
          ground (arith, bucket_at-set t b (get_or t.dir i 0) x, fields) in
        rw d (h.agree i j p r e);
  }

  -- On a valid table, Remove keeps the invariant, and returns whether the key was there. Afterwards
  -- the key is not found, and every other key is found as before.
  pub remove_lem :
      (k : K) (t : Table K V)
      → IsValid t
      → IsValid (remove k t).0
        × ((remove k t).1 ≡ elim (find k t) [ none ↦ false | some _ ↦ true ])
        × ((q : K) → find q (remove k t).0 ≡ (if key.equal k q then none else find q t))
  unfolding remove find
  remove_lem k t h =
      let b = home k t in
      let x = (remove_item k (bucket_at t b)).0 in
      (
        write-IsValid t b x h (remove_item-IsBucket k (bucket_at t b) (h.buckets b))
            (remove_item-fields k (bucket_at t b))
            (λ q p.
              ground
                (arith, find_item-remove_item k q (bucket_at t b) (h.buckets b), h.placed b q p)),
        unfold remove_item find_item in ground arith,
        λ q.
            unfold home index_of in
            ground (
              arith,
              bucket_at-set t b (home q t) x,
              find_item-remove_item k q (bucket_at t b) (h.buckets b),
              home-lt k t h,
              key.equal_iff k q,
            ),
      )

  -- An insertion into a bucket with room for the key, or with the key in it.
  pub insert_item_lem :
      (k : K) (v : V) (t : Table K V)
      → IsValid t
      → (insert_item k v (bucket_at t (home k t))).1 ≡ true
      → let t' = record t {
        heap = set t.heap (home k t) (insert_item k v (bucket_at t (home k t))).0;
      } in
        IsValid t' × ((q : K) → find q t' ≡ (if key.equal k q then some v else find q t))
  unfolding find
  insert_item_lem k v t h done =
      let b = home k t in
      let x = (insert_item k v (bucket_at t b)).0 in
      (
        write-IsValid t b x h (insert_item-IsBucket k v (bucket_at t b) (h.buckets b))
            (insert_item-fields k v (bucket_at t b))
            (λ q p. ground (
              arith,
              find_item-insert_item k q v (bucket_at t b),
              h.placed b q p,
              key.equal_iff k q,
            )),
        λ q.
            unfold home index_of in
            ground (
              arith,
              bucket_at-set t b (home q t) x,
              find_item-insert_item k q v (bucket_at t b),
              home-lt k t h,
              key.equal_iff k q,
            ),
      )
