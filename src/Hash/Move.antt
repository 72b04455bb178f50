-- ===== src/Hash/Move.antt =====
-- What the loop of `RedistributeBucket` over the items does to the buckets, and one round of it.
use cmu.Common.{
  ℕ, ◌+◌, ◌≤◌, ◌<◌, ◌≡◌, refl, ◌≢◌, ◌⊎◌, inl, inr, not, none, List, [], ◌∷◌, arith, if◌then◌else◌,
  ◌==◌, ltb, ◌&&◌, length, set, get_or-set, length-set, Bool-cases,
}
use cmu.Hash.Buckets.{HashKey, Bucket, lookup, has, find_item, remove_item, insert_item}
use cmu.Hash.Buckets.Laws.{
  IsBucket, remove_item-IsBucket, insert_item-IsBucket, find_item-remove_item,
  find_item-insert_item, insert_item-ok, length-insert_item-le, insert_item-fields,
  remove_item-fields,
}
use cmu.Hash.{Table, bucket_at, home, rehash_item}

module _ {K V : Type 0} where
  pub bucket_at-set :
      (t : Table K V) (b c : ℕ) (x : Bucket K V)
      → bucket_at (record t { heap = set t.heap b x }) c
        ≡ (if b == c && ltb b (length t.heap) then x else bucket_at t c)
  unfolding bucket_at
  bucket_at-set t b c x = get_or-set t.heap b c x _

module _ {K V : Type 0} ⦃key : HashKey K⦄ where
  -- From `t` to `t'` the items of `list` whose home is not `b` have gone from `b` to `n`.
  pub record Rehashed (b n : ℕ) (list : List (K × V)) (t t' : Table K V) : Type 0 where
    pub dir : t'.dir ≡ t.dir
    pub global_depth : t'.global_depth ≡ t.global_depth
    pub bucket_size : t'.bucket_size ≡ t.bucket_size
    pub num_buckets : t'.num_buckets ≡ t.num_buckets
    pub heap : length t'.heap ≡ length t.heap
    pub other : (c : ℕ) → c ≢ b → c ≢ n → bucket_at t' c ≡ bucket_at t c
    pub old :
        (q : K)
        → find_item q (bucket_at t' b)
          ≡ (if has q list && not (home q t == b) then none else find_item q (bucket_at t b))
    pub fresh :
        (q : K)
        → find_item q (bucket_at t' n) ≡ (
            if has q list && not (home q t == b)
            then lookup q list
            else find_item q (bucket_at t n))
    pub valid : (c : ℕ) → IsBucket (bucket_at t' c)
    pub fields :
        (c : ℕ)
        → ((bucket_at t' c).size ≡ (bucket_at t c).size)
          × ((bucket_at t' c).depth ≡ (bucket_at t c).depth)
    pub grown : length (bucket_at t' n).items ≤ length (bucket_at t n).items + length list

  module _ (b n : ℕ) (t : Table K V) (inside : b < length t.heap) (room : n < length t.heap)
      (apart : n ≢ b) (valid : (c : ℕ) → IsBucket (bucket_at t c)) where
    stay-Rehashed : (k : K) (v : V) → home k t ≡ b → Rehashed b n ((k, v) ∷ []) t t
    unfolding lookup
    stay-Rehashed k v e = record {
      dir = refl;
      global_depth = refl;
      bucket_size = refl;
      num_buckets = refl;
      heap = refl;
      other = λ c p r. refl;
      old = λ q. ground (arith, key.equal_iff k q);
      fresh = λ q. ground (arith, key.equal_iff k q);
      valid = valid;
      fields = λ c. (refl, refl);
      grown = omega arith;
    }

    moved_at :
        (k : K) (v : V) (c : ℕ)
        → home k t ≡ n
        → bucket_at (rehash_item b k v t) c ≡ (
            if c == n
            then (insert_item k v (bucket_at t n)).0
            else if c == b
            then (remove_item k (bucket_at t b)).0
            else bucket_at t c)
    unfolding rehash_item
    moved_at k v c e =
        let x = (remove_item k (bucket_at t b)).0 in
        let t₁ = record t { heap = set t.heap b x } in
        ground (
          arith,
          bucket_at-set t b n x,
          bucket_at-set t b c x,
          bucket_at-set t₁ n c (insert_item k v (bucket_at t n)).0,
          length-set t.heap b x,
        )

    move-Rehashed :
        (k : K) (v : V)
        → home k t ≡ n
        → length (bucket_at t n).items < (bucket_at t n).size
        → Rehashed b n ((k, v) ∷ []) t (rehash_item b k v t)
    unfolding lookup
    move-Rehashed k v e free = record {
      dir = unfold rehash_item in ground arith;
      global_depth = unfold rehash_item in ground arith;
      bucket_size = unfold rehash_item in ground arith;
      num_buckets = unfold rehash_item in ground arith;
      heap =
          let x = (remove_item k (bucket_at t b)).0 in
          let t₁ = record t { heap = set t.heap b x } in
          unfold rehash_item in
          ground (
            arith,
            length-set t.heap b x,
            length-set t₁.heap (home k t) (insert_item k v (bucket_at t₁ (home k t))).0,
          );
      other = λ c p r. ground (arith, moved_at k v c e);
      old = λ q. ground (
        arith,
        moved_at k v b e,
        find_item-remove_item k q (bucket_at t b),
        key.equal_iff k q,
        valid b,
      );
      fresh = λ q. ground (
        arith,
        moved_at k v n e,
        find_item-insert_item k q v (bucket_at t n),
        key.equal_iff k q,
        insert_item-ok k v (bucket_at t n) free,
      );
      valid = λ c. rw (moved_at k v c e) (elim (Bool-cases (c == n)) [
        | inl p ↦ rw p (insert_item-IsBucket k v (bucket_at t n) (valid n))
        | inr p ↦ rw p (elim (Bool-cases (c == b)) [
          | inl r ↦ rw r (remove_item-IsBucket k (bucket_at t b) (valid b))
          | inr r ↦ rw r (valid c)
        ])
      ]);
      fields = λ c. ground (
        arith,
        moved_at k v c e,
        insert_item-fields k v (bucket_at t n),
        remove_item-fields k (bucket_at t b),
      );
      grown = ground (arith, moved_at k v n e, length-insert_item-le k v (bucket_at t n));
    }

    pub rehash_item-Rehashed :
        (k : K) (v : V)
        → (home k t ≡ b) ⊎ (home k t ≡ n)
        → length (bucket_at t n).items < (bucket_at t n).size
        → Rehashed b n ((k, v) ∷ []) t (rehash_item b k v t)
    rehash_item-Rehashed k v (inl e) free =
        let same : rehash_item b k v t ≡ t = unfold rehash_item in ground arith in
        rw same (stay-Rehashed k v e)
    rehash_item-Rehashed k v (inr e) free = move-Rehashed k v e free
