-- ===== src/Hash/Insert.antt =====
-- The loop of `Insert`: what it stores, that it ends, and when it does not.
use cmu.Common.{
  ◌⊎◌, ℕ, zero, suc, ◌+◌, ◌%◌, ◌^◌, ◌≤◌, ◌<◌, ◌≡◌, refl, sym, ◌∙◌, ap, inl, inr, true, false, some,
  List, [], ◌∷◌, arith, if◌then◌else◌, ◌==◌, length, set, Bool-cases, ==_iff, subst,
}
use cmu.Common.Bits.{mod-mod_of_le}
use cmu.Hash.Buckets.{HashKey, lookup, has, find_item, insert_item}
use cmu.Hash.Buckets.Laws.{insert_item-full}
use cmu.Hash.Valid.{IsValid, index_of-lt, home-lt, insert_item_lem}
use cmu.Hash.Double.{double_dir-IsValid, home-double_dir, bucket_at-double_dir}
use cmu.Hash.Split.{
  redistribute_bucket-IsValid, find-redistribute_bucket, depth-redistribute_bucket,
  global_depth-redistribute_bucket, bucket_size-redistribute_bucket,
}
use cmu.Hash.{Table, bucket_at, index_of, home, find, double_dir, redistribute_bucket, grow, insert}

module _ {K V : Type 0} ⦃key : HashKey K⦄ where
  -- A round that finds no room keeps the invariant and every key, and makes the home bucket of the
  -- key one bit deeper.
  pub record Grown (k : K) (t t' : Table K V) : Type 0 where
    pub valid : IsValid t'
    pub finds : (q : K) → find q t' ≡ find q t
    pub deeper : (bucket_at t' (home k t')).depth ≡ (bucket_at t (home k t)).depth + 1
    pub room : t'.bucket_size ≡ t.bucket_size
    pub global :
        (t'.global_depth ≡ t.global_depth)
        ⊎ ((t'.global_depth ≡ t.global_depth + 1)
            × ((bucket_at t (home k t)).depth ≡ t.global_depth))

  redistribute_bucket-Grown :
      (k : K) (t : Table K V)
      → IsValid t
      → (bucket_at t (home k t)).depth < t.global_depth
      → Grown k t (redistribute_bucket (home k t) t)
  redistribute_bucket-Grown k t h deep =
      let b = home k t in
      let inside = home-lt k t h in
      record {
        valid = redistribute_bucket-IsValid t b h inside deep;
        finds = find-redistribute_bucket t b h inside deep;
        deeper = depth-redistribute_bucket t b h inside deep k refl;
        room = bucket_size-redistribute_bucket t b h inside deep;
        global = inl (global_depth-redistribute_bucket t b h inside deep);
      }

  find-double_dir : (q : K) (t : Table K V) → IsValid t → find q (double_dir t) ≡ find q t
  unfolding find
  find-double_dir q t h = rw (home-double_dir q t h, bucket_at-double_dir)

  home-depth-le :
      (k : K) (t : Table K V) → IsValid t → (bucket_at t (home k t)).depth ≤ t.global_depth
  home-depth-le k t h = unfold home index_of in h.shallow (index_of k t) (index_of-lt k t h)

  pub grow-Grown : (k : K) (t : Table K V) → IsValid t → Grown k t (grow (home k t) t)
  unfolding grow
  grow-Grown k t h = elim (Bool-cases ((bucket_at t (home k t)).depth == t.global_depth)) [
    | inl e ↦
        let d = double_dir t in
        let hd = double_dir-IsValid t h in
        let same = home-double_dir k t h in
        let deep : (bucket_at d (home k d)).depth < d.global_depth =
          rw (same, bucket_at-double_dir) (unfold double_dir in ground arith) in
        let g = redistribute_bucket-Grown k d hd deep in
        rw e (
          rw (← same) (record {
            valid = g.valid;
            finds = λ q. g.finds q ∙ find-double_dir q t h;
            deeper = g.deeper ∙ rw (same, bucket_at-double_dir);
            room = g.room ∙ unfold double_dir in refl;
            global = inr (
              global_depth-redistribute_bucket d (home k d) hd (home-lt k d hd) deep
                  ∙ unfold double_dir in refl,
              ground arith,
            );
          }))
    | inr e ↦ rw e (redistribute_bucket-Grown k t h (ground (arith, home-depth-le k t h)))
  ]

  -- What a successful `Insert` promises.
  pub record Stored (k : K) (v : V) (t t' : Table K V) : Type 0 where
    pub valid : IsValid t'
    pub finds : (q : K) → find q t' ≡ (if key.equal k q then some v else find q t)
    pub room : t'.bucket_size ≡ t.bucket_size

  low_bits :
      (k : K) (t : Table K V) (d : ℕ)
      → d ≤ t.global_depth
      → index_of k t % 2 ^ d ≡ key.hash k % 2 ^ d
  unfolding index_of
  low_bits k t d le = mod-mod_of_le (key.hash k) d t.global_depth le

  -- Two keys of one bucket have hashes that agree in as many low bits as its depth says.
  hash-agree :
      (j k : K) (t : Table K V) (d : ℕ)
      → IsValid t
      → home j t ≡ home k t
      → d ≤ (bucket_at t (home k t)).depth
      → key.hash j % 2 ^ d ≡ key.hash k % 2 ^ d
  hash-agree j k t d h e le =
      let deep = (bucket_at t (home k t)).depth in
      let top = home-depth-le k t h in
      let agree : index_of j t % 2 ^ deep ≡ index_of k t % 2 ^ deep = rw (← e) (
        unfold home in
        h.agree (index_of j t) (index_of k t) (index_of-lt j t h) (index_of-lt k t h) e) in
      sym (low_bits j t d (omega (arith, top)))
      ∙ sym (mod-mod_of_le (index_of j t) d deep le)
      ∙ ap (λ (x : ℕ). x % 2 ^ d) agree
      ∙ mod-mod_of_le (index_of k t) d deep le
      ∙ low_bits k t d (omega (arith, top))

  first_key : (l : List (K × V)) → 0 < length l → (k : K) × (has k l ≡ true)
  first_key [] h = elim h [ ]
  first_key ((k, v) ∷ l) h = (k, unfold lookup in ground (arith, key.equal_iff k k))

  -- With `d` bits telling all keys apart, a bucket of depth `d` or more has room for a key that is
  -- at home in it, or has the key.
  deep_room :
      (d : ℕ) (k : K) (v : V) (t : Table K V)
      → ((a b : K) → key.hash a % 2 ^ d ≡ key.hash b % 2 ^ d → a ≡ b)
      → IsValid t
      → 0 < t.bucket_size
      → d ≤ (bucket_at t (home k t)).depth
      → (insert_item k v (bucket_at t (home k t))).1 ≡ true
  deep_room d k v t apart h pos le =
      elim (Bool-cases (insert_item k v (bucket_at t (home k t))).1) [
        | inl e ↦ e
        | inr e ↦
            let b = home k t in
            let full = insert_item-full k v (bucket_at t b) e in
            let (j, held) = first_key (bucket_at t b).items (omega (arith, full, h.sizes b)) in
            let here : home j t ≡ b =
              unfold find_item in ground (arith, h.placed b j, ==_iff (home j t) b) in
            let same : j ≡ k = apart j k (hash-agree j k t d h here le) in
            absurd (unfold find_item in ground (arith, full.0, held, same))
      ]

  full_shallow :
      (d : ℕ) (k : K) (v : V) (t : Table K V)
      → ((a b : K) → key.hash a % 2 ^ d ≡ key.hash b % 2 ^ d → a ≡ b)
      → IsValid t
      → 0 < t.bucket_size
      → (insert_item k v (bucket_at t (home k t))).1 ≡ false
      → (bucket_at t (home k t)).depth < d
  full_shallow d k v t apart h pos e = ground (arith, deep_room d k v t apart h pos)

  insert-Stored_from :
      (d fuel : ℕ) (k : K) (v : V) (t : Table K V)
      → ((a b : K) → key.hash a % 2 ^ d ≡ key.hash b % 2 ^ d → a ≡ b)
      → IsValid t
      → 0 < t.bucket_size
      → d < fuel + (bucket_at t (home k t)).depth
      → 0 < fuel
      → (t' : Table K V) × (insert fuel k v t ≡ some t') × Stored k v t t'
  unfolding insert
  insert-Stored_from d zero k v t apart h pos enough more = absurd (omega arith)
  insert-Stored_from d (suc fuel) k v t apart h pos enough more =
      let b = home k t in
      elim (Bool-cases (insert_item k v (bucket_at t b)).1) [
        | inl e ↦
            let s = insert_item_lem k v t h e in
            (
              record t { heap = set t.heap b (insert_item k v (bucket_at t b)).0 },
              rw e,
              record { valid = s.0; finds = s.1; room = refl },
            )
        | inr e ↦
            let g = grow-Grown k t h in
            let short : (bucket_at t b).depth < d = full_shallow d k v t apart h pos e in
            let (t', run, s) =
              insert-Stored_from d fuel k v (grow b t) apart g.valid (omega (arith, g.room))
                (omega (arith, g.deeper)) (omega arith) in
            (
              t',
              rw (e, run),
              record {
                valid = s.valid;
                finds = λ q. s.finds q ∙ rw (g.finds q);
                room = s.room ∙ g.room;
              },
            )
      ]

  -- If the low d bits of the hash tell all keys apart and a bucket has room for one item at least,
  -- Insert on a valid table returns within d + 1 rounds, keeps the invariant, stores the value
  -- under the key, and leaves what is found under every other key.
  pub insert-Stored :
      (d fuel : ℕ) (k : K) (v : V) (t : Table K V)
      → ((a b : K) → key.hash a % 2 ^ d ≡ key.hash b % 2 ^ d → a ≡ b)
      → IsValid t
      → 0 < t.bucket_size
      → d < fuel
      → (t' : Table K V) × (insert fuel k v t ≡ some t') × Stored k v t t'
  insert-Stored d fuel k v t apart h pos enough =
      insert-Stored_from d fuel k v t apart h pos (omega arith) (omega arith)

  -- Whatever the hash, an Insert on a valid table that returns has kept the invariant, stored the
  -- value under the key, and left every other key.
  pub insert-Stored_of_returns :
      (fuel : ℕ) (k : K) (v : V) (t t' : Table K V)
      → IsValid t
      → insert fuel k v t ≡ some t'
      → Stored k v t t'
  unfolding insert
  insert-Stored_of_returns zero k v t t' h e = cc
  insert-Stored_of_returns (suc fuel) k v t t' h e =
      elim (Bool-cases (insert_item k v (bucket_at t (home k t))).1) [
        | inl done ↦
            let s = insert_item_lem k v t h done in
            let stop = record t {
              heap = set t.heap (home k t) (insert_item k v (bucket_at t (home k t))).0;
            } in
            let same : stop ≡ t' = ground arith in
            subst (Stored k v t) same (record { valid = s.0; finds = s.1; room = refl })
        | inr more ↦
            let g = grow-Grown k t h in
            let s =
              insert-Stored_of_returns fuel k v (grow (home k t) t) t' g.valid (ground arith) in
            record {
              valid = s.valid;
              finds = λ q. s.finds q ∙ rw (g.finds q);
              room = s.room ∙ g.room;
            }
      ]
