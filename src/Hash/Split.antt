-- ===== src/Hash/Split.antt =====
-- `Insert` where the bucket has no room: the bucket is split in two.
use cmu.Common.{
  ℕ, ◌+◌, ◌%◌, ◌^◌, ◌<◌, ◌≡◌, ◌∙◌, ap, inl, inr, none, List, arith, if◌then◌else◌, ◌==◌, ◌&&◌, ◌||◌,
  length, get_or, Bool-cases,
}
use cmu.Common.Bits.{agree_next}
use cmu.Hash.Buckets.{HashKey, find_item}
use cmu.Hash.Rehash.{home-same}
use cmu.Hash.Valid.{IsValid, home-lt}
use cmu.Hash.{Table, bucket_at, index_of, home, find, redistribute_bucket}
use cmu.Hash.Middle.{
  mid, new_bucket, moves, entry-mid, bucket_at-mid, mid_fields, home-mid, mid_apart, find-mid,
  size-mid, mid_heap, redistributed, same_bit,
}

module _ {K V : Type 0} ⦃key : HashKey K⦄ (t : Table K V) (b : ℕ) (h : IsValid t)
    (inside : b < length t.heap) (deep : (bucket_at t b).depth < t.global_depth) where
  home-final :
      (q : K)
      → home q (redistribute_bucket b t) ≡ (
          if home q t == b && moves t b h inside deep (index_of q t)
          then new_bucket t b h inside deep
          else home q t)
  home-final q =
      home-same (mid t b h inside deep) (redistribute_bucket b t) q
        (redistributed t b h inside deep).dir (redistributed t b h inside deep).global_depth
      ∙ home-mid t b h inside deep q

  find-final :
      (c : ℕ) (q : K)
      → find_item q (bucket_at (redistribute_bucket b t) c) ≡ (
          if home q (redistribute_bucket b t) == c
          then find_item q (bucket_at t (home q t))
          else none)
  find-final c q = elim (Bool-cases (c == b)) [
    | inl e ↦
        let e' : c ≡ b = ground arith in
        rw e' (
          unfold find_item in
          ground (
            arith,
            home-final q,
            home-mid t b h inside deep q,
            (redistributed t b h inside deep).old q,
            find-mid t b h inside deep b q,
            mid_apart t b h inside deep,
            h.placed b q,
            home-lt q t h,
          ))
    | inr e ↦ elim (Bool-cases (c == new_bucket t b h inside deep)) [
      | inl f ↦
          let f' : c ≡ new_bucket t b h inside deep = ground arith in
          rw f' (
            unfold find_item in
            ground (
              arith,
              home-final q,
              home-mid t b h inside deep q,
              (redistributed t b h inside deep).fresh q,
              find-mid t b h inside deep (new_bucket t b h inside deep) q,
              mid_apart t b h inside deep,
              h.placed b q,
              home-lt q t h,
            ))
      | inr f ↦ ground (
        arith,
        home-final q,
        (redistributed t b h inside deep).other c,
        find-mid t b h inside deep c q,
        h.placed c q,
      )
    ]
  ]

  entry-final :
      (i : ℕ)
      → i < length (redistribute_bucket b t).dir
      → (i < length t.dir)
        × (get_or (redistribute_bucket b t).dir i 0 ≡ (
            if get_or t.dir i 0 == b && moves t b h inside deep i
            then new_bucket t b h inside deep
            else get_or t.dir i 0))
  entry-final i p =
      let lt : i < length t.dir =
        omega (
          arith,
          p,
          ap length (redistributed t b h inside deep).dir,
          mid_fields t b h inside deep,
        ) in
      (
        lt,
        ap (λ (d : List ℕ). get_or d i 0) (redistributed t b h inside deep).dir
            ∙ entry-mid t b h inside deep i lt,
      )

  depth-final :
      (c : ℕ)
      → (bucket_at (redistribute_bucket b t) c).depth ≡ (
          if c == b || c == new_bucket t b h inside deep
          then (bucket_at t b).depth + 1
          else (bucket_at t c).depth)
  depth-final c =
      ground (arith, (redistributed t b h inside deep).fields c, bucket_at-mid t b h inside deep c)

  agree-final :
      (i j : ℕ)
      → i < length (redistribute_bucket b t).dir
      → j < length (redistribute_bucket b t).dir
      → get_or (redistribute_bucket b t).dir i 0 ≡ get_or (redistribute_bucket b t).dir j 0
      → let d =
          (bucket_at (redistribute_bucket b t) (get_or (redistribute_bucket b t).dir i 0)).depth in
        i % 2 ^ d ≡ j % 2 ^ d
  agree-final i j p r e =
      let f = entry-final i p in
      let g = entry-final j r in
      let x = get_or (redistribute_bucket b t).dir i 0 in
      elim (Bool-cases (get_or t.dir i 0 == b)) [
        | inl y ↦
            let yi : get_or t.dir i 0 ≡ b = ground arith in
            let yj : get_or t.dir j 0 ≡ b =
              ground (arith, f.1, g.1, h.inside j g.0, mid_apart t b h inside deep) in
            let m : moves t b h inside deep i ≡ moves t b h inside deep j =
              ground (arith, f.1, g.1, mid_apart t b h inside deep) in
            let d : (bucket_at (redistribute_bucket b t) x).depth ≡ (bucket_at t b).depth + 1 =
              ground (arith, f.1, depth-final x) in
            let low : i % 2 ^ (bucket_at t b).depth ≡ j % 2 ^ (bucket_at t b).depth =
              ground (arith, h.agree i j f.0 g.0) in
            rw d (agree_next i j (bucket_at t b).depth low (same_bit t b h inside deep i j m))
        | inr y ↦
            let xi : x ≡ get_or t.dir i 0 = ground (arith, f.1) in
            let xj : get_or t.dir i 0 ≡ get_or t.dir j 0 =
              ground (arith, f.1, g.1, h.inside i f.0, mid_apart t b h inside deep) in
            let d : (bucket_at (redistribute_bucket b t) x).depth
                ≡ (bucket_at t (get_or t.dir i 0)).depth =
              ground (arith, f.1, depth-final x, h.inside i f.0) in
            rw d (h.agree i j f.0 g.0 xj)
      ]

  -- Splitting a bucket whose depth is below the global one in a valid table keeps the invariant.
  pub redistribute_bucket-IsValid : IsValid (redistribute_bucket b t)
  redistribute_bucket-IsValid = record {
    width = omega (
      arith,
      ap length (redistributed t b h inside deep).dir,
      mid_fields t b h inside deep,
      h.width,
      ap (λ (g : ℕ). 2 ^ g)
          ((redistributed t b h inside deep).global_depth ∙ (mid_fields t b h inside deep).0),
    );
    inside = λ i p.
        let e = entry-final i p in
        ground (
          arith,
          e.1,
          h.inside i e.0,
          (redistributed t b h inside deep).heap,
          mid_heap t b h inside deep,
        );
    buckets = (redistributed t b h inside deep).valid;
    sizes = λ c. ground (
      arith,
      (redistributed t b h inside deep).fields c,
      size-mid t b h inside deep c,
      (redistributed t b h inside deep).bucket_size,
      mid_fields t b h inside deep,
    );
    placed = λ c q p. ground (arith, find-final c q);
    shallow = λ i p.
        let e = entry-final i p in
        ground (
          arith,
          e.1,
          depth-final (get_or (redistribute_bucket b t).dir i 0),
          h.shallow i e.0,
          (redistributed t b h inside deep).global_depth,
          mid_fields t b h inside deep,
        );
    agree = λ i j p r e. agree-final i j p r e;
  }

  -- Splitting a bucket whose depth is below the global one in a valid table loses nothing: every
  -- key is found as before.
  pub find-redistribute_bucket : (q : K) → find q (redistribute_bucket b t) ≡ find q t
  unfolding find
  find-redistribute_bucket q = ground (arith, find-final (home q (redistribute_bucket b t)) q)

  -- The bucket that a key of `b` is at home in afterwards is one bit deeper.
  pub depth-redistribute_bucket :
      (k : K)
      → home k t ≡ b
      → (bucket_at (redistribute_bucket b t) (home k (redistribute_bucket b t))).depth
        ≡ (bucket_at t b).depth + 1
  depth-redistribute_bucket k e =
      ground (arith, home-final k, depth-final (home k (redistribute_bucket b t)))

  pub bucket_size-redistribute_bucket : (redistribute_bucket b t).bucket_size ≡ t.bucket_size
  bucket_size-redistribute_bucket =
      (redistributed t b h inside deep).bucket_size ∙ (mid_fields t b h inside deep).1

  pub global_depth-redistribute_bucket : (redistribute_bucket b t).global_depth ≡ t.global_depth
  global_depth-redistribute_bucket =
      (redistributed t b h inside deep).global_depth ∙ (mid_fields t b h inside deep).0
