-- ===== src/Hash/Middle.antt =====
-- The table between the two loops of `RedistributeBucket`, and the loop over the items.
use cmu.Common.{
  ℕ, ◌+◌, ◌/◌, ◌%◌, ◌^◌, ◌<◌, ◌≡◌, refl, ◌∙◌, ◌≢◌, inl, inr, Bool, true, none, List, [], ◌∷◌, arith,
  if◌then◌else◌, ◌==◌, ◌&&◌, length, get_or, set, get_or-set, get_or-singleton, get_or-beyond, ◌-◌,
  length-set, length-append, Bool-cases,
}
use cmu.Common.Bits.{get_or-append}
use cmu.Hash.Buckets.{HashKey, Bucket, lookup, has, find_item, count}
use cmu.Hash.Buckets.Laws.{IsBucket}
use cmu.Hash.Move.{Rehashed}
use cmu.Hash.Rehash.{Homes, rehash-Rehashed, length-relink, get_or-relink}
use cmu.Hash.Valid.{IsValid, index_of-lt}
use cmu.Hash.{Table, bucket_at, index_of, home, split_bucket, redistribute_bucket}

module _ {K V : Type 0} ⦃key : HashKey K⦄ where
  -- The table between the two loops: entry `i` for `b` goes to the new bucket if its bit is set.
  module _ (t : Table K V) (b : ℕ) (h : IsValid t) (inside : b < length t.heap)
      (deep : (bucket_at t b).depth < t.global_depth) where
    pub mid : Table K V
    mid = split_bucket b t

    abbrev pub new_bucket : ℕ
    new_bucket = length t.heap

    pub moves : ℕ → Bool
    moves i = i / 2 ^ (bucket_at t b).depth % 2 == 1

    pub entry-mid :
        (i : ℕ)
        → i < length t.dir
        → get_or mid.dir i 0
          ≡ (if get_or t.dir i 0 == b && moves i then new_bucket else get_or t.dir i 0)
    unfolding mid split_bucket moves
    entry-mid i lt =
        let e : 0 + i ≡ i = omega arith in
        get_or-relink b (length t.heap) (bucket_at t b).depth 0 i t.dir lt ∙ rw e

    pub bucket_at-mid :
        (c : ℕ)
        → bucket_at mid c ≡ (
            if c == b
            then record (bucket_at t b) { depth = (bucket_at t b).depth + 1 }
            else if c == new_bucket
            then record { size = t.bucket_size; depth = (bucket_at t b).depth + 1; items = [] }
            else bucket_at t c)
    unfolding mid split_bucket
    bucket_at-mid c =
        let x = record (bucket_at t b) { depth = (bucket_at t b).depth + 1 } in
        let y : Bucket K V = record {
          size = t.bucket_size;
          depth = (bucket_at t b).depth + 1;
          items = [];
        } in
        let d : Bucket K V = record { size = t.bucket_size; depth = 0; items = [] } in
        unfold bucket_at in
        ground (
          arith,
          get_or-append (set t.heap b x) (y ∷ []) c d,
          length-set t.heap b x,
          get_or-set t.heap b c x d,
          get_or-singleton y (c - length (set t.heap b x)) d,
          get_or-beyond t.heap c d,
        )

    pub mid_fields :
        (mid.global_depth ≡ t.global_depth)
        × (mid.bucket_size ≡ t.bucket_size)
        × (length mid.dir ≡ length t.dir)
    mid_fields =
        unfold mid split_bucket in
        (refl, refl, length-relink b (length t.heap) (bucket_at t b).depth 0 t.dir)

    pub home-mid :
        (q : K)
        → home q mid ≡ (if home q t == b && moves (index_of q t) then new_bucket else home q t)
    unfolding home
    home-mid q = unfold mid split_bucket index_of in entry-mid (index_of q t) (index_of-lt q t h)

    pub mid_apart : new_bucket ≢ b
    mid_apart = omega arith

    items-mid :
        (c : ℕ) → (bucket_at mid c).items ≡ (if c == new_bucket then [] else (bucket_at t c).items)
    items-mid c = ground (arith, bucket_at-mid c, mid_apart, get_or-beyond t.heap c, beyond)
      where
        beyond : (bucket_at t new_bucket).items ≡ []
        beyond =
            unfold bucket_at in
            rw (
              get_or-beyond t.heap (length t.heap)
                (record { size = t.bucket_size; depth = 0; items = [] }) (omega arith))

    pub find-mid :
        (c : ℕ) (q : K)
        → find_item q (bucket_at mid c)
          ≡ (if c == new_bucket then none else find_item q (bucket_at t c))
    find-mid c q = unfold find_item lookup in ground (arith, items-mid c)

    pub size-mid : (c : ℕ) → (bucket_at mid c).size ≡ t.bucket_size
    size-mid c = ground (arith, bucket_at-mid c, h.sizes b, h.sizes c)

    mid-IsBucket : (c : ℕ) → IsBucket (bucket_at mid c)
    mid-IsBucket c = record {
      distinct = λ q. unfold count in ground (arith, items-mid c, (h.buckets c).distinct q);
      bounded = ground (arith, items-mid c, size-mid c, h.sizes c, (h.buckets c).bounded);
    }

    mid-Homes :
        (list : List (K × V))
        → ((q : K) → has q list ≡ true → home q t ≡ b)
        → Homes b new_bucket list mid
    mid-Homes [] all = tt
    mid-Homes (e ∷ list) all = (
      ground
          (arith, home-mid e.0, all e.0 (unfold lookup in ground (arith, key.equal_iff e.0 e.0))),
      mid-Homes list (λ q f. all q (unfold lookup in ground arith)),
    )

    pub mid_heap : length mid.heap ≡ new_bucket + 1
    mid_heap =
        let x = record (bucket_at t b) { depth = (bucket_at t b).depth + 1 } in
        let y : Bucket K V = record {
          size = t.bucket_size;
          depth = (bucket_at t b).depth + 1;
          items = [];
        } in
        unfold mid split_bucket in
        omega (arith, length-append (set t.heap b x) (y ∷ []), length-set t.heap b x)

    home_of_item : (q : K) → has q (bucket_at t b).items ≡ true → home q t ≡ b
    home_of_item q f = elim (Bool-cases (home q t == b)) [
      | inl e ↦ ground arith
      | inr e ↦ unfold find_item in ground (arith, h.placed b q)
    ]

    pub redistributed : Rehashed b new_bucket (bucket_at t b).items mid (redistribute_bucket b t)
    redistributed =
        unfold redistribute_bucket mid in
        rehash-Rehashed b new_bucket (bucket_at t b).items mid
          (unfold split_bucket in omega (arith, mid_heap))
          (unfold split_bucket in omega (arith, mid_heap)) mid_apart mid-IsBucket
          (h.buckets b).distinct (mid-Homes (bucket_at t b).items (λ q f. home_of_item q f))
          (ground
            (arith, items-mid new_bucket, size-mid new_bucket, h.sizes b, (h.buckets b).bounded))

    pub same_bit :
        (i j : ℕ)
        → moves i ≡ moves j
        → i / 2 ^ (bucket_at t b).depth % 2 ≡ j / 2 ^ (bucket_at t b).depth % 2
    unfolding moves
    same_bit i j m = ground arith
