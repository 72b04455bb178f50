-- ===== src/Hash/Rehash.antt =====
-- What the two loops of `RedistributeBucket` do to the directory and to the buckets.
use cmu.Common.{
  ℕ, zero, suc, ◌+◌, ◌/◌, ◌%◌, ◌^◌, ◌≤◌, ◌<◌, ◌≡◌, refl, ◌∙◌, ◌≢◌, ◌⊎◌, List, [], ◌∷◌, arith,
  if◌then◌else◌, ◌==◌, ◌&&◌, length, get_or,
}
use cmu.Hash.Buckets.{HashKey, lookup, count}
use cmu.Hash.Buckets.Laws.{IsBucket, lookup-eq-none}
use cmu.Hash.{Table, relink, bucket_at, home, rehash_item, rehash}
use cmu.Hash.Move.{Rehashed, rehash_item-Rehashed}

pub length-relink : (b n c i : ℕ) (dir : List ℕ) → length (relink b n c i dir) ≡ length dir
unfolding relink
length-relink b n c i [] = refl
length-relink b n c i (p ∷ dir) = omega (arith, length-relink b n c (i + 1) dir)

pub get_or-relink :
    (b n c i j : ℕ) (dir : List ℕ)
    → j < length dir
    → get_or (relink b n c i dir) j 0
      ≡ (if get_or dir j 0 == b && ((i + j) / 2 ^ c) % 2 == 1 then n else get_or dir j 0)
unfolding relink
get_or-relink b n c i j [] h = elim h [ ]
get_or-relink b n c i zero (p ∷ dir) h = let e : i + 0 ≡ i = omega arith in rw e
get_or-relink b n c i (suc j) (p ∷ dir) h =
    let e : i + suc j ≡ i + 1 + j = omega arith in
    rw e (get_or-relink b n c (i + 1) j dir (omega arith))

module _ {K V : Type 0} ⦃key : HashKey K⦄ where
  pub home-same :
      (t t' : Table K V) (q : K)
      → t'.dir ≡ t.dir
      → t'.global_depth ≡ t.global_depth
      → home q t' ≡ home q t
  unfolding home
  home-same t t' q d g = rw (d, g)

  -- The loop is its rounds, one after the other.
  Rehashed-trans :
      (b n : ℕ) (k : K) (v : V) (list : List (K × V)) (t t₁ t' : Table K V)
      → ((q : K) → count q ((k, v) ∷ list) ≤ 1)
      → Rehashed b n ((k, v) ∷ []) t t₁
      → Rehashed b n list t₁ t'
      → Rehashed b n ((k, v) ∷ list) t t'
  Rehashed-trans b n k v list t t₁ t' once r s = record {
    dir = s.dir ∙ r.dir;
    global_depth = s.global_depth ∙ r.global_depth;
    bucket_size = s.bucket_size ∙ r.bucket_size;
    num_buckets = s.num_buckets ∙ r.num_buckets;
    heap = s.heap ∙ r.heap;
    other = λ c p q. s.other c p q ∙ r.other c p q;
    old = λ q.
        unfold lookup in ground (arith, r.old q, s.old q, home-same t t₁ q r.dir r.global_depth);
    fresh = λ q.
        unfold lookup count in
        ground (
          arith,
          r.fresh q,
          s.fresh q,
          home-same t t₁ q r.dir r.global_depth,
          once q,
          lookup-eq-none q list,
        );
    valid = s.valid;
    fields = λ c. ground (arith, r.fields c, s.fields c);
    grown = omega (arith, r.grown, s.grown);
  }

  -- Every item of the list goes home to `b` or to `n`.
  abbrev pub Homes : ℕ → ℕ → List (K × V) → Table K V → Type 0
  Homes b n [] t = Unit {0}
  Homes b n (e ∷ list) t = ((home e.0 t ≡ b) ⊎ (home e.0 t ≡ n)) × Homes b n list t

  Homes-same :
      (b n : ℕ) (list : List (K × V)) (t t' : Table K V)
      → t'.dir ≡ t.dir
      → t'.global_depth ≡ t.global_depth
      → Homes b n list t
      → Homes b n list t'
  Homes-same b n [] t t' d g h = tt
  Homes-same b n (e ∷ list) t t' d g h =
      (rw (home-same t t' e.0 d g) h.0, Homes-same b n list t t' d g h.1)

  pub rehash-Rehashed :
      (b n : ℕ) (list : List (K × V)) (t : Table K V)
      → b < length t.heap
      → n < length t.heap
      → n ≢ b
      → ((c : ℕ) → IsBucket (bucket_at t c))
      → ((q : K) → count q list ≤ 1)
      → Homes b n list t
      → length (bucket_at t n).items + length list ≤ (bucket_at t n).size
      → Rehashed b n list t (rehash b list t)
  unfolding rehash
  rehash-Rehashed b n [] t inside room apart valid once homes free = record {
    dir = refl;
    global_depth = refl;
    bucket_size = refl;
    num_buckets = refl;
    heap = refl;
    other = λ c p r. refl;
    old = λ q. unfold lookup in refl;
    fresh = λ q. unfold lookup in refl;
    valid = valid;
    fields = λ c. (refl, refl);
    grown = omega arith;
  }
  rehash-Rehashed b n ((k, v) ∷ list) t inside room apart valid once homes free =
      let t₁ = rehash_item b k v t in
      let r = rehash_item-Rehashed b n t inside room apart valid k v homes.0 (omega arith) in
      Rehashed-trans b n k v list t t₁ (rehash b list t₁) once r (
        rehash-Rehashed b n list t₁ (omega (arith, r.heap)) (omega (arith, r.heap)) apart r.valid
          (λ q. unfold count in ground (arith, once q))
          (Homes-same b n list t t₁ r.dir r.global_depth homes.1)
          (omega (arith, r.grown, r.fields n)))
