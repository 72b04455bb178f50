-- ===== src/Hash/Stuck.antt =====
-- Where `Insert` splits its bucket again and again.
use cmu.Common.{
  ℕ, zero, suc, ◌+◌, ◌≤◌, ◌≡◌, refl, ◌∙◌, Bool, true, false, none, some, List, [], ◌∷◌, arith,
  if◌then◌else◌, ◌==◌, ◌&&◌, length,
}
use cmu.Hash.Buckets.{HashKey, lookup, erase, has, find_item, insert_item, count, is_full}
use cmu.Hash.Buckets.Laws.{lookup-erase, count-erase-le}
use cmu.Hash.Valid.{IsValid}
use cmu.Hash.Insert.{grow-Grown}
use cmu.Hash.{Table, bucket_at, index_of, home, find, grow, insert}

module _ {K : Type 0} ⦃key : HashKey K⦄ where
  -- The keys pass the test, and no two of them are equal.
  abbrev pub AllFound : List K → (K → Bool) → Type 0
  AllFound [] found = Unit {0}
  AllFound (k ∷ ks) found =
      (found k ≡ true) × AllFound ks (λ q. if key.equal k q then false else found q)

  AllFound-mono :
      (ks : List K) (f g : K → Bool)
      → ((q : K) → f q ≡ true → g q ≡ true)
      → AllFound ks f
      → AllFound ks g
  AllFound-mono [] f g le h = tt
  AllFound-mono (k ∷ ks) f g le h =
      (le k h.0, AllFound-mono ks _ _ (λ q e. ground (arith, le q)) h.1)

module _ {K V : Type 0} ⦃key : HashKey K⦄ where
  length-erase : (k : K) (l : List (K × V)) → has k l ≡ true → length (erase k l) + 1 ≡ length l
  unfolding erase lookup
  length-erase k [] h = cc
  length-erase k ((i, v) ∷ l) h = ground (arith, length-erase k l)

  -- As many distinct keys as that need as many items.
  pigeonhole :
      (ks : List K) (l : List (K × V))
      → ((q : K) → count q l ≤ 1)
      → AllFound ks (λ q. has q l)
      → length ks ≤ length l
  pigeonhole [] l once h = omega arith
  pigeonhole (k ∷ ks) l once h =
      let rest =
        pigeonhole ks (erase k l) (λ q. omega (arith, once q, count-erase-le k q l))
          (AllFound-mono ks _ _ (λ q e. ground (arith, lookup-erase k q l (once q), e)) h.1) in
      omega (arith, rest, length-erase k l h.0)

  -- The key is stored, under the hash `n`.
  abbrev pub stored_with_hash : ℕ → Table K V → K → Bool
  stored_with_hash n t q = key.hash q == n && (elim (find q t) [ none ↦ false | some _ ↦ true ])

  in_home :
      (k : K) (t : Table K V) (q : K)
      → stored_with_hash (key.hash k) t q ≡ true
      → has q (bucket_at t (home k t)).items ≡ true
  in_home k t q e =
      let same : key.hash q ≡ key.hash k = ground arith in
      let home_eq : home q t ≡ home k t = unfold home index_of in rw same in
      unfold find find_item in ground (arith, home_eq)

  full_of_collisions :
      (ks : List K) (k : K) (v : V) (t : Table K V)
      → IsValid t
      → find k t ≡ none
      → AllFound ks (stored_with_hash (key.hash k) t)
      → t.bucket_size ≤ length ks
      → (insert_item k v (bucket_at t (home k t))).1 ≡ false
  full_of_collisions ks k v t h new all many =
      let b = bucket_at t (home k t) in
      let here : AllFound ks (λ q. has q b.items) =
        AllFound-mono ks (stored_with_hash (key.hash k) t) (λ q. has q b.items) (in_home k t) all in
      let most = pigeonhole ks b.items (h.buckets (home k t)).distinct here in
      unfold insert_item is_full find find_item in
      ground (arith, most, h.sizes (home k t), (h.buckets (home k t)).bounded)

  -- The table after `n` rounds of the loop that do not return.
  pub rounds : ℕ → K → Table K V → Table K V
  rounds zero k t = t
  rounds (suc n) k t = rounds n k (grow (home k t) t)

  -- Let as many keys with the hash of a new key be stored in a valid table as a bucket has room
  -- for, and the global depth be at most 30. Insert of the new key does not return in any number of
  -- rounds that take the depth of its bucket to at most 30: after them that bucket is full again
  -- and one bit deeper for each round, and the global depth is at most 30.
  pub insert_stuck :
      (n : ℕ) (ks : List K) (k : K) (v : V) (t : Table K V)
      → IsValid t
      → find k t ≡ none
      → AllFound ks (stored_with_hash (key.hash k) t)
      → t.bucket_size ≤ length ks
      → t.global_depth ≤ 30
      → (bucket_at t (home k t)).depth + n ≤ 30
      → (insert n k v t ≡ none)
        × ((insert_item k v (bucket_at (rounds n k t) (home k (rounds n k t)))).1 ≡ false)
        × ((bucket_at (rounds n k t) (home k (rounds n k t))).depth
            ≡ (bucket_at t (home k t)).depth + n)
        × ((rounds n k t).global_depth ≤ 30)
  unfolding insert rounds
  insert_stuck zero ks k v t h new all many narrow low =
      (refl, full_of_collisions ks k v t h new all many, omega arith, narrow)
  insert_stuck (suc n) ks k v t h new all many narrow low =
      let g = grow-Grown k t h in
      let (stuck, full, deep, still) =
        insert_stuck n ks k v (grow (home k t) t) g.valid (g.finds k ∙ new)
          (AllFound-mono ks (stored_with_hash (key.hash k) t)
            (stored_with_hash (key.hash k) (grow (home k t) t)) (λ q e. ground (arith, g.finds q))
            all)
          (omega (arith, g.room)) (omega (arith, g.global)) (omega (arith, g.deeper)) in
      (
        rw (full_of_collisions ks k v t h new all many) stuck,
        full,
        omega (arith, deep, g.deeper),
        still,
      )
