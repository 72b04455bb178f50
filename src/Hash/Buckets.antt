-- ===== src/Hash/Buckets.antt =====
-- The class `Bucket` of src/container/hash/extendible_hash_table.cpp.
pub mod Laws
use cmu.Common.{
  ℕ, suc, ◌+◌, ◌≤◌, ◌<◌, ◌≡◌, refl, ◌↔◌, Bool, true, false, Option, none, some, List, [], ◌∷◌, ◌++◌,
  arith, if◌then◌else◌, ◌==◌, length,
}

-- What the template asks of its keys: `operator==` and `std::hash`.
pub record HashKey (K : Type 0) : Type 0 where
  pub equal : K → K → Bool
  pub hash : K → ℕ
  pub equal_iff : (a b : K) → (equal a b ≡ true) ↔ (a ≡ b)

pub record Bucket (K V : Type 0) : Type 0 where
  pub size : ℕ
  pub depth : ℕ
  pub items : List (K × V)

module _ {K V : Type 0} where
  unfoldable pub is_full : Bucket K V → Bool
  is_full b = length b.items == b.size

module _ {K V : Type 0} ⦃key : HashKey K⦄ where
  -- The loops over `list_`: to find, to erase, and to overwrite.
  unfoldable pub lookup : K → List (K × V) → Option V
  lookup k [] = none
  lookup k ((k', v) ∷ l) = if key.equal k' k then some v else lookup k l

  unfoldable pub erase : K → List (K × V) → List (K × V)
  erase k [] = []
  erase k ((k', v) ∷ l) = if key.equal k' k then l else (k', v) ∷ erase k l

  unfoldable pub assign : K → V → List (K × V) → List (K × V)
  assign k v [] = []
  assign k v ((k', w) ∷ l) = if key.equal k' k then (k', v) ∷ l else (k', w) ∷ assign k v l

  abbrev pub has : K → List (K × V) → Bool
  has k l = elim (lookup k l) [ none ↦ false | some _ ↦ true ]

  -- `Bucket::Find`.
  unfoldable pub find_item : K → Bucket K V → Option V
  find_item k b = lookup k b.items

  -- `Bucket::Remove`.
  unfoldable pub remove_item : K → Bucket K V → Bucket K V × Bool
  remove_item k b = (record b { items = erase k b.items }, has k b.items)

  -- `Bucket::Insert`.
  unfoldable pub insert_item : K → V → Bucket K V → Bucket K V × Bool
  unfolding is_full
  insert_item k v b =
      if has k b.items
      then (record b { items = assign k v b.items }, true)
      else if is_full b
      then (b, false)
      else (record b { items = b.items ++ (k, v) ∷ [] }, true)

  -- How often a key occurs.
  unfoldable pub count : K → List (K × V) → ℕ
  count k [] = 0
  count k ((k', v) ∷ l) = if key.equal k' k then suc (count k l) else count k l
