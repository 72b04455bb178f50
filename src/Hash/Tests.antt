-- ===== src/Hash/Tests.antt =====
-- Runs of the hash table of src/container/hash/extendible_hash_table.cpp on small keys.
use cmu.Common.{
  ◌+◌, ◌≤◌, ◌↔◌, not, ℕ, ◌%◌, ◌^◌, ◌≡◌, refl, Bool, true, false, none, some, Option, [], ◌∷◌, arith,
  ◌==◌, ==_iff, if◌then◌else◌,
}
use cmu.Hash.Buckets.{HashKey, lookup, erase, assign, find_item, insert_item, remove_item}
use cmu.Hash.{
  Table, new, find, insert, remove, grow, redistribute_bucket, double_dir, home, index_of,
  bucket_at,
}
use cmu.Hash.Valid.{IsValid, new-IsValid, remove_lem}
use cmu.Hash.Insert.{Stored, insert-Stored, insert-Stored_of_returns}
use cmu.Hash.Double.{double_dir-IsValid}
use cmu.Hash.Stuck.{rounds, insert_stuck}

-- Numbers that are their own hash.
instance abbrev int_key : HashKey ℕ
int_key = record { equal = ◌==◌; hash = λ k. k; equal_iff = ==_iff }

infixl 5 ◌>>=◌
abbrev ◌>>=◌ : {A B : Type 0} → Option A → (A → Option B) → Option B
none >>= f = none
some a >>= f = f a

abbrev start : Table ℕ ℕ
start = new 2

abbrev session : Option (ℕ × ℕ × Option ℕ × Option ℕ × Option ℕ)
session = do
  a ← insert 9 0 10 start
  b ← insert 9 4 14 a
  c ← insert 9 8 18 b
  d ← insert 9 1 11 c
  some (d.global_depth, d.num_buckets, find 8 d, find 4 d, find 2 d)

session_runs : session ≡ some (3, 4, some 18, some 14, none)
unfolding new find insert grow redistribute_bucket double_dir lookup erase assign find_item
    insert_item remove_item
session_runs = refl

-- A table with room for one item in a bucket, and the key 0 in it.
abbrev one_item : Table ℕ ℕ
one_item = record {
  global_depth = 0;
  bucket_size = 1;
  num_buckets = 1;
  dir = 0 ∷ [];
  heap = record { size = 1; depth = 0; items = (0, 10) ∷ [] } ∷ [];
}

one_item-Stored : Stored 0 10 (new 1) one_item
unfolding new insert insert_item lookup find_item
one_item-Stored = insert-Stored_of_returns 3 0 10 (new 1) one_item (new-IsValid 1).0 refl

one_item-IsValid : IsValid one_item
one_item-IsValid = one_item-Stored.valid

-- The same, with the directory doubled.
abbrev two_entries : Table ℕ ℕ
two_entries = record one_item { global_depth = 1; dir = 0 ∷ 0 ∷ [] }

two_entries-IsValid : IsValid two_entries
unfolding double_dir
two_entries-IsValid = double_dir-IsValid one_item one_item-IsValid

remove_lem_example :
    IsValid (remove 0 one_item).0
    × ((remove 0 one_item).1 ≡ elim (find 0 one_item) [ none ↦ false | some _ ↦ true ])
    × ((q : ℕ) → find q (remove 0 one_item).0 ≡ (if 0 == q then none else find q one_item))
remove_lem_example = remove_lem 0 one_item one_item-IsValid

-- Two keys, told apart by one bit of the hash.
abbrev equal_bool : Bool → Bool → Bool
equal_bool true b = b
equal_bool false b = not b

abbrev hash_bool : Bool → ℕ
hash_bool true = 1
hash_bool false = 0

equal_bool_iff : (a b : Bool) → (equal_bool a b ≡ true) ↔ (a ≡ b)
equal_bool_iff true true = (λ e. refl, λ e. refl)
equal_bool_iff true false = (λ e. cc, λ e. cc)
equal_bool_iff false true = (λ e. cc, λ e. cc)
equal_bool_iff false false = (λ e. refl, λ e. refl)

instance abbrev bool_key : HashKey Bool
bool_key = record { equal = equal_bool; hash = hash_bool; equal_iff = equal_bool_iff }

apart : (a b : Bool) → hash_bool a % 2 ^ 1 ≡ hash_bool b % 2 ^ 1 → a ≡ b
apart true true e = refl
apart true false e = absurd (omega arith)
apart false true e = absurd (omega arith)
apart false false e = refl

abbrev false_stored : Table Bool ℕ
false_stored = record {
  global_depth = 0;
  bucket_size = 1;
  num_buckets = 1;
  dir = 0 ∷ [];
  heap = record { size = 1; depth = 0; items = (false, 10) ∷ [] } ∷ [];
}

false_stored-Stored : Stored false 10 (new 1) false_stored
unfolding new insert insert_item lookup find_item
false_stored-Stored =
    insert-Stored_of_returns 3 false 10 (new 1) false_stored (new-IsValid 1).0 refl

-- The bucket is full, so this splits it.
insert-Stored_example :
    (t' : Table Bool ℕ) × (insert 2 true 20 false_stored ≡ some t') × Stored true 20 false_stored t'
insert-Stored_example =
    insert-Stored 1 2 true 20 false_stored apart false_stored-Stored.valid (omega arith)
      (omega arith)

-- Two keys with one hash.
data Twin : Type 0 where
  left : Twin
  right : Twin

abbrev equal_twin : Twin → Twin → Bool
equal_twin left left = true
equal_twin left right = false
equal_twin right left = false
equal_twin right right = true

equal_twin_iff : (a b : Twin) → (equal_twin a b ≡ true) ↔ (a ≡ b)
equal_twin_iff left left = (λ e. refl, λ e. refl)
equal_twin_iff left right = (λ e. cc, λ e. cc)
equal_twin_iff right left = (λ e. cc, λ e. cc)
equal_twin_iff right right = (λ e. refl, λ e. refl)

instance abbrev twin_key : HashKey Twin
twin_key = record { equal = equal_twin; hash = λ k. 7; equal_iff = equal_twin_iff }

abbrev left_stored : Table Twin ℕ
left_stored = record {
  global_depth = 0;
  bucket_size = 1;
  num_buckets = 1;
  dir = 0 ∷ [];
  heap = record { size = 1; depth = 0; items = (left, 10) ∷ [] } ∷ [];
}

left_stored-Stored : Stored left 10 (new 1) left_stored
unfolding new insert insert_item lookup find_item
left_stored-Stored = insert-Stored_of_returns 3 left 10 (new 1) left_stored (new-IsValid 1).0 refl

-- After thirty rounds the directory has 2 ^ 30 entries.
insert_stuck_example :
    (insert 30 right 20 left_stored ≡ none)
    × ((insert_item right 20
          (bucket_at (rounds 30 right left_stored) (home right (rounds 30 right left_stored)))).1
        ≡ false)
    × ((bucket_at (rounds 30 right left_stored) (home right (rounds 30 right left_stored))).depth
        ≡ (bucket_at left_stored (home right left_stored)).depth + 30)
    × ((rounds 30 right left_stored).global_depth ≤ 30)
insert_stuck_example =
    insert_stuck 30 (left ∷ []) right 20 left_stored left_stored-Stored.valid
      (unfold find find_item lookup home index_of bucket_at in refl)
      (unfold find find_item lookup home index_of bucket_at in (refl, tt)) (omega arith)
      (omega arith) (unfold home index_of bucket_at in omega arith)
