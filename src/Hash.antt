-- ===== src/Hash.antt =====
-- The extendible hash table of src/container/hash/extendible_hash_table.cpp and its header. The
-- latch makes each operation one step. A `shared_ptr<Bucket>` is an index into the list of all
-- buckets ever made, so that entries of the directory that share a bucket share its contents.
-- `1 << global_depth_` is an `int`: the model reads it as a power of two, as it is below depth 31.
pub mod Buckets
pub mod Move
pub mod Rehash
pub mod Valid
pub mod Double
pub mod Middle
pub mod Split
pub mod Insert
pub mod Stuck
mod Tests
use cmu.Common.{
  ℕ, zero, suc, ◌+◌, ◌-◌, ◌/◌, ◌%◌, ◌^◌, ◌≡◌, refl, Bool, true, false, not, Option, none, some,
  List, [], ◌∷◌, ◌++◌, arith, if◌then◌else◌, ◌==◌, ◌&&◌, length, get_or, set,
}
use Buckets.{Bucket, HashKey, find_item, remove_item, insert_item}

-- The loop of `RedistributeBucket` over the directory, from entry `i` on: entries for the bucket
-- whose bit `checkpos` is set go to the new one.
unfoldable pub relink : ℕ → ℕ → ℕ → ℕ → List ℕ → List ℕ
relink bucket new_bucket checkpos i [] = []
relink bucket new_bucket checkpos i (p ∷ dir) =
    (if p == bucket && (i / 2 ^ checkpos) % 2 == 1 then new_bucket else p)
    ∷ relink bucket new_bucket checkpos (i + 1) dir

pub record Table (K V : Type 0) : Type 0 where
  pub global_depth : ℕ
  pub bucket_size : ℕ
  pub num_buckets : ℕ
  -- `dir_`, and what its pointers point to.
  pub dir : List ℕ
  pub heap : List (Bucket K V)

module _ {K V : Type 0} where
  -- What a pointer points to.
  unfoldable pub bucket_at : Table K V → ℕ → Bucket K V
  bucket_at t b = get_or t.heap b (record { size = t.bucket_size; depth = 0; items = [] })

  unfoldable pub new : ℕ → Table K V
  new bucket_size = record {
    global_depth = 0;
    bucket_size = bucket_size;
    num_buckets = 1;
    dir = 0 ∷ [];
    heap = record { size = bucket_size; depth = 0; items = [] } ∷ [];
  }

  -- `GetGlobalDepth`, `GetLocalDepth` and `GetNumBuckets`.
  unfoldable pub get_global_depth : Table K V → ℕ
  get_global_depth t = t.global_depth

  unfoldable pub get_local_depth : ℕ → Table K V → ℕ
  get_local_depth dir_index t = (bucket_at t (get_or t.dir dir_index 0)).depth

  unfoldable pub get_num_buckets : Table K V → ℕ
  get_num_buckets t = t.num_buckets

  -- The doubling of the directory in `Insert`.
  unfoldable pub double_dir : Table K V → Table K V
  double_dir t = record t { global_depth = t.global_depth + 1; dir = t.dir ++ t.dir }

module _ {K V : Type 0} ⦃key : HashKey K⦄ where
  -- `hash(key) & ((1 << global_depth_) - 1)`.
  unfoldable pub index_of : K → Table K V → ℕ
  index_of k t = key.hash k % 2 ^ t.global_depth

  -- The pointer `dir_[IndexOf(key)]`.
  unfoldable pub home : K → Table K V → ℕ
  unfolding index_of
  home k t = get_or t.dir (index_of k t) 0

  -- `Find`: the value, if the result is true.
  unfoldable pub find : K → Table K V → Option V
  unfolding home bucket_at
  find k t = find_item k (bucket_at t (home k t))

  unfoldable pub remove : K → Table K V → Table K V × Bool
  unfolding home bucket_at
  remove k t =
      let b = home k t in
      let (bucket, done) = remove_item k (bucket_at t b) in
      (record t { heap = set t.heap b bucket }, done)

  -- The body of the second loop of `RedistributeBucket`: an item whose entry now leads to another
  -- bucket moves there.
  unfoldable pub rehash_item : ℕ → K → V → Table K V → Table K V
  rehash_item bucket k v t =
      let tobucket = home k t in
      let without = record t { heap = set t.heap bucket (remove_item k (bucket_at t bucket)).0 } in
      if tobucket == bucket then t else record without {
        heap = set without.heap tobucket (insert_item k v (bucket_at without tobucket)).0;
      }

  -- That loop, over the copied list.
  unfoldable pub rehash : ℕ → List (K × V) → Table K V → Table K V
  rehash bucket [] t = t
  rehash bucket ((k, v) ∷ list) t = rehash bucket list (rehash_item bucket k v t)

  -- `RedistributeBucket` up to its second loop.
  unfoldable pub split_bucket : ℕ → Table K V → Table K V
  unfolding relink bucket_at
  split_bucket b t =
      let old = bucket_at t b in
      record t {
        num_buckets = t.num_buckets + 1;
        dir = relink b (length t.heap) old.depth 0 t.dir;
        heap =
            set t.heap b (record old { depth = old.depth + 1 })
            ++ record { size = t.bucket_size; depth = old.depth + 1; items = [] } ∷ [];
      }

  unfoldable pub redistribute_bucket : ℕ → Table K V → Table K V
  unfolding rehash rehash_item home split_bucket bucket_at
  redistribute_bucket b t = rehash b (bucket_at t b).items (split_bucket b t)

  -- What a round of `Insert` does when the bucket has no room.
  unfoldable pub grow : ℕ → Table K V → Table K V
  grow b t =
      redistribute_bucket b (if (bucket_at t b).depth == t.global_depth then double_dir t else t)

  -- The `while (true)` loop of `Insert`, on fuel; `none` means that the fuel ran out.
  unfoldable pub insert : ℕ → K → V → Table K V → Option (Table K V)
  unfolding home bucket_at
  insert zero k v t = none
  insert (suc fuel) k v t =
      let b = home k t in
      let rest = insert fuel k v (grow b t) in
      let (bucket, done) = insert_item k v (bucket_at t b) in
      if done then some (record t { heap = set t.heap b bucket }) else rest
