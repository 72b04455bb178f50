-- ===== src/Page/Leaf.antt =====
-- The leaf pages of src/storage/page/b_plus_tree_leaf_page.cpp.
pub mod Search
pub mod Insert
pub mod Delete
pub mod Split
mod Tests
use cmu.Common.{
  ℕ, zero, suc, ◌+◌, ◌-◌, ◌/◌, ◌≤◌, ◌<◌, ◌≡◌, refl, Bool, true, false, Option, none, some, arith,
  if◌then◌else◌, ◌==◌, leb, ltb, ◌&&◌,
}
use cmu.Page.{
  copy, get_min_size, Comparator, Slots, PageId, PageType, leaf_page, is_negative, is_equal, write,
  move_backward,
}

pub record LeafPage (K V : Type 0) : Type 0 where
  pub page_type : PageType
  pub lsn : Option ℕ
  pub size : ℕ
  pub max_size : ℕ
  pub parent_page_id : PageId
  pub page_id : PageId
  pub next_page_id : PageId
  pub array : Slots K V

module _ {K V : Type 0} where
  unfoldable pub init : PageId → PageId → ℕ → LeafPage K V → LeafPage K V
  init page_id parent_id max_size p = record p {
    page_type = leaf_page;
    lsn = none;
    size = 0;
    page_id = page_id;
    parent_page_id = parent_id;
    max_size = max_size;
    next_page_id = none;
  }

  unfoldable pub key_at : ℕ → LeafPage K V → K
  key_at i p = (p.array i).0

  unfoldable pub value_at : ℕ → LeafPage K V → V
  value_at i p = (p.array i).1

  -- The loop of `DeleteKey`, which counts `i` down while it is below the size: it goes on to write
  -- before the first slot, and `none` stands for that.
  unfoldable pub close_gap : ℕ → ℕ → Slots K V → Option (Slots K V)
  unfolding write
  close_gap size zero a = if ltb 0 size then none else some a
  close_gap size (suc i) a =
      let rest = close_gap size i (write i (a (suc i)) a) in
      if ltb (suc i) size then rest else some a

  -- `Split` of a leaf, into itself and `new_page`, whose id is `new_page_id`.
  unfoldable pub split : ℕ → PageId → LeafPage K V → LeafPage K V → LeafPage K V × LeafPage K V
  unfolding init copy
  split leaf_max_size new_page_id old_leaf new_page =
      let new_leaf = init new_page_id old_leaf.parent_page_id leaf_max_size new_page in
      let st_index = get_min_size old_leaf.max_size in
      (
        record old_leaf { size = st_index },
        record new_leaf {
          array =
              copy old_leaf.array st_index (old_leaf.size - st_index) new_leaf.size new_leaf.array;
          size = new_leaf.size + (old_leaf.max_size - st_index);
        },
      )

module _ {K V : Type 0} ⦃key : Comparator K⦄ where
  -- The loop of `FindKey` over the `n` slots from `i` on.
  unfoldable pub find_from : K → ℕ → ℕ → Slots K V → ℕ
  find_from k i zero a = i
  find_from k i (suc n) a =
      let rest = find_from k (i + 1) n a in if is_equal (key.compare (a i).0 k) then i else rest

  unfoldable pub find_key : K → LeafPage K V → ℕ
  unfolding find_from
  find_key k p = find_from k 0 p.size p.array

  -- `std::lower_bound` over the `len` slots from `first` on, on fuel.
  unfoldable pub lower_bound : ℕ → K → ℕ → ℕ → Slots K V → ℕ
  lower_bound zero k first len a = first
  lower_bound (suc fuel) k first len a =
      let half = len / 2 in
      let right = lower_bound fuel k (first + half + 1) (len - half - 1) a in
      let left = lower_bound fuel k first half a in
      if len == 0
      then first
      else if is_negative (key.compare (a (first + half)).0 k)
      then right
      else left

  unfoldable pub key_index : K → LeafPage K V → ℕ
  unfolding lower_bound
  key_index k p = lower_bound p.size k 0 p.size p.array

  -- `InsertKey`, which always returns true.
  unfoldable pub insert_key : K → V → LeafPage K V → LeafPage K V
  insert_key k v p =
      let d = key_index k p in
      if d == p.size
      then record p { array = write d (k, v) p.array; size = p.size + 1 }
      else if is_equal (key.compare (p.array d).0 k)
      then p
      else record p {
        array = write d (k, v) (move_backward d (p.size - d) p.array);
        size = p.size + 1;
      }

  -- `DeleteKey`; `none` if it writes before the array.
  unfoldable pub delete_key : K → LeafPage K V → Option (LeafPage K V × Bool)
  delete_key k p =
      let pos = find_key k p in
      if pos == p.size then some (p, false) else elim (close_gap p.size (pos + 1) p.array) [
        | none ↦ none
        | some a ↦ some (record p { array = a; size = p.size - 1 }, true)
      ]
