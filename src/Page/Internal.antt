-- ===== src/Page/Internal.antt =====
-- The internal pages of src/storage/page/b_plus_tree_internal_page.cpp, and the search for a child
-- in `Findleaf` of src/storage/index/b_plus_tree.cpp.
pub mod Route
pub mod Insertkv
pub mod Front
mod Tests
use cmu.Common.{
  ℕ, zero, suc, ◌+◌, ◌-◌, ◌≡◌, refl, Bool, true, false, Option, none, some, arith, if◌then◌else◌,
  ◌==◌,
}
use cmu.Page.{Comparator, Slots, PageId, PageType, internal_page, is_positive, write, move_backward}

-- A value is the id of a child page.
pub record InternalPage (K : Type 0) : Type 0 where
  pub page_type : PageType
  pub lsn : Option ℕ
  pub size : ℕ
  pub max_size : ℕ
  pub parent_page_id : PageId
  pub page_id : PageId
  pub array : Slots K ℕ

module _ {K : Type 0} where
  unfoldable pub init : PageId → PageId → ℕ → InternalPage K → InternalPage K
  init page_id parent_id max_size p = record p {
    page_type = internal_page;
    size = 1;
    page_id = page_id;
    parent_page_id = parent_id;
    max_size = max_size;
    lsn = none;
  }

  unfoldable pub key_at : ℕ → InternalPage K → K
  key_at i p = (p.array i).0

  unfoldable pub value_at : ℕ → InternalPage K → ℕ
  value_at i p = (p.array i).1

  unfoldable pub set_all_at : ℕ → K → ℕ → InternalPage K → InternalPage K
  unfolding write
  set_all_at i k v p = record p { array = write i (k, v) p.array }

  unfoldable pub set_key_at : ℕ → K → InternalPage K → InternalPage K
  unfolding write
  set_key_at i k p = record p { array = write i (k, (p.array i).1) p.array }

  unfoldable pub set_value_at : ℕ → ℕ → InternalPage K → InternalPage K
  unfolding write
  set_value_at i v p = record p { array = write i ((p.array i).0, v) p.array }

  -- The first loop of `Insertkv`, over the `n` slots from `i` on: `new_value_idx`.
  unfoldable pub new_value_idx : ℕ → ℕ → ℕ → Slots K ℕ → ℕ
  new_value_idx old_value i zero a = 0
  new_value_idx old_value i (suc n) a =
      let rest = new_value_idx old_value (i + 1) n a in if (a i).1 == old_value then i + 1 else rest

  -- `Insertkv`, which always returns true. Its second loop moves slots up as `move_backward` does.
  unfoldable pub insertkv : ℕ → K → ℕ → InternalPage K → InternalPage K
  unfolding new_value_idx write move_backward
  insertkv old_value new_key new_value p =
      let idx = new_value_idx old_value 1 (p.size - 1) p.array in
      record p {
        array = write idx (new_key, new_value) (move_backward idx (p.size - idx) p.array);
        size = p.size + 1;
      }

module _ {K : Type 0} ⦃key : Comparator K⦄ where
  -- The loop over `idx` in `Findleaf`, over the `n` slots from `i` on.
  unfoldable pub first_above : K → ℕ → ℕ → Slots K ℕ → ℕ
  first_above k i zero a = i
  first_above k i (suc n) a =
      let rest = first_above k (i + 1) n a in
      if is_positive (key.compare (a i).0 k) then i else rest

  -- `idx - 1`, and the child that `Findleaf` goes down to.
  unfoldable pub child_slot : K → InternalPage K → ℕ
  unfolding first_above
  child_slot k p = first_above k 1 (p.size - 1) p.array - 1

  unfoldable pub child : K → InternalPage K → ℕ
  unfolding child_slot value_at
  child k p = value_at (child_slot k p) p
