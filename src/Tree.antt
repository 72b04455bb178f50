-- ===== src/Tree.antt =====
-- `IsEmpty`, `Findleaf` and `GetValue` of src/storage/index/b_plus_tree.cpp. The pages are what the
-- buffer pool shows; that it has a frame for each page that is fetched is taken for granted.
pub mod Scan
pub mod Search
pub mod Insertion
mod Tests
use cmu.Common.{
  Option, none, some, true, false, ℕ, zero, suc, ◌+◌, Bool, List, [], ◌∷◌, if◌then◌else◌, ◌==◌,
  length, not,
}
use cmu.Page.{Comparator, Slots, PageId, is_equal}
use cmu.Page.Leaf.{LeafPage}
use cmu.Page.Internal.{InternalPage, child}
use cmu.Header.{HeaderPage}

module _ {K V : Type 0} ⦃key : Comparator K⦄ where
  -- The loop over the `n` slots from `i` on: a result of the comparator other than 0 counts as true.
  unfoldable pub collect : K → ℕ → ℕ → Slots K V → List V
  collect k i zero a = []
  collect k i (suc n) a =
      let rest = collect k (i + 1) n a in
      if not (is_equal (key.compare (a i).0 k)) then (a i).1 ∷ rest else rest

  -- What `GetValue` pushes to `result`, and what it returns, once it has found the leaf.
  unfoldable pub scan_leaf : K → LeafPage K V → List V × Bool
  unfolding collect
  scan_leaf k p = let result = collect k 0 p.size p.array in (result, not (length result == 0))

-- What `IsLeafPage` tells apart.
pub data TreePage (K V : Type 0) : Type 0 where
  leaf : LeafPage K V → TreePage K V
  internal : InternalPage K → TreePage K V

-- The pages are in the buffer pool, and so are the header page and the next page id.
pub record BPlusTree (K V : Type 0) : Type 0 where
  pub index_name : List ℕ
  pub root_page_id : PageId
  pub leaf_max_size : ℕ
  pub internal_max_size : ℕ
  pub pages : ℕ → TreePage K V
  pub header_page : HeaderPage
  pub next_page_id : ℕ

module _ {K V : Type 0} ⦃key : Comparator K⦄ where
  unfoldable pub is_empty : BPlusTree K V → Bool
  is_empty t = elim t.root_page_id [ none ↦ true | some _ ↦ false ]

  -- The loop of `Findleaf`, from page `id` on: the leaf and its id.
  unfoldable pub find_leaf_from : ℕ → K → ℕ → (ℕ → TreePage K V) → Option (ℕ × LeafPage K V)
  find_leaf_from zero k id pages = none
  find_leaf_from (suc fuel) k id pages = elim (pages id) [
    | leaf p ↦ some (id, p)
    | internal p ↦ find_leaf_from fuel k (child k p) pages
  ]

  -- `GetValue`; `none` if the fuel runs out.
  unfoldable pub get_value : ℕ → K → BPlusTree K V → Option (List V × Bool)
  unfolding find_leaf_from scan_leaf
  get_value fuel k t = elim t.root_page_id [
    | none ↦ some ([], false)
    | some root ↦ elim (find_leaf_from fuel k root t.pages) [
      | none ↦ none
      | some (id, p) ↦ some (scan_leaf k p)
    ]
  ]
