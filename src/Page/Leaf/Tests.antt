-- ===== src/Page/Leaf/Tests.antt =====
-- Runs of the leaf pages of src/storage/page/b_plus_tree_leaf_page.cpp.
use cmu.Common.{
  ◌*◌, ℕ, ◌+◌, ◌<◌, ◌≡◌, refl, ◌⊎◌, true, false, none, some, arith, if◌then◌else◌, ◌==◌, ltb,
}
use cmu.Page.{compare_ranks, leaf_page, Slots, write, move_backward}
use cmu.Page.Leaf.{
  LeafPage, find_from, find_key, lower_bound, key_index, insert_key, delete_key, close_gap, split,
  value_at,
}
use cmu.Page.Leaf.Search.{rank_at, IsOrdered}
use cmu.Page.Leaf.Insert.{get, insert_key-get}
use cmu.Page.Leaf.Delete.{delete_key-cases}
use cmu.Page.Leaf.Split.{split-get}
use cmu.Page.Numbers.{number_order}

abbrev slots : Slots ℕ ℕ
slots j = (10 * j + 10, j + 1)

-- The keys 10, 20 and 30, in a page with room for four.
abbrev three : LeafPage ℕ ℕ
three = record {
  page_type = leaf_page;
  lsn = none;
  size = 3;
  max_size = 4;
  parent_page_id = none;
  page_id = some 7;
  next_page_id = none;
  array = slots;
}

-- A page of three that is full.
abbrev full : LeafPage ℕ ℕ
full = record three { max_size = 3 }

three-IsOrdered : IsOrdered slots 0 3
three-IsOrdered i j a b c = omega arith

inserted_runs : get 20 (insert_key 15 9 three) ≡ some 2
unfolding get value_at insert_key key_index lower_bound find_key find_from write move_backward
    compare_ranks
inserted_runs = refl

-- The loop of `DeleteKey` counts the wrong way.
deleted_runs : delete_key 10 three ≡ none
unfolding delete_key find_key find_from close_gap write compare_ranks
deleted_runs = refl

insert_key-get_example :
    IsOrdered (insert_key 15 9 three).array 0 (insert_key 15 9 three).size
    × ((insert_key 15 9 three).size ≡ elim (get 15 three) [ none ↦ 4 | some _ ↦ 3 ])
    × (get 20 (insert_key 15 9 three) ≡ (
        if 20 == 15 then elim (get 15 three) [ none ↦ some 9 | some w ↦ some w ] else get 20 three))
insert_key-get_example = insert_key-get three three-IsOrdered 15 9 20

delete_key-cases_example :
    ((get 30 three ≡ none) × (delete_key 30 three ≡ some (three, false)))
    ⊎ ((p' : LeafPage ℕ ℕ) × (find_key 30 three + 1 ≡ 3)
        × (delete_key 30 three ≡ some (p', true))
        × IsOrdered p'.array 0 p'.size
        × (p'.size + 1 ≡ 3)
        × ((q : ℕ) → get q p' ≡ (if q == 30 then none else get q three)))
    ⊎ ((find_key 30 three + 1 < 3) × (delete_key 30 three ≡ none))
delete_key-cases_example = delete_key-cases 30 three three-IsOrdered

split-get_example :
    let (l, r) = split 3 (some 8) full three in
    IsOrdered l.array 0 l.size
    × IsOrdered r.array 0 r.size
    × (0 < l.size)
    × (0 < r.size)
    × (l.size + r.size ≡ 3)
    × (get 30 l ≡ (if ltb 30 (rank_at r.array 0) then get 30 full else none))
    × (get 30 r ≡ (if ltb 30 (rank_at r.array 0) then none else get 30 full))
split-get_example = split-get 3 (some 8) full three three-IsOrdered refl (omega arith) 30
