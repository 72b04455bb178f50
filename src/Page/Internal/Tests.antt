-- ===== src/Page/Internal/Tests.antt =====
-- Runs of the internal pages of src/storage/page/b_plus_tree_internal_page.cpp.
use cmu.Common.{ℕ, ◌+◌, ◌*◌, ◌≡◌, refl, none, some, arith, if◌then◌else◌, ◌==◌, ltb, leb, ◌&&◌}
use cmu.Page.{compare_ranks, internal_page, write, move_backward}
use cmu.Page.Leaf.Search.{rank_at}
use cmu.Page.Internal.{
  InternalPage, new_value_idx, insertkv, first_above, child_slot, child, value_at,
}
use cmu.Page.Internal.Route.{IsSorted}
use cmu.Page.Internal.Insertkv.{insertkv-child}
use cmu.Page.Internal.Front.{insertkv-child_front}
use cmu.Page.Numbers.{number_order}

-- The children 100, 101 and 102, with the keys 10 and 20 between them.
abbrev three : InternalPage ℕ
three = record {
  page_type = internal_page;
  lsn = none;
  size = 3;
  max_size = 5;
  parent_page_id = none;
  page_id = some 7;
  array = λ j. (10 * j, 100 + j);
}

three-IsSorted : IsSorted three
three-IsSorted = (omega arith, λ i j a b c. omega arith)

-- Child 100 is split at key 5, and the new child 200 is not found from there on.
front_runs : child 7 (insertkv 100 5 200 three) ≡ 100
unfolding child child_slot value_at insertkv new_value_idx first_above write move_backward
    compare_ranks
front_runs = refl

insertkv-child_example :
    IsSorted (insertkv 101 15 200 three)
    × (child 17 (insertkv 101 15 200 three)
        ≡ (if child_slot 17 three == 1 && leb 15 17 then 200 else child 17 three))
unfolding new_value_idx
insertkv-child_example =
    insertkv-child 101 15 200 1 three three-IsSorted (omega arith) (omega arith) refl
      (λ j a b. absurd (omega arith)) (omega arith) (λ h. omega arith) 17

insertkv-child_front_example :
    child 7 (insertkv 100 5 200 three)
    ≡ (if ltb 7 (rank_at three.array 0) then 200 else child 7 three)
unfolding new_value_idx
insertkv-child_front_example =
    insertkv-child_front 100 5 200 three three-IsSorted refl (λ h. omega arith) 7
