-- ===== src/Tree/Tests.antt =====
-- Runs of `GetValue` on a leaf.
use cmu.Common.{
  true, false, if◌then◌else◌, Bool-cases, inl, inr, subst, ℕ, ◌+◌, ◌*◌, ◌≡◌, refl, none, some, [],
  ◌∷◌, arith, ◌==◌,
}
use cmu.Page.{compare_ranks, leaf_page, internal_page}
use cmu.Page.Numbers.{number_order}
use cmu.Page.Leaf.{LeafPage}
use cmu.Page.Internal.{InternalPage, child, child_slot, first_above, value_at}
use cmu.Tree.{TreePage, leaf, internal, BPlusTree, scan_leaf, collect, find_leaf_from, get_value}
use cmu.Page.{get_min_size, copy, write}
use cmu.Page.Internal
use cmu.Header.{insert_record, find_record, find_from, c_str, strcmp}
use cmu.Tree.Insertion.{split_internal, insert_all}
use cmu.Tree.Insertion.First.{HasOne, insert_all-HasOne}
use cmu.Tree.Search.{IsTree, IsUnder, Has, low, high, get_value-Has}

-- The keys 10 and 20.
abbrev two : LeafPage ℕ ℕ
two = record {
  page_type = leaf_page;
  lsn = none;
  size = 2;
  max_size = 4;
  parent_page_id = none;
  page_id = some 7;
  next_page_id = none;
  array = λ j. (10 * j + 10, j + 1);
}

-- The value of 20 is what a search for 10 returns.
scan_runs : scan_leaf 10 two ≡ (2 ∷ [], true)
unfolding scan_leaf collect compare_ranks
scan_runs = refl

-- A root with the children 2, for keys below 20, and 3.
abbrev leaf_of : ℕ → ℕ → LeafPage ℕ ℕ
leaf_of id k = record two { size = 1; page_id = some id; array = λ j. (k, k + 1) }

abbrev root : InternalPage ℕ
root = record {
  page_type = internal_page;
  lsn = none;
  size = 2;
  max_size = 4;
  parent_page_id = none;
  page_id = some 1;
  array = λ j. (20, j + 2);
}

abbrev pages : ℕ → TreePage ℕ ℕ
pages id =
    if id == 1 then internal root else if id == 2 then leaf (leaf_of 2 10) else leaf (leaf_of 3 20)

first_leaf : IsTree pages 0 2 (low 0 0 root) (high 30 0 root)
unfolding IsTree low high
first_leaf = (
  leaf_of 2 10,
  refl,
  (λ i j a b c. absurd (omega (arith, b, c))),
  (λ j a. (omega arith, omega arith)),
)

second_leaf : IsTree pages 0 3 (low 0 1 root) (high 30 1 root)
unfolding IsTree low high
second_leaf = (
  leaf_of 3 20,
  refl,
  (λ i j a b c. absurd (omega (arith, b, c))),
  (λ j a. (omega arith, omega arith)),
)

pages-IsTree : IsTree pages 1 1 0 30
unfolding IsTree low high
pages-IsTree = (
  root,
  refl,
  (omega arith, λ i j a b c. absurd (omega (arith, a, b, c))),
  (λ j a b. (omega arith, omega arith)),
  λ j lt. elim (Bool-cases (j == 0)) [
    | inl h ↦
        let same : 0 ≡ j = ground arith in
        subst (λ (x : ℕ). IsTree pages 0 (x + 2) (low 0 x root) (high 30 x root)) same first_leaf
    | inr h ↦
        let same : 1 ≡ j = ground (arith, lt) in
        subst (λ (x : ℕ). IsTree pages 0 (x + 2) (low 0 x root) (high 30 x root)) same second_leaf
  ],
)

abbrev tree : BPlusTree ℕ ℕ
tree = record {
  index_name = 102 ∷ [];
  root_page_id = some 1;
  leaf_max_size = 3;
  internal_max_size = 3;
  pages = pages;
  header_page = record { name = 102 ∷ []; root_id = 1 } ∷ [];
  next_page_id = 4;
}

search_runs : get_value 2 10 tree ≡ some ([], false)
unfolding get_value find_leaf_from scan_leaf collect child child_slot first_above value_at
    compare_ranks
search_runs = refl

get_value-Has_example :
    (p : LeafPage ℕ ℕ) × (get_value 2 20 tree ≡ some (scan_leaf 20 p))
    × IsUnder pages 1 1 p
    × ((q : LeafPage ℕ ℕ) → IsUnder pages 1 1 q → Has pages 20 q → q ≡ p)
get_value-Has_example = get_value-Has tree 1 1 0 30 2 20 refl pages-IsTree (omega arith)

-- An internal page of four slots, with one more, is split: slot 0 of the new page is not written, and the
-- last child is past its size.
abbrev full : InternalPage ℕ
full = record root { size = 5; max_size = 4; array = λ j. (10 * j, 100 + j) }

abbrev split_page : InternalPage ℕ
split_page = (split_internal 0 4 9 full).1

split_loses :
    (split_page.size ≡ 3)
    × (split_page.array 0 ≡ (0, 0))
    × (split_page.array 1 ≡ (20, 102))
    × (split_page.array 2 ≡ (30, 103))
unfolding split_internal Internal.init get_min_size copy write
split_loses = (refl, refl, refl, refl)

abbrev empty_tree : BPlusTree ℕ ℕ
empty_tree = record tree { root_page_id = none; header_page = [] }

insert_all-HasOne_example :
    (t' : BPlusTree ℕ ℕ) × (insert_all (0, 0) 1 ((10, 1) ∷ (20, 2) ∷ (10, 3) ∷ []) empty_tree
      ≡ some t')
    × HasOne 10 1 t'
unfolding insert_record find_record find_from c_str strcmp
insert_all-HasOne_example =
    insert_all-HasOne (0, 0) 0 10 1 ((20, 2) ∷ (10, 3) ∷ []) empty_tree refl (omega arith)
      (record { name = 102 ∷ []; root_id = 4 } ∷ []) refl
