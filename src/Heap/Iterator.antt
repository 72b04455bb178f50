-- ===== src/Heap/Iterator.antt =====
-- The iterator of a table heap: `Begin` of src/storage/table/table_heap.cpp, and
-- src/storage/table/table_iterator.cpp.
use cmu.Common.{ℕ, zero, suc, Option, none, some, List, [], ◌∷◌}
use cmu.Common.Dict.{get}
use cmu.Table
use cmu.Heap.{Rid, TableHeap}

-- The loop of `Begin` from a page on: the RID of the iterator, which is `none` at the end. The outer
-- `none` is for a page that is not there, or fuel that runs out.
unfoldable pub begin_from : ℕ → Option ℕ → TableHeap → Option (Option Rid)
unfolding get Table.get_first_tuple_rid
begin_from zero start h = none
begin_from (suc fuel) none h = some none
begin_from (suc fuel) (some id) h = elim (get id h.pages) [
  | none ↦ none
  | some page ↦ elim (Table.get_first_tuple_rid page) [
    | some slot ↦ some (some (id, slot))
    | none ↦ begin_from fuel page.next_page_id h
  ]
]

unfoldable pub begin : ℕ → TableHeap → Option (Option Rid)
unfolding begin_from
begin fuel h = begin_from fuel h.first_page_id h

-- `operator++` of the iterator at a RID.
unfoldable pub advance : ℕ → Rid → TableHeap → Option (Option Rid)
unfolding get begin_from Table.get_next_tuple_rid
advance fuel (id, slot) h = elim (get id h.pages) [
  | none ↦ none
  | some page ↦ elim (Table.get_next_tuple_rid slot page) [
    | some next ↦ some (some (id, next))
    | none ↦ begin_from fuel page.next_page_id h
  ]
]

-- `for (auto it = Begin(); it != End(); ++it)`: the RIDs that the iterator has in turn. Every walk
-- over pages has as much fuel as is left.
unfoldable pub scan_from : ℕ → ℕ → Option Rid → TableHeap → Option (List Rid)
unfolding advance
scan_from walk zero at h = none
scan_from walk (suc fuel) none h = some []
scan_from walk (suc fuel) (some rid) h = elim (advance walk rid h) [
  | none ↦ none
  | some next ↦ elim (scan_from walk fuel next h) [ none ↦ none | some rids ↦ some (rid ∷ rids) ]
]

unfoldable pub scan : ℕ → ℕ → TableHeap → Option (List Rid)
unfolding begin scan_from
scan walk fuel h = elim (begin walk h) [ none ↦ none | some at ↦ scan_from walk fuel at h ]
