-- ===== src/Heap/Tests.antt =====
-- Runs of the table heap of src/storage/table/table_heap.cpp and its iterator.
use cmu.Common.{ℕ, List, ◌||◌, ◌≤◌, ◌<◌, ◌≡◌, refl, ◌⊎◌, true, false, none, some, [], ◌∷◌, arith}
use cmu.Common.Dict.{get}
use cmu.Table
use cmu.Table.{Tuple, TablePage, is_deleted}
use cmu.Table.Valid.{IsValid, init-IsValid}
use cmu.Heap.{
  Rid, TableHeap, page_size, zero_page, new, insert_tuple, get_tuple, mark_delete, abort,
}
use cmu.Heap.Iterator.{scan}
use cmu.Heap.Slots.{live_slots}
use cmu.Heap.Chain.{live_rids}
use cmu.Heap.Valid.{IsHeap}
use cmu.Heap.Insert.{IsFull}
use cmu.Heap.Step.{Stored}
use cmu.Heap.Walk.{insert_tuple-Stored}
use cmu.Heap.Scan.{scan-eq}
use cmu.Heap.Read.{get_tuple-insert_tuple}
use cmu.Heap.Members.{same_rid, mem_rid}
use cmu.Heap.Visit.{scan-insert_tuple}

-- No page, and page ids from 5 on.
abbrev bare : TableHeap
bare = record {
  first_page_id = none;
  pages = [];
  next_page_id = 5;
  aborted = false;
  write_set = [];
}

abbrev one_page : TableHeap
one_page = record bare {
  first_page_id = some 5;
  pages = (5, Table.init (some 5) page_size none zero_page) ∷ [];
  next_page_id = 6;
}

abbrev small : Tuple
small = record { size = 10; bytes = λ x. x }

abbrev large : Tuple
large = record { size = 4000; bytes = λ x. 7 }

new_runs : new true bare ≡ some one_page
unfolding new
new_runs = refl

one_page-IsHeap : IsHeap one_page (5 ∷ [])
unfolding get Table.init
one_page-IsHeap = record {
  chain = (
    refl,
    omega arith,
    tt,
    Table.init (some 5) page_size none zero_page,
    refl,
    init-IsValid (some 5) none page_size zero_page (omega arith) (omega arith),
    refl,
    refl,
  );
  fresh = λ id le. ground arith;
}

-- Three tuples of which the third needs a page of its own, and a delete.
abbrev after_insert : Tuple → TableHeap → TableHeap
after_insert tuple h = elim (insert_tuple 5 tuple true h) [ none ↦ h | some (h', _) ↦ h' ]

abbrev three : TableHeap
three = after_insert large (after_insert large (after_insert small one_page))

scan-three : scan 5 5 three ≡ some ((5, 0) ∷ (5, 1) ∷ (6, 0) ∷ [])
unfolding scan insert_tuple Table.init
scan-three = refl

scan-three_deleted : scan 5 5 (mark_delete (5, 1) three).0 ≡ some ((5, 0) ∷ (6, 0) ∷ [])
unfolding scan insert_tuple mark_delete Table.init
scan-three_deleted = refl

insert_tuple-Stored_example :
    ((page_size < 42) × (insert_tuple 2 small false one_page ≡ some (abort one_page, none)))
    ⊎ ((false ≡ false)
        × (insert_tuple 2 small false one_page ≡ some (abort one_page, none))
        × IsFull 10 one_page.pages (5 ∷ []))
    ⊎ ((42 ≤ page_size)
        × Stored one_page (some 5) (5 ∷ []) small (insert_tuple 2 small false one_page))
insert_tuple-Stored_example =
    insert_tuple-Stored one_page 5 [] small false 2 one_page-IsHeap (omega arith) (omega arith)
      (omega arith)

get_tuple-insert_tuple_example :
    (h' : TableHeap) × (rid : Rid) × (t : Tuple) × (insert_tuple 2 small true one_page
      ≡ some (h', some rid))
    × (get_tuple rid h' ≡ (h', some t))
    × (t.size ≡ 10)
    × ((x : ℕ) → x < 10 → t.bytes x ≡ x)
get_tuple-insert_tuple_example =
    get_tuple-insert_tuple one_page 5 [] small 2 one_page-IsHeap (omega arith) (omega arith)
      (omega arith)

-- A page with one tuple.
abbrev used_page : TablePage
used_page = record {
  page_id = some 5;
  prev_page_id = none;
  next_page_id = none;
  free_space_pointer = 4086;
  tuple_count = 1;
  tuple_offset = λ i. 4086;
  tuple_size = λ i. 10;
  bytes = λ x. x;
}

used_page-IsValid : IsValid page_size used_page
used_page-IsValid = record {
  small = omega arith;
  header = omega arith;
  inside = omega arith;
  sizes = λ i u. omega arith;
  placed = λ i u. omega arith;
  apart = λ i j ne u w. ground (arith, u, w);
}

abbrev used : TableHeap
used = record one_page { pages = (5, used_page) ∷ [] }

scan-eq_example : scan 2 2 used ≡ some ((5, 0) ∷ [])
unfolding get live_rids live_slots
scan-eq_example =
    scan-eq used (5 ∷ []) 2 2 (refl, used_page, refl, refl) (omega arith) (omega arith)

scan-insert_tuple_example :
    (h' : TableHeap) × (rid : Rid) × (walk : ℕ) × (steps : ℕ) × (before : List Rid) × (after : List
      Rid)
    × (insert_tuple 2 small true one_page ≡ some (h', some rid))
    × (scan walk steps one_page ≡ some before)
    × (scan walk steps h' ≡ some after)
    × (mem_rid rid before ≡ false)
    × ((other : Rid) → mem_rid other after ≡ mem_rid other before || same_rid other rid)
scan-insert_tuple_example =
    scan-insert_tuple one_page 5 [] small 2 one_page-IsHeap (omega arith) (omega arith)
      (omega arith)
