-- ===== src/Table/Tests.antt =====
-- Runs of the table page of src/storage/page/table_page.cpp.
use cmu.Common.{
  ℕ, ◌+◌, ◌-◌, ◌*◌, ◌≤◌, ◌<◌, ◌≡◌, refl, ◌⊎◌, true, false, Option, none, some, arith, ◌==◌,
}
use cmu.Table.{
  TablePage, Tuple, insert_tuple, mark_delete, rollback_delete, apply_delete, update_tuple,
  get_tuple, get_free_space_remaining, get_next_tuple_rid, is_deleted, sub32, add32, set_at, move,
  first_slot, shift_offsets, set_deleted_flag, unset_deleted_flag,
}
use cmu.Table.Valid.{IsValid, len, stored}
use cmu.Table.Insert.{Inserted, insert_tuple-Inserted}
use cmu.Table.Delete.{rollback_delete-mark_delete, apply_delete-stored}
use cmu.Table.Update.{Updated, update_tuple-Updated}

-- A page of 100 bytes with two tuples of 10.
abbrev page : TablePage
page = record {
  page_id = some 3;
  prev_page_id = none;
  next_page_id = none;
  free_space_pointer = 80;
  tuple_count = 2;
  tuple_offset = λ i. 90 - 10 * i;
  tuple_size = λ i. 10;
  bytes = λ x. x;
}

page-IsValid : IsValid 100 page
page-IsValid = record {
  small = omega arith;
  header = omega arith;
  inside = omega arith;
  sizes = λ i u. omega arith;
  placed = λ i u. omega (arith, u);
  apart = λ i j ne u w. ground (arith, u, w);
}

abbrev tuple : Tuple
tuple = record { size = 5; bytes = λ x. 7 }

-- Slot 0 is deleted, and taken again by a smaller tuple.
abbrev session : Option (ℕ × Option ℕ × Option ℕ)
session = elim (apply_delete 0 (mark_delete 0 page).0) [
  | none ↦ none
  | some p ↦ elim (insert_tuple tuple p) [
    | none ↦ none
    | some (q, i) ↦ some (q.free_space_pointer, i, get_next_tuple_rid 0 q)
  ]
]

session_runs : session ≡ some (85, some 0, some 1)
unfolding apply_delete mark_delete insert_tuple get_next_tuple_rid is_deleted sub32 add32 set_at
    move first_slot shift_offsets set_deleted_flag unset_deleted_flag get_free_space_remaining
session_runs = refl

insert_tuple-Inserted_example :
    ((get_free_space_remaining page < 13) × (insert_tuple tuple page ≡ some (page, none)))
    ⊎ ((13 ≤ get_free_space_remaining page)
        × (i : ℕ) × (q : TablePage) × (insert_tuple tuple page ≡ some (q, some i))
        × Inserted 100 tuple i page q)
insert_tuple-Inserted_example = insert_tuple-Inserted 100 page tuple page-IsValid (omega arith)

rollback_delete-mark_delete_example :
    (q : TablePage) × (mark_delete 1 page ≡ (q, true))
    × IsValid 100 q
    × (get_tuple 1 q ≡ none)
    × ((j : ℕ) → (j == 1) ≡ false → stored j q ≡ stored j page)
    × (rollback_delete 1 q ≡ some page)
unfolding is_deleted
rollback_delete-mark_delete_example =
    rollback_delete-mark_delete 100 1 page page-IsValid (omega arith, omega arith) refl

apply_delete-stored_example :
    (q : TablePage) × (apply_delete 0 page ≡ some q)
    × IsValid 100 q
    × (stored 0 q ≡ none)
    × ((j : ℕ) → (j == 0) ≡ false → stored j q ≡ stored j page)
    × (get_free_space_remaining q ≡ get_free_space_remaining page + len page 0)
apply_delete-stored_example = apply_delete-stored 100 0 page page-IsValid (omega arith, omega arith)

update_tuple-Updated_example :
    ((get_free_space_remaining page + 10 < 5) × (update_tuple tuple 0 page ≡ some (page, none)))
    ⊎ ((q : TablePage) × (old : Tuple) × (update_tuple tuple 0 page ≡ some (q, some old))
        × Updated 100 0 tuple old page q)
unfolding is_deleted
update_tuple-Updated_example =
    update_tuple-Updated 100 0 page page-IsValid (omega arith, omega arith) refl tuple (omega arith)
