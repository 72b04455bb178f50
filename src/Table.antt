-- ===== src/Table.antt =====
-- The slotted table page of src/storage/page/table_page.cpp and its header. The three regions of the
-- page's bytes are apart: the header's fields, the slots, and the bytes of the tuples.
pub mod Valid
pub mod Insert
pub mod Shift
pub mod Delete
pub mod Update
mod Tests
use cmu.Common.{
  ℕ, zero, suc, ◌+◌, ◌-◌, ◌*◌, ◌/◌, ◌%◌, ◌^◌, Bool, true, false, Option, none, some, arith,
  if◌then◌else◌, ◌==◌, ltb, leb, ◌&&◌, ◌||◌, not,
}

-- `size_` and `data_` of a tuple.
pub record Tuple : Type 0 where
  pub size : ℕ
  pub bytes : ℕ → ℕ

-- A page id is `none` where it is `INVALID_PAGE_ID`.
pub record TablePage : Type 0 where
  pub page_id : Option ℕ
  pub prev_page_id : Option ℕ
  pub next_page_id : Option ℕ
  pub free_space_pointer : ℕ
  pub tuple_count : ℕ
  pub tuple_offset : ℕ → ℕ
  pub tuple_size : ℕ → ℕ
  pub bytes : ℕ → ℕ

-- `uint32_t` differences and sums.
unfoldable pub sub32 : ℕ → ℕ → ℕ
sub32 a b = (a + 2 ^ 64 - b) % 2 ^ 32

unfoldable pub add32 : ℕ → ℕ → ℕ
add32 a b = (a + b) % 2 ^ 32

-- `IsDeleted`, `SetDeletedFlag` and `UnsetDeletedFlag`: the flag is bit 31 of the size.
unfoldable pub is_deleted : ℕ → Bool
is_deleted size = (size / 2 ^ 31) % 2 == 1 || size == 0

unfoldable pub set_deleted_flag : ℕ → ℕ
set_deleted_flag size = if (size / 2 ^ 31) % 2 == 1 then size else size + 2 ^ 31

unfoldable pub unset_deleted_flag : ℕ → ℕ
unset_deleted_flag size = size % 2 ^ 31

unfoldable pub get_free_space_remaining : TablePage → ℕ
unfolding sub32
get_free_space_remaining p = sub32 p.free_space_pointer (24 + 8 * p.tuple_count)

unfoldable pub init : Option ℕ → ℕ → Option ℕ → TablePage → TablePage
init page_id page_size prev_page_id p = record p {
  page_id = page_id;
  prev_page_id = prev_page_id;
  next_page_id = none;
  free_space_pointer = page_size;
  tuple_count = 0;
}

unfoldable pub set_at : ℕ → ℕ → (ℕ → ℕ) → ℕ → ℕ
set_at i v f j = if j == i then v else f j

-- `memcpy` of `n` bytes of `source` from `from` on, to `to`. The source and the target may overlap
-- in `memmove`, so the whole of the source is read first.
unfoldable pub move : (ℕ → ℕ) → ℕ → ℕ → ℕ → (ℕ → ℕ) → ℕ → ℕ
move source from to n target x =
    if leb to x && ltb x (to + n) then source (from + (x - to)) else target x

-- The first slot from `i` on, of `n`, whose size passes a test, or the end.
unfoldable pub first_slot : (ℕ → Bool) → ℕ → ℕ → (ℕ → ℕ) → ℕ
first_slot test i zero sizes = i
first_slot test i (suc n) sizes =
    let rest = first_slot test (i + 1) n sizes in if test (sizes i) then i else rest

-- `InsertTuple`, with the slot number for `rid`. `none` for an assertion that fails.
unfoldable pub insert_tuple : Tuple → TablePage → Option (TablePage × Option ℕ)
unfolding get_free_space_remaining sub32 set_at move first_slot
insert_tuple tuple p =
    let i = first_slot (λ size. size == 0) 0 p.tuple_count p.tuple_size in
    let fsp = sub32 p.free_space_pointer tuple.size in
    if tuple.size == 0
    then none
    else if ltb (get_free_space_remaining p) (tuple.size + 8)
    then some (p, none)
    else if i == p.tuple_count && ltb (get_free_space_remaining p) (tuple.size + 8)
    then some (p, none)
    else some (
      record p {
        free_space_pointer = fsp;
        bytes = move tuple.bytes 0 fsp tuple.size p.bytes;
        tuple_offset = set_at i fsp p.tuple_offset;
        tuple_size = set_at i tuple.size p.tuple_size;
        tuple_count = if i == p.tuple_count then p.tuple_count + 1 else p.tuple_count;
      },
      some i,
    )

-- `MarkDelete`.
unfoldable pub mark_delete : ℕ → TablePage → TablePage × Bool
unfolding is_deleted set_deleted_flag set_at
mark_delete slot p =
    let size = p.tuple_size slot in
    if leb p.tuple_count slot
    then (p, false)
    else if is_deleted size
    then (p, false)
    else if ltb 0 size
    then (record p { tuple_size = set_at slot (set_deleted_flag size) p.tuple_size }, true)
    else (p, true)

-- The loop over the offsets of `UpdateTuple` and `ApplyDelete`: those of tuples before `limit` move
-- by `up` bytes up and `down` bytes down. The loop writes a slot after it reads it, and no other.
unfoldable pub shift_offsets : ℕ → ℕ → ℕ → TablePage → TablePage
unfolding add32 sub32
shift_offsets limit up down p = record p {
  tuple_offset = λ i.
      if ltb i p.tuple_count && (ltb 0 (p.tuple_size i) && ltb (p.tuple_offset i) limit)
      then sub32 (add32 (p.tuple_offset i) up) down
      else p.tuple_offset i;
}

-- `UpdateTuple`: the page and the old tuple, or no tuple for `false`.
unfoldable pub update_tuple : Tuple → ℕ → TablePage → Option (TablePage × Option Tuple)
unfolding is_deleted get_free_space_remaining sub32 add32 move set_at shift_offsets
update_tuple new_tuple slot p =
    let size = p.tuple_size slot in
    let offset = p.tuple_offset slot in
    let old_tuple : Tuple = record { size = size; bytes = move p.bytes offset 0 size (λ x. 0) } in
    let fsp = p.free_space_pointer in
    let fsp' = sub32 (add32 fsp size) new_tuple.size in
    let moved = move p.bytes fsp fsp' (offset - fsp) p.bytes in
    let at = sub32 (add32 offset size) new_tuple.size in
    if new_tuple.size == 0
    then none
    else if leb p.tuple_count slot
    then some (p, none)
    else if is_deleted size
    then some (p, none)
    else if ltb (add32 (get_free_space_remaining p) size) new_tuple.size
    then some (p, none)
    else if ltb offset fsp
    then none
    else some (
      shift_offsets (add32 offset size) size new_tuple.size (record p {
        free_space_pointer = fsp';
        bytes = move new_tuple.bytes 0 at new_tuple.size moved;
        tuple_size = set_at slot new_tuple.size p.tuple_size;
      }),
      some old_tuple,
    )

-- `ApplyDelete`; `none` for an assertion that fails.
unfoldable pub apply_delete : ℕ → TablePage → Option TablePage
unfolding is_deleted unset_deleted_flag add32 move set_at shift_offsets
apply_delete slot p =
    let raw = p.tuple_size slot in
    let size = if is_deleted raw then unset_deleted_flag raw else raw in
    let offset = p.tuple_offset slot in
    let fsp = p.free_space_pointer in
    if leb p.tuple_count slot
    then none
    else if ltb offset fsp
    then none
    else some (
        shift_offsets offset size 0 (record p {
          free_space_pointer = add32 fsp size;
          bytes = move p.bytes fsp (add32 fsp size) (offset - fsp) p.bytes;
          tuple_size = set_at slot 0 p.tuple_size;
          tuple_offset = set_at slot 0 p.tuple_offset;
        }))

-- `RollbackDelete`.
unfoldable pub rollback_delete : ℕ → TablePage → Option TablePage
unfolding is_deleted unset_deleted_flag set_at
rollback_delete slot p =
    let size = p.tuple_size slot in
    if leb p.tuple_count slot
    then none
    else if is_deleted size
    then some (record p { tuple_size = set_at slot (unset_deleted_flag size) p.tuple_size })
    else some p

-- `GetTuple`.
unfoldable pub get_tuple : ℕ → TablePage → Option Tuple
unfolding is_deleted move
get_tuple slot p =
    let size = p.tuple_size slot in
    if leb p.tuple_count slot
    then none
    else if is_deleted size
    then none
    else some (record { size = size; bytes = move p.bytes (p.tuple_offset slot) 0 size (λ x. 0) })

-- `GetFirstTupleRid` and `GetNextTupleRid`: the slot number. That the page id in the RID is the
-- page's own is taken for granted.
unfoldable pub get_first_tuple_rid : TablePage → Option ℕ
unfolding is_deleted first_slot
get_first_tuple_rid p =
    let i = first_slot (λ size. not (is_deleted size)) 0 p.tuple_count p.tuple_size in
    if i == p.tuple_count then none else some i

unfoldable pub get_next_tuple_rid : ℕ → TablePage → Option ℕ
unfolding is_deleted first_slot
get_next_tuple_rid slot p =
    let i =
      first_slot (λ size. not (is_deleted size)) (slot + 1) (p.tuple_count - (slot + 1))
        p.tuple_size in
    if leb p.tuple_count i then none else some i
