-- ===== src/Heap.antt =====
-- The table heap of src/storage/table/table_heap.cpp, over the pages of Table.antt. The buffer pool is a map from
-- page ids to pages, and an operation is told whether NewPage finds a frame.
pub mod Iterator
pub mod Chain
pub mod Slots
pub mod Scan
pub mod Valid
pub mod Insert
pub mod Members
pub mod Step
pub mod Walk
pub mod Read
pub mod Visit
mod Tests
use cmu.Common.{
  ℕ, zero, suc, ◌+◌, Bool, true, false, Option, none, some, List, [], ◌∷◌, ◌++◌, ltb, if◌then◌else◌,
  ◌&&◌, not,
}
use cmu.Common.Dict.{Dict, get, put}
use cmu.Table
use cmu.Table.{Tuple, TablePage, add32}

-- A page id and a slot.
abbrev pub Rid : Type 0
Rid = ℕ × ℕ

pub data WType : Type 0 where
  insert : WType
  delete : WType
  update : WType

-- A record of a write set: the tuple is `none` where the code passes `Tuple{}`.
pub record TableWriteRecord : Type 0 where
  pub rid : Rid
  pub wtype : WType
  pub tuple : Option Tuple

-- `first_page_id_`, the pages, the next id that NewPage gives out, and of the transaction whether it
-- is aborted and its write set.
pub record TableHeap : Type 0 where
  pub first_page_id : Option ℕ
  pub pages : Dict TablePage
  pub next_page_id : ℕ
  pub aborted : Bool
  pub write_set : List TableWriteRecord

-- What NewPage puts in a frame.
abbrev pub zero_page : TablePage
zero_page = record {
  page_id = some 0;
  prev_page_id = some 0;
  next_page_id = some 0;
  free_space_pointer = 0;
  tuple_count = 0;
  tuple_offset = λ i. 0;
  tuple_size = λ i. 0;
  bytes = λ x. 0;
}

abbrev pub page_size : ℕ
page_size = 4096

unfoldable pub set_page : ℕ → TablePage → TableHeap → TableHeap
unfolding put
set_page id page h = record h { pages = put id page h.pages }

unfoldable pub log : Rid → WType → Option Tuple → TableHeap → TableHeap
log rid wtype tuple h = record h {
  write_set = h.write_set ++ record { rid = rid; wtype = wtype; tuple = tuple } ∷ [];
}

unfoldable pub abort : TableHeap → TableHeap
abort h = record h { aborted = true }

-- The constructor with a transaction: the first page. `none` for the assertion that NewPage finds a
-- frame.
unfoldable pub new : Bool → TableHeap → Option TableHeap
unfolding set_page Table.init
new frame h =
    let id = h.next_page_id in
    if frame
    then some (
        set_page id (Table.init (some id) page_size none zero_page)
          (record h { first_page_id = some id; next_page_id = id + 1 }))
    else none

-- The branch of `InsertTuple` that makes a page after the last one: the new page's id.
unfoldable pub append_page : ℕ → TablePage → TableHeap → TableHeap
unfolding set_page Table.init
append_page id page h =
    let next = h.next_page_id in
    set_page next (Table.init (some next) page_size page.page_id zero_page) (
      set_page id (record page { next_page_id = some next }) (record h { next_page_id = next + 1 }))

-- The loop of `InsertTuple` from the page `id` on. `none` where an assertion fails, a page that is not
-- there is read, or the fuel runs out; no RID where the transaction is aborted.
unfoldable pub insert_from : ℕ → ℕ → Tuple → Bool → TableHeap → Option (TableHeap × Option Rid)
unfolding get set_page log abort append_page Table.insert_tuple
insert_from zero id tuple frame h = none
insert_from (suc fuel) id tuple frame h = elim (get id h.pages) [
  | none ↦ none
  | some page ↦ elim (Table.insert_tuple tuple page) [
    | none ↦ none
    | some (page', some slot) ↦
        some (log (id, slot) insert none (set_page id page' h), some (id, slot))
    | some (page', none) ↦ elim page'.next_page_id [
      | some next ↦ insert_from fuel next tuple frame (set_page id page' h)
      | none ↦
          let rest = insert_from fuel h.next_page_id tuple frame (append_page id page' h) in
          if frame then rest else some (abort (set_page id page' h), none)
    ]
  ]
]

-- `InsertTuple` where the first page has this id.
unfoldable pub insert_at : ℕ → Option ℕ → Tuple → Bool → TableHeap → Option (TableHeap × Option Rid)
unfolding insert_from get abort
insert_at fuel none tuple frame h = some (abort h, none)
insert_at fuel (some id) tuple frame h = elim (get id h.pages) [
  | none ↦ some (abort h, none)
  | some page ↦ insert_from fuel id tuple frame h
]

-- `InsertTuple`.
unfoldable pub insert_tuple : ℕ → Tuple → Bool → TableHeap → Option (TableHeap × Option Rid)
unfolding insert_at abort add32
insert_tuple fuel tuple frame h =
    if ltb page_size (add32 tuple.size 32)
    then some (abort h, none)
    else insert_at fuel h.first_page_id tuple frame h

-- `MarkDelete`.
unfoldable pub mark_delete : Rid → TableHeap → TableHeap × Bool
unfolding get set_page log abort Table.mark_delete
mark_delete (id, slot) h = elim (get id h.pages) [
  | none ↦ (abort h, false)
  | some page ↦ (log (id, slot) delete none (set_page id (Table.mark_delete slot page).0 h), true)
]

-- `UpdateTuple`.
unfoldable pub update_tuple : Tuple → Rid → TableHeap → Option (TableHeap × Bool)
unfolding get set_page log abort Table.update_tuple
update_tuple tuple (id, slot) h = elim (get id h.pages) [
  | none ↦ some (abort h, false)
  | some page ↦ elim (Table.update_tuple tuple slot page) [
    | none ↦ none
    | some (page', none) ↦ some (set_page id page' h, false)
    | some (page', some old_tuple) ↦
        let h' = set_page id page' h in
        some (if h.aborted then h' else log (id, slot) update (some old_tuple) h', true)
  ]
]

-- `ApplyDelete`.
unfoldable pub apply_delete : Rid → TableHeap → Option TableHeap
unfolding get set_page Table.apply_delete
apply_delete (id, slot) h = elim (get id h.pages) [
  | none ↦ none
  | some page ↦ elim (Table.apply_delete slot page) [
    | none ↦ none
    | some page' ↦ some (set_page id page' h)
  ]
]

-- `RollbackDelete`.
unfoldable pub rollback_delete : Rid → TableHeap → Option TableHeap
unfolding get set_page Table.rollback_delete
rollback_delete (id, slot) h = elim (get id h.pages) [
  | none ↦ none
  | some page ↦ elim (Table.rollback_delete slot page) [
    | none ↦ none
    | some page' ↦ some (set_page id page' h)
  ]
]

-- `GetTuple`.
unfoldable pub get_tuple : Rid → TableHeap → TableHeap × Option Tuple
unfolding get abort Table.get_tuple
get_tuple (id, slot) h = elim (get id h.pages) [
  | none ↦ (abort h, none)
  | some page ↦ (h, Table.get_tuple slot page)
]
