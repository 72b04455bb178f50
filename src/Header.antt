-- ===== src/Header.antt =====
-- The header page of src/storage/page/header_page.cpp, which keeps a root page id for each name. The
-- entries of the page are a list, whose length is the record count. A string is its bytes.
pub mod Records
pub mod Map
mod Tests
use cmu.Common.{
  ℕ, zero, suc, ◌+◌, ◌-◌, ◌*◌, ◌/◌, Bool, true, false, Option, none, some, List, [], ◌∷◌, ◌++◌,
  if◌then◌else◌, ◌==◌, ltb, leb, ◌&&◌, length, get_or, set,
}

pub record Entry : Type 0 where
  pub name : List ℕ
  pub root_id : ℕ

abbrev pub HeaderPage : Type 0
HeaderPage = List Entry

-- A string up to its first zero byte, which is what `c_str` is read as.
unfoldable pub c_str : List ℕ → List ℕ
c_str [] = []
c_str (c ∷ name) = if c == 0 then [] else c ∷ c_str name

-- `strcmp(...) == 0`, on strings that have no zero byte.
unfoldable pub strcmp : List ℕ → List ℕ → Bool
strcmp [] [] = true
strcmp [] (y ∷ t) = false
strcmp (x ∷ s) [] = false
strcmp (x ∷ s) (y ∷ t) = (x == y) && strcmp s t

-- `Init`.
abbrev pub init : HeaderPage
init = []

unfoldable pub get_record_count : HeaderPage → ℕ
get_record_count page = length page

-- The loop of `FindRecord` from entry `i` on, with `none` for -1.
unfoldable pub find_from : List ℕ → ℕ → List Entry → Option ℕ
unfolding strcmp
find_from name i [] = none
find_from name i (e ∷ entries) =
    let rest = find_from name (i + 1) entries in if strcmp e.name name then some i else rest

unfoldable pub find_record : List ℕ → HeaderPage → Option ℕ
unfolding find_from c_str
find_record name page = find_from (c_str name) 0 page

-- A page of 4096 bytes has room for 113 entries of 36 bytes after the count.
abbrev pub capacity : ℕ
capacity = (4096 - 4) / 36

-- `InsertRecord`. `none` where an assertion fails, and where the entry would be written past the end of the
-- page: the code does not test for that.
unfoldable pub insert_record : List ℕ → ℕ → HeaderPage → Option (HeaderPage × Bool)
unfolding find_record c_str
insert_record name root_id page =
    if leb 32 (length name) then none else elim (find_record name page) [
      | some i ↦ some (page, false)
      | none ↦
          if leb capacity (length page)
          then none
          else some (page ++ record { name = c_str name; root_id = root_id } ∷ [], true)
    ]

-- `memmove` of the entries after `i`.
unfoldable pub remove_at : ℕ → List Entry → List Entry
remove_at i [] = []
remove_at zero (e ∷ entries) = entries
remove_at (suc i) (e ∷ entries) = e ∷ remove_at i entries

-- `DeleteRecord`.
unfoldable pub delete_record : List ℕ → HeaderPage → Option (HeaderPage × Bool)
unfolding find_record remove_at
delete_record name page = if length page == 0 then none else elim (find_record name page) [
  | none ↦ some (page, false)
  | some i ↦ some (remove_at i page, true)
]

-- The write to the root id of entry `i`.
unfoldable pub set_root_id : ℕ → ℕ → List Entry → List Entry
set_root_id i root_id [] = []
set_root_id zero root_id (e ∷ entries) = record e { root_id = root_id } ∷ entries
set_root_id (suc i) root_id (e ∷ entries) = e ∷ set_root_id i root_id entries

-- `UpdateRecord`.
unfoldable pub update_record : List ℕ → ℕ → HeaderPage → Option (HeaderPage × Bool)
unfolding find_record set_root_id
update_record name root_id page =
    if leb 32 (length name) then none else elim (find_record name page) [
      | none ↦ some (page, false)
      | some i ↦ some (set_root_id i root_id page, true)
    ]

unfoldable pub root_id_at : ℕ → List Entry → Option ℕ
root_id_at i [] = none
root_id_at zero (e ∷ entries) = some e.root_id
root_id_at (suc i) (e ∷ entries) = root_id_at i entries

-- `GetRootId`: the id, or `none` for `false`; and `none` around it where the assertion fails.
unfoldable pub get_root_id : List ℕ → HeaderPage → Option (Option ℕ)
unfolding find_record root_id_at
get_root_id name page =
    if leb 32 (length name)
    then none
    else elim (find_record name page) [ none ↦ some none | some i ↦ some (root_id_at i page) ]
