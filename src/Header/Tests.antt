-- ===== src/Header/Tests.antt =====
-- Runs of the header page of src/storage/page/header_page.cpp.
use cmu.Common.{
  ℕ, ◌<◌, ◌≤◌, ◌≡◌, refl, ◌⊎◌, true, false, none, some, List, [], ◌∷◌, arith, if◌then◌else◌, length,
}
use cmu.Header.{
  HeaderPage, c_str, strcmp, find_from, find_record, insert_record, set_root_id, update_record,
  root_id_at, get_root_id, capacity,
}
use cmu.Header.Records.{IsDistinct, lookup}
use cmu.Header.Map.{get_root_id-insert_record}

-- Two names, one the other's prefix.
abbrev page : HeaderPage
page = record { name = 97 ∷ []; root_id = 5 } ∷ record { name = 97 ∷ 98 ∷ []; root_id = 6 } ∷ []

page-IsDistinct : IsDistinct page
unfolding IsDistinct lookup strcmp
page-IsDistinct = (refl, (refl, tt))

page_read : get_root_id (97 ∷ 98 ∷ []) page ≡ some (some 6)
unfolding get_root_id find_record find_from root_id_at strcmp c_str
page_read = refl

page_updated :
    update_record (97 ∷ []) 9 page
    ≡ some (
      record { name = 97 ∷ []; root_id = 9 } ∷ record { name = 97 ∷ 98 ∷ []; root_id = 6 } ∷ [],
      true,
    )
unfolding update_record find_record find_from set_root_id strcmp c_str
page_updated = refl

get_root_id-insert_record_example :
    ((x : ℕ) × (get_root_id (99 ∷ []) page ≡ some (some x))
      × (insert_record (99 ∷ []) 7 page ≡ some (page, false)))
    ⊎ ((get_root_id (99 ∷ []) page ≡ some none)
        × (capacity ≤ length page)
        × (insert_record (99 ∷ []) 7 page ≡ none))
    ⊎ ((page' : HeaderPage) × (insert_record (99 ∷ []) 7 page ≡ some (page', true))
        × IsDistinct page'
        × ((q : List ℕ)
            → length q < 32
            → get_root_id q page'
              ≡ (if strcmp (c_str (99 ∷ [])) (c_str q) then some (some 7) else get_root_id q page)))
get_root_id-insert_record_example =
    get_root_id-insert_record (99 ∷ []) 7 page page-IsDistinct (omega arith)
