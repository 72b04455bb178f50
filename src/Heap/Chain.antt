-- ===== src/Heap/Chain.antt =====
-- The pages of a heap, in the order of their links.
use cmu.Common.{ℕ, ◌≡◌, Option, none, some, List, [], ◌∷◌, ◌++◌, map}
use cmu.Common.Dict.{Dict, get}
use cmu.Table.{TablePage}
use cmu.Heap.{Rid}
use cmu.Heap.Slots.{live_slots}

-- The links lead from `start` through these pages, and then end.
abbrev pub IsWalk : Dict TablePage → Option ℕ → List ℕ → Type 0
IsWalk pages start [] = start ≡ none
IsWalk pages start (id ∷ ids) =
    (start ≡ some id) × (p : TablePage) × (get id pages ≡ some p) × IsWalk pages p.next_page_id ids

abbrev pub rids_of : ℕ → List ℕ → List Rid
rids_of id slots = map (λ (slot : ℕ). (id, slot)) slots

-- The RIDs of the live tuples of the pages, in order.
unfoldable pub live_rids : Dict TablePage → List ℕ → List Rid
live_rids pages [] = []
live_rids pages (id ∷ ids) = elim (get id pages) [
  | none ↦ []
  | some p ↦ rids_of id (live_slots p) ++ live_rids pages ids
]
