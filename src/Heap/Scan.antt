-- ===== src/Heap/Scan.antt =====
-- The iterator goes through the RIDs of the live tuples, in order.
use cmu.Common.{
  ℕ, zero, suc, ◌≤◌, ◌<◌, ◌≡◌, refl, ap, ◌∙◌, sym, subst, inl, inr, Option, none, some, List, [],
  ◌∷◌, ◌++◌, arith, length, Option-cases,
}
use cmu.Common.Dict.{get}
use cmu.Table.{TablePage, get_first_tuple_rid, get_next_tuple_rid}
use cmu.Heap.{Rid, TableHeap}
use cmu.Heap.Iterator.{begin_from, begin, advance, scan_from, scan}
use cmu.Heap.Slots.{live_slots, live_after, first-live, next-live}
use cmu.Heap.Chain.{IsWalk, rids_of, live_rids}

-- The iterator is at the first of the RIDs, and the others come after it.
abbrev IsAt : ℕ → TableHeap → Option Rid → List Rid → Type 0
IsAt walk h none rids = rids ≡ []
IsAt walk h (some (id, slot)) rids =
    (p : TablePage) × (ids : List ℕ) × (get id h.pages ≡ some p)
    × IsWalk h.pages p.next_page_id ids
    × (length ids < walk)
    × (rids ≡ (id, slot) ∷ (rids_of id (live_after slot p) ++ live_rids h.pages ids))

module _ (h : TableHeap) where
  begin_from-IsAt :
      (walk fuel : ℕ) (start : Option ℕ) (ids : List ℕ)
      → IsWalk h.pages start ids
      → length ids < fuel
      → fuel ≤ walk
      → (r : Option Rid) × (begin_from fuel start h ≡ some r)
        × IsAt walk h r (live_rids h.pages ids)
  unfolding begin_from live_rids
  begin_from-IsAt walk zero start ids w lt le = elim lt [ ]
  begin_from-IsAt walk (suc fuel) start [] w lt le = (none, rw w refl, refl)
  begin_from-IsAt walk (suc fuel) start (id ∷ ids) (at, p, found, rest) lt le =
      elim (Option-cases (get_first_tuple_rid p)) [
        | inl empty ↦
            let (r, run, there) =
              begin_from-IsAt walk fuel p.next_page_id ids rest (omega arith) (omega arith) in
            let dead : live_slots p ≡ [] = first-live p ∙ rw empty refl in
            let same : live_rids h.pages (id ∷ ids) ≡ live_rids h.pages ids =
              rw (live_rids, found, dead) refl in
            (r, rw (at, begin_from, found, empty) run, subst (IsAt walk h r) (sym same) there)
        | inr (slot, first) ↦
            let alive : live_slots p ≡ slot ∷ live_after slot p = first-live p ∙ rw first refl in
            (
              some (id, slot),
              rw (at, begin_from, found, first) refl,
              (p, ids, found, rest, omega arith, rw (live_rids, found, alive) refl),
            )
      ]

  advance-IsAt :
      (walk : ℕ) (rid : Rid) (rids : List Rid)
      → IsAt walk h (some rid) rids
      → (r : Option Rid) × (rids' : List Rid) × (advance walk rid h ≡ some r)
        × (rids ≡ rid ∷ rids')
        × IsAt walk h r rids'
  unfolding advance
  advance-IsAt walk (id, slot) rids (p, ids, found, rest, lt, e) =
      elim (Option-cases (get_next_tuple_rid slot p)) [
        | inl over ↦
            let (r, run, there) =
              begin_from-IsAt walk walk p.next_page_id ids rest lt (omega arith) in
            let dead : live_after slot p ≡ [] = next-live slot p ∙ rw over refl in
            (r, live_rids h.pages ids, rw (advance, found, over) run, e ∙ rw dead refl, there)
        | inr (next, more) ↦
            let alive : live_after slot p ≡ next ∷ live_after next p =
              next-live slot p ∙ rw more refl in
            (
              some (id, next),
              rids_of id (live_after slot p) ++ live_rids h.pages ids,
              rw (advance, found, more) refl,
              e,
              (p, ids, found, rest, lt, rw alive refl),
            )
      ]

  scan_from-IsAt :
      (walk fuel : ℕ) (r : Option Rid) (rids : List Rid)
      → IsAt walk h r rids
      → length rids < fuel
      → scan_from walk fuel r h ≡ some rids
  unfolding scan_from
  scan_from-IsAt walk zero r rids at lt = elim lt [ ]
  scan_from-IsAt walk (suc fuel) none rids at lt = rw at refl
  scan_from-IsAt walk (suc fuel) (some rid) rids at lt =
      let (r, rids', step, e, there) = advance-IsAt walk rid rids at in
      let shorter : length rids ≡ suc (length rids') = ap (λ (l : List Rid). length l) e in
      let ih = scan_from-IsAt walk fuel r rids' there (omega arith) in
      rw (scan_from, step, ih) (ap some (sym e))

-- On a heap whose pages are linked to one another and end, the loop from Begin to End ends, with as
-- many rounds as there are live tuples and one more and walks over empty pages of no more rounds
-- than there are pages. It goes through the RIDs of the tuples that are not deleted, each once,
-- page after page and slot after slot, empty pages included.
pub scan-eq :
    (h : TableHeap) (ids : List ℕ) (walk fuel : ℕ)
    → IsWalk h.pages h.first_page_id ids
    → length ids < walk
    → length (live_rids h.pages ids) < fuel
    → scan walk fuel h ≡ some (live_rids h.pages ids)
unfolding scan begin
scan-eq h ids walk fuel w lt enough =
    let (r, run, there) = begin_from-IsAt h walk walk h.first_page_id ids w lt (omega arith) in
    rw (scan, begin, run) (scan_from-IsAt h walk fuel r (live_rids h.pages ids) there enough)
