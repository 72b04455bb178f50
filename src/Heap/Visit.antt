-- ===== src/Heap/Visit.antt =====
-- What the iterator visits after an `InsertTuple`.
use cmu.Common.{
  ℕ, ◌+◌, ◌^◌, ◌≤◌, ◌<◌, ◌≡◌, ap, ◌∙◌, sym, inl, inr, true, false, Option, none, some, List, [],
  ◌∷◌, ◌++◌, arith, ◌==◌, ◌||◌, length, Bool-cases, subst,
}
use cmu.Common.Dict.{Dict, get}
use cmu.Table.{Tuple, TablePage, is_deleted}
use cmu.Table.Valid.{stored}
use cmu.Heap.{Rid, TableHeap, page_size, insert_tuple}
use cmu.Heap.Iterator.{scan}
use cmu.Heap.Chain.{IsWalk, live_rids}
use cmu.Heap.Valid.{IsChain, IsHeap, tuple_at, tuple_at-found, tuple_at-none}
use cmu.Heap.Members.{same_rid, mem_rid, mem_number, is_live, mem_rid-live_rids}
use cmu.Heap.Insert.{Inserted}
use cmu.Heap.Step.{Stored}
use cmu.Heap.Walk.{insert_tuple-Stored}
use cmu.Heap.Scan.{scan-eq}

IsChain-IsWalk :
    (n : ℕ) (pages : Dict TablePage) (start : Option ℕ) (ids : List ℕ)
    → IsChain n pages start ids
    → IsWalk pages start ids
IsChain-IsWalk n pages start [] c = c
IsChain-IsWalk n pages start (id ∷ ids) (at, _, _, p, found, _, _, rest) =
    (at, p, found, IsChain-IsWalk n pages p.next_page_id ids rest)

mem_number-append :
    (k n : ℕ) (ids : List ℕ) → mem_number k (ids ++ n ∷ []) ≡ mem_number k ids || (n == k)
mem_number-append k n [] = ground arith
mem_number-append k n (id ∷ ids) = ground (arith, mem_number-append k n ids)

-- A tuple that was inserted is live.
inserted-live :
    (tuple : Tuple) (rid : Rid) (h h' : TableHeap)
    → Inserted tuple rid h h'
    → 0 < tuple.size
    → tuple.size < 2 ^ 31
    → is_live (tuple_at rid h'.pages) ≡ true
unfolding stored is_deleted
inserted-live tuple rid h h' i pos small =
    let at = tuple_at-found rid.0 rid.1 i.page h'.pages i.found in
    ap is_live at ∙ ground (arith, i.slots, i.size)

module _ (h : TableHeap) (start : Option ℕ) (ids : List ℕ) (tuple : Tuple)
    (run : Option (TableHeap × Option Rid)) (chain : IsChain h.next_page_id h.pages start ids)
    (unused : (k : ℕ) → h.next_page_id ≤ k → get k h.pages ≡ none) (full : 0 < tuple.size)
    (small : tuple.size < 2 ^ 31) (r : Stored h start ids tuple run) where
  fresh_dead : (j s : ℕ) → (h.next_page_id == j) ≡ true → is_live (tuple_at (j, s) h.pages) ≡ false
  fresh_dead j s e = ap is_live (tuple_at-none j s h.pages (unused j (ground arith)))

  -- The live RIDs are those of before and the new one.
  live_rids-Stored :
      (other : Rid)
      → mem_rid other (live_rids r.heap.pages r.pages)
        ≡ mem_rid other (live_rids h.pages ids) || same_rid other r.rid
  live_rids-Stored (j, s) =
      let before =
        mem_rid-live_rids h.pages start ids j s
          (IsChain-IsWalk h.next_page_id h.pages start ids chain) in
      let after =
        mem_rid-live_rids r.heap.pages start r.pages j s
          (IsChain-IsWalk r.heap.next_page_id r.heap.pages start r.pages r.chain) in
      elim (Bool-cases (same_rid (j, s) r.rid)) [
        | inl new ↦
            let e : j ≡ r.rid.0 = ground arith in
            let e' : s ≡ r.rid.1 = ground arith in
            let there : mem_number j r.pages ≡ true =
              ap (λ (k : ℕ). mem_number k r.pages) e ∙ r.visited in
            let live : is_live (tuple_at (j, s) r.heap.pages) ≡ true =
              ap (λ (k : ℕ). is_live (tuple_at (k, s) r.heap.pages)) e
              ∙ ap (λ (t : ℕ). is_live (tuple_at (r.rid.0, t) r.heap.pages)) e'
              ∙ inserted-live tuple r.rid h r.heap r.inserted full small in
            ground (arith, after, there, live, new)
        | inr old ↦
            let same = ap is_live (r.inserted.others (j, s) old) in
            after ∙ elim r.grown [
              | inl (pages, _) ↦
                  ground (arith, before, same, old, ap (λ (l : List ℕ). mem_number j l) pages)
              | inr (pages, _) ↦ ground (
                arith,
                before,
                same,
                old,
                ap (λ (l : List ℕ). mem_number j l) pages,
                mem_number-append j h.next_page_id ids,
                fresh_dead j s,
              )
            ]
      ]

-- On a valid heap of one page or more, InsertTuple of a tuple that is not empty and with 32 bytes
-- more fits in a page returns a RID within one round for each page and one more, if NewPage finds a
-- frame. The loop from Begin to End ends before and after it; before, it does not come to that RID,
-- and after, it comes to the RIDs of before and to that one, and to no other.
pub scan-insert_tuple :
    (h : TableHeap) (id : ℕ) (ids : List ℕ) (tuple : Tuple) (fuel : ℕ)
    → IsHeap h (id ∷ ids)
    → 0 < tuple.size
    → tuple.size + 32 ≤ page_size
    → length ids + 1 < fuel
    → (h' : TableHeap) × (rid : Rid) × (walk : ℕ) × (steps : ℕ) × (before : List Rid)
      × (after : List Rid) × (insert_tuple fuel tuple true h ≡ some (h', some rid))
      × (scan walk steps h ≡ some before)
      × (scan walk steps h' ≡ some after)
      × (mem_rid rid before ≡ false)
      × ((other : Rid) → mem_rid other after ≡ mem_rid other before || same_rid other rid)
scan-insert_tuple h id ids tuple fuel valid full fits enough =
    elim (insert_tuple-Stored h id ids tuple true fuel valid full (omega arith) enough) [
      | inl (large, _) ↦ absurd (omega arith)
      | inr (inl (off, _, _)) ↦ absurd (cc)
      | inr (inr (_, r)) ↦
          let before : List Rid = live_rids h.pages (id ∷ ids) in
          let after : List Rid = live_rids r.heap.pages r.pages in
          let walk : ℕ = length (id ∷ ids) + length r.pages + 1 in
          let steps : ℕ = length before + length after + 1 in
          let link = IsChain-IsWalk h.next_page_id h.pages h.first_page_id (id ∷ ids) valid.chain in
          let link' =
            IsChain-IsWalk r.heap.next_page_id r.heap.pages h.first_page_id r.pages r.chain in
          (
            r.heap,
            r.rid,
            walk,
            steps,
            before,
            after,
            r.returns,
            scan-eq h (id ∷ ids) walk steps link (omega arith) (omega arith),
            scan-eq r.heap r.pages walk steps
                (subst (λ (s : Option ℕ). IsWalk r.heap.pages s r.pages) (sym r.inserted.first)
                  link')
                (omega arith) (omega arith),
            mem_rid-live_rids h.pages h.first_page_id (id ∷ ids) r.rid.0 r.rid.1 link
                ∙ ground (arith, ap is_live r.inserted.free),
            live_rids-Stored h h.first_page_id (id ∷ ids) tuple _ valid.chain valid.fresh full
                (omega arith) r,
          )
    ]
