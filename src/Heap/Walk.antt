-- ===== src/Heap/Walk.antt =====
-- The walk of the heap's `InsertTuple` along the pages, and the whole of it.
use cmu.Common.{
  ℕ, zero, suc, ◌+◌, ◌^◌, ◌≤◌, ◌<◌, ◌≡◌, refl, ap, ◌∙◌, sym, subst, ◌⊎◌, inl, inr, Bool, true,
  false, Option, none, some, List, [], ◌∷◌, arith, length, Bool-cases, ltb,
}
use cmu.Common.Dict.{get}
use cmu.Table
use cmu.Table.{Tuple, TablePage, get_free_space_remaining, add32}
use cmu.Table.Valid.{IsValid}
use cmu.Table.Insert.{insert_tuple-Inserted}
use cmu.Heap.{Rid, TableHeap, page_size, abort, insert_from, insert_at, insert_tuple}
use cmu.Heap.Valid.{IsChain, IsHeap, set_page-eq_self}
use cmu.Heap.Insert.{IsFull}
use cmu.Heap.Step.{Stored, Stored-here, Stored-next, Stored-past}

module _ (tuple : Tuple) (full : 0 < tuple.size) (fits : tuple.size + 32 ≤ page_size)
    (h : TableHeap) (unused : (k : ℕ) → h.next_page_id ≤ k → get k h.pages ≡ none) where
  abbrev n : ℕ
  n = h.next_page_id

  abbrev Walked : Option ℕ → List ℕ → Bool → Option (TableHeap × Option Rid) → Type 0
  Walked start ids frame run =
      ((frame ≡ false) × (run ≡ some (abort h, none)) × IsFull tuple.size h.pages ids)
      ⊎ Stored h start ids tuple run

  -- The page `id` has no room and another one follows.
  step_next :
      (fuel id next : ℕ) (frame : Bool) (p : TablePage)
      → get id h.pages ≡ some p
      → p.next_page_id ≡ some next
      → Table.insert_tuple tuple p ≡ some (p, none)
      → insert_from (suc fuel) id tuple frame h ≡ insert_from fuel next tuple frame h
  unfolding insert_from
  step_next fuel id next frame p found link run =
      rw (insert_from, found, run, link)
        (ap (insert_from fuel next tuple frame) (set_page-eq_self id p h found))

  step_fail :
      (fuel id : ℕ) (p : TablePage)
      → get id h.pages ≡ some p
      → p.next_page_id ≡ none
      → Table.insert_tuple tuple p ≡ some (p, none)
      → insert_from (suc fuel) id tuple false h ≡ some (abort h, none)
  unfolding insert_from
  step_fail fuel id p found last run =
      rw (insert_from, found, run, last)
        (ap (λ (g : TableHeap). some (abort g, none)) (set_page-eq_self id p h found))

  Walked-last :
      (fuel id : ℕ) (p : TablePage) (frame : Bool)
      → id < n
      → get id h.pages ≡ some p
      → IsValid page_size p
      → p.page_id ≡ some id
      → p.next_page_id ≡ none
      → get_free_space_remaining p < tuple.size + 8
      → Table.insert_tuple tuple p ≡ some (p, none)
      → 0 < fuel
      → Walked (some id) (id ∷ []) frame (insert_from (suc fuel) id tuple frame h)
  Walked-last fuel id p false lt found valid named last short run pos =
      inl (refl, step_fail fuel id p found last run, (p, found, short, tt))
  Walked-last zero id p true lt found valid named last short run pos = elim pos [ ]
  Walked-last (suc fuel) id p true lt found valid named last short run pos =
      inr (Stored-next tuple full fits h unused fuel id p lt found valid named last run)

  pub insert_from-Walked :
      (ids : List ℕ) (id fuel : ℕ) (frame : Bool)
      → IsChain n h.pages (some id) (id ∷ ids)
      → length ids + 1 < fuel
      → Walked (some id) (id ∷ ids) frame (insert_from fuel id tuple frame h)
  insert_from-Walked ids id zero frame chain lt = elim lt [ ]
  insert_from-Walked [] id (suc fuel) frame (_, below, new, p, found, valid, named, rest) lt =
      elim (insert_tuple-Inserted page_size p tuple valid full) [
        | inr (room, i, q, run, done) ↦ inr (
            Stored-here tuple full fits h unused fuel id [] frame p q i below new found named rest
              run done)
        | inl (short, run) ↦
            Walked-last fuel id p frame below found valid named rest short run (omega arith)
      ]
  insert_from-Walked (next ∷ ids) id (suc fuel) frame (_, below, new, p, found, valid, named, rest)
        lt =
      elim (insert_tuple-Inserted page_size p tuple valid full) [
        | inr (room, i, q, run, done) ↦ inr (
            Stored-here tuple full fits h unused fuel id (next ∷ ids) frame p q i below new found
              named rest run done)
        | inl (short, run) ↦
            let chain : IsChain n h.pages (some next) (next ∷ ids) =
              subst (λ (s : Option ℕ). IsChain n h.pages s (next ∷ ids)) rest.0 rest in
            rw (step_next fuel id next frame p found rest.0 run)
              (elim (insert_from-Walked ids next fuel frame chain (omega arith)) [
                | inl (off, fails, all) ↦ inl (off, fails, (p, found, short, all))
                | inr r ↦ inr (
                    Stored-past tuple full fits h unused id next ids p _ below new found valid named
                      rest.0 r)
              ])
      ]

-- On a valid heap of one page or more, let a tuple be not empty and smaller than 2 ^ 31 bytes.
-- InsertTuple, with one round for each page and one more, aborts the transaction and changes
-- nothing else if the tuple with 32 bytes more is larger than a page, or if every page is full and
-- NewPage finds no frame. Else it returns a RID that held nothing, in one of the pages or in a new
-- page after the last; the tuple stands there, every other RID holds what it held, the heap stays
-- valid and the write set has the record.
pub insert_tuple-Stored :
    (h : TableHeap) (id : ℕ) (ids : List ℕ) (tuple : Tuple) (frame : Bool) (fuel : ℕ)
    → IsHeap h (id ∷ ids)
    → 0 < tuple.size
    → tuple.size < 2 ^ 31
    → length ids + 1 < fuel
    → ((page_size < tuple.size + 32) × (insert_tuple fuel tuple frame h ≡ some (abort h, none)))
      ⊎ ((frame ≡ false)
          × (insert_tuple fuel tuple frame h ≡ some (abort h, none))
          × IsFull tuple.size h.pages (id ∷ ids))
      ⊎ ((tuple.size + 32 ≤ page_size)
          × Stored h h.first_page_id (id ∷ ids) tuple (insert_tuple fuel tuple frame h))
unfolding insert_tuple insert_at add32
insert_tuple-Stored h id ids tuple frame fuel valid full small enough =
    elim (Bool-cases (ltb page_size (add32 tuple.size 32))) [
      | inl large ↦ inl (ground (arith, large), rw (insert_tuple, large) refl)
      | inr fits ↦
          let room : tuple.size + 32 ≤ page_size = ground (arith, fits) in
          let (at, below, new, p, found, good, named, rest) = valid.chain in
          let run : insert_tuple fuel tuple frame h ≡ insert_from fuel id tuple frame h =
            rw (insert_tuple, fits)
              (ap (λ (s : Option ℕ). insert_at fuel s tuple frame h) at
                ∙ rw (insert_at, found) refl) in
          let walked =
            insert_from-Walked tuple full room h valid.fresh ids id fuel frame
              (refl, below, new, p, found, good, named, rest) enough in
          rw run (elim walked [
            | inl (off, fails, all) ↦ inr (inl (off, fails, all))
            | inr r ↦ inr (
                inr (
                  room,
                  subst
                      (λ (s : Option ℕ).
                        Stored h s (id ∷ ids) tuple (insert_from fuel id tuple frame h))
                      (sym at) r,
                ))
          ])
    ]
