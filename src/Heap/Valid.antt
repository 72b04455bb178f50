-- ===== src/Heap/Valid.antt =====
-- The invariant of a table heap, and what is stored under a RID.
use cmu.Common.{
  ℕ, ◌≤◌, ◌<◌, ◌≡◌, refl, ap, ◌∙◌, sym, inl, inr, false, Option, none, some, List, [], ◌∷◌, arith,
  ◌==◌, if◌then◌else◌, ==_self, Bool-cases, ◌&&◌,
}
use cmu.Common.Dict.{Dict, get, put, get-put}
use cmu.Table.{Tuple, TablePage, insert_tuple}
use cmu.Table.Valid.{IsValid, stored}
use cmu.Heap.{Rid, TableHeap, page_size, set_page}

abbrev pub NotIn : ℕ → List ℕ → Type 0
NotIn k [] = Unit {0}
NotIn k (id ∷ ids) = ((k == id) ≡ false) × NotIn k ids

-- The links lead from `start` through these pages, which are valid, know their ids and differ, and
-- then end. All ids are below `n`.
abbrev pub IsChain : ℕ → Dict TablePage → Option ℕ → List ℕ → Type 0
IsChain n pages start [] = start ≡ none
IsChain n pages start (id ∷ ids) =
    (start ≡ some id)
    × (id < n)
    × NotIn id ids
    × (p : TablePage) × (get id pages ≡ some p)
    × IsValid page_size p
    × (p.page_id ≡ some id)
    × IsChain n pages p.next_page_id ids

pub record IsHeap (h : TableHeap) (ids : List ℕ) : Type 0 where
  pub chain : IsChain h.next_page_id h.pages h.first_page_id ids
  pub fresh : (id : ℕ) → h.next_page_id ≤ id → get id h.pages ≡ none

-- What a slot of a page holds, with its deleted flag.
unfoldable pub tuple_at : Rid → Dict TablePage → Option Tuple
tuple_at (id, slot) pages = elim (get id pages) [ none ↦ none | some p ↦ stored slot p ]

pub NotIn-bound :
    (n : ℕ) (pages : Dict TablePage) (start : Option ℕ) (ids : List ℕ)
    → IsChain n pages start ids
    → NotIn n ids
NotIn-bound n pages start [] c = tt
NotIn-bound n pages start (id ∷ ids) (_, lt, _, p, _, _, _, rest) =
    (ground arith, NotIn-bound n pages p.next_page_id ids rest)

pub get-put_self : (k : ℕ) (v : TablePage) (pages : Dict TablePage) → get k (put k v pages) ≡ some v
get-put_self k v pages = get-put k k v pages ∙ rw (==_self k) refl

pub get-put_other :
    (k j : ℕ) (v : TablePage) (pages : Dict TablePage)
    → (k == j) ≡ false
    → get j (put k v pages) ≡ get j pages
get-put_other k j v pages ne = get-put k j v pages ∙ rw ne refl

pub IsChain-put :
    (n m k : ℕ) (v : TablePage) (pages : Dict TablePage) (start : Option ℕ) (ids : List ℕ)
    → IsChain n pages start ids
    → n ≤ m
    → NotIn k ids
    → IsChain m (put k v pages) start ids
IsChain-put n m k v pages start [] c le out = c
IsChain-put n m k v pages start (id ∷ ids) (at, lt, new, p, found, valid, named, rest) le
      (ne, out) =
    (
      at,
      omega arith,
      new,
      p,
      get-put_other k id v pages ne ∙ found,
      valid,
      named,
      IsChain-put n m k v pages p.next_page_id ids rest le out,
    )

-- A page that is written back as it is.
pub put-eq_self :
    (k : ℕ) (v : TablePage) (pages : Dict TablePage) → get k pages ≡ some v → put k v pages ≡ pages
unfolding get put
put-eq_self k v [] e = cc
put-eq_self k v ((j, w) ∷ pages) e = ground (arith, put-eq_self k v pages)

pub set_page-eq_self :
    (id : ℕ) (p : TablePage) (h : TableHeap) → get id h.pages ≡ some p → set_page id p h ≡ h
unfolding set_page
set_page-eq_self id p h e =
    ap (λ (pages : Dict TablePage). record h { pages = pages }) (put-eq_self id p h.pages e)

-- InsertTuple of a page leaves its links alone.
pub insert_tuple_links :
    (tuple : Tuple) (p q : TablePage) (r : Option ℕ)
    → insert_tuple tuple p ≡ some (q, r)
    → (q.page_id ≡ p.page_id) × (q.next_page_id ≡ p.next_page_id)
unfolding insert_tuple
insert_tuple_links tuple p q r e = ground arith

pub tuple_at-put :
    (id j s : ℕ) (q : TablePage) (pages : Dict TablePage)
    → tuple_at (j, s) (put id q pages) ≡ (if id == j then stored s q else tuple_at (j, s) pages)
unfolding tuple_at
tuple_at-put id j s q pages = elim (Bool-cases (id == j)) [
  | inl same ↦ rw (tuple_at, get-put id j q pages, same) refl
  | inr other ↦ rw (tuple_at, get-put id j q pages, other) refl
]

pub tuple_at-found :
    (id s : ℕ) (p : TablePage) (pages : Dict TablePage)
    → get id pages ≡ some p
    → tuple_at (id, s) pages ≡ stored s p
unfolding tuple_at
tuple_at-found id s p pages found = rw (tuple_at, found) refl

-- A page is written that holds what was there, but for one slot.
pub tuple_at-put_other :
    (id slot : ℕ) (q : TablePage) (pages : Dict TablePage)
    → ((s : ℕ) → (s == slot) ≡ false → stored s q ≡ tuple_at (id, s) pages)
    → (other : Rid) → (other.0 == id && other.1 == slot) ≡ false
    → tuple_at other (put id q pages) ≡ tuple_at other pages
tuple_at-put_other id slot q pages same (j, s) ne = elim (Bool-cases (id == j)) [
  | inl here ↦
      let e : j ≡ id = ground arith in
      let slots : (s == slot) ≡ false = ground arith in
      tuple_at-put id j s q pages
      ∙ rw here (same s slots ∙ ap (λ (k : ℕ). tuple_at (k, s) pages) (sym e))
  | inr there ↦ tuple_at-put id j s q pages ∙ rw there refl
]

-- A page is written that holds what was there.
pub tuple_at-put_same :
    (id : ℕ) (q : TablePage) (pages : Dict TablePage)
    → ((s : ℕ) → stored s q ≡ tuple_at (id, s) pages)
    → (other : Rid) → tuple_at other (put id q pages) ≡ tuple_at other pages
tuple_at-put_same id q pages same (j, s) = elim (Bool-cases (id == j)) [
  | inl here ↦
      let e : j ≡ id = ground arith in
      tuple_at-put id j s q pages ∙ rw here (same s ∙ ap (λ (k : ℕ). tuple_at (k, s) pages) (sym e))
  | inr there ↦ tuple_at-put id j s q pages ∙ rw there refl
]

pub tuple_at-none :
    (id s : ℕ) (pages : Dict TablePage) → get id pages ≡ none → tuple_at (id, s) pages ≡ none
unfolding tuple_at
tuple_at-none id s pages e = rw (tuple_at, e) refl
