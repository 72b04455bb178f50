-- ===== src/Heap/Step.antt =====
-- The steps of the walk of the heap's `InsertTuple` along the pages.
use cmu.Common.{
  ℕ, suc, ◌+◌, ◌≤◌, ◌<◌, ◌≡◌, refl, ap, ◌∙◌, sym, subst, ◌⊎◌, inl, inr, Bool, true, false, Option,
  none, some, List, [], ◌∷◌, ◌++◌, arith, ◌==◌, ==_self,
}
use cmu.Common.Dict.{Dict, get, put}
use cmu.Table
use cmu.Table.{Tuple, TablePage, get_free_space_remaining, add32}
use cmu.Table.Valid.{IsValid}
use cmu.Table.Insert.{insert_tuple-Inserted}
use cmu.Heap.{Rid, TableHeap, insert, page_size, set_page, log, append_page, insert_from}
use cmu.Heap.Valid.{NotIn, IsChain, get-put_self, get-put_other, IsChain-put, insert_tuple_links}
use cmu.Heap.Members.{mem_number}
use cmu.Heap.Insert.{Inserted, after-Inserted, appended, appended-Inserted, blank}

-- A run from `start` on stores the tuple, and leads to a heap whose pages from `start` on are as
-- before, or one more.
pub record Stored (h : TableHeap) (start : Option ℕ) (ids : List ℕ) (tuple : Tuple)
    (run : Option (TableHeap × Option Rid)) : Type 0 where
  pub heap : TableHeap
  pub rid : Rid
  pub pages : List ℕ
  pub returns : run ≡ some (heap, some rid)
  pub inserted : Inserted tuple rid h heap
  pub chain : IsChain heap.next_page_id heap.pages start pages
  pub visited : mem_number rid.0 pages ≡ true
  pub grown :
      ((pages ≡ ids) × (heap.next_page_id ≡ h.next_page_id))
      ⊎ ((pages ≡ ids ++ h.next_page_id ∷ []) × (heap.next_page_id ≡ h.next_page_id + 1))
  pub outside : (k : ℕ) → NotIn k ids → k < h.next_page_id → get k heap.pages ≡ get k h.pages
  pub fresh : (k : ℕ) → heap.next_page_id ≤ k → get k heap.pages ≡ none

NotIn-append : (k n : ℕ) (ids : List ℕ) → NotIn k ids → (k == n) ≡ false → NotIn k (ids ++ n ∷ [])
NotIn-append k n [] out ne = (ne, tt)
NotIn-append k n (id ∷ ids) (a, out) ne = (a, NotIn-append k n ids out ne)

linked-IsValid :
    (p : TablePage) (next : Option ℕ)
    → IsValid page_size p
    → IsValid page_size (record p { next_page_id = next })
linked-IsValid p next v = record {
  small = v.small;
  header = v.header;
  inside = v.inside;
  sizes = v.sizes;
  placed = v.placed;
  apart = v.apart;
}

module _ (tuple : Tuple) (full : 0 < tuple.size) (fits : tuple.size + 32 ≤ page_size)
    (h : TableHeap) (unused : (k : ℕ) → h.next_page_id ≤ k → get k h.pages ≡ none) where
  abbrev pub n : ℕ
  n = h.next_page_id

  -- The page `id` has room.
  pub Stored-here :
      (fuel id : ℕ) (ids : List ℕ) (frame : Bool) (p q : TablePage) (i : ℕ)
      → id < n
      → NotIn id ids
      → get id h.pages ≡ some p
      → p.page_id ≡ some id
      → IsChain n h.pages p.next_page_id ids
      → Table.insert_tuple tuple p ≡ some (q, some i)
      → Table.Insert.Inserted page_size tuple i p q
      → Stored h (some id) (id ∷ ids) tuple (insert_from (suc fuel) id tuple frame h)
  unfolding insert_from log set_page
  Stored-here fuel id ids frame p q i lt new found named rest run done =
      let links = insert_tuple_links tuple p q (some i) run in
      record {
        heap = log (id, i) insert none (set_page id q h);
        rid = (id, i);
        pages = id ∷ ids;
        returns = rw (insert_from, found, run) refl;
        inserted = after-Inserted tuple id i p q h found done;
        chain = (
          refl,
          lt,
          new,
          q,
          get-put_self id q h.pages,
          done.valid,
          links.0 ∙ named,
          subst (λ (s : Option ℕ). IsChain n (put id q h.pages) s ids) (sym links.1)
              (IsChain-put n n id q h.pages p.next_page_id ids rest (omega arith) new),
        );
        visited = rw (==_self id) refl;
        grown = inl (refl, refl);
        outside = λ k out below. get-put_other id k q h.pages (ground (arith, out.0));
        fresh = λ k le. get-put_other id k q h.pages (ground arith) ∙ unused k le;
      }

  -- The page `id` is the last and has no room.
  pub Stored-next :
      (fuel id : ℕ) (p : TablePage)
      → id < n
      → get id h.pages ≡ some p
      → IsValid page_size p
      → p.page_id ≡ some id
      → p.next_page_id ≡ none
      → Table.insert_tuple tuple p ≡ some (p, none)
      → Stored h (some id) (id ∷ []) tuple (insert_from (suc (suc fuel)) id tuple true h)
  unfolding append_page set_page log Table.init insert_from
  Stored-next fuel id p lt found valid named last run =
      let u = unused n (omega arith) in
      let (i, q, run₂, placed, done) = appended tuple id p h found u lt full fits fuel in
      let links = insert_tuple_links tuple (blank tuple id p h found u lt) q (some i) placed in
      let linked : TablePage = record p { next_page_id = some n } in
      let ne : (n == id) ≡ false = ground arith in
      let ne' : (id == n) ≡ false = ground arith in
      let pages₁ : Dict TablePage = put id linked h.pages in
      let pages₂ : Dict TablePage = put n (blank tuple id p h found u lt) pages₁ in
      let others : (k : ℕ)
          → (n == k) ≡ false
          → (id == k) ≡ false
          → get k (put n q pages₂) ≡ get k h.pages =
        λ k a b.
          get-put_other n k q pages₂ a
          ∙ get-put_other n k _ pages₁ a
          ∙ get-put_other id k linked h.pages b in
      record {
        heap = log (n, i) insert none (set_page n q (append_page id p h));
        rid = (n, i);
        pages = id ∷ n ∷ [];
        returns = rw (insert_from, found, run, last) run₂;
        inserted = appended-Inserted tuple id p h found u lt full fits i q done;
        chain = (
          refl,
          omega arith,
          (ne', tt),
          linked,
          get-put_other n id q pages₂ ne
              ∙ get-put_other n id _ pages₁ ne
              ∙ get-put_self id linked h.pages,
          linked-IsValid p (some n) valid,
          named,
          (refl, omega arith, tt, q, get-put_self n q pages₂, done.valid, links.0, links.1),
        );
        visited = ground arith;
        grown = inr (refl, refl);
        outside = λ k out below. others k (ground arith) (ground (arith, out.0));
        fresh = λ k le. others k (ground arith) (ground arith) ∙ unused k (omega arith);
      }

  -- One page more in front of those of a walk.
  pub Stored-past :
      (id next : ℕ) (ids : List ℕ) (p : TablePage) (run : Option (TableHeap × Option Rid))
      → id < n
      → NotIn id (next ∷ ids)
      → get id h.pages ≡ some p
      → IsValid page_size p
      → p.page_id ≡ some id
      → p.next_page_id ≡ some next
      → Stored h (some next) (next ∷ ids) tuple run
      → Stored h (some id) (id ∷ next ∷ ids) tuple run
  Stored-past id next ids p run lt new found valid named link r = record {
    heap = r.heap;
    rid = r.rid;
    pages = id ∷ r.pages;
    returns = r.returns;
    inserted = r.inserted;
    chain = (
      refl,
      ground (arith, r.grown),
      elim r.grown [
        | inl (same, _) ↦ subst (NotIn id) (sym same) new
        | inr (more, _) ↦
            subst (NotIn id) (sym more) (NotIn-append id n (next ∷ ids) new (ground arith))
      ],
      p,
      r.outside id new lt ∙ found,
      valid,
      named,
      subst (λ (s : Option ℕ). IsChain r.heap.next_page_id r.heap.pages s r.pages) (sym link)
          r.chain,
    );
    visited = ground (arith, r.visited);
    grown = elim r.grown [
      | inl (same, count) ↦ inl (ap (λ (l : List ℕ). id ∷ l) same, count)
      | inr (more, count) ↦ inr (ap (λ (l : List ℕ). id ∷ l) more, count)
    ];
    outside = λ k out below. r.outside k out.1 below;
    fresh = r.fresh;
  }
