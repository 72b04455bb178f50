-- ===== src/Heap/Insert.antt =====
-- What `InsertTuple` of the heap does: the walk along the pages, and the page that it appends.
use cmu.Common.{
  ℕ, suc, ◌+◌, ◌≤◌, ◌<◌, ◌≡◌, refl, ◌∙◌, sym, inl, inr, true, false, none, some, List, [], ◌∷◌,
  ◌++◌, arith, ◌==◌, ◌&&◌,
}
use cmu.Common.Dict.{Dict, get, put}
use cmu.Table
use cmu.Table.{Tuple, TablePage, get_free_space_remaining, init, sub32}
use cmu.Table.Valid.{IsValid, stored, init-IsValid}
use cmu.Table.Insert as PageInsert
use cmu.Table.Insert.{insert_tuple-Inserted}
use cmu.Heap.{Rid, TableHeap, insert, page_size, set_page, log, append_page, insert_from, zero_page}
use cmu.Heap.Valid.{
  tuple_at, tuple_at-found, tuple_at-put_other, tuple_at-put_same, tuple_at-none, get-put_self,
  get-put_other,
}

-- A tuple stands under a RID that had none; every other RID holds what it held, and the write set
-- has one record more.
pub record Inserted (tuple : Tuple) (rid : Rid) (h h' : TableHeap) : Type 0 where
  pub page : TablePage
  pub found : get rid.0 h'.pages ≡ some page
  pub slots : rid.1 < page.tuple_count
  pub size : page.tuple_size rid.1 ≡ tuple.size
  pub bytes : (x : ℕ) → x < tuple.size → page.bytes (page.tuple_offset rid.1 + x) ≡ tuple.bytes x
  pub free : tuple_at rid h.pages ≡ none
  pub others :
      (other : Rid)
      → (other.0 == rid.0 && other.1 == rid.1) ≡ false
      → tuple_at other h'.pages ≡ tuple_at other h.pages
  pub logged : h'.write_set ≡ h.write_set ++ record { rid = rid; wtype = insert; tuple = none } ∷ []
  pub first : h'.first_page_id ≡ h.first_page_id
  pub state : h'.aborted ≡ h.aborted

-- No page of these has room for a tuple and a slot.
abbrev pub IsFull : ℕ → Dict TablePage → List ℕ → Type 0
IsFull size pages [] = Unit {0}
IsFull size pages (id ∷ ids) =
    (p : TablePage) × (get id pages ≡ some p)
    × (get_free_space_remaining p < size + 8)
    × IsFull size pages ids

-- A slot of the page `id` is written, and no other page.
module _ (tuple : Tuple) (id slot : ℕ) (p q : TablePage) (h : TableHeap)
    (found : get id h.pages ≡ some p) (done : PageInsert.Inserted page_size tuple slot p q) where
  abbrev after : TableHeap
  after = log (id, slot) insert none (set_page id q h)

  pub after-Inserted : Inserted tuple (id, slot) h after
  unfolding log set_page
  after-Inserted = record {
    page = q;
    found = get-put_self id q h.pages;
    slots = done.slots;
    size = done.size;
    bytes = done.bytes;
    free = tuple_at-found id slot p h.pages found ∙ done.free;
    others =
        tuple_at-put_other id slot q h.pages
          (λ s ne. done.others s ne ∙ sym (tuple_at-found id s p h.pages found));
    logged = refl;
    first = refl;
    state = refl;
  }

-- A page is appended and the tuple goes there.
module _ (tuple : Tuple) (id : ℕ) (p : TablePage) (h : TableHeap) (found : get id h.pages ≡ some p)
    (unused : get h.next_page_id h.pages ≡ none) (below : id < h.next_page_id) where
  abbrev fresh : ℕ
  fresh = h.next_page_id

  abbrev pub blank : TablePage
  blank = init (some fresh) page_size p.page_id zero_page

  pub blank-found : get fresh (append_page id p h).pages ≡ some blank
  unfolding append_page set_page
  blank-found = get-put_self fresh blank _

  pub blank-IsValid : IsValid page_size blank
  blank-IsValid =
      init-IsValid (some fresh) p.page_id page_size zero_page (omega arith) (omega arith)

  blank_space : get_free_space_remaining blank ≡ 4072
  unfolding get_free_space_remaining sub32 init
  blank_space = refl

  stored-blank : (s : ℕ) → stored s blank ≡ none
  unfolding stored init
  stored-blank s = ground arith

  stored_linked : (s : ℕ) → stored s (record p { next_page_id = some fresh }) ≡ stored s p
  unfolding stored
  stored_linked s = refl

  appended_tuples :
      (other : Rid) → tuple_at other (append_page id p h).pages ≡ tuple_at other h.pages
  unfolding append_page set_page
  appended_tuples other =
      let linked : TablePage = record p { next_page_id = some fresh } in
      let pages₁ : Dict TablePage = put id linked h.pages in
      let ne : (id == fresh) ≡ false = ground arith in
      let still : get fresh pages₁ ≡ none = get-put_other id fresh linked h.pages ne ∙ unused in
      tuple_at-put_same fresh blank pages₁
        (λ s. stored-blank s ∙ sym (tuple_at-none fresh s pages₁ still)) other
      ∙ tuple_at-put_same id linked h.pages
          (λ s. stored_linked s ∙ sym (tuple_at-found id s p h.pages found)) other

  module _ (full : 0 < tuple.size) (fits : tuple.size + 32 ≤ page_size) where
    pub appended :
        (fuel : ℕ)
        → (i : ℕ) × (q : TablePage) × (insert_from (suc fuel) fresh tuple true (append_page id p h)
            ≡ some (
              log (fresh, i) insert none (set_page fresh q (append_page id p h)),
              some (fresh, i),
            ))
          × (Table.insert_tuple tuple blank ≡ some (q, some i))
          × PageInsert.Inserted page_size tuple i blank q
    unfolding insert_from
    appended fuel = elim (insert_tuple-Inserted page_size blank tuple blank-IsValid full) [
      | inl (short, _) ↦ absurd (omega (arith, blank_space))
      | inr (room, i, q, run, done) ↦ (i, q, rw (insert_from, blank-found, run) refl, run, done)
    ]

    pub appended-Inserted :
        (i : ℕ) (q : TablePage)
        → PageInsert.Inserted page_size tuple i blank q
        → Inserted tuple
            (fresh, i)
            h
            (log (fresh, i) insert none (set_page fresh q (append_page id p h)))
    appended-Inserted i q done =
        let r = after-Inserted tuple fresh i blank q (append_page id p h) blank-found done in
        record {
          page = r.page;
          found = r.found;
          slots = r.slots;
          size = r.size;
          bytes = r.bytes;
          free = sym (appended_tuples (fresh, i)) ∙ r.free;
          others = λ other ne. r.others other ne ∙ appended_tuples other;
          logged = unfold append_page set_page in r.logged;
          first = unfold append_page set_page in r.first;
          state = unfold append_page set_page in r.state;
        }
