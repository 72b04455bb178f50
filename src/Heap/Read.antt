-- ===== src/Heap/Read.antt =====
-- A new heap, what GetTuple reads after InsertTuple, and a delete that is rolled back.
use cmu.Common.{
  ℕ, ◌+◌, ◌-◌, ◌^◌, ◌≤◌, ◌<◌, ◌≡◌, refl, ap, ◌∙◌, inl, inr, true, false, none, some, List, [], ◌∷◌,
  arith, length,
}
use cmu.Common.Dict.{Dict, get, put}
use cmu.Table
use cmu.Table.{Tuple, TablePage, is_deleted, move}
use cmu.Table.Valid.{IsValid, IsUsed, init-IsValid}
use cmu.Table.Delete as PageDelete
use cmu.Heap.{
  Rid, TableHeap, delete, page_size, zero_page, set_page, log, new, insert_tuple, get_tuple,
  mark_delete, rollback_delete,
}
use cmu.Heap.Valid.{IsHeap, get-put_self, get-put_other, put-eq_self}
use cmu.Heap.Walk.{insert_tuple-Stored}

-- If no page has an id from the next one on, the constructor of a heap, where NewPage finds a frame,
-- makes a valid heap of one page.
pub new-IsHeap :
    (h : TableHeap)
    → ((id : ℕ) → h.next_page_id ≤ id → get id h.pages ≡ none)
    → (h' : TableHeap) × (new true h ≡ some h') × IsHeap h' (h.next_page_id ∷ [])
unfolding new set_page Table.init
new-IsHeap h unused =
    let id : ℕ = h.next_page_id in
    let blank : TablePage = Table.init (some id) page_size none zero_page in
    (
      set_page id blank (record h { first_page_id = some id; next_page_id = id + 1 }),
      refl,
      record {
        chain = (
          refl,
          omega arith,
          tt,
          blank,
          get-put_self id blank h.pages,
          init-IsValid (some id) none page_size zero_page (omega arith) (omega arith),
          refl,
          refl,
        );
        fresh = λ k le. get-put_other id k blank h.pages (ground arith) ∙ unused k (omega arith);
      },
    )

-- What GetTuple of a page copies out of a slot that is not deleted.
get_tuple-bytes :
    (slot : ℕ) (p : TablePage)
    → slot < p.tuple_count
    → 0 < p.tuple_size slot
    → p.tuple_size slot < 2 ^ 31
    → (t : Tuple) × (Table.get_tuple slot p ≡ some t)
      × (t.size ≡ p.tuple_size slot)
      × ((x : ℕ) → x < t.size → t.bytes x ≡ p.bytes (p.tuple_offset slot + x))
unfolding Table.get_tuple is_deleted move
get_tuple-bytes slot p lt pos small =
    let size : ℕ = p.tuple_size slot in
    (
      record { size = size; bytes = move p.bytes (p.tuple_offset slot) 0 size (λ x. 0) },
      ground arith,
      refl,
      λ x h.
          let same : p.tuple_offset slot + (x - 0) ≡ p.tuple_offset slot + x = omega arith in
          ground (arith, ap p.bytes same),
    )

-- On a valid heap of one page or more, InsertTuple of a tuple that is not empty and with 32 bytes
-- more fits in a page returns a RID within one round for each page and one more, if NewPage finds a
-- frame. GetTuple at that RID then returns the size and the bytes of the tuple.
pub get_tuple-insert_tuple :
    (h : TableHeap) (id : ℕ) (ids : List ℕ) (tuple : Tuple) (fuel : ℕ)
    → IsHeap h (id ∷ ids)
    → 0 < tuple.size
    → tuple.size + 32 ≤ page_size
    → length ids + 1 < fuel
    → (h' : TableHeap) × (rid : Rid) × (t : Tuple) × (insert_tuple fuel tuple true h
        ≡ some (h', some rid))
      × (get_tuple rid h' ≡ (h', some t))
      × (t.size ≡ tuple.size)
      × ((x : ℕ) → x < tuple.size → t.bytes x ≡ tuple.bytes x)
unfolding get_tuple
get_tuple-insert_tuple h id ids tuple fuel valid full fits enough =
    elim (insert_tuple-Stored h id ids tuple true fuel valid full (omega arith) enough) [
      | inl (large, _) ↦ absurd (omega arith)
      | inr (inl (off, _, _)) ↦ absurd (cc)
      | inr (inr (_, r)) ↦
          let i = r.inserted in
          let (t, copied, size, bytes) =
            get_tuple-bytes r.rid.1 i.page i.slots (omega (arith, i.size))
              (omega (arith, i.size)) in
          (
            r.heap,
            r.rid,
            t,
            r.returns,
            rw (get_tuple, i.found, copied) refl,
            size ∙ i.size,
            λ x lt. bytes x (omega (arith, i.size, size)) ∙ i.bytes x lt,
          )
    ]

put-put :
    (k : ℕ) (v w : TablePage) (pages : Dict TablePage) → put k w (put k v pages) ≡ put k w pages
unfolding put
put-put k v w [] = ground arith
put-put k v w ((j, u) ∷ pages) = ground (arith, put-put k v w pages)

-- MarkDelete of a live tuple in a valid page returns true, GetTuple does not read the tuple then, and
-- RollbackDelete gives back the heap as it was but for the record in the write set.
pub rollback_delete-mark_delete :
    (h : TableHeap) (id slot : ℕ) (p : TablePage)
    → get id h.pages ≡ some p
    → IsValid page_size p
    → IsUsed p slot
    → is_deleted (p.tuple_size slot) ≡ false
    → (h' : TableHeap) × (mark_delete (id, slot) h ≡ (h', true))
      × (get_tuple (id, slot) h' ≡ (h', none))
      × (rollback_delete (id, slot) h' ≡ some (log (id, slot) delete none h))
unfolding mark_delete rollback_delete get_tuple log set_page
rollback_delete-mark_delete h id slot p found valid used live =
    let (q, marked, good, gone, same, back) =
      PageDelete.rollback_delete-mark_delete page_size slot p valid used live in
    let there : get id (put id q h.pages) ≡ some q = get-put_self id q h.pages in
    let restored : put id p (put id q h.pages) ≡ h.pages =
      put-put id q p h.pages ∙ put-eq_self id p h.pages found in
    (
      log (id, slot) delete none (set_page id q h),
      rw (mark_delete, found, marked) refl,
      rw (get_tuple, there, gone) refl,
      rw (rollback_delete, there, back)
          (ap
            (λ (pages : Dict TablePage).
              some (log (id, slot) delete none (record h { pages = pages })))
            restored),
    )
