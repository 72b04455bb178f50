-- ===== src/Heap/Members.antt =====
-- Which RIDs are among the live ones of a heap.
use cmu.Common.{
  ℕ, zero, suc, ◌+◌, ◌≡◌, refl, ap, ◌∙◌, inl, inr, Bool, false, Option, none, some, List, [], ◌∷◌,
  ◌++◌, arith, ◌==◌, ◌&&◌, ◌||◌, not, leb, ltb, Bool-cases,
}
use cmu.Common.Dict.{Dict}
use cmu.Table.{Tuple, TablePage, is_deleted}
use cmu.Table.Valid.{stored}
use cmu.Heap.{Rid}
use cmu.Heap.Slots.{live_from, live_slots}
use cmu.Heap.Chain.{IsWalk, rids_of, live_rids}
use cmu.Heap.Valid.{tuple_at, tuple_at-found}

abbrev pub same_rid : Rid → Rid → Bool
same_rid (i, s) (j, t) = (i == j) && (s == t)

abbrev pub mem_number : ℕ → List ℕ → Bool
mem_number k [] = false
mem_number k (i ∷ is) = (i == k) || mem_number k is

abbrev pub mem_rid : Rid → List Rid → Bool
mem_rid r [] = false
mem_rid r (x ∷ xs) = same_rid x r || mem_rid r xs

-- A tuple stands there that is not deleted.
abbrev pub is_live : Option Tuple → Bool
is_live none = false
is_live (some t) = not (is_deleted t.size)

mem_number-live_from :
    (s i n : ℕ) (sizes : ℕ → ℕ)
    → mem_number s (live_from i n sizes) ≡ leb i s && (ltb s (i + n) && not (is_deleted (sizes s)))
unfolding live_from
mem_number-live_from s i zero sizes = ground arith
mem_number-live_from s i (suc n) sizes = elim (Bool-cases (i == s)) [
  | inl same ↦
      let e : i ≡ s = ground arith in
      ground (
        arith,
        mem_number-live_from s (i + 1) n sizes,
        ap sizes e,
        ap (λ (t : ℕ). is_deleted (sizes t)) e,
      )
  | inr other ↦ ground (arith, mem_number-live_from s (i + 1) n sizes)
]

mem_number-live_slots : (s : ℕ) (p : TablePage) → mem_number s (live_slots p) ≡ is_live (stored s p)
unfolding live_slots stored is_deleted
mem_number-live_slots s p = ground (arith, mem_number-live_from s 0 p.tuple_count p.tuple_size)

mem_rid-append : (r : Rid) (xs ys : List Rid) → mem_rid r (xs ++ ys) ≡ mem_rid r xs || mem_rid r ys
mem_rid-append r [] ys = refl
mem_rid-append r (x ∷ xs) ys = ground (arith, mem_rid-append r xs ys)

mem_rid-rids_of :
    (j s id : ℕ) (slots : List ℕ)
    → mem_rid (j, s) (rids_of id slots) ≡ (id == j) && mem_number s slots
mem_rid-rids_of j s id [] = ground arith
mem_rid-rids_of j s id (slot ∷ slots) = ground (arith, mem_rid-rids_of j s id slots)

pub mem_rid-live_rids :
    (pages : Dict TablePage) (start : Option ℕ) (ids : List ℕ) (j s : ℕ)
    → IsWalk pages start ids
    → mem_rid (j, s) (live_rids pages ids) ≡ mem_number j ids && is_live (tuple_at (j, s) pages)
unfolding live_rids
mem_rid-live_rids pages start [] j s w = refl
mem_rid-live_rids pages start (id ∷ ids) j s (_, p, found, rest) =
    let ih = mem_rid-live_rids pages p.next_page_id ids j s rest in
    let here =
      mem_rid-rids_of j s id (live_slots p)
      ∙ ap (λ (b : Bool). (id == j) && b) (mem_number-live_slots s p) in
    let both : mem_rid (j, s) (rids_of id (live_slots p) ++ live_rids pages ids)
        ≡ ((id == j) && is_live (stored s p))
          || (mem_number j ids && is_live (tuple_at (j, s) pages)) =
      mem_rid-append (j, s) (rids_of id (live_slots p)) (live_rids pages ids)
      ∙ ground (arith, ih, here) in
    rw (live_rids, found)
      (both ∙ elim (Bool-cases (id == j)) [
        | inl same ↦
            let e : j ≡ id = ground arith in
            let at : tuple_at (j, s) pages ≡ stored s p =
              ap (λ (k : ℕ). tuple_at (k, s) pages) e ∙ tuple_at-found id s p pages found in
            rw at (ground arith)
        | inr other ↦ rw other refl
      ])
