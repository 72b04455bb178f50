-- ===== src/Heap/Slots.antt =====
-- The live slots of a page, and what GetFirstTupleRid and GetNextTupleRid find of them.
use cmu.Common.{
  ℕ, zero, suc, ◌+◌, ◌-◌, ◌≡◌, refl, ◌∙◌, inl, inr, Bool, true, false, none, some, List, [], ◌∷◌,
  arith, if◌then◌else◌, ltb, leb, ◌==◌, not, Bool-cases,
}
use cmu.Table.{TablePage, is_deleted, first_slot, get_first_tuple_rid, get_next_tuple_rid}
use cmu.Table.Insert.{first_slot_lem}

-- The slots from `i` on, of `n`, whose tuple is there and not deleted.
unfoldable pub live_from : ℕ → ℕ → (ℕ → ℕ) → List ℕ
unfolding is_deleted
live_from i zero sizes = []
live_from i (suc n) sizes =
    let rest = live_from (i + 1) n sizes in if is_deleted (sizes i) then rest else i ∷ rest

unfoldable pub live_slots : TablePage → List ℕ
unfolding live_from
live_slots p = live_from 0 p.tuple_count p.tuple_size

unfoldable pub live_after : ℕ → TablePage → List ℕ
unfolding live_from
live_after slot p = live_from (slot + 1) (p.tuple_count - (slot + 1)) p.tuple_size

abbrev live : ℕ → Bool
live size = not (is_deleted size)

live_from-eq :
    (i n : ℕ) (sizes : ℕ → ℕ)
    → let k = first_slot live i n sizes in
      live_from i n sizes
      ≡ (if ltb k (i + n) then k ∷ live_from (k + 1) (i + n - (k + 1)) sizes else [])
unfolding live_from first_slot
live_from-eq i zero sizes = ground arith
live_from-eq i (suc n) sizes = elim (Bool-cases (is_deleted (sizes i))) [
  | inl dead ↦
      let e : i + 1 + n ≡ i + suc n = omega arith in
      rw dead (live_from-eq (i + 1) n sizes ∙ rw e refl)
  | inr here ↦
      let lt : ltb i (i + suc n) ≡ true = ground arith in
      let e : i + suc n - (i + 1) ≡ n = omega arith in rw (here, lt, e) refl
]

pub first-live :
    (p : TablePage)
    → live_slots p
      ≡ elim (get_first_tuple_rid p) [ none ↦ [] | some slot ↦ slot ∷ live_after slot p ]
unfolding live_slots live_after get_first_tuple_rid
first-live p =
    let k : ℕ = first_slot live 0 p.tuple_count p.tuple_size in
    let bound = first_slot_lem live 0 p.tuple_count p.tuple_size in
    let e : 0 + p.tuple_count ≡ p.tuple_count = omega arith in
    elim (Bool-cases (k == p.tuple_count)) [
      | inl at_end ↦
          let over : ltb k (0 + p.tuple_count) ≡ false = ground arith in
          rw at_end (live_from-eq 0 p.tuple_count p.tuple_size ∙ rw over refl)
      | inr found ↦
          let lt : ltb k (0 + p.tuple_count) ≡ true = ground (arith, bound) in
          rw found (live_from-eq 0 p.tuple_count p.tuple_size ∙ rw (lt, e) refl)
    ]

pub next-live :
    (slot : ℕ) (p : TablePage)
    → live_after slot p
      ≡ elim (get_next_tuple_rid slot p) [ none ↦ [] | some next ↦ next ∷ live_after next p ]
unfolding live_after get_next_tuple_rid
next-live slot p =
    let n : ℕ = p.tuple_count - (slot + 1) in
    let k : ℕ = first_slot live (slot + 1) n p.tuple_size in
    let bound = first_slot_lem live (slot + 1) n p.tuple_size in
    elim (Bool-cases (leb p.tuple_count k)) [
      | inl at_end ↦
          let over : ltb k (slot + 1 + n) ≡ false = ground (arith, bound) in
          rw at_end (live_from-eq (slot + 1) n p.tuple_size ∙ rw over refl)
      | inr found ↦
          let lt : ltb k (slot + 1 + n) ≡ true = ground (arith, bound) in
          let e : slot + 1 + n - (k + 1) ≡ p.tuple_count - (k + 1) = ground (arith, bound) in
          rw found (live_from-eq (slot + 1) n p.tuple_size ∙ rw (lt, e) refl)
    ]
