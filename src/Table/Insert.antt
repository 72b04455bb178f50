-- ===== src/Table/Insert.antt =====
-- What `InsertTuple` does to the slots of a page.
use cmu.Common.{
  ℕ, zero, suc, ◌+◌, ◌-◌, ◌^◌, ◌≤◌, ◌<◌, ◌≡◌, refl, ap, ◌∙◌, ◌⊎◌, inl, inr, Bool, true, false, none,
  some, arith, if◌then◌else◌, ◌==◌, ltb, leb, ◌&&◌, Bool-cases,
}
use cmu.Table.{
  Tuple, TablePage, move, first_slot, set_at, sub32, get_free_space_remaining, insert_tuple,
}
use cmu.Table.Valid.{IsUsed, IsValid, get_free_space_remaining-eq, stored, stored-eq}

pub first_slot_lem :
    (test : ℕ → Bool) (i n : ℕ) (sizes : ℕ → ℕ)
    → (i ≤ first_slot test i n sizes)
      × (first_slot test i n sizes ≤ i + n)
      × ((j : ℕ) → i ≤ j → j < first_slot test i n sizes → test (sizes j) ≡ false)
      × (first_slot test i n sizes < i + n → test (sizes (first_slot test i n sizes)) ≡ true)
unfolding first_slot
first_slot_lem test i zero sizes =
    (omega arith, omega arith, λ j p q. absurd (omega arith), λ p. absurd (omega arith))
first_slot_lem test i (suc n) sizes = elim (Bool-cases (test (sizes i))) [
  | inl e ↦ rw e (omega arith, omega arith, λ j p q. absurd (omega arith), λ p. e)
  | inr ne ↦
      let r = first_slot_lem test (i + 1) n sizes in
      rw ne (
        omega (arith, r.0),
        omega (arith, r.1),
        λ j p q. elim (Bool-cases (j == i)) [
          | inl h ↦ let same : j ≡ i = ground arith in ap (λ (k : ℕ). test (sizes k)) same ∙ ne
          | inr h ↦ r.2 j (ground arith) q
        ],
        λ p. r.3 (omega arith),
      )
]

-- A tuple stands in slot `i`, which had none, and every other slot holds what it held.
pub record Inserted (n : ℕ) (tuple : Tuple) (i : ℕ) (p q : TablePage) : Type 0 where
  pub valid : IsValid n q
  pub free : stored i p ≡ none
  pub size : q.tuple_size i ≡ tuple.size
  pub slots : i < q.tuple_count
  pub bytes : (x : ℕ) → x < tuple.size → q.bytes (q.tuple_offset i + x) ≡ tuple.bytes x
  pub others : (j : ℕ) → (j == i) ≡ false → stored j q ≡ stored j p

module _ (n : ℕ) (p : TablePage) (v : IsValid n p) (tuple : Tuple) (full : 0 < tuple.size)
    (room : tuple.size + 8 ≤ get_free_space_remaining p) where
  slot : ℕ
  slot = first_slot (λ size. size == 0) 0 p.tuple_count p.tuple_size

  fsp : ℕ
  fsp = sub32 p.free_space_pointer tuple.size

  fsp-eq : fsp + tuple.size ≡ p.free_space_pointer
  unfolding fsp sub32
  fsp-eq = omega (arith, room, get_free_space_remaining-eq n p v, v.small, v.inside)

  after : TablePage
  after = record p {
    free_space_pointer = fsp;
    bytes = move tuple.bytes 0 fsp tuple.size p.bytes;
    tuple_offset = set_at slot fsp p.tuple_offset;
    tuple_size = set_at slot tuple.size p.tuple_size;
    tuple_count = if slot == p.tuple_count then p.tuple_count + 1 else p.tuple_count;
  }

  slot_lem : (slot ≤ p.tuple_count) × (slot < p.tuple_count → p.tuple_size slot ≡ 0)
  unfolding slot
  slot_lem =
      let r = first_slot_lem (λ size. size == 0) 0 p.tuple_count p.tuple_size in
      (omega (arith, r.1), λ lt. ground (arith, r.3 (omega arith)))

  count_lem :
      (slot < after.tuple_count)
      × (p.tuple_count ≤ after.tuple_count)
      × (after.tuple_count ≤ p.tuple_count + 1)
  unfolding after
  count_lem = ground (arith, slot_lem)

  fields :
      (j : ℕ)
      → (after.tuple_size j ≡ (if j == slot then tuple.size else p.tuple_size j))
        × (after.tuple_offset j ≡ (if j == slot then fsp else p.tuple_offset j))
        × ((j == slot) ≡ false → leb after.tuple_count j ≡ leb p.tuple_count j)
        × (IsUsed after j → (j == slot) ≡ false → IsUsed p j)
        × (after.free_space_pointer ≡ fsp)
  unfolding after set_at
  fields j = (
    refl,
    refl,
    λ ne. ground (arith, slot_lem),
    λ u ne. (ground (arith, slot_lem, u), ground (arith, u)),
    refl,
  )

  small : tuple.size < 2 ^ 31
  small = omega (arith, fsp-eq, v.small, v.inside)

  after-IsValid : IsValid n after
  after-IsValid = record {
    small = v.small;
    header = unfold after in ground (arith, get_free_space_remaining-eq n p v, room, fsp-eq);
    inside = unfold after in omega (arith, v.inside, fsp-eq);
    sizes = λ j u. elim (Bool-cases (j == slot)) [
      | inl e ↦ ground (arith, fields j, small)
      | inr ne ↦ ground (arith, fields j, v.sizes j ((fields j).3 u ne))
    ];
    placed = λ j u. elim (Bool-cases (j == slot)) [
      | inl e ↦ ground (arith, fields j, fsp-eq, v.inside, small)
      | inr ne ↦ ground (arith, fields j, fsp-eq, v.placed j ((fields j).3 u ne))
    ];
    apart = λ i j ne u w. elim (Bool-cases (i == slot)) [
      | inl e ↦
          let other : (j == slot) ≡ false = ground arith in
          inl (ground (arith, fields i, fields j, fsp-eq, small, v.placed j ((fields j).3 w other)))
      | inr ne₁ ↦ elim (Bool-cases (j == slot)) [
        | inl e ↦
            inr (ground (arith, fields i, fields j, fsp-eq, small, v.placed i ((fields i).3 u ne₁)))
        | inr ne₂ ↦
            ground
              (arith, fields i, fields j, v.apart i j ne ((fields i).3 u ne₁) ((fields j).3 w ne₂))
      ]
    ];
  }

  after_byte :
      (x : ℕ)
      → after.bytes x
        ≡ (if leb fsp x && ltb x (fsp + tuple.size) then tuple.bytes (x - fsp) else p.bytes x)
  unfolding after move
  after_byte x =
      let same : 0 + (x - fsp) ≡ x - fsp = omega arith in ground (arith, ap tuple.bytes same)

  after-Inserted : Inserted n tuple slot p after
  after-Inserted = record {
    valid = after-IsValid;
    free = unfold stored in ground (arith, slot_lem);
    size = ground (arith, fields slot);
    slots = count_lem.0;
    bytes = λ x lt.
        let at : after.tuple_offset slot + x ≡ fsp + x = ground (arith, fields slot) in
        let back : fsp + x - fsp ≡ x = omega arith in
        ap after.bytes at ∙ ground (arith, after_byte (fsp + x), ap tuple.bytes back);
    others = λ j ne.
        stored-eq j after p (ground (arith, fields j)) (λ g. ground (arith, fields j))
          (λ u x lt.
            let at : after.tuple_offset j + x ≡ p.tuple_offset j + x = ground (arith, fields j) in
            ap after.bytes at
            ∙ ground (arith, after_byte (p.tuple_offset j + x), v.placed j u, fsp-eq));
  }

-- InsertTuple of a tuple that is not empty into a valid page fails and changes nothing if the free
-- space has no room for the tuple and a slot. Else it takes a slot that was free, the page stays
-- valid, the bytes at the slot are the tuple's, and every other slot holds what it held.
pub insert_tuple-Inserted :
    (n : ℕ) (p : TablePage) (tuple : Tuple)
    → IsValid n p
    → 0 < tuple.size
    → ((get_free_space_remaining p < tuple.size + 8) × (insert_tuple tuple p ≡ some (p, none)))
      ⊎ ((tuple.size + 8 ≤ get_free_space_remaining p)
          × (i : ℕ) × (q : TablePage) × (insert_tuple tuple p ≡ some (q, some i))
          × Inserted n tuple i p q)
unfolding insert_tuple
insert_tuple-Inserted n p tuple v full =
    elim (Bool-cases (ltb (get_free_space_remaining p) (tuple.size + 8))) [
      | inl short ↦ inl (ground arith, ground arith)
      | inr long ↦
          let room : tuple.size + 8 ≤ get_free_space_remaining p = ground arith in
          inr (
            room,
            slot n p v tuple full room,
            after n p v tuple full room,
            unfold slot after fsp in ground arith,
            after-Inserted n p v tuple full room,
          )
    ]
