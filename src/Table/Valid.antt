-- ===== src/Table/Valid.antt =====
-- The invariant of the table page, and what its slots hold.
use cmu.Common.{
  ℕ, ◌+◌, ◌-◌, ◌*◌, ◌%◌, ◌^◌, ◌≤◌, ◌<◌, ◌≡◌, refl, ap, ◌⊎◌, inl, inr, false, Option, none, some,
  arith, if◌then◌else◌, ◌==◌, ltb, leb, Bool-cases,
}
use cmu.Table.{Tuple, TablePage, move, init, sub32, get_free_space_remaining}

-- The bytes of the tuple in a slot, its flag aside.
abbrev pub len : TablePage → ℕ → ℕ
len p i = p.tuple_size i % 2 ^ 31

-- The slot has a tuple, deleted or not.
abbrev pub IsUsed : TablePage → ℕ → Type 0
IsUsed p i = (i < p.tuple_count) × (0 < p.tuple_size i)

-- A page of `n` bytes: the slots end before the tuples begin, and no two tuples overlap.
pub record IsValid (n : ℕ) (p : TablePage) : Type 0 where
  pub small : n < 2 ^ 31
  pub header : 24 + 8 * p.tuple_count ≤ p.free_space_pointer
  pub inside : p.free_space_pointer ≤ n
  pub sizes : (i : ℕ) → IsUsed p i → (p.tuple_size i < 2 ^ 32) × (0 < len p i)
  pub placed :
      (i : ℕ)
      → IsUsed p i
      → (p.free_space_pointer ≤ p.tuple_offset i) × (p.tuple_offset i + len p i ≤ n)
  pub apart :
      (i j : ℕ)
      → (i == j) ≡ false
      → IsUsed p i
      → IsUsed p j
      → (p.tuple_offset i + len p i ≤ p.tuple_offset j)
        ⊎ (p.tuple_offset j + len p j ≤ p.tuple_offset i)

pub init-IsValid :
    (page_id prev : Option ℕ) (n : ℕ) (p : TablePage)
    → 24 ≤ n
    → n < 2 ^ 31
    → IsValid n (init page_id n prev p)
unfolding init
init-IsValid page_id prev n p room small = record {
  small = small;
  header = omega arith;
  inside = omega arith;
  sizes = λ i u. absurd (omega (arith, u));
  placed = λ i u. absurd (omega (arith, u));
  apart = λ i j e u w. absurd (omega (arith, u));
}

-- On a valid page the free space does not wrap.
pub get_free_space_remaining-eq :
    (n : ℕ) (p : TablePage)
    → IsValid n p
    → get_free_space_remaining p + (24 + 8 * p.tuple_count) ≡ p.free_space_pointer
unfolding get_free_space_remaining sub32
get_free_space_remaining-eq n p v = omega (arith, v.small, v.header, v.inside)

-- The abstract view of a page: the tuple in each slot, with its flag.
unfoldable pub stored : ℕ → TablePage → Option Tuple
stored i p =
    if leb p.tuple_count i
    then none
    else if p.tuple_size i == 0
    then none
    else some (record {
      size = p.tuple_size i;
      bytes = move p.bytes (p.tuple_offset i) 0 (len p i) (λ x. 0);
    })

move_zero :
    (source : ℕ → ℕ) (from n x : ℕ)
    → move source from 0 n (λ y. 0) x ≡ (if ltb x n then source (from + x) else 0)
unfolding move
move_zero source from n x =
    let back : from + (x - 0) ≡ from + x = omega arith in ground (arith, ap source back)

-- Two pages hold the same in a slot.
pub stored-eq :
    (i : ℕ) (p q : TablePage)
    → leb p.tuple_count i ≡ leb q.tuple_count i
    → (leb q.tuple_count i ≡ false → p.tuple_size i ≡ q.tuple_size i)
    → (IsUsed q i
        → (x : ℕ) → x < len q i
        → p.bytes (p.tuple_offset i + x) ≡ q.bytes (q.tuple_offset i + x))
    → stored i p ≡ stored i q
unfolding stored
stored-eq i p q count size bytes = elim (Bool-cases (leb q.tuple_count i)) [
  | inl e ↦ rw (count, e) refl
  | inr e ↦ elim (Bool-cases (q.tuple_size i == 0)) [
    | inl z ↦ rw (count, e, size e, z) refl
    | inr nz ↦
        let same : (x : ℕ)
            → move p.bytes (p.tuple_offset i) 0 (len q i) (λ x. 0) x
              ≡ move q.bytes (q.tuple_offset i) 0 (len q i) (λ x. 0) x =
          λ x. elim (Bool-cases (ltb x (len q i))) [
            | inl lt ↦
                let b = bytes (ground arith, ground arith) x (ground arith) in
                ground (
                  arith,
                  move_zero p.bytes (p.tuple_offset i) (len q i) x,
                  move_zero q.bytes (q.tuple_offset i) (len q i) x,
                  b,
                )
            | inr ge ↦ ground (
              arith,
              move_zero p.bytes (p.tuple_offset i) (len q i) x,
              move_zero q.bytes (q.tuple_offset i) (len q i) x,
            )
          ] in
        rw (count, e, size e, nz)
          (λ t. some (record { size = q.tuple_size i; bytes = λ x. same x t }))
  ]
]
