-- ===== src/Table/Shift.antt =====
-- What `UpdateTuple` and `ApplyDelete` share: a tuple gets another length, and those before it move.
use cmu.Common.{
  ℕ, ◌+◌, ◌*◌, ◌^◌, ◌≤◌, ◌<◌, ◌≡◌, ap, ◌∙◌, ◌⊎◌, inl, inr, false, arith, ◌==◌, Bool-cases,
}
use cmu.Table.{TablePage}
use cmu.Table.Valid.{len, IsUsed, IsValid, stored, stored-eq}

-- The tuple of slot `s` gets `new` bytes, or leaves the page if that is 0.
pub record Resized (s new : ℕ) (p q : TablePage) : Type 0 where
  pub count : q.tuple_count ≡ p.tuple_count
  pub pointer : q.free_space_pointer + new ≡ p.free_space_pointer + len p s
  pub header : 24 + 8 * p.tuple_count ≤ q.free_space_pointer
  pub size : q.tuple_size s ≡ new
  pub sizes : (j : ℕ) → (j == s) ≡ false → q.tuple_size j ≡ p.tuple_size j
  pub place : 0 < new → q.tuple_offset s + new ≡ p.tuple_offset s + len p s
  pub lower :
      (j : ℕ)
      → (j == s) ≡ false
      → IsUsed p j
      → p.tuple_offset j < p.tuple_offset s
      → q.tuple_offset j + new ≡ p.tuple_offset j + len p s
  pub upper :
      (j : ℕ)
      → (j == s) ≡ false
      → IsUsed p j
      → p.tuple_offset s + len p s ≤ p.tuple_offset j
      → q.tuple_offset j ≡ p.tuple_offset j
  pub moved :
      (x y : ℕ)
      → p.free_space_pointer ≤ x
      → x < p.tuple_offset s
      → y + new ≡ x + len p s
      → q.bytes y ≡ p.bytes x
  pub fixed : (x : ℕ) → p.tuple_offset s + len p s ≤ x → q.bytes x ≡ p.bytes x

module _ (n s new : ℕ) (p q : TablePage) (v : IsValid n p) (u : IsUsed p s)
    (r : Resized s new p q) where
  used : (j : ℕ) → (j == s) ≡ false → IsUsed q j → IsUsed p j
  used j ne w = (omega (arith, r.count, w), ground (arith, r.sizes j ne, w))

  -- A slot other than `s` stands wholly before it, and moves, or wholly after it, and stays.
  side :
      (j : ℕ)
      → (j == s) ≡ false
      → IsUsed p j
      → ((p.tuple_offset j + len p j ≤ p.tuple_offset s)
          × (q.tuple_offset j + new ≡ p.tuple_offset j + len p s))
        ⊎ ((p.tuple_offset s + len p s ≤ p.tuple_offset j) × (q.tuple_offset j ≡ p.tuple_offset j))
  side j ne w = elim (v.apart j s ne w u) [
    | inl before ↦ inl (before, r.lower j ne w (omega (arith, before, v.sizes j w)))
    | inr after ↦ inr (after, r.upper j ne w after)
  ]

  new_small : new < 2 ^ 31
  new_small = omega (arith, r.pointer, v.placed s u, v.small)

  pub Resized-IsValid : IsValid n q
  Resized-IsValid = record {
    small = v.small;
    header = omega (arith, r.header, r.count);
    inside = omega (arith, r.pointer, v.placed s u);
    sizes = λ j w. elim (Bool-cases (j == s)) [
      | inl e ↦
          let same : j ≡ s = ground arith in
          ground (arith, ap q.tuple_size same, r.size, new_small, w)
      | inr ne ↦ ground (arith, r.sizes j ne, v.sizes j (used j ne w))
    ];
    placed = λ j w. elim (Bool-cases (j == s)) [
      | inl e ↦
          let same : j ≡ s = ground arith in
          ground (
            arith,
            ap q.tuple_size same,
            ap q.tuple_offset same,
            r.size,
            new_small,
            w,
            r.place,
            r.pointer,
            v.placed s u,
          )
      | inr ne ↦
          let w' = used j ne w in
          let size = r.sizes j ne in
          elim (side j ne w') [
            | inl (before, at) ↦
                ground (arith, size, before, at, r.pointer, v.placed j w', v.placed s u)
            | inr (after, at) ↦
                ground (arith, size, after, at, r.pointer, v.placed j w', v.placed s u)
          ]
    ];
    apart = λ i j ne w x. elim (Bool-cases (i == s)) [
      | inl e ↦
          let same : i ≡ s = ground arith in
          let other : (j == s) ≡ false = ground arith in
          let x' = used j other x in
          elim (side j other x') [
            | inl (before, at) ↦ inr (
                ground (
                  arith,
                  ap q.tuple_size same,
                  ap q.tuple_offset same,
                  r.sizes j other,
                  r.size,
                  new_small,
                  w,
                  r.place,
                  before,
                  at,
                ))
            | inr (after, at) ↦ inl (
                ground (
                  arith,
                  ap q.tuple_size same,
                  ap q.tuple_offset same,
                  r.sizes j other,
                  r.size,
                  new_small,
                  w,
                  r.place,
                  after,
                  at,
                ))
          ]
      | inr ne₁ ↦ elim (Bool-cases (j == s)) [
        | inl e ↦
            let same : j ≡ s = ground arith in
            let w' = used i ne₁ w in
            elim (side i ne₁ w') [
              | inl (before, at) ↦ inl (
                  ground (
                    arith,
                    ap q.tuple_size same,
                    ap q.tuple_offset same,
                    r.sizes i ne₁,
                    r.size,
                    new_small,
                    x,
                    r.place,
                    before,
                    at,
                  ))
              | inr (after, at) ↦ inr (
                  ground (
                    arith,
                    ap q.tuple_size same,
                    ap q.tuple_offset same,
                    r.sizes i ne₁,
                    r.size,
                    new_small,
                    x,
                    r.place,
                    after,
                    at,
                  ))
            ]
        | inr ne₂ ↦ ground (
          arith,
          r.sizes i ne₁,
          r.sizes j ne₂,
          side i ne₁ (used i ne₁ w),
          side j ne₂ (used j ne₂ x),
          v.apart i j ne (used i ne₁ w) (used j ne₂ x),
          v.sizes i (used i ne₁ w),
          v.sizes j (used j ne₂ x),
        )
      ]
    ];
  }

  pub stored-Resized : (j : ℕ) → (j == s) ≡ false → stored j q ≡ stored j p
  stored-Resized j ne =
      stored-eq j q p (ground (arith, r.count)) (λ g. r.sizes j ne)
        (λ w x lt. elim (side j ne w) [
          | inl (before, at) ↦
              r.moved (p.tuple_offset j + x) (q.tuple_offset j + x) (omega (arith, v.placed j w))
                (omega (arith, before)) (omega (arith, at))
          | inr (after, at) ↦
              let same : q.tuple_offset j + x ≡ p.tuple_offset j + x = omega (arith, at) in
              ap q.bytes same ∙ r.fixed (p.tuple_offset j + x) (omega (arith, after))
        ])
