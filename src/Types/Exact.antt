-- ===== src/Types/Exact.antt =====
-- What `AddValue`, `SubtractValue` and `MultiplyValue` give where the operation does not overflow.
use cmu.Common.{
  ℕ, ◌+◌, ◌≤◌, ◌<◌, ◌≡◌, ◌⊎◌, inl, inr, ◌∙◌, sym, refl, Bool, true, false, arith, leb,
  if◌then◌else◌, ◌&&◌, not, Bool-cases,
}
use cmu.Common.Int.{ℤ, pos_part, neg_part}
use cmu.Types.Words.{Fits, fits, wrap, wrap-Fits, wrap_of_Fits}
use cmu.Types.Value.{
  TypeId, tinyint, smallint, integer, bigint, size_of, half, eqb_ℤ, null_number, Value, new_value,
  IsValid, Result, ok, throw, out_of_range,
}
use cmu.Types.Arith.{promoted, narrow, operate_null, eval}

-- The type of the result: the larger one of the operands' types.
unfoldable pub wider : TypeId → TypeId → TypeId
wider t u = if leb (size_of u) (size_of t) then t else u

-- The exact result in a type, or the exception.
unfoldable pub checked : TypeId → ℤ → Result Value
checked t z = if fits (half t) z then ok (new_value t z) else throw out_of_range

pub record Sizes (t u : TypeId) : Type 0 where
  pub left : half t ≤ half (wider t u)
  pub right : half u ≤ half (wider t u)
  pub some_words : 0 < half t
  pub some_words' : 0 < half u
  pub room :
      (half (promoted t u) ≡ half (wider t u))
      ⊎ (half (wider t u) + half (wider t u) ≤ half (promoted t u))

pub sizes : (t u : TypeId) → Sizes t u
unfolding wider promoted
sizes tinyint tinyint = omega arith
sizes tinyint _ = omega arith
sizes smallint tinyint = omega arith
sizes smallint _ = omega arith
sizes integer tinyint = omega arith
sizes integer _ = omega arith
sizes bigint tinyint = omega arith
sizes bigint _ = omega arith

-- A number of a type but its smallest, which stands for NULL.
pub record IsSmall (H : ℕ) (z : ℤ) : Type 0 where
  pub above : pos_part z < H
  pub below : neg_part z < H

pub number-IsSmall : (v : Value) → IsValid v → v.is_null ≡ false → IsSmall (half v.type_id) v.number
number-IsSmall v valid h = of_type v.type_id valid.fits (sym valid.null ∙ h)
  where
    of_type :
        (t : TypeId)
        → Fits (half t) v.number
        → eqb_ℤ v.number (null_number t) ≡ false
        → IsSmall (half t) v.number
    of_type tinyint f e = ground arith
    of_type smallint f e = ground arith
    of_type integer f e = ground arith
    of_type bigint f e = ground arith

pub new_value_of_small :
    (t : TypeId) (z : ℤ)
    → IsSmall (half t) z
    → new_value t z ≡ record { type_id = t; number = z; is_null = false }
unfolding new_value
new_value_of_small t z f =
    let e = wrap_of_Fits (half t) z (omega (arith, f.above, f.below)) in rw (e, of_type t f) refl
  where
    of_type : (t : TypeId) → IsSmall (half t) z → eqb_ℤ z (null_number t) ≡ false
    of_type tinyint f = ground arith
    of_type smallint f = ground arith
    of_type integer f = ground arith
    of_type bigint f = ground arith

pub null_value :
    (t : TypeId)
    → new_value t (null_number t) ≡ record { type_id = t; number = null_number t; is_null = true }
unfolding new_value wrap
null_value tinyint = refl
null_value smallint = refl
null_value integer = refl
null_value bigint = refl

pub new_value-IsValid : (t : TypeId) (z : ℤ) → IsValid (new_value t z)
unfolding new_value
new_value-IsValid t z = record { fits = wrap-Fits (half t) z (sizes t t).some_words; null = refl }

pub operate_null-eq :
    (t u : TypeId) → operate_null t u ≡ new_value (wider t u) (null_number (wider t u))
unfolding operate_null wider
operate_null-eq tinyint tinyint = refl
operate_null-eq tinyint _ = refl
operate_null-eq smallint tinyint = refl
operate_null-eq smallint _ = refl
operate_null-eq integer tinyint = refl
operate_null-eq integer _ = refl
operate_null-eq bigint tinyint = refl
operate_null-eq bigint _ = refl

module _ (t u : TypeId) (s : ℤ) (bad : ℤ → Bool) where
  pub narrow-throws : fits (half (wider t u)) s ≡ false → narrow t u s bad ≡ throw out_of_range
  unfolding narrow
  narrow-throws f =
      let z = sizes t u in
      let lost : not (eqb_ℤ s (wrap (half t) s)) && not (eqb_ℤ s (wrap (half u) s)) ≡ true =
        ground (arith, z, wrap-Fits (half t) s z.some_words, wrap-Fits (half u) s z.some_words') in
      rw lost refl

  pub narrow-tests :
      fits (half (wider t u)) s ≡ true
      → narrow t u s bad ≡ (if bad s then throw out_of_range else ok (new_value (wider t u) s))
  unfolding narrow wider
  narrow-tests f = elim (Bool-cases (leb (size_of u) (size_of t))) [
    | inl le ↦
        let e : wrap (half t) s ≡ s = wrap_of_Fits (half t) s (ground arith) in
        rw (le, e) (ground arith)
    | inr gt ↦
        let e : wrap (half u) s ≡ s = wrap_of_Fits (half u) s (ground arith) in
        rw (gt, e) (ground arith)
  ]

module _ (overflow : TypeId → ℤ → ℤ) where
  pub eval_of_fits : (t : TypeId) (z : ℤ) → Fits (half t) z → eval overflow t z ≡ z
  unfolding eval
  eval_of_fits t z f = ground arith

  -- Where the operation does not overflow, and `bad` raises no false alarm, the routine gives the
  -- exact result or throws.
  pub narrow-eq-checked :
      (t u : TypeId) (z : ℤ) (bad : ℤ → Bool)
      → Fits (half (promoted t u)) z
      → bad z ≡ false
      → narrow t u (eval overflow (promoted t u) z) bad ≡ checked (wider t u) z
  unfolding checked
  narrow-eq-checked t u z bad defined good =
      let e = eval_of_fits (promoted t u) z defined in
      rw e (elim (Bool-cases (fits (half (wider t u)) z)) [
        | inl inside ↦ narrow-tests t u z bad inside ∙ ground (arith, good, inside)
        | inr outside ↦ narrow-throws t u z bad outside ∙ ground arith
      ])
