-- ===== src/Common/Bits.antt =====
-- Low bits of a number, as remainders modulo powers of two.
use Prim.Native.Nat.{ℕ, zero, suc, ◌+◌, ◌-◌, ◌*◌, ◌/◌, ◌%◌, ◌^◌, ◌≤◌, ◌<◌}
use mathlib.Core.Path.{◌≡◌, sym, ap, ◌∙◌}
use mathlib.Core.Logic.{◌⊎◌, inl, inr}
use mathlib.Core.List.{List, [], ◌∷◌, ◌++◌}
use native.Mathlib.Omega.{arith}
use native.Mathlib.Nat.{
  two-pow-succ, one-le-pow, div-add-mod, mod-lt, mod-eq_of_lt, add-mul-mod_self_left,
  add-mul-div_left, div-eq_of_lt, mod-mod,
}
use cmu.Common.Tests.{ltb, if◌then◌else◌}
use cmu.Common.Lists.{length, get_or}

pub two-pow-add_one : (g : ℕ) → 2 ^ (g + 1) ≡ 2 ^ g + 2 ^ g
two-pow-add_one g = let e : g + 1 ≡ suc g = omega arith in rw e (two-pow-succ g)

pub two-pow_pos : (g : ℕ) → 0 < 2 ^ g
two-pow_pos g = one-le-pow g 2 (omega arith)

-- One bit more.
pub mod-double : (h p : ℕ) → 0 < p → h % (p + p) ≡ h % p + p * ((h / p) % 2)
mod-double h p pos =
    let q : ℕ = h / p in
    let low : ℕ = h % p + p * (q % 2) in
    let split : low + (p + p) * (q / 2) ≡ h =
      omega (arith, div-add-mod h p, ap (λ (t : ℕ). p * t) (div-add-mod q 2)) in
    let small : low < p + p = grind (arith, mod-lt h pos) in
    ap (λ (t : ℕ). t % (p + p)) (sym split)
    ∙ add-mul-mod_self_left low (p + p) (q / 2)
    ∙ mod-eq_of_lt small

pub mod-mod-double : (h p : ℕ) → 0 < p → h % (p + p) % p ≡ h % p
mod-mod-double h p pos =
    ap (λ (t : ℕ). t % p) (mod-double h p pos)
    ∙ add-mul-mod_self_left (h % p) p (h / p % 2)
    ∙ mod-eq_of_lt (mod-lt h pos)

-- The next bit is read off a remainder as well.
pub bit-mod-double : (h p : ℕ) → 0 < p → h % (p + p) / p % 2 ≡ h / p % 2
bit-mod-double h p pos =
    let b : ℕ = h / p % 2 in
    rw (mod-double h p pos, add-mul-div_left (h % p) b pos, div-eq_of_lt (mod-lt h pos))
      (omega arith)

-- Two numbers that agree in the low `d` bits and in the next one agree in `d + 1` bits.
pub agree_next :
    (a b d : ℕ)
    → a % 2 ^ d ≡ b % 2 ^ d
    → a / 2 ^ d % 2 ≡ b / 2 ^ d % 2
    → a % 2 ^ (d + 1) ≡ b % 2 ^ (d + 1)
agree_next a b d low bit = rw (
  two-pow-add_one d,
  mod-double a (2 ^ d) (two-pow_pos d),
  mod-double b (2 ^ d) (two-pow_pos d),
  low,
  bit,
)

-- The low `d` bits of the low `g` bits are the low `d` bits.
pub mod-mod-two-pow : (h d n : ℕ) → h % 2 ^ (d + n) % 2 ^ d ≡ h % 2 ^ d
mod-mod-two-pow h d zero = let e : d + 0 ≡ d = omega arith in rw e (mod-mod h (2 ^ d))
mod-mod-two-pow h d (suc n) =
    let e : d + suc n ≡ d + n + 1 = omega arith in
    let p : ℕ = 2 ^ (d + n) in
    rw (e, two-pow-add_one (d + n))
      (sym (mod-mod-two-pow (h % (p + p)) d n)
        ∙ ap (λ (t : ℕ). t % 2 ^ d) (mod-mod-double h p (two-pow_pos (d + n)))
        ∙ mod-mod-two-pow h d n)

pub get_or-append {ℓ} :
    {A : Type ℓ} (xs ys : List A) (i : ℕ) (d : A)
    → get_or (xs ++ ys) i d
      ≡ (if ltb i (length xs) then get_or xs i d else get_or ys (i - length xs) d)
get_or-append [] ys i d =
    let e : i - 0 ≡ i = omega arith in ground (arith, ap (λ (t : ℕ). get_or ys t d) e)
get_or-append (x ∷ xs) ys zero d = ground arith
get_or-append (x ∷ xs) ys (suc i) d = ground (arith, get_or-append xs ys i d)

-- A list twice over, read by an index modulo twice its length.
pub get_or-double {ℓ} :
    {A : Type ℓ} (xs : List A) (h : ℕ) (d : A)
    → 0 < length xs
    → get_or (xs ++ xs) (h % (length xs + length xs)) d ≡ get_or xs (h % length xs) d
get_or-double xs h d pos = rw get_or-append (elim halves [
  | inl e ↦ ground (arith, index, mod-lt h pos, e)
  | inr e ↦ ground (arith, index, mod-lt h pos, e)
])
  where
    index : h % (length xs + length xs) ≡ h % length xs + length xs * (h / length xs % 2)
    index = mod-double h (length xs) pos

    halves : (h / length xs % 2 ≡ 0) ⊎ (h / length xs % 2 ≡ 1)
    halves = omega arith

pub mod-mod_of_le : (h d g : ℕ) → d ≤ g → h % 2 ^ g % 2 ^ d ≡ h % 2 ^ d
mod-mod_of_le h d g le =
    let e : g ≡ d + (g - d) = omega arith in
    rw (ap (λ (t : ℕ). 2 ^ t) e) (mod-mod-two-pow h d (g - d))

pub entry-double {ℓ} :
    {A : Type ℓ} (xs : List A) (i : ℕ) (d : A)
    → 0 < length xs
    → i < length xs + length xs
    → get_or (xs ++ xs) i d ≡ get_or xs (i % length xs) d
entry-double xs i d pos lt =
    ap (λ (t : ℕ). get_or (xs ++ xs) t d) (sym (mod-eq_of_lt lt)) ∙ get_or-double xs i d pos
