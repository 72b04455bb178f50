-- ===== src/Common/Int.antt =====
-- Signed integers over the native numbers: sums and differences by their two parts, products and the
-- truncating division of C++ by sign and magnitude.
use Prim.Native.Nat.{ℕ, suc, ◌+◌, ◌-◌, ◌*◌, ◌/◌, ◌%◌, ◌≤◌, ◌<◌}
use mathlib.Core.Path.{◌≡◌, refl}
use mathlib.Core.Bool.{Bool}
use native.Mathlib.Omega.{arith}
use native.Mathlib.Nat.{div-add-mod, mod-lt, mod-le, mul-div_cancel, div-le_self}
use cmu.Common.Tests.{ltb, leb, if◌then◌else◌}

-- `negsuc n` is -(n + 1).
pub data ℤ : Type 0 where
  pos : ℕ → ℤ
  negsuc : ℕ → ℤ

abbrev pub pos_part : ℤ → ℕ
pos_part (pos n) = n
pos_part (negsuc n) = 0

abbrev pub neg_part : ℤ → ℕ
neg_part (pos n) = 0
neg_part (negsuc n) = suc n

abbrev pub magnitude : ℤ → ℕ
magnitude z = pos_part z + neg_part z

abbrev pub sub_ℕ : ℕ → ℕ → ℤ
sub_ℕ a b = if leb b a then pos (a - b) else negsuc (b - a - 1)

-- The integer of the sign of `z`, or of the other, and a magnitude.
abbrev pub with_sign : ℤ → ℕ → ℤ
with_sign (pos _) n = pos n
with_sign (negsuc _) n = sub_ℕ 0 n

abbrev pub with_signs : ℤ → ℤ → ℕ → ℤ
with_signs (pos _) z n = with_sign z n
with_signs (negsuc _) (pos _) n = sub_ℕ 0 n
with_signs (negsuc _) (negsuc _) n = pos n

infixl 65 ◌+ℤ◌ ◌-ℤ◌
infixl 70 ◌*ℤ◌
infix 50 ◌≤ℤ◌
unfoldable pub ◌+ℤ◌ : ℤ → ℤ → ℤ
a +ℤ b = sub_ℕ (pos_part a + pos_part b) (neg_part a + neg_part b)

unfoldable pub ◌-ℤ◌ : ℤ → ℤ → ℤ
a -ℤ b = sub_ℕ (pos_part a + neg_part b) (neg_part a + pos_part b)

unfoldable pub ◌*ℤ◌ : ℤ → ℤ → ℤ
a *ℤ b = with_signs a b (magnitude a * magnitude b)

-- The quotient rounds towards zero, and the remainder has the sign of the dividend.
unfoldable pub quot : ℤ → ℤ → ℤ
quot a b = with_signs a b (magnitude a / magnitude b)

unfoldable pub rem : ℤ → ℤ → ℤ
rem a b = with_sign a (magnitude a % magnitude b)

abbrev pub ◌≤ℤ◌ : ℤ → ℤ → Type 0
a ≤ℤ b = pos_part a + neg_part b ≤ pos_part b + neg_part a

abbrev pub ltb_ℤ : ℤ → ℤ → Bool
ltb_ℤ a b = ltb (pos_part a + neg_part b) (pos_part b + neg_part a)

abbrev pub leb_ℤ : ℤ → ℤ → Bool
leb_ℤ a b = leb (pos_part a + neg_part b) (pos_part b + neg_part a)

-- What `omega` needs to know of the sums.
pub +ℤ_parts :
    (a b : ℤ)
    → pos_part (a +ℤ b) + neg_part a + neg_part b ≡ neg_part (a +ℤ b) + pos_part a + pos_part b
unfolding ◌+ℤ◌
+ℤ_parts a b = ground arith

pub -ℤ_parts :
    (a b : ℤ)
    → pos_part (a -ℤ b) + neg_part a + pos_part b ≡ neg_part (a -ℤ b) + pos_part a + neg_part b
unfolding ◌-ℤ◌
-ℤ_parts a b = ground arith

pub eq_of_parts : (a b : ℤ) → pos_part a + neg_part b ≡ pos_part b + neg_part a → a ≡ b
eq_of_parts a b h = ground arith

pub ruleset int_laws = (arith, +ℤ_parts, -ℤ_parts, eq_of_parts)

-- The division of C++: the remainder is smaller than the divisor, and the two add up.
pub rem_lt : (a b : ℤ) → 0 < magnitude b → magnitude (rem a b) < magnitude b
unfolding rem
rem_lt a b h = ground (arith, mod-lt (magnitude a) h)

pub quot-rem : (a b : ℤ) → 0 < magnitude b → quot a b *ℤ b +ℤ rem a b ≡ a
unfolding quot rem ◌*ℤ◌ ◌+ℤ◌
quot-rem (pos a) (pos b) h = ground (arith, div-add-mod a b, mod-lt a h)
quot-rem (pos a) (negsuc b) h = ground (arith, div-add-mod a (suc b), mod-lt a h)
quot-rem (negsuc a) (pos b) h = ground (arith, div-add-mod (suc a) b, mod-lt (suc a) h)
quot-rem (negsuc a) (negsuc b) h = ground (arith, div-add-mod (suc a) (suc b), mod-lt (suc a) h)

pub quot-mul : (a b : ℤ) → 0 < magnitude b → quot (a *ℤ b) b ≡ a
unfolding quot ◌*ℤ◌
quot-mul (pos a) (pos b) h = ground (arith, mul-div_cancel a h)
quot-mul (pos a) (negsuc b) h = ground (arith, mul-div_cancel a h)
quot-mul (negsuc a) (pos b) h = ground (arith, mul-div_cancel (suc a) h)
quot-mul (negsuc a) (negsuc b) h = ground (arith, mul-div_cancel (suc a) h)

pub quot-le : (a b : ℤ) → magnitude (quot a b) ≤ magnitude a
unfolding quot
quot-le a b = ground (arith, div-le_self (magnitude a) (magnitude b))

pub rem-le : (a b : ℤ) → magnitude (rem a b) ≤ magnitude a
unfolding rem
rem-le a b = ground (arith, mod-le (magnitude a) (magnitude b))

pub rem_sign :
    (a b : ℤ)
    → (pos_part a ≡ 0 → pos_part (rem a b) ≡ 0) × (neg_part a ≡ 0 → neg_part (rem a b) ≡ 0)
unfolding rem
rem_sign (pos a) b = (λ h. ground (arith, h, mod-le a (magnitude b)), λ h. refl)
rem_sign (negsuc a) b = (λ h. ground arith, λ h. absurd (omega arith))
