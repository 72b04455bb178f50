-- ===== src/Types/Words.antt =====
-- Signed words of two's complement, by the half `H` of the numbers that a word of the width has.
use cmu.Common.{ℕ, ◌+◌, ◌-◌, ◌%◌, ◌≤◌, ◌<◌, ◌≡◌, Bool, arith, ltb, leb, if◌then◌else◌, ◌&&◌}
use cmu.Common.Int.{ℤ, pos, negsuc, pos_part, neg_part}
use native.Mathlib.Nat.{mod-lt, mod-eq_of_lt}

-- What a word of the width can hold.
abbrev pub Fits : ℕ → ℤ → Type 0
Fits H z = (pos_part z < H) × (neg_part z ≤ H)

abbrev pub fits : ℕ → ℤ → Bool
fits H z = ltb (pos_part z) H && leb (neg_part z) H

-- `static_cast` to the signed integer of the width.
unfoldable pub wrap : ℕ → ℤ → ℤ
wrap H (pos n) = let r = n % (H + H) in if ltb r H then pos r else negsuc (H + H - r - 1)
wrap H (negsuc n) = let r = n % (H + H) in if ltb r H then negsuc r else pos (H + H - r - 1)

pub wrap-Fits : (H : ℕ) (z : ℤ) → 0 < H → Fits H (wrap H z)
unfolding wrap
wrap-Fits H (pos n) h =
    let double_pos : 0 < H + H = omega arith in ground (arith, mod-lt n double_pos)
wrap-Fits H (negsuc n) h =
    let double_pos : 0 < H + H = omega arith in ground (arith, mod-lt n double_pos)

pub wrap_of_Fits : (H : ℕ) (z : ℤ) → Fits H z → wrap H z ≡ z
unfolding wrap
wrap_of_Fits H (pos n) f = let low : n < H + H = omega arith in ground (arith, mod-eq_of_lt low)
wrap_of_Fits H (negsuc n) f = let low : n < H + H = omega arith in ground (arith, mod-eq_of_lt low)
