-- ===== src/Replacer/Frames.antt =====
-- Lists of frame ids, and how many of their frames may be evicted.
use cmu.Common.{
  ℕ, suc, ◌+◌, ◌-◌, ◌≤◌, ◌<◌, ◌≡◌, refl, Bool, true, false, none, some, List, [], ◌∷◌, ◌++◌, arith,
  if◌then◌else◌, ◌==◌, length, Bool-cases, inl, inr, ap,
}
use cmu.Common.Dict.{Dict, get, put, drop_key, get-put, get-drop_key}
use cmu.Replacer.{Frame, unlink, is_evictable, scan}

unfoldable pub count : ℕ → List ℕ → ℕ
count i [] = 0
count i (j ∷ l) = if j == i then suc (count i l) else count i l

abbrev pub to_nat : Bool → ℕ
to_nat true = 1
to_nat false = 0

unfoldable pub evictables : Dict Frame → List ℕ → ℕ
evictables mp [] = 0
evictables mp (i ∷ l) = to_nat (is_evictable (get i mp)) + evictables mp l

pub count-append :
    (i j : ℕ) (l : List ℕ) → count j (l ++ i ∷ []) ≡ (if i == j then suc (count j l) else count j l)
unfolding count
count-append i j [] = refl
count-append i j (x ∷ l) = ground (arith, count-append i j l)

pub count-unlink :
    (i j : ℕ) (l : List ℕ) → count j (unlink i l) ≡ (if i == j then count j l - 1 else count j l)
unfolding count unlink
count-unlink i j [] = ground arith
count-unlink i j (x ∷ l) = ground (arith, count-unlink i j l)

pub length-unlink :
    (i : ℕ) (l : List ℕ) → length (unlink i l) + (if count i l == 0 then 0 else 1) ≡ length l
unfolding count unlink
length-unlink i [] = omega arith
length-unlink i (x ∷ l) = ground (arith, length-unlink i l)

pub evictables-append :
    (i : ℕ) (mp : Dict Frame) (l : List ℕ)
    → evictables mp (l ++ i ∷ []) ≡ evictables mp l + to_nat (is_evictable (get i mp))
unfolding evictables
evictables-append i mp [] = omega arith
evictables-append i mp (x ∷ l) = omega (arith, evictables-append i mp l)

pub evictables-unlink :
    (i : ℕ) (mp : Dict Frame) (l : List ℕ)
    → evictables mp (unlink i l) + (if count i l == 0 then 0 else to_nat (is_evictable (get i mp)))
      ≡ evictables mp l
unfolding evictables unlink count
evictables-unlink i mp [] = omega arith
evictables-unlink i mp (x ∷ l) = ground (arith, evictables-unlink i mp l)

pub evictables-put :
    (i : ℕ) (f : Frame) (mp : Dict Frame) (l : List ℕ)
    → count i l ≤ 1
    → evictables (put i f mp) l + (if count i l == 0 then 0 else to_nat (is_evictable (get i mp)))
      ≡ evictables mp l + (if count i l == 0 then 0 else to_nat f.evictable)
unfolding evictables count
evictables-put i f mp [] h = omega arith
evictables-put i f mp (x ∷ l) h = ground (arith, evictables-put i f mp l, get-put i x f mp)

pub evictables-drop_key :
    (i : ℕ) (mp : Dict Frame) (l : List ℕ)
    → count i l ≡ 0
    → evictables (drop_key i mp) l ≡ evictables mp l
unfolding evictables count
evictables-drop_key i mp [] h = refl
evictables-drop_key i mp (x ∷ l) h = ground (arith, evictables-drop_key i mp l, get-drop_key i x mp)

pub evictables-eq-zero : (mp : Dict Frame) (l : List ℕ) → scan l mp ≡ none → evictables mp l ≡ 0
unfolding evictables scan
evictables-eq-zero mp [] h = refl
evictables-eq-zero mp (x ∷ l) h = ground (arith, evictables-eq-zero mp l)

-- The scan stops at the first frame of the list that may go.
pub record IsFirst (mp : Dict Frame) (l : List ℕ) (i : ℕ) : Type 0 where
  pub before : List ℕ
  pub after : List ℕ
  pub split : l ≡ before ++ i ∷ after
  pub passed : evictables mp before ≡ 0
  pub found : is_evictable (get i mp) ≡ true
  pub inside : 0 < count i l

pub scan-IsFirst : (mp : Dict Frame) (l : List ℕ) (i : ℕ) → scan l mp ≡ some i → IsFirst mp l i
unfolding scan evictables count
scan-IsFirst mp [] i h = cc
scan-IsFirst mp (x ∷ l) i h = elim (Bool-cases (is_evictable (get x mp))) [
  | inl e ↦ record {
    before = [];
    after = l;
    split = ground arith;
    passed = refl;
    found = ground arith;
    inside = ground arith;
  }
  | inr e ↦
      let r = scan-IsFirst mp l i (ground arith) in
      record {
        before = x ∷ r.before;
        after = r.after;
        split = ap (◌∷◌ x) r.split;
        passed = ground (arith, r.passed);
        found = r.found;
        inside = ground (arith, r.inside);
      }
]
