-- ===== src/Replacer/Valid.antt =====
-- The invariant of the replacer, and that every operation keeps it.
use cmu.Common.{
  ℕ, ◌+◌, ◌^◌, ◌≤◌, ◌<◌, ◌≡◌, refl, Bool, true, false, Option, none, some, List, [], ◌∷◌, arith,
  if◌then◌else◌, ◌==◌, leb, length, Option-cases, inl, inr,
}
use cmu.Common.Dict.{get, put, get-put, get-drop_key}
use cmu.Replacer.Frames.{
  count, to_nat, evictables, count-unlink, length-unlink, evictables-unlink, evictables-put,
  evictables-drop_key,
}
use cmu.Replacer.{Frame, Replacer, inc, dec, new, unlink, is_evictable, forget, set_evictable}

abbrev pub is_some {ℓ} : {A : Type ℓ} → Option A → Bool
is_some none = false
is_some (some a) = true

pub record IsValid (r : Replacer) : Type 0 where
  pub positive : 0 < r.k
  -- A frame is in one of the two lists, once, exactly if it has an entry in `mp_`.
  pub members : (i : ℕ) → count i r.history + count i r.lru ≡ to_nat (is_some (get i r.mp))
  pub total : r.tot_size ≡ length r.history + length r.lru
  pub roomy : r.tot_size ≤ r.replacer_size
  pub bounded : r.replacer_size < 2 ^ 31
  -- `curr_size_` counts the frames that may be evicted.
  pub current : r.curr_size ≡ evictables r.mp r.history + evictables r.mp r.lru
  -- The second list holds the frames with `k` accesses or more.
  pub accessed :
      (i : ℕ) (f : Frame)
      → get i r.mp ≡ some f
      → (0 < f.record_cnt)
        × (f.record_cnt ≤ r.current_timestamp)
        × (leb r.k f.record_cnt ≡ (count i r.lru == 1))
        × (length f.timestamps ≤ r.k)
  pub clock : r.current_timestamp < 2 ^ 64

pub evictables-le-length : (r : Replacer) (l : List ℕ) → evictables r.mp l ≤ length l
unfolding evictables
evictables-le-length r [] = omega arith
evictables-le-length r (x ∷ l) = ground (arith, evictables-le-length r l)

pub new-IsValid : (n k : ℕ) → 0 < k → n < 2 ^ 31 → IsValid (new n k)
unfolding new count get evictables
new-IsValid n k pos small = record {
  positive = pos;
  members = λ i. refl;
  total = omega arith;
  roomy = omega arith;
  bounded = small;
  current = omega arith;
  accessed = λ i f e. absurd (ground arith);
  clock = omega arith;
}

module _ (r : Replacer) (v : IsValid r) (i : ℕ) where
  -- Taking an evictable frame away.
  pub forget-IsValid : (f : Frame) → get i r.mp ≡ some f → f.evictable ≡ true → IsValid (forget i r)
  unfolding forget
  forget-IsValid f e free = record {
    positive = v.positive;
    members = λ j. ground (
      arith,
      count-unlink i j r.history,
      count-unlink i j r.lru,
      get-drop_key i j r.mp,
      v.members j,
    );
    total = ground (arith, once, length-unlink i r.history, length-unlink i r.lru, v.total);
    roomy = ground (
      arith,
      once,
      v.roomy,
      v.total,
      v.bounded,
      length-unlink i r.history,
      length-unlink i r.lru,
    );
    bounded = v.bounded;
    current = ground (
      arith,
      once,
      count-unlink i i r.history,
      count-unlink i i r.lru,
      evictables-drop_key i r.mp (unlink i r.history),
      evictables-drop_key i r.mp (unlink i r.lru),
      evictables-unlink i r.mp r.history,
      evictables-unlink i r.mp r.lru,
      evictables-le-length r r.history,
      evictables-le-length r r.lru,
      v.current,
      v.total,
      v.roomy,
      v.bounded,
    );
    accessed =
        λ j g h. ground (arith, get-drop_key i j r.mp, count-unlink i j r.lru, v.accessed j g);
    clock = v.clock;
  }
    where
      once : count i r.history + count i r.lru ≡ 1
      once = ground (arith, v.members i)

  -- The flag of a frame changes, and the count of the evictable frames with it.
  flag-IsValid :
      (f : Frame) (b : Bool) (c : ℕ)
      → get i r.mp ≡ some f
      → c + to_nat f.evictable ≡ r.curr_size + to_nat b
      → IsValid (record r { curr_size = c; mp = put i (record f { evictable = b }) r.mp })
  flag-IsValid f b c e count_eq =
      let g = record f { evictable = b } in
      record {
        positive = v.positive;
        members = λ j. ground (arith, get-put i j g r.mp, v.members j);
        total = v.total;
        roomy = v.roomy;
        bounded = v.bounded;
        current = ground (
          arith,
          v.members i,
          evictables-put i g r.mp r.history,
          evictables-put i g r.mp r.lru,
          v.current,
        );
        accessed = λ j h m. ground (arith, get-put i j g r.mp, v.accessed j h, v.accessed i f e);
        clock = v.clock;
      }

  -- How many frames may go, as a number that does not wrap.
  pub curr_bounds :
      (f : Frame)
      → get i r.mp ≡ some f
      → (r.curr_size < 2 ^ 64)
        × (f.evictable ≡ true → 0 < r.curr_size)
        × (f.evictable ≡ false → r.curr_size + 1 < 2 ^ 64)
  curr_bounds f e = (
    ground (arith, part r.history, part r.lru, v.members i, v.current, v.total, v.roomy, v.bounded),
    λ p. ground (arith, part r.history, part r.lru, v.members i, v.current),
    λ p.
        ground
          (arith, part r.history, part r.lru, v.members i, v.current, v.total, v.roomy, v.bounded),
  )
    where
      part :
          (l : List ℕ)
          → (evictables r.mp (unlink i l)
                + (if count i l == 0 then 0 else to_nat (is_evictable (get i r.mp)))
              ≡ evictables r.mp l)
            × (evictables r.mp (unlink i l) ≤ length (unlink i l))
            × (length (unlink i l) + (if count i l == 0 then 0 else 1) ≡ length l)
      part l = (evictables-unlink i r.mp l, evictables-le-length r (unlink i l), length-unlink i l)

  -- `SetEvictable` keeps the invariant.
  pub set_evictable-IsValid : (b : Bool) → IsValid (set_evictable i b r)
  unfolding set_evictable
  set_evictable-IsValid b = elim (Option-cases (get i r.mp)) [
    | inl m ↦ rw (m, set_evictable) v
    | inr (f, m) ↦ split f m f.evictable b refl
  ]
    where
      split :
          (f : Frame)
          → get i r.mp ≡ some f
          → (was b : Bool) → f.evictable ≡ was
          → IsValid (set_evictable i b r)
      split f m true true p = let same : set_evictable i true r ≡ r = ground arith in rw same v
      split f m false false p = let same : set_evictable i false r ≡ r = ground arith in rw same v
      split f m true false p =
          let same : set_evictable i false r ≡ record r {
            curr_size = dec r.curr_size;
            mp = put i (record f { evictable = false }) r.mp;
          } =
            ground arith in
          rw same (
            flag-IsValid f false (dec r.curr_size) m
              (unfold dec in ground (arith, curr_bounds f m)))
      split f m false true p =
          let same : set_evictable i true r ≡ record r {
            curr_size = inc r.curr_size;
            mp = put i (record f { evictable = true }) r.mp;
          } =
            ground arith in
          rw same (
            flag-IsValid f true (inc r.curr_size) m (unfold inc in ground (arith, curr_bounds f m)))
