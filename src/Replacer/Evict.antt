-- ===== src/Replacer/Evict.antt =====
-- Which frame `Evict` takes.
use cmu.Common.{
  refl, ℕ, ◌+◌, ◌<◌, ◌≡◌, ◌⊎◌, inl, inr, true, false, none, some, arith, ◌==◌, Bool-cases,
  Option-cases,
}
use cmu.Common.Dict.{get, get-drop_key}
use cmu.Replacer.Frames.{evictables, evictables-eq-zero, IsFirst, scan-IsFirst}
use cmu.Replacer.Valid.{IsValid, forget-IsValid, evictables-le-length}
use cmu.Replacer.{remove_from_list, Replacer, dec, size, is_evictable, scan, forget, evict}

-- The frame is the first in line: of those that may go, the oldest in the history list, or, if none
-- there may go, the least recently used of the frames with `k` accesses.
abbrev pub IsVictim : Replacer → ℕ → Type 0
IsVictim r i = IsFirst r.mp r.history i ⊎ ((evictables r.mp r.history ≡ 0) × IsFirst r.mp r.lru i)

-- The frame `i` is gone: it may be evicted before, has no entry after, and the size falls by one.
pub record Evicted (r : Replacer) (i : ℕ) (r' : Replacer) : Type 0 where
  pub valid : IsValid r'
  pub allowed : is_evictable (get i r.mp) ≡ true
  pub gone : get i r'.mp ≡ none
  pub kept : (j : ℕ) → (j == i) ≡ false → get j r'.mp ≡ get j r.mp
  pub smaller : size r' + 1 ≡ size r
  pub total : r'.tot_size + 1 ≡ r.tot_size
  pub limit : r'.replacer_size ≡ r.replacer_size
  pub time : r'.current_timestamp ≡ r.current_timestamp

module _ (r : Replacer) (v : IsValid r) where
  pub forget-Evicted :
      (i : ℕ) → is_evictable (get i r.mp) ≡ true → 0 < r.curr_size → Evicted r i (forget i r)
  forget-Evicted i free some_left = elim (Option-cases (get i r.mp)) [
    | inl m ↦ absurd (ground arith)
    | inr (f, m) ↦ record {
      valid = forget-IsValid r v i f m (ground arith);
      allowed = free;
      gone = unfold forget in ground (arith, get-drop_key i i r.mp);
      kept = λ j h. unfold forget in ground (arith, get-drop_key i j r.mp);
      smaller =
          unfold size forget dec in
          ground (
            arith,
            v.current,
            v.total,
            v.roomy,
            v.bounded,
            evictables-le-length r r.history,
            evictables-le-length r r.lru,
          );
      total =
          unfold forget dec in
          ground (
            arith,
            v.current,
            v.total,
            v.roomy,
            v.bounded,
            evictables-le-length r r.history,
            evictables-le-length r r.lru,
          );
      limit = unfold forget remove_from_list in refl;
      time = unfold forget remove_from_list in refl;
    }
  ]

  -- On a valid replacer, Evict fails exactly if Size is 0, and then changes nothing. Else it takes
  -- the frame that is first in line and that one only, Size falls by one, and the invariant holds;
  -- its last return is never reached.
  pub evict_lem :
      ((size r ≡ 0) × (evict r ≡ (r, none)))
      ⊎ ((i : ℕ) × (evict r ≡ (forget i r, some i)) × IsVictim r i × Evicted r i (forget i r))
  unfolding evict size
  evict_lem = elim (Bool-cases (r.curr_size == 0)) [
    | inl z ↦ inl (ground arith, ground arith)
    | inr n ↦ elim (Option-cases (scan r.history r.mp)) [
      | inr (i, s) ↦
          let first = scan-IsFirst r.mp r.history i s in
          inr (i, ground arith, inl first, forget-Evicted i first.found (ground arith))
      | inl e ↦
          let none_old = evictables-eq-zero r.mp r.history e in
          elim (Option-cases (scan r.lru r.mp)) [
            | inr (i, s) ↦
                let first = scan-IsFirst r.mp r.lru i s in
                inr (
                  i,
                  ground arith,
                  inr (none_old, first),
                  forget-Evicted i first.found (ground arith),
                )
            | inl f ↦ absurd (ground (arith, v.current, none_old, evictables-eq-zero r.mp r.lru f))
          ]
    ]
  ]
