-- ===== src/Replacer/Flags.antt =====
-- What `Remove` and `SetEvictable` do to the frame they name.
use cmu.Common.{
  ℕ, ◌≡◌, ap, Option, List, ◌⊎◌, inl, inr, Bool, false, ◌&&◌, none, some, arith, if◌then◌else◌,
  ◌==◌, Bool-cases, Option-cases,
}
use cmu.Common.Dict.{get, get-put}
use cmu.Replacer.Valid.{IsValid, is_some, set_evictable-IsValid, curr_bounds}
use cmu.Replacer.Evict.{Evicted, forget-Evicted}
use cmu.Replacer.{Frame, Replacer, ok, throws, is_evictable, forget, set_evictable, remove}

module _ (r : Replacer) (v : IsValid r) (i : ℕ) where
  -- On a valid replacer, Remove of an unknown frame changes nothing, and of a frame that may not be
  -- evicted throws. Else that frame, and no other, is gone, Size falls by one, and the invariant
  -- holds.
  pub remove-Evicted :
      ((get i r.mp ≡ none) × (remove i r ≡ ok r))
      ⊎ ((f : Frame) × (get i r.mp ≡ some f) × (f.evictable ≡ false) × (remove i r ≡ throws))
      ⊎ ((r' : Replacer) × (remove i r ≡ ok r') × Evicted r i r')
  unfolding remove
  remove-Evicted = elim (Option-cases (get i r.mp)) [
    | inl m ↦ inl (m, ground arith)
    | inr (f, m) ↦ elim (Bool-cases f.evictable) [
      | inr held ↦ inr (inl (f, m, held, ground arith))
      | inl free ↦
          let some_left = (curr_bounds r v i f m).1 free in
          inr (inr (forget i r, ground arith, forget-Evicted r v i (ground arith) some_left))
    ]
  ]

  -- On a valid replacer, SetEvictable keeps the invariant. It sets the flag of a frame that is
  -- known, makes no frame known, and leaves the flags of the other frames.
  pub set_evictable_lem :
      (b : Bool)
      → IsValid (set_evictable i b r)
        × ((j : ℕ)
            → is_evictable (get j (set_evictable i b r).mp)
              ≡ (if i == j then is_some (get i r.mp) && b else is_evictable (get j r.mp)))
        × ((j : ℕ) → is_some (get j (set_evictable i b r).mp) ≡ is_some (get j r.mp))
  unfolding set_evictable
  set_evictable_lem b = (
    set_evictable-IsValid r v i b,
    λ j. elim (Option-cases (get i r.mp)) [
      | inl m ↦ ground arith
      | inr (f, m) ↦ ground (arith, get-put i j (record f { evictable = b }) r.mp)
    ],
    λ j. elim (Option-cases (get i r.mp)) [
      | inl m ↦ ground arith
      | inr (f, m) ↦ ground (arith, get-put i j (record f { evictable = b }) r.mp)
    ],
  )

-- Nothing else changes.
pub set_evictable_fields :
    (i : ℕ) (b : Bool) (r : Replacer)
    → ((set_evictable i b r).tot_size ≡ r.tot_size)
      × ((set_evictable i b r).replacer_size ≡ r.replacer_size)
      × ((set_evictable i b r).current_timestamp ≡ r.current_timestamp)
unfolding set_evictable
set_evictable_fields i b r = (ground arith, ground arith, ground arith)

-- The order in which the frames are evicted stays.
pub set_evictable_order :
    (i : ℕ) (b : Bool) (r : Replacer)
    → ((set_evictable i b r).history ≡ r.history)
      × ((set_evictable i b r).lru ≡ r.lru)
      × ((set_evictable i b r).k ≡ r.k)
unfolding set_evictable
set_evictable_order i b r = (ground arith, ground arith, ground arith)

-- The times at which a frame was used, and their number.
abbrev pub accesses : Option Frame → Option (List ℕ × ℕ)
accesses none = none
accesses (some f) = some (f.timestamps, f.record_cnt)

pub set_evictable-accesses :
    (i : ℕ) (b : Bool) (r : Replacer) (j : ℕ)
    → accesses (get j (set_evictable i b r).mp) ≡ accesses (get j r.mp)
unfolding set_evictable
set_evictable-accesses i b r j = elim (Option-cases (get i r.mp)) [
  | inl m ↦ ground arith
  | inr (f, m) ↦ elim (Bool-cases (i == j)) [
    | inr ne ↦ ground (arith, get-put i j (record f { evictable = b }) r.mp)
    | inl h ↦
        let same : i ≡ j = ground arith in
        ground
          (arith, get-put i j (record f { evictable = b }) r.mp, ap (λ (x : ℕ). get x r.mp) same)
  ]
]
