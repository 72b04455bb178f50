-- ===== src/Pool/Frames.antt =====
-- How the buffer pool gets a frame.
use cmu.Common.{
  ℕ, suc, ◌<◌, ◌≡◌, refl, ap, ◌∙◌, ◌⊎◌, inl, inr, true, false, none, some, List, [], ◌∷◌, arith,
  if◌then◌else◌, ◌==◌, length, Bool-cases, Option-cases,
}
use cmu.Common.Dict.{get}
use cmu.Replacer.{Replacer, is_evictable, evict, size}
use cmu.Replacer.Frames.{count}
use cmu.Replacer.Valid.{is_some}
use cmu.Replacer.Evict.{Evicted, evict_lem}
use cmu.Pool.{Pool, take_from, take_frame}
use cmu.Pool.Table.{PageTable}
use cmu.Pool.Valid.{is_known, IsHeld, IsValid}

-- No page in use is in the frame: nobody has pinned it, or it is unknown to the replacer.
abbrev pub IsFree : {T : Type 0} → ℕ → Pool T → Type 0
IsFree i p = ((p.pages i).pin_count ≡ 0) ⊎ (is_known i p.replacer ≡ false)

module _ {T : Type 0} ⦃table : PageTable T⦄ where
  module _ (p : Pool T) (v : IsValid p) where
    -- A frame is taken out of the pool; but for the replacer and the free list nothing changes.
    abbrev pub Taken : Type 0
    Taken =
        (i : ℕ) × (r : Replacer) × (l : List ℕ) × (take_frame p
          ≡ (record p { replacer = r; free_list = l }, some i))
        × IsHeld (some i) (record p { replacer = r; free_list = l })
        × (i < p.pool_size)
        × IsFree i p
        × (r.current_timestamp ≡ p.replacer.current_timestamp)

    from_free_list : (i : ℕ) (l : List ℕ) → p.free_list ≡ i ∷ l → Taken
    unfolding take_frame take_from count
    from_free_list i l e =
        let share = v.shared i in
        let at : count i p.free_list ≡ suc (count i l) = ap (count i) e ∙ ground arith in
        let all : (j : ℕ) → count j p.free_list ≡ (if i == j then suc (count j l) else count j l) =
          λ j. ap (count j) e in
        (
          i,
          p.replacer,
          l,
          ap (λ (l : List ℕ). take_from l p) e,
          record {
            replacer = v.replacer;
            limit = v.limit;
            room = ground (arith, v.room, ap length e);
            shared = λ j. ground (arith, v.shared j, all j);
            mapped = λ q j m. ground (arith, v.mapped q j m);
            pins = v.pins;
          },
          ground (arith, share, at),
          inr (ground (arith, share, at)),
          refl,
        )

    from_replacer :
        (i : ℕ) (r : Replacer)
        → p.free_list ≡ []
        → evict p.replacer ≡ (r, some i)
        → Evicted p.replacer i r
        → Taken
    unfolding take_frame take_from count
    from_replacer i r e run ev =
        let share = v.shared i in
        let was : is_known i p.replacer ≡ true =
          ground (arith, ev.allowed, Option-cases (get i p.replacer.mp)) in
        let known : (j : ℕ) → is_known j r ≡ (if j == i then false else is_known j p.replacer) =
          λ j. elim (Bool-cases (j == i)) [
            | inl h ↦
                let same : j ≡ i = ground arith in
                rw h (ap (λ (x : ℕ). is_some (get x r.mp)) same ∙ ap is_some ev.gone)
            | inr h ↦ rw h (ap is_some (ev.kept j h))
          ] in
        (
          i,
          r,
          p.free_list,
          ap (λ (l : List ℕ). take_from l p) e ∙ rw run refl,
          record {
            replacer = ev.valid;
            limit = ev.limit ∙ v.limit;
            room = ground (arith, v.room, ap length e, ev.total);
            shared = λ j. ground (arith, v.shared j, ap (count j) e, known j, was);
            mapped = λ q j m. ground (arith, v.mapped q j m, known j);
            pins = λ j k.
                let other : (j == i) ≡ false = ground (arith, known j) in
                ap is_evictable (ev.kept j other) ∙ v.pins j (ground (arith, known j, other));
          },
          ground (arith, share, was),
          inl (ground (arith, v.pins i was, ev.allowed)),
          ev.time,
        )

    -- There is a frame unless the free list is empty and no frame may be evicted.
    pub take_frame-IsHeld :
        ((p.free_list ≡ []) × (size p.replacer ≡ 0) × (take_frame p ≡ (p, none))) ⊎ Taken
    unfolding take_frame take_from
    take_frame-IsHeld = go p.free_list refl
      where
        go :
            (l : List ℕ)
            → p.free_list ≡ l
            → ((p.free_list ≡ []) × (size p.replacer ≡ 0) × (take_frame p ≡ (p, none))) ⊎ Taken
        go (i ∷ l) e = inr (from_free_list i l e)
        go [] e = elim (evict_lem p.replacer v.replacer) [
          | inl (none_left, run) ↦
              inl (e, none_left, ap (λ (l : List ℕ). take_from l p) e ∙ rw run refl)
          | inr (i, run, victim, ev) ↦ inr (from_replacer i _ e run ev)
        ]
