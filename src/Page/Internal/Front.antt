-- ===== src/Page/Internal/Front.antt =====
-- What `Insertkv` does after the child in slot 0.
use cmu.Common.{
  ℕ, zero, suc, ◌+◌, ◌-◌, ◌≤◌, ◌<◌, ◌≡◌, refl, ap, inl, inr, arith, if◌then◌else◌, ◌==◌, ltb,
  Bool-cases,
}
use cmu.Page.{Comparator}
use cmu.Page.Leaf.Search.{rank_at}
use cmu.Page.Internal.{InternalPage, new_value_idx, insertkv, child_slot, child, value_at}
use cmu.Page.Internal.Insertkv.{insertkv_slot}
use cmu.Page.Internal.Route.{IsSorted, IsRoute, route_unique, child_slot-IsRoute}

module _ {K : Type 0} ⦃key : Comparator K⦄ (old_value : ℕ) (new_key : K) (new_value : ℕ)
    (p : InternalPage K) (sorted : IsSorted p)
    (at : new_value_idx old_value 1 (p.size - 1) p.array ≡ 0)
    (least : 1 < p.size → rank_at p.array 0 < rank_at p.array 1) where
  after : InternalPage K
  after = insertkv old_value new_key new_value p

  size-after : after.size ≡ p.size + 1
  unfolding after insertkv
  size-after = refl

  slot :
      (j : ℕ)
      → j ≤ p.size
      → after.array j ≡ (if j == 0 then (new_key, new_value) else p.array (j - 1))
  unfolding after
  slot j le = ground (arith, insertkv_slot old_value new_key new_value p j sorted.0 le)

  rank_slot :
      (j : ℕ)
      → j ≤ p.size
      → rank_at after.array j ≡ (if j == 0 then key.rank new_key else rank_at p.array (j - 1))
  rank_slot j le = ground (arith, ap (λ (x : K × ℕ). key.rank x.0) (slot j le))

  from_zero : (x y : ℕ) → x < y → y < p.size → rank_at p.array x < rank_at p.array y
  from_zero zero y lt le = elim (Bool-cases (y == 1)) [
    | inl e ↦ let same : y ≡ 1 = ground arith in ground (arith, ap (rank_at p.array) same, least)
    | inr ne ↦
        let above = sorted.1 1 y (omega arith) (ground arith) (omega arith) in
        omega (arith, above, least (omega arith))
  ]
  from_zero (suc x) y lt le = sorted.1 (suc x) y (omega arith) lt (omega arith)

  after-IsSorted : IsSorted after
  after-IsSorted = (
    omega (arith, size-after),
    λ x y a b c.
        let sx = rank_slot x (omega (arith, size-after)) in
        let sy = rank_slot y (omega (arith, size-after)) in
        ground (arith, size-after, sx, sy, from_zero (x - 1) (y - 1)),
  )

  after-IsRoute :
      (q : K) (s : ℕ)
      → IsRoute q p s
      → IsRoute q after (if ltb (key.rank q) (rank_at p.array 0) then 0 else s + 1)
  after-IsRoute q s r = elim (Bool-cases (ltb (key.rank q) (rank_at p.array 0))) [
    | inl low ↦ rw low (record {
      inside = omega (arith, size-after);
      upto = λ j a b. absurd (omega arith);
      above = λ j a b.
          ground
            (arith, rank_slot j (omega (arith, size-after)), size-after, from_zero 0 (j - 1), low);
    })
    | inr high ↦ rw high (record {
      inside = omega (arith, size-after, r.inside);
      upto = λ j a b. ground (arith, rank_slot j (omega (arith, r.inside)), r.upto (j - 1), high);
      above = λ j a b.
          ground (arith, rank_slot j (omega (arith, size-after)), size-after, r.above (j - 1));
    })
  ]

  -- In a page in order, let the child that was split not be found past slot 0, whose key is below
  -- the other keys. Insertkv then puts the new child in front of it, and the new child gets the
  -- keys below the key of slot 0, whatever the new key is. Every other key goes where it went.
  pub insertkv-child_front :
      (q : K)
      → child q (insertkv old_value new_key new_value p)
        ≡ (if ltb (key.rank q) (rank_at p.array 0) then new_value else child q p)
  unfolding child value_at after
  insertkv-child_front q =
      let s = child_slot q p in
      let moved = after-IsRoute q s (child_slot-IsRoute q p sorted) in
      let s' = if ltb (key.rank q) (rank_at p.array 0) then 0 else s + 1 in
      let same : child_slot q after ≡ s' =
        route_unique q after (child_slot q after) s' (child_slot-IsRoute q after after-IsSorted)
          moved in
      let found = slot s' (omega (arith, moved.inside, size-after)) in
      let target : (after.array (child_slot q after)).1 ≡ (after.array s').1 =
        ap (λ (x : ℕ). (after.array x).1) same in
      ground (arith, target, ap (λ (x : K × ℕ). x.1) found)
