-- ===== src/Page/Internal/Insertkv.antt =====
-- What `Insertkv` does to where a search goes down.
use cmu.Common.{
  ℕ, zero, suc, ◌+◌, ◌-◌, ◌≤◌, ◌<◌, ◌≡◌, ◌≢◌, refl, ap, inl, inr, arith, if◌then◌else◌, ◌==◌, ltb,
  leb, ◌&&◌, Bool-cases,
}
use cmu.Page.{Comparator, Slots, write, move_backward_lem}
use cmu.Page.Leaf.Search.{rank_at}
use cmu.Page.Internal.{InternalPage, new_value_idx, insertkv, child_slot, child, value_at}
use cmu.Page.Internal.Route.{IsSorted, IsRoute, route_unique, child_slot-IsRoute}

module _ {K : Type 0} ⦃key : Comparator K⦄ where
  new_value_idx_lem : (old_value i n : ℕ) (a : Slots K ℕ) → new_value_idx old_value i n a ≤ i + n
  unfolding new_value_idx
  new_value_idx_lem old_value i zero a = omega arith
  new_value_idx_lem old_value i (suc n) a = ground (arith, new_value_idx_lem old_value (i + 1) n a)

  -- The loop ends at the first slot with the value, and gives the slot after it.
  new_value_idx_found :
      (old_value s n i : ℕ) (a : Slots K ℕ)
      → s ≤ i
      → i < s + n
      → (a i).1 ≡ old_value
      → ((j : ℕ) → s ≤ j → j < i → (a j).1 ≢ old_value)
      → new_value_idx old_value s n a ≡ i + 1
  unfolding new_value_idx
  new_value_idx_found old_value s zero i a from to at first = absurd (omega arith)
  new_value_idx_found old_value s (suc n) i a from to at first = elim (Bool-cases (s == i)) [
    | inl e ↦ let same : s ≡ i = ground arith in ground (arith, at, ap (λ (x : ℕ). (a x).1) same)
    | inr ne ↦
        let below : s < i = ground arith in
        ground (
          arith,
          first s (omega arith) below,
          new_value_idx_found old_value (s + 1) n i a (omega arith) (omega arith) at
              (λ j x y. first j (omega arith) y),
        )
  ]

  -- The slots of the page after `Insertkv`.
  pub insertkv_slot :
      (old_value : ℕ) (new_key : K) (new_value : ℕ) (p : InternalPage K) (j : ℕ)
      → 0 < p.size
      → j ≤ p.size
      → let idx = new_value_idx old_value 1 (p.size - 1) p.array in
        (insertkv old_value new_key new_value p).array j ≡ (
          if j == idx
          then (new_key, new_value)
          else if ltb idx j
          then p.array (j - 1)
          else p.array j)
  unfolding insertkv write
  insertkv_slot old_value new_key new_value p j pos le =
      let idx = new_value_idx old_value 1 (p.size - 1) p.array in
      ground (
        arith,
        new_value_idx_lem old_value 1 (p.size - 1) p.array,
        move_backward_lem idx (p.size - idx) p.array j,
      )

  -- `Insertkv` after a child that is not in slot 0, with a key between that child's and the next:
  module _ (old_value : ℕ) (new_key : K) (new_value i : ℕ) (p : InternalPage K)
      (sorted : IsSorted p) (past : 0 < i) (inside : i < p.size) (here : (p.array i).1 ≡ old_value)
      (first : (j : ℕ) → 0 < j → j < i → (p.array j).1 ≢ old_value)
      (low : rank_at p.array i < key.rank new_key)
      (high : i + 1 < p.size → key.rank new_key < rank_at p.array (i + 1)) where
    after : InternalPage K
    after = insertkv old_value new_key new_value p

    at : new_value_idx old_value 1 (p.size - 1) p.array ≡ i + 1
    at = new_value_idx_found old_value 1 (p.size - 1) i p.array past (omega arith) here first

    size-after : after.size ≡ p.size + 1
    unfolding after insertkv
    size-after = refl

    slot :
        (j : ℕ)
        → j ≤ p.size
        → after.array j ≡ (
            if j == i + 1
            then (new_key, new_value)
            else if ltb (i + 1) j
            then p.array (j - 1)
            else p.array j)
    unfolding after
    slot j le = ground (arith, at, insertkv_slot old_value new_key new_value p j sorted.0 le)

    rank_slot :
        (j : ℕ)
        → j ≤ p.size
        → rank_at after.array j ≡ (
            if j == i + 1
            then key.rank new_key
            else if ltb (i + 1) j
            then rank_at p.array (j - 1)
            else rank_at p.array j)
    rank_slot j le = ground (arith, ap (λ (x : K × ℕ). key.rank x.0) (slot j le))

    after-IsSorted : IsSorted after
    after-IsSorted = (
      omega (arith, size-after),
      λ x y a b c.
          let sx = rank_slot x (omega (arith, size-after)) in
          let sy = rank_slot y (omega (arith, size-after)) in
          ground (
            arith,
            size-after,
            sx,
            sy,
            inside,
            low,
            high,
            sorted.1 x y,
            sorted.1 x (y - 1),
            sorted.1 (x - 1) (y - 1),
            sorted.1 x i,
            sorted.1 (i + 1) (y - 1),
          ),
    )

    after-IsRoute :
        (q : K) (s : ℕ)
        → IsRoute q p s
        → IsRoute q after (
            if ltb s i
            then s
            else if s == i
            then (if leb (key.rank new_key) (key.rank q) then i + 1 else i)
            else s + 1)
    after-IsRoute q s r = elim (Bool-cases (ltb s i)) [
      | inl before ↦ rw before (record {
        inside = omega (arith, size-after, r.inside);
        upto = λ j a b. ground (arith, rank_slot j (omega (arith, r.inside)), r.upto j);
        above = λ j a b. ground (
          arith,
          rank_slot j (omega (arith, size-after)),
          size-after,
          r.above j,
          r.above (j - 1),
          r.above i,
          low,
          inside,
        );
      })
      | inr from ↦ elim (Bool-cases (s == i)) [
        | inl here ↦ elim (Bool-cases (leb (key.rank new_key) (key.rank q))) [
          | inl new ↦
              rw (from, here, new)
                (record {
                  inside = omega (arith, size-after, inside);
                  upto = λ j a b.
                      ground (arith, rank_slot j (omega (arith, inside)), r.upto j, here, new);
                  above = λ j a b. ground (
                    arith,
                    rank_slot j (omega (arith, size-after)),
                    size-after,
                    r.above (j - 1),
                    here,
                  );
                })
          | inr old ↦
              rw (from, here, old)
                (record {
                  inside = omega (arith, size-after, inside);
                  upto =
                      λ j a b. ground (arith, rank_slot j (omega (arith, inside)), r.upto j, here);
                  above = λ j a b. ground (
                    arith,
                    rank_slot j (omega (arith, size-after)),
                    size-after,
                    r.above (j - 1),
                    here,
                    old,
                  );
                })
        ]
        | inr beyond ↦
            rw (from, beyond)
              (record {
                inside = omega (arith, size-after, r.inside);
                upto = λ j a b. ground (
                  arith,
                  rank_slot j (omega (arith, r.inside)),
                  r.upto j,
                  r.upto (j - 1),
                  r.upto (i + 1),
                  high,
                  from,
                  beyond,
                  r.inside,
                );
                above = λ j a b. ground (
                  arith,
                  rank_slot j (omega (arith, size-after)),
                  size-after,
                  r.above (j - 1),
                  from,
                  beyond,
                );
              })
      ]
    ]

    -- In a page in order, let a child stand in a slot past slot 0 and in no slot between the two,
    -- and be split at a key between its own and the next. Insertkv after that child keeps the page
    -- in order. The new child takes over the keys from the new key on of the child that was split;
    -- every other key goes where it went.
    pub insertkv-child :
        (q : K)
        → IsSorted (insertkv old_value new_key new_value p)
          × (child q (insertkv old_value new_key new_value p) ≡ (
              if child_slot q p == i && leb (key.rank new_key) (key.rank q)
              then new_value
              else child q p))
    unfolding child value_at after
    insertkv-child q =
        let s = child_slot q p in
        let r = child_slot-IsRoute q p sorted in
        let moved = after-IsRoute q s r in
        let s' =
          if ltb s i
          then s
          else if s == i
          then (if leb (key.rank new_key) (key.rank q) then i + 1 else i)
          else s + 1 in
        let same : child_slot q after ≡ s' =
          route_unique q after (child_slot q after) s' (child_slot-IsRoute q after after-IsSorted)
            moved in
        let found = slot s' (omega (arith, moved.inside, size-after)) in
        let target : (after.array (child_slot q after)).1 ≡ (after.array s').1 =
          ap (λ (x : ℕ). (after.array x).1) same in
        (after-IsSorted, ground (arith, target, ap (λ (x : K × ℕ). x.1) found))
