-- ===== src/Table/Update.antt =====
-- What `UpdateTuple` does to the slots of a page.
use cmu.Common.{
  ℕ, ◌+◌, ◌-◌, ◌*◌, ◌≤◌, ◌<◌, ◌≡◌, refl, ap, ◌∙◌, ◌⊎◌, inl, inr, false, none, some, arith,
  if◌then◌else◌, ◌==◌, ltb, leb, ◌&&◌, Bool-cases,
}
use cmu.Table.{
  TablePage, Tuple, is_deleted, set_at, move, sub32, add32, shift_offsets, update_tuple, get_tuple,
  get_free_space_remaining,
}
use cmu.Table.Valid.{len, IsUsed, IsValid, stored, get_free_space_remaining-eq}
use cmu.Table.Shift.{Resized, Resized-IsValid, stored-Resized}

-- The tuple in slot `s` is replaced; `old` is the one before, and every other slot holds what it held.
pub record Updated (n s : ℕ) (tuple old : Tuple) (p q : TablePage) : Type 0 where
  pub valid : IsValid n q
  pub size : q.tuple_size s ≡ tuple.size
  pub bytes : (x : ℕ) → x < tuple.size → q.bytes (q.tuple_offset s + x) ≡ tuple.bytes x
  pub before : get_tuple s p ≡ some old
  pub others : (j : ℕ) → (j == s) ≡ false → stored j q ≡ stored j p
  pub space : get_free_space_remaining q + tuple.size ≡ get_free_space_remaining p + p.tuple_size s

module _ (n s : ℕ) (p : TablePage) (v : IsValid n p) (u : IsUsed p s)
    (live : is_deleted (p.tuple_size s) ≡ false) (tuple : Tuple) (full : 0 < tuple.size) where
  -- The size carries no flag.
  plain : p.tuple_size s ≡ len p s
  unfolding is_deleted
  plain = ground (arith, live, v.sizes s u)

  abbrev space : ℕ
  space = get_free_space_remaining p + p.tuple_size s

  space_lem :
      (add32 (get_free_space_remaining p) (p.tuple_size s) ≡ space)
      × (space + (24 + 8 * p.tuple_count) ≡ p.free_space_pointer + len p s)
  unfolding add32
  space_lem =
      let eq = get_free_space_remaining-eq n p v in
      (omega (arith, eq, plain, v.placed s u, v.small), omega (arith, eq, plain))

  module _ (room : tuple.size ≤ space) where
    moved : ℕ → ℕ
    moved =
        move p.bytes p.free_space_pointer
          (sub32 (add32 p.free_space_pointer (p.tuple_size s)) tuple.size)
          (p.tuple_offset s - p.free_space_pointer) p.bytes

    after : TablePage
    after =
        shift_offsets (add32 (p.tuple_offset s) (p.tuple_size s)) (p.tuple_size s) tuple.size
          (record p {
            free_space_pointer = sub32 (add32 p.free_space_pointer (p.tuple_size s)) tuple.size;
            bytes =
                move tuple.bytes 0 (sub32 (add32 (p.tuple_offset s) (p.tuple_size s)) tuple.size)
                  tuple.size moved;
            tuple_size = set_at s tuple.size p.tuple_size;
          })

    -- The differences do not wrap.
    bounds :
        (add32 (p.tuple_offset s) (p.tuple_size s) ≡ p.tuple_offset s + len p s)
        × (sub32 (add32 p.free_space_pointer (p.tuple_size s)) tuple.size + tuple.size
            ≡ p.free_space_pointer + len p s)
        × (sub32 (add32 (p.tuple_offset s) (p.tuple_size s)) tuple.size + tuple.size
            ≡ p.tuple_offset s + len p s)
        × (24 + 8 * p.tuple_count + tuple.size ≤ p.free_space_pointer + len p s)
    unfolding add32 sub32
    bounds = (
      omega (arith, plain, v.placed s u, v.small),
      omega (arith, plain, v.placed s u, v.small, space_lem, room),
      omega (arith, plain, v.placed s u, v.small, space_lem, room),
      omega (arith, space_lem, room),
    )

    start : ℕ
    start = sub32 (add32 (p.tuple_offset s) (p.tuple_size s)) tuple.size

    pointer : ℕ
    pointer = sub32 (add32 p.free_space_pointer (p.tuple_size s)) tuple.size

    edges :
        (start + tuple.size ≡ p.tuple_offset s + len p s)
        × (pointer + tuple.size ≡ p.free_space_pointer + len p s)
        × (after.free_space_pointer ≡ pointer)
    unfolding start pointer after shift_offsets
    edges = (bounds.2, bounds.1, refl)

    after_byte :
        (x : ℕ)
        → after.bytes x ≡ (
            if leb start x && ltb x (start + tuple.size)
            then tuple.bytes (x - start)
            else if leb pointer x && ltb x (pointer + (p.tuple_offset s - p.free_space_pointer))
            then p.bytes (p.free_space_pointer + (x - pointer))
            else p.bytes x)
    unfolding after shift_offsets move moved start pointer
    after_byte x =
        let same : 0 + (x - start) ≡ x - start = omega arith in ground (arith, ap tuple.bytes same)

    after_offset :
        (j : ℕ)
        → IsUsed p j
        → after.tuple_offset j
            + (if ltb (p.tuple_offset j) (p.tuple_offset s + len p s) then tuple.size else 0)
          ≡ p.tuple_offset j
            + (if ltb (p.tuple_offset j) (p.tuple_offset s + len p s) then len p s else 0)
    unfolding after shift_offsets set_at add32 sub32
    after_offset j w = ground (arith, w, full, plain, bounds, v.placed s u, v.placed j w, v.small)

    after-Resized : Resized s tuple.size p after
    after-Resized = record {
      count = unfold after shift_offsets in refl;
      pointer = omega (arith, edges);
      header = omega (arith, edges, bounds.3);
      size = unfold after shift_offsets set_at in ground arith;
      sizes = λ j ne. unfold after shift_offsets set_at in ground arith;
      place = λ lt. ground (arith, after_offset s u, v.sizes s u);
      lower = λ j ne w lt. ground (arith, after_offset j w);
      upper = λ j ne w le. ground (arith, after_offset j w);
      moved = λ x y a b e.
          let back : p.free_space_pointer + (y - pointer) ≡ x =
            omega (arith, edges, v.placed s u) in
          ground (arith, after_byte y, ap p.bytes back, edges);
      fixed = λ x le. ground (arith, after_byte x, edges, v.placed s u);
    }

    old_tuple : Tuple
    old_tuple = record {
      size = p.tuple_size s;
      bytes = move p.bytes (p.tuple_offset s) 0 (p.tuple_size s) (λ x. 0);
    }

    after-Updated : Updated n s tuple old_tuple p after
    after-Updated =
        let r = after-Resized in
        let valid = Resized-IsValid n s tuple.size p after v u r in
        record {
          valid = valid;
          size = r.size;
          bytes = λ x lt.
              let at : after.tuple_offset s + x ≡ start + x = omega (arith, r.place full, edges) in
              let back : start + x - start ≡ x = omega arith in
              ap after.bytes at ∙ ground (arith, after_byte (start + x), ap tuple.bytes back);
          before = unfold get_tuple old_tuple in ground (arith, u);
          others = stored-Resized n s tuple.size p after v u r;
          space = omega (
            arith,
            get_free_space_remaining-eq n p v,
            get_free_space_remaining-eq n after valid,
            r.count,
            r.pointer,
            plain,
          );
        }

  guards :
      ((tuple.size == 0) ≡ false)
      × (leb p.tuple_count s ≡ false)
      × (ltb (p.tuple_offset s) p.free_space_pointer ≡ false)
  guards = (ground (arith, full), ground (arith, u), ground (arith, v.placed s u))

  -- UpdateTuple of a live tuple in a valid page by one that is not empty fails exactly if the free
  -- space and the old tuple together are too small, and then changes nothing. Else no assertion
  -- fails and the page stays valid; the old tuple is given back, the slot holds the new one, every
  -- other slot holds what it held, and the free space changes by the difference of the sizes.
  pub update_tuple-Updated :
      ((space < tuple.size) × (update_tuple tuple s p ≡ some (p, none)))
      ⊎ ((q : TablePage) × (old : Tuple) × (update_tuple tuple s p ≡ some (q, some old))
          × Updated n s tuple old p q)
  unfolding update_tuple
  update_tuple-Updated = elim (Bool-cases (ltb space tuple.size)) [
    | inl short ↦ inl (ground arith, rw (guards.0, guards.1, live, space_lem.0, short) refl)
    | inr long ↦
        let room : tuple.size ≤ space = ground arith in
        inr (
          after room,
          old_tuple room,
          unfold after moved old_tuple in
              rw (guards.0, guards.1, live, space_lem.0, long, guards.2) refl,
          after-Updated room,
        )
  ]
