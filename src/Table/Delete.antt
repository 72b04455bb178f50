-- ===== src/Table/Delete.antt =====
-- What `MarkDelete`, `RollbackDelete` and `ApplyDelete` do to the slots of a page.
use cmu.Common.{
  ℕ, ◌+◌, ◌-◌, ◌%◌, ◌^◌, ◌<◌, ◌≡◌, refl, ap, ◌∙◌, inl, inr, true, false, none, some, arith,
  if◌then◌else◌, ◌==◌, ltb, leb, ◌&&◌, Bool-cases,
}
use cmu.Table.{
  TablePage, is_deleted, set_deleted_flag, unset_deleted_flag, set_at, move, sub32, add32,
  shift_offsets, mark_delete, rollback_delete, apply_delete, get_tuple, get_free_space_remaining,
}
use cmu.Table.Valid.{len, IsUsed, IsValid, stored, stored-eq, get_free_space_remaining-eq}
use cmu.Table.Shift.{Resized, Resized-IsValid, stored-Resized}

module _ (n s : ℕ) (p : TablePage) (v : IsValid n p) (u : IsUsed p s) where
  -- MarkDelete of a live tuple in a valid page succeeds and keeps the page valid; the tuple is read
  -- no more, and every other slot holds what it held. RollbackDelete then gives back the page as it
  -- was.
  pub rollback_delete-mark_delete :
      is_deleted (p.tuple_size s) ≡ false
      → (q : TablePage) × (mark_delete s p ≡ (q, true))
        × IsValid n q
        × (get_tuple s q ≡ none)
        × ((j : ℕ) → (j == s) ≡ false → stored j q ≡ stored j p)
        × (rollback_delete s q ≡ some p)
  unfolding is_deleted set_deleted_flag unset_deleted_flag mark_delete rollback_delete get_tuple
      set_at
  rollback_delete-mark_delete live =
      let size = p.tuple_size s in
      let q : TablePage = record p { tuple_size = set_at s (size + 2 ^ 31) p.tuple_size } in
      let word = v.sizes s u in
      let low : size < 2 ^ 31 = ground (arith, word) in
      let lens : (j : ℕ) → (len q j ≡ len p j) × (IsUsed q j → IsUsed p j) = λ j.
        elim (Bool-cases (j == s)) [
          | inl e ↦
              let same : j ≡ s = ground arith in
              (ground (arith, ap p.tuple_size same), λ w. ground (arith, ap p.tuple_size same, u))
          | inr ne ↦ (ground arith, λ w. ground arith)
        ] in
      let restored : ℕ → ℕ = set_at s (unset_deleted_flag (q.tuple_size s)) q.tuple_size in
      let back : (j : ℕ) → restored j ≡ p.tuple_size j = λ j. elim (Bool-cases (j == s)) [
        | inl e ↦ let same : j ≡ s = ground arith in ground (arith, low, ap p.tuple_size same)
        | inr ne ↦ ground arith
      ] in
      let step : rollback_delete s q ≡ some (record p { tuple_size = restored }) =
        ground (arith, low, u) in
      (
        q,
        ground (arith, low, u),
        record {
          small = v.small;
          header = v.header;
          inside = v.inside;
          sizes = λ j w. ground (arith, lens j, v.sizes j ((lens j).1 w), low);
          placed = λ j w. ground (arith, lens j, v.placed j ((lens j).1 w));
          apart = λ i j ne w x.
              ground (arith, lens i, lens j, v.apart i j ne ((lens i).1 w) ((lens j).1 x));
        },
        ground (arith, low),
        λ j ne. stored-eq j q p refl (λ g. ground arith) (λ w x lt. refl),
        step ∙ λ t. some (record p { tuple_size = λ j. back j t }),
      )

  applied : TablePage
  applied = shift_offsets (p.tuple_offset s) (len p s) 0 (record p {
    free_space_pointer = add32 p.free_space_pointer (len p s);
    bytes =
        move p.bytes p.free_space_pointer (add32 p.free_space_pointer (len p s))
          (p.tuple_offset s - p.free_space_pointer) p.bytes;
    tuple_size = set_at s 0 p.tuple_size;
    tuple_offset = set_at s 0 p.tuple_offset;
  })

  -- The size that `ApplyDelete` reads, with its flag taken away.
  read_size :
      (if is_deleted (p.tuple_size s) then unset_deleted_flag (p.tuple_size s) else p.tuple_size s)
      ≡ len p s
  unfolding is_deleted unset_deleted_flag
  read_size = ground (arith, v.sizes s u)

  pointer : applied.free_space_pointer ≡ p.free_space_pointer + len p s
  unfolding applied shift_offsets add32
  pointer = omega (arith, v.placed s u, v.small)

  applied_byte :
      (x : ℕ)
      → applied.bytes x ≡ (
          if leb (p.free_space_pointer + len p s) x && ltb x (p.tuple_offset s + len p s)
          then p.bytes (x - len p s)
          else p.bytes x)
  unfolding applied shift_offsets move add32
  applied_byte x =
      let sum : (p.free_space_pointer + len p s) % 2 ^ 32 ≡ p.free_space_pointer + len p s =
        omega (arith, v.placed s u, v.small) in
      rw sum (elim (Bool-cases (leb (p.free_space_pointer + len p s) x)) [
        | inl le ↦
            let back : p.free_space_pointer + (x - (p.free_space_pointer + len p s)) ≡ x - len p s =
              ground arith in
            ground (arith, ap p.bytes back, v.placed s u)
        | inr gt ↦ ground arith
      ])

  applied_offset :
      (j : ℕ)
      → (j == s) ≡ false
      → IsUsed p j
      → applied.tuple_offset j ≡ (
          if ltb (p.tuple_offset j) (p.tuple_offset s)
          then p.tuple_offset j + len p s
          else p.tuple_offset j)
  unfolding applied shift_offsets set_at add32 sub32
  applied_offset j ne w = ground (arith, w, v.placed s u, v.small)

  applied-Resized : Resized s 0 p applied
  applied-Resized = record {
    count = unfold applied shift_offsets in refl;
    pointer = omega (arith, pointer);
    header = omega (arith, pointer, v.header);
    size = unfold applied shift_offsets set_at in ground arith;
    sizes = λ j ne. unfold applied shift_offsets set_at in ground arith;
    place = λ lt. absurd (omega arith);
    lower = λ j ne w lt. ground (arith, applied_offset j ne w);
    upper = λ j ne w le. ground (arith, applied_offset j ne w);
    moved = λ x y a b e.
        let back : y - len p s ≡ x = omega arith in ground (arith, applied_byte y, ap p.bytes back);
    fixed = λ x le. ground (arith, applied_byte x);
  }

  -- ApplyDelete of a tuple that is there in a valid page, marked as deleted or not, passes its
  -- assertions and keeps the page valid. The slot is free afterwards, every other slot holds what
  -- it held, and the bytes of the tuple are free space again.
  pub apply_delete-stored :
      (q : TablePage) × (apply_delete s p ≡ some q)
      × IsValid n q
      × (stored s q ≡ none)
      × ((j : ℕ) → (j == s) ≡ false → stored j q ≡ stored j p)
      × (get_free_space_remaining q ≡ get_free_space_remaining p + len p s)
  apply_delete-stored =
      let r = applied-Resized in
      let valid = Resized-IsValid n s 0 p applied v u r in
      (
        applied,
        unfold apply_delete applied in rw read_size (ground (arith, u, v.placed s u)),
        valid,
        unfold stored in ground (arith, r.size),
        stored-Resized n s 0 p applied v u r,
        omega (
          arith,
          get_free_space_remaining-eq n p v,
          get_free_space_remaining-eq n applied valid,
          r.count,
          r.pointer,
        ),
      )
