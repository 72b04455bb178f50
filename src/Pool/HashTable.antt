-- ===== src/Pool/HashTable.antt =====
-- The page table that the buffer pool has, `ExtendibleHashTable<page_id_t, frame_id_t>` with room for
-- four items in a bucket, as an implementation of what the pool asks of it.
use native.Mathlib.Bridge.{le_prop}
use cmu.Common.{
  ℕ, ◌+◌, ◌%◌, ◌^◌, ◌<◌, ◌≤◌, ◌≡◌, ◌⊎◌, refl, sym, ap, subst, ◌∙◌, Bool, true, false, Option, none,
  some, arith, if◌then◌else◌, ◌==◌, ltb, Bool-cases, inl, inr, List, length,
}
use cmu.Hash
use cmu.Hash.{find, insert, remove}
use cmu.Hash.Buckets.{HashKey}
use cmu.Hash.Valid.{new-IsValid, remove_lem}
use cmu.Hash.Insert.{Stored, insert-Stored}
use cmu.Replacer.{ok}
use cmu.Pool.{Pool, new}
use cmu.Pool.Table.{PageTable}
use cmu.Pool.Valid.{IsValid}
use cmu.Pool.Run.{Call, run, run_safe}

-- A page id that is not negative, as a key of the hash table.
pub record PageId : Type 0 where
  pub id : ℕ
  pub small : id < 2 ^ 31

abbrev page_id : (i : ℕ) → i < 2 ^ 31 → PageId
page_id i h = record { id = i; small = h }

-- Page ids with the same number are equal.
pub same_id : (q r : PageId) → q.id ≡ r.id → q ≡ r
same_id q r e =
    subst (λ (x : ℕ). (h : x < 2 ^ 31) → q ≡ record { id = x; small = h }) e
      (λ h. ap (λ (y : q.id < 2 ^ 31). page_id q.id y) (le_prop q.small h)) r.small

-- What is out of the range of page ids is not a key.
to_page_id_by : (q : ℕ) (b : Bool) → ltb q (2 ^ 31) ≡ b → Option PageId
to_page_id_by q true h = some (page_id q (ground arith))
to_page_id_by q false h = none

to_page_id : ℕ → Option PageId
to_page_id q = to_page_id_by q (ltb q (2 ^ 31)) refl

to_page_id-cases :
    (q : ℕ)
    → ((h : q < 2 ^ 31) × (to_page_id q ≡ some (page_id q h)))
      ⊎ ((ltb q (2 ^ 31) ≡ false) × (to_page_id q ≡ none))
unfolding to_page_id to_page_id_by
to_page_id-cases q = go (ltb q (2 ^ 31)) refl
  where
    go :
        (b : Bool) (e : ltb q (2 ^ 31) ≡ b)
        → ((h : q < 2 ^ 31) × (to_page_id_by q b e ≡ some (page_id q h)))
          ⊎ ((ltb q (2 ^ 31) ≡ false) × (to_page_id_by q b e ≡ none))
    go true e = inl (ground arith, refl)
    go false e = inr (e, refl)

module _ ⦃key : HashKey PageId⦄ where
  -- A valid table with room in its buckets.
  pub record Valids : Type 0 where
    pub table : Hash.Table PageId ℕ
    pub valid : Hash.Valid.IsValid table
    pub room : 0 < table.bucket_size

-- `operator==` and `std::hash` of page ids; `d` bits of the hash are enough to tell them apart.
module _ ⦃key : HashKey PageId⦄ (d : ℕ)
    (apart : (q r : PageId) → key.hash q % 2 ^ d ≡ key.hash r % 2 ^ d → q ≡ r) where
  equal_id : (q r : PageId) → key.equal q r ≡ (q.id == r.id)
  equal_id q r = elim (Bool-cases (q.id == r.id)) [
    | inl h ↦ (key.equal_iff q r).1 (same_id q r (ground arith)) ∙ sym h
    | inr h ↦ elim (Bool-cases (key.equal q r)) [
      | inr ne ↦ ne ∙ sym h
      | inl e ↦
          let same = ap (λ (x : PageId). x.id) ((key.equal_iff q r).0 e) in
          absurd (ground (arith, same, h))
    ]
  ]

  -- The table after an `Insert`, which returns.
  pub insert_id : PageId → ℕ → Hash.Table PageId ℕ → Hash.Table PageId ℕ
  insert_id q i t = elim (insert (d + 1) q i t) [ none ↦ t | some t' ↦ t' ]

  insert_id-Stored : (q : PageId) (i : ℕ) (t : Valids) → Stored q i t.table (insert_id q i t.table)
  unfolding insert_id
  insert_id-Stored q i t =
      let (t', run, s) = insert-Stored d (d + 1) q i t.table apart t.valid t.room (omega arith) in
      rw (insert_id, run) s

  insert_valid : PageId → ℕ → Valids → Valids
  insert_valid x i t =
      let s = insert_id-Stored x i t in
      record {
        table = insert_id x i t.table;
        valid = s.valid;
        room = omega (arith, s.room, t.room);
      }

  remove_valid : PageId → Valids → Valids
  unfolding remove
  remove_valid x t = record {
    table = (remove x t.table).0;
    valid = (remove_lem x t.table t.valid).0;
    room = t.room;
  }

  new_table : Valids
  unfolding Hash.new
  new_table = record { table = Hash.new 4; valid = (new-IsValid 4).0; room = omega arith }

  find_id : ℕ → Valids → Option ℕ
  find_id q t = elim (to_page_id q) [ none ↦ none | some x ↦ find x t.table ]

  insert_at : ℕ → ℕ → Valids → Valids
  insert_at q i t = elim (to_page_id q) [ none ↦ t | some x ↦ insert_valid x i t ]

  remove_at : ℕ → Valids → Valids
  remove_at q t = elim (to_page_id q) [ none ↦ t | some x ↦ remove_valid x t ]

  find_id-new : (q : ℕ) → find_id q new_table ≡ none
  unfolding find_id new_table
  find_id-new q = elim (to_page_id-cases q) [
    | inl (h, e) ↦ rw (find_id, e) ((new-IsValid 4).1 (page_id q h))
    | inr (big, e) ↦ rw (find_id, e) refl
  ]

  find_id-some :
      (q : ℕ) (x : PageId) (t : Valids) → to_page_id q ≡ some x → find_id q t ≡ find x t.table
  unfolding find_id
  find_id-some q x t e = rw (find_id, e) refl

  insert_at-some :
      (q i : ℕ) (x : PageId) (t : Valids)
      → to_page_id q ≡ some x
      → insert_at q i t ≡ insert_valid x i t
  unfolding insert_at
  insert_at-some q i x t e = rw (insert_at, e) refl

  remove_at-some :
      (q : ℕ) (x : PageId) (t : Valids) → to_page_id q ≡ some x → remove_at q t ≡ remove_valid x t
  unfolding remove_at
  remove_at-some q x t e = rw (remove_at, e) refl

  remove_at-none : (q : ℕ) (t : Valids) → to_page_id q ≡ none → remove_at q t ≡ t
  unfolding remove_at
  remove_at-none q t e = rw (remove_at, e) refl

  find_id-none : (q : ℕ) (t : Valids) → to_page_id q ≡ none → find_id q t ≡ none
  unfolding find_id
  find_id-none q t e = rw (find_id, e) refl

  find_id-insert :
      (k i : ℕ) (t : Valids) (q : ℕ)
      → k < 2 ^ 31
      → find_id q (insert_at k i t) ≡ (if k == q then some i else find_id q t)
  unfolding insert_valid
  find_id-insert k i t q small = elim (to_page_id-cases k) [
    | inr (big, e) ↦ absurd (ground arith)
    | inl (h, e) ↦ elim (to_page_id-cases q) [
      | inl (h', e') ↦
          let x = page_id k h in
          let y = page_id q h' in
          ap (find_id q) (insert_at-some k i x t e)
          ∙ find_id-some q y (insert_valid x i t) e'
          ∙ (insert_id-Stored x i t).finds y
          ∙ ap (λ (b : Bool). if b then some i else find y t.table) (equal_id x y)
          ∙ ap (λ (v : Option ℕ). if k == q then some i else v) (sym (find_id-some q y t e'))
      | inr (big, e') ↦
          let other : (k == q) ≡ false = ground arith in
          find_id-none q (insert_at k i t) e' ∙ sym (find_id-none q t e') ∙ rw other refl
    ]
  ]

  find_id-remove :
      (k : ℕ) (t : Valids) (q : ℕ)
      → find_id q (remove_at k t) ≡ (if k == q then none else find_id q t)
  unfolding remove_valid
  find_id-remove k t q = elim (to_page_id-cases q) [
    | inr (big, e') ↦ find_id-none q (remove_at k t) e' ∙ ground (arith, find_id-none q t e')
    | inl (h', e') ↦
        let y = page_id q h' in
        elim (to_page_id-cases k) [
          | inl (h, e) ↦
              let x = page_id k h in
              ap (find_id q) (remove_at-some k x t e)
              ∙ find_id-some q y (remove_valid x t) e'
              ∙ (remove_lem x t.table t.valid).2 y
              ∙ ap (λ (b : Bool). if b then none else find y t.table) (equal_id x y)
              ∙ ap (λ (v : Option ℕ). if k == q then none else v) (sym (find_id-some q y t e'))
          | inr (big, e) ↦
              let other : (k == q) ≡ false = ground arith in
              ap (find_id q) (remove_at-none k t e) ∙ rw other refl
        ]
  ]

  instance pub hash_table : PageTable Valids
  hash_table = record {
    new = new_table;
    find = find_id;
    insert = insert_at;
    remove = remove_at;
    find-new = find_id-new;
    find-insert = find_id-insert;
    find-remove = find_id-remove;
  }

  insert-insert_id :
      (q : PageId) (i : ℕ) (t : Valids) → insert (d + 1) q i t.table ≡ some (insert_id q i t.table)
  unfolding insert_id
  insert-insert_id q i t =
      let (t', run, s) = insert-Stored d (d + 1) q i t.table apart t.valid t.room (omega arith) in
      rw (insert_id, run) refl

  -- Let equality and hash of page ids be lawful, and d bits of the hash tell all page ids apart.
  -- Then in a valid table with room in its buckets every Insert returns within d + 1 rounds; and
  -- from a new buffer pool of less than 2 ^ 31 frames with k > 0, whose page table is the
  -- extendible hash table with these Inserts, every sequence of at most 2 ^ 31 calls returns and
  -- leaves the pool valid.
  pub hash_table-run_safe :
      (n k : ℕ) (disk : ℕ → ℕ → ℕ) (calls : List Call)
      → 0 < k
      → n < 2 ^ 31
      → length calls ≤ 2 ^ 31
      → ((q : PageId) (i : ℕ) (t : Valids)
          → insert (d + 1) q i t.table ≡ some (insert_id q i t.table))
        × ((p : Pool Valids) × (run calls (new n k disk) ≡ ok p) × IsValid p)
  hash_table-run_safe n k disk calls positive bounded few =
      (insert-insert_id, run_safe n k disk calls positive bounded few)
