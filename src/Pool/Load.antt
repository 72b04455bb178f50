-- ===== src/Pool/Load.antt =====
-- How the buffer pool puts a page into the frame that it got.
use cmu.Common.{
  ℕ, ◌+◌, ◌^◌, ◌<◌, ◌≡◌, refl, ap, ◌∙◌, inl, inr, Bool, false, Option, none, some, arith,
  if◌then◌else◌, ◌==◌, Bool-cases, Option-cases,
}
use cmu.Replacer.{Replacer, ok}
use cmu.Pool.{Pool, Page, load, set_page, write_page, zeros}
use cmu.Pool.Table.{PageTable}
use cmu.Pool.Valid.{is_known, IsHeld, IsValid, IsNext, Pinned, pin-Pinned}

-- The frame's page is `r`.
abbrev pub is_named : ℕ → Option ℕ → Bool
is_named r none = false
is_named r (some x) = x == r

-- The disk after the page in a frame is written back.
unfoldable pub flushed : Page → (ℕ → ℕ → ℕ) → ℕ → ℕ → ℕ
unfolding write_page
flushed f disk = if f.is_dirty then write_page f.page_id f.bytes disk else disk

module _ {T : Type 0} ⦃table : PageTable T⦄ where
  -- Page `q` is in frame `i`, pinned once and clean, and its bytes are `content`; the other frames
  -- are as they were, and what was in frame `i` is on the disk.
  pub record Loaded (i q : ℕ) (content : ℕ → ℕ) (p p' : Pool T) : Type 0 where
    pub valid : IsValid p'
    pub next : IsNext p p'
    -- The page that was in frame `i` is not in the table any more.
    pub mapping :
        (r : ℕ)
        → table.find r p'.page_table ≡ (
            if q == r
            then some i
            else if is_named r (p.pages i).page_id
            then none
            else table.find r p.page_table)
    pub frame :
        p'.pages i ≡ record { bytes = content; page_id = some q; pin_count = 1; is_dirty = false }
    pub others : (j : ℕ) → (j == i) ≡ false → p'.pages j ≡ p.pages j
    pub disk : p'.disk ≡ flushed (p.pages i) p.disk

  module _ (read : Bool) (i q : ℕ) (p : Pool T) (h : IsHeld (some i) p) (small : q < 2 ^ 31)
      (inside : i < p.pool_size) (busy : p.replacer.current_timestamp + 1 < 2 ^ 64) where
    abbrev content : ℕ → ℕ
    content = if read then flushed (p.pages i) p.disk q else zeros

    unmapped : T
    unmapped = elim (p.pages i).page_id [
      | none ↦ p.page_table
      | some r ↦ table.remove r p.page_table
    ]

    filled : Pool T
    filled = record p {
      disk = flushed (p.pages i) p.disk;
      page_table = table.insert q i unmapped;
      pages =
          set_page i (record { bytes = content; page_id = some q; pin_count = 1; is_dirty = false })
            p.pages;
    }

    -- No page is left in the table for the frame.
    find-unmapped :
        (r j : ℕ)
        → table.find r unmapped ≡ some j
        → (table.find r p.page_table ≡ some j) × ((j == i) ≡ false)
    unfolding unmapped
    find-unmapped r j e = elim (Option-cases (p.pages i).page_id) [
      | inl new ↦
          let m : table.find r p.page_table ≡ some j = ground (arith, new) in
          let at = (h.mapped r j m).1 in
          (
            m,
            elim (Bool-cases (j == i)) [
              | inr ne ↦ ne
              | inl same ↦
                  let here : j ≡ i = ground arith in
                  absurd (ground (arith, at, new, ap (λ (x : ℕ). (p.pages x).page_id) here))
            ],
          )
      | inr (old, was) ↦
          let kept = table.find-remove old p.page_table r in
          let m : table.find r p.page_table ≡ some j = ground (arith, was, kept) in
          let at = (h.mapped r j m).1 in
          (
            m,
            elim (Bool-cases (j == i)) [
              | inr ne ↦ ne
              | inl same ↦
                  let here : j ≡ i = ground arith in
                  absurd (ground (arith, at, was, kept, ap (λ (x : ℕ). (p.pages x).page_id) here))
            ],
          )
    ]

    filled_page :
        (j : ℕ)
        → filled.pages j ≡ (
            if j == i
            then record { bytes = content; page_id = some q; pin_count = 1; is_dirty = false }
            else p.pages j)
    unfolding filled set_page
    filled_page j = refl

    unknown : is_known i p.replacer ≡ false
    unknown = ground (arith, h.shared i, inside)

    loaded-IsValid :
        (r : Replacer) → Pinned i p.replacer r → IsValid (record filled { replacer = r })
    unfolding filled
    loaded-IsValid r pinned = record {
      replacer = pinned.valid;
      limit = pinned.limit ∙ h.limit;
      room = ground (arith, h.room, pinned.total, unknown);
      shared = λ j. ground (arith, h.shared j, pinned.known j, unknown);
      mapped = λ q' j m. elim (Bool-cases (q == q')) [
        | inl same ↦
            let at : i ≡ j = ground (arith, table.find-insert q i unmapped q' small) in
            (inl (ground (arith, pinned.known j)), ground (arith, filled_page j))
        | inr other ↦
            let (old, ne) =
              find-unmapped q' j (ground (arith, table.find-insert q i unmapped q' small)) in
            let (known, at) = h.mapped q' j old in
            (inl (ground (arith, pinned.known j, known)), ground (arith, filled_page j, at))
      ];
      pins = λ j k. ground (arith, pinned.known j, pinned.going j, filled_page j, h.pins j);
    }

    named :
        (r : ℕ)
        → table.find r unmapped
          ≡ (if is_named r (p.pages i).page_id then none else table.find r p.page_table)
    unfolding unmapped
    named r = elim (Option-cases (p.pages i).page_id) [
      | inl new ↦ rw (unmapped, new) refl
      | inr (old, was) ↦ rw (unmapped, was) (table.find-remove old p.page_table r)
    ]

    pub load-Loaded :
        (p' : Pool T) × (load read i q p ≡ ok p')
        × (p'.next_page_id ≡ p.next_page_id)
        × Loaded i q content p p'
    unfolding filled
    load-Loaded =
        let (r, run, pinned) =
          pin-Pinned i filled h.replacer busy (omega (arith, h.limit, inside))
            (λ e. omega (arith, h.limit, h.room)) in
        (
          record filled { replacer = r },
          unfold load filled unmapped flushed in run,
          refl,
          record {
            valid = loaded-IsValid r pinned;
            next = (omega (arith, pinned.time), omega arith);
            mapping = λ r.
                table.find-insert q i unmapped r small
                ∙ ap (λ (x : Option ℕ). if q == r then some i else x) (named r);
            frame = ground (arith, filled_page i);
            others = λ j ne. ground (arith, filled_page j);
            disk = refl;
          },
        )
