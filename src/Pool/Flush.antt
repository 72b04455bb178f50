-- ===== src/Pool/Flush.antt =====
-- What `FlushPgImp` and `FlushAllPgsImp` do.
use cmu.Common.{
  ℕ, ◌<◌, ◌≡◌, refl, sym, ap, subst, ◌∙◌, ◌⊎◌, inl, inr, Bool, true, false, Option, none, some,
  List, [], ◌∷◌, arith, ◌==◌, Bool-cases, Option-cases,
}
use cmu.Replacer.Frames.{count}
use cmu.Pool.{Pool, Page, set_page, write_page, flush_pg, flush_frames, flush_all_pgs, range}
use cmu.Pool.Table.{PageTable}
use cmu.Pool.Valid.{count-range, IsValid}
use cmu.Pool.Unpin.{set_page-kept, set_page-if}

module _ {T : Type 0} ⦃table : PageTable T⦄ where
  -- But for dirty flags and the disk nothing changes.
  pub record Flushing (p p' : Pool T) : Type 0 where
    pub valid : IsValid p'
    pub mapping : p'.page_table ≡ p.page_table
    pub size : p'.pool_size ≡ p.pool_size
    pub next : (p'.replacer ≡ p.replacer) × (p'.next_page_id ≡ p.next_page_id)
    pub bytes : (j : ℕ) → (p'.pages j).bytes ≡ (p.pages j).bytes
    pub ids : (j : ℕ) → (p'.pages j).page_id ≡ (p.pages j).page_id
    pub pins : (j : ℕ) → (p'.pages j).pin_count ≡ (p.pages j).pin_count
    pub free : p'.free_list ≡ p.free_list
    -- A frame becomes clean or stays as it is, and no page is written that is not in the table.
    pub dirty :
        (j : ℕ) → ((p'.pages j).is_dirty ≡ false) ⊎ ((p'.pages j).is_dirty ≡ (p.pages j).is_dirty)
    pub elsewhere : (r : ℕ) → table.find r p.page_table ≡ none → p'.disk r ≡ p.disk r

  -- The disk has the bytes of page `q`, which is in frame `i`.
  abbrev pub IsSaved : ℕ → ℕ → Pool T → Type 0
  IsSaved q i p = (p.disk q ≡ (p.pages i).bytes) × ((p.pages i).is_dirty ≡ false)

  module _ (p : Pool T) (v : IsValid p) where
    module _ (q i : ℕ) (m : table.find q p.page_table ≡ some i) where
      cleaned : Page
      cleaned = record (p.pages i) { is_dirty = false }

      saved : Pool T
      saved = record p {
        disk = write_page (some q) (p.pages i).bytes p.disk;
        pages = set_page i cleaned p.pages;
      }

      flush_pg-saved : flush_pg (some q) p ≡ (saved, true)
      unfolding flush_pg saved cleaned set_page
      flush_pg-saved = rw (flush_pg, m) refl

      saved-Flushing : Flushing p saved
      unfolding saved cleaned
      saved-Flushing = record {
        valid = record {
          replacer = v.replacer;
          limit = v.limit;
          room = v.room;
          shared = v.shared;
          mapped = λ r j e.
              let (known, at) = v.mapped r j e in
              (known, set_page-kept (λ (f : Page). f.page_id) i cleaned p.pages j refl ∙ at);
          pins = λ j k.
              v.pins j k
              ∙ sym (
                  ap (λ (n : ℕ). n == 0)
                    (set_page-kept (λ (f : Page). f.pin_count) i cleaned p.pages j refl));
        };
        mapping = refl;
        size = refl;
        next = (refl, refl);
        bytes = λ j. set_page-kept (λ (f : Page). f.bytes) i cleaned p.pages j refl;
        ids = λ j. set_page-kept (λ (f : Page). f.page_id) i cleaned p.pages j refl;
        pins = λ j. set_page-kept (λ (f : Page). f.pin_count) i cleaned p.pages j refl;
        free = refl;
        dirty = λ j. elim (Bool-cases (j == i)) [
          | inl h ↦ inl (ground (arith, set_page-if i cleaned p.pages j))
          | inr ne ↦ inr (ground (arith, set_page-if i cleaned p.pages j))
        ];
        elsewhere = λ r absent. elim (Bool-cases (r == q)) [
          | inr ne ↦ unfold write_page in rw ne refl
          | inl h ↦
              let one : r ≡ q = ground arith in
              absurd (ground (arith, m, absent, ap (λ (x : ℕ). table.find x p.page_table) one))
        ];
      }

      saved-IsSaved : IsSaved q i saved
      unfolding saved cleaned write_page
      saved-IsSaved = (
        ground (arith, set_page-if i cleaned p.pages i),
        ground (arith, set_page-if i cleaned p.pages i),
      )

      flush_pg-IsSaved : IsSaved q i (flush_pg (some q) p).0
      flush_pg-IsSaved =
          subst (λ (x : Pool T × Bool). IsSaved q i x.0) (sym flush_pg-saved) saved-IsSaved

      -- What is saved stays saved.
      saved-kept :
          (r j : ℕ) → table.find r p.page_table ≡ some j → IsSaved r j p → IsSaved r j saved
      unfolding saved cleaned write_page
      saved-kept r j e (same, clean) =
          let unread = set_page-kept (λ (f : Page). f.bytes) i cleaned p.pages j refl in
          (
            elim (Bool-cases (r == q)) [
              | inl h ↦
                  let one : r ≡ q = ground arith in
                  let at : table.find q p.page_table ≡ some j =
                    ap (λ (x : ℕ). table.find x p.page_table) (sym one) ∙ e in
                  let here : i ≡ j = ground (arith, at, m) in
                  rw h (ap (λ (x : ℕ). (p.pages x).bytes) here ∙ sym unread)
              | inr h ↦ rw h (same ∙ sym unread)
            ],
            ground (arith, set_page-if i cleaned p.pages j, clean),
          )

  -- What one flush does, whatever it is called with.
  pub record Kept (p p' : Pool T) : Type 0 where
    pub flushing : Flushing p p'
    pub saved : (r j : ℕ) → table.find r p.page_table ≡ some j → IsSaved r j p → IsSaved r j p'

  unchanged : (p : Pool T) → IsValid p → Kept p p
  unchanged p v = record {
    flushing = record {
      valid = v;
      mapping = refl;
      size = refl;
      next = (refl, refl);
      bytes = λ j. refl;
      ids = λ j. refl;
      pins = λ j. refl;
      free = refl;
      dirty = λ j. inr refl;
      elsewhere = λ r absent. refl;
    };
    saved = λ r j e s. s;
  }

  flush_pg-Kept : (q : Option ℕ) (p : Pool T) → IsValid p → Kept p (flush_pg q p).0
  unfolding flush_pg
  flush_pg-Kept none p v = unchanged p v
  flush_pg-Kept (some q) p v = elim (Option-cases (table.find q p.page_table)) [
    | inl m ↦ rw (flush_pg, m) (unchanged p v)
    | inr (i, m) ↦
        subst (λ (x : Pool T × Bool). Kept p x.0) (sym (flush_pg-saved p v q i m))
          (record { flushing = saved-Flushing p v q i m; saved = saved-kept p v q i m })
  ]

  -- A flush of a list of frames saves the pages of those frames.
  flush_frames-IsSaved :
      (l : List ℕ) (p : Pool T)
      → IsValid p
      → Flushing p (flush_frames l p)
        × ((r j : ℕ)
            → table.find r p.page_table ≡ some j
            → (IsSaved r j p ⊎ 0 < count j l)
            → IsSaved r j (flush_frames l p))
  unfolding flush_frames count
  flush_frames-IsSaved [] p v = (
    (unchanged p v).flushing,
    λ r j e. elim [ inl s ↦ s | inr none_left ↦ absurd (omega (arith, none_left)) ],
  )
  flush_frames-IsSaved (i ∷ l) p v =
      let one = flush_pg-Kept (p.pages i).page_id p v in
      let rest = flush_frames-IsSaved l (flush_pg (p.pages i).page_id p).0 one.flushing.valid in
      (
        record {
          valid = rest.0.valid;
          mapping = rest.0.mapping ∙ one.flushing.mapping;
          size = rest.0.size ∙ one.flushing.size;
          next = (rest.0.next.0 ∙ one.flushing.next.0, rest.0.next.1 ∙ one.flushing.next.1);
          bytes = λ j. rest.0.bytes j ∙ one.flushing.bytes j;
          ids = λ j. rest.0.ids j ∙ one.flushing.ids j;
          pins = λ j. rest.0.pins j ∙ one.flushing.pins j;
          free = rest.0.free ∙ one.flushing.free;
          dirty = λ j. elim (rest.0.dirty j) [
            | inl clean ↦ inl clean
            | inr same ↦ elim (one.flushing.dirty j) [
              | inl clean ↦ inl (same ∙ clean)
              | inr same' ↦ inr (same ∙ same')
            ]
          ];
          elsewhere = λ r absent.
              rest.0.elsewhere r (ap (table.find r) one.flushing.mapping ∙ absent)
              ∙ one.flushing.elsewhere r absent;
        },
        λ r j e given. rest.1 r j (ap (table.find r) one.flushing.mapping ∙ e) (elim given [
          | inl s ↦ inl (one.saved r j e s)
          | inr counted ↦ elim (Bool-cases (i == j)) [
            | inr ne ↦ inr (ground (arith, counted))
            | inl h ↦
                let same : j ≡ i = ground arith in
                let at : (p.pages i).page_id ≡ some r =
                  ap (λ (x : ℕ). (p.pages x).page_id) (sym same) ∙ (v.mapped r j e).1 in
                inl (
                  subst (λ (x : Option ℕ). IsSaved r j (flush_pg x p).0) (sym at)
                    (flush_pg-IsSaved p v r j e))
          ]
        ]),
      )

  -- After FlushAllPgsImp in a valid pool the disk has the bytes of every page in the table, and its
  -- frame is not dirty. Every other page on the disk is as it was, a dirty flag is cleared or
  -- stays, pin counts, free list and all else do not change, and the invariant holds.
  pub flush_all_pgs-IsSaved :
      (p : Pool T)
      → IsValid p
      → Flushing p (flush_all_pgs p)
        × ((q i : ℕ) → table.find q p.page_table ≡ some i → IsSaved q i (flush_all_pgs p))
  unfolding flush_all_pgs
  flush_all_pgs-IsSaved p v =
      let all = flush_frames-IsSaved (range 0 p.pool_size) p v in
      (
        all.0,
        λ q i m.
            let known = (v.mapped q i m).0 in
            all.1 q i m (inr (ground (arith, count-range 0 p.pool_size i, v.shared i, known))),
      )

  -- `FlushPgImp` saves the page if it is in the table, and else changes nothing.
  pub flush_pg_lem :
      (p : Pool T) (v : IsValid p) (q : ℕ)
      → ((table.find q p.page_table ≡ none) × (flush_pg (some q) p ≡ (p, false)))
        ⊎ ((i : ℕ) × (p' : Pool T) × (table.find q p.page_table ≡ some i)
            × (flush_pg (some q) p ≡ (p', true))
            × Flushing p p'
            × IsSaved q i p')
  unfolding flush_pg
  flush_pg_lem p v q = elim (Option-cases (table.find q p.page_table)) [
    | inl m ↦ inl (m, rw (flush_pg, m) refl)
    | inr (i, m) ↦ inr (
      i,
      saved p v q i m,
      m,
      flush_pg-saved p v q i m,
      saved-Flushing p v q i m,
      saved-IsSaved p v q i m,
    )
  ]
