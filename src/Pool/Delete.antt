-- ===== src/Pool/Delete.antt =====
-- What `DeletePgImp` does.
use cmu.Common.{
  ℕ, ◌<◌, ◌≡◌, refl, sym, ap, ◌∙◌, ◌⊎◌, inl, inr, true, false, none, some, [], ◌∷◌, ◌++◌, arith,
  if◌then◌else◌, ◌==◌, ltb, length-append, Bool-cases, Option-cases,
}
use cmu.Common.Dict.{get}
use cmu.Replacer.{Replacer, ok, is_evictable}
use cmu.Replacer.Frames.{count-append}
use cmu.Replacer.Valid.{is_some}
use cmu.Replacer.Evict.{Evicted}
use cmu.Replacer.Flags.{remove-Evicted}
use cmu.Pool.{Pool, Page, set_page, zeros, delete_pg}
use cmu.Pool.Table.{PageTable}
use cmu.Pool.Valid.{is_known, may_go, IsValid, IsNext}
use cmu.Pool.Unpin.{set_page-kept, set_page-if}

module _ {T : Type 0} ⦃table : PageTable T⦄ where
  -- Page `q` is not in the table any more, and its frame `i` is free and zero; nothing else changes.
  -- The page on the disk is as it was.
  pub record Deleted (q i : ℕ) (p p' : Pool T) : Type 0 where
    pub valid : IsValid p'
    pub next : IsNext p p'
    pub gone :
        (r : ℕ) → table.find r p'.page_table ≡ (if q == r then none else table.find r p.page_table)
    pub free : p'.free_list ≡ p.free_list ++ i ∷ []
    pub bytes : (p'.pages i).bytes ≡ zeros
    pub others : (j : ℕ) → (j == i) ≡ false → p'.pages j ≡ p.pages j
    pub disk : p'.disk ≡ p.disk

  module _ (p : Pool T) (v : IsValid p) (q i : ℕ) (m : table.find q p.page_table ≡ some i)
      (idle : (p.pages i).pin_count ≡ 0) where
    known : is_known i p.replacer ≡ true
    known = ground (arith, (v.mapped q i m).0)

    emptied : Page
    emptied = record (p.pages i) { bytes = zeros }

    deleted : Replacer → Pool T
    deleted r = record p {
      pages = set_page i emptied p.pages;
      replacer = r;
      page_table = table.remove q p.page_table;
      free_list = p.free_list ++ i ∷ [];
    }

    deleted-IsValid : (r : Replacer) → Evicted p.replacer i r → IsValid (deleted r)
    unfolding deleted emptied
    deleted-IsValid r ev =
        let known' : (j : ℕ) → is_known j r ≡ (if j == i then false else is_known j p.replacer) =
          λ j. elim (Bool-cases (j == i)) [
            | inl h ↦
                let same : j ≡ i = ground arith in
                rw h (ap (λ (x : ℕ). is_some (get x r.mp)) same ∙ ap is_some ev.gone)
            | inr h ↦ rw h (ap is_some (ev.kept j h))
          ] in
        record {
          replacer = ev.valid;
          limit = ev.limit ∙ v.limit;
          room = ground (arith, v.room, ev.total, length-append p.free_list (i ∷ []));
          shared = λ j. ground (arith, v.shared j, count-append i j p.free_list, known' j, known);
          mapped = λ q' j e.
              let kept = table.find-remove q p.page_table q' in
              let old : table.find q' p.page_table ≡ some j = ground (arith, kept) in
              let (known_or, at) = v.mapped q' j old in
              let other : (j == i) ≡ false = elim (Bool-cases (j == i)) [
                | inr ne ↦ ne
                | inl h ↦
                    let same : j ≡ i = ground arith in
                    absurd (
                      ground (
                        arith,
                        at,
                        (v.mapped q i m).1,
                        kept,
                        e,
                        ap (λ (x : ℕ). (p.pages x).page_id) same,
                      ))
              ] in
              (
                inl (ground (arith, known_or, known' j)),
                set_page-kept (λ (f : Page). f.page_id) i emptied p.pages j refl ∙ at,
              );
          pins = λ j k.
              let other : (j == i) ≡ false = ground (arith, known' j) in
              ap is_evictable (ev.kept j other)
              ∙ v.pins j (ground (arith, known' j, other))
              ∙ sym (
                  ap (λ (n : ℕ). n == 0)
                    (set_page-kept (λ (f : Page). f.pin_count) i emptied p.pages j refl));
        }

    delete_pg-Deleted : (p' : Pool T) × (delete_pg (some q) p ≡ ok (p', true)) × Deleted q i p p'
    unfolding deleted emptied delete_pg set_page
    delete_pg-Deleted =
        let free : may_go i p.replacer ≡ true = ground (arith, v.pins i known, idle) in
        elim (remove-Evicted p.replacer v.replacer i) [
          | inl (unknown, run) ↦ absurd (ground (arith, unknown, known))
          | inr (inl (f, e, held, run)) ↦ absurd (ground (arith, e, held, free))
          | inr (inr (r, run, ev)) ↦ (
            deleted r,
            rw (delete_pg, m, idle, run) refl,
            record {
              valid = deleted-IsValid r ev;
              next = (omega (arith, ev.time), omega arith);
              gone = table.find-remove q p.page_table;
              free = refl;
              bytes = ground (arith, set_page-if i emptied p.pages i);
              others = λ j ne. ground (arith, set_page-if i emptied p.pages j);
              disk = refl;
            },
          )
        ]

  -- DeletePgImp in a valid pool of a page that is not in the table returns true, and of one that is
  -- pinned false, and both change nothing. Of one that nobody has pinned it returns true, never
  -- throws, and keeps the invariant: the page alone leaves the table, its frame is zero and last in
  -- the free list, and the disk is as it was.
  pub delete_pg_lem :
      (p : Pool T) (v : IsValid p) (q : ℕ)
      → ((table.find q p.page_table ≡ none) × (delete_pg (some q) p ≡ ok (p, true)))
        ⊎ ((i : ℕ) × (table.find q p.page_table ≡ some i)
            × (0 < (p.pages i).pin_count)
            × (delete_pg (some q) p ≡ ok (p, false)))
        ⊎ ((i : ℕ) × (p' : Pool T) × (table.find q p.page_table ≡ some i)
            × ((p.pages i).pin_count ≡ 0)
            × (delete_pg (some q) p ≡ ok (p', true))
            × Deleted q i p p')
  unfolding delete_pg
  delete_pg_lem p v q = elim (Option-cases (table.find q p.page_table)) [
    | inl m ↦ inl (m, rw (delete_pg, m) refl)
    | inr (i, m) ↦ elim (Bool-cases (ltb 0 (p.pages i).pin_count)) [
      | inl some_pin ↦ inr (inl (i, m, ground arith, rw (delete_pg, m, some_pin) refl))
      | inr idle ↦
          let (p', run, a) = delete_pg-Deleted p v q i m (ground arith) in
          inr (inr (i, p', m, ground arith, run, a))
    ]
  ]
