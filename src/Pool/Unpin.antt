-- ===== src/Pool/Unpin.antt =====
-- What `UnpinPgImp`, `FlushPgImp`, `FlushAllPgsImp` and `DeletePgImp` do.
use cmu.Common.{
  ℕ, ◌+◌, ◌-◌, ◌≡◌, refl, sym, ap, ◌∙◌, ◌⊎◌, inl, inr, Bool, true, false, none, some, arith,
  if◌then◌else◌, ◌==◌, ◌||◌, Bool-cases, Option-cases,
}
use cmu.Replacer
use cmu.Replacer.{Replacer, Outcome, ok, is_evictable, set_evictable, remove}
use cmu.Replacer.Valid.{is_some}
use cmu.Replacer.Flags.{
  set_evictable_lem, set_evictable_fields, set_evictable_order, accesses, set_evictable-accesses,
}
use cmu.Common.Dict.{get}
use cmu.Pool.{Pool, Page, set_page, unpin_pg}
use cmu.Pool.Table.{PageTable}
use cmu.Pool.Valid.{is_known, may_go, IsValid, IsNext}

-- Only frame `i` changes, and what `g` reads of it does not.
pub set_page-kept :
    {A : Type 0} (g : Page → A) (i : ℕ) (f : Page) (pages : ℕ → Page) (j : ℕ)
    → g f ≡ g (pages i)
    → g (set_page i f pages j) ≡ g (pages j)
unfolding set_page
set_page-kept g i f pages j e = elim (Bool-cases (j == i)) [
  | inl h ↦ let same : j ≡ i = ground arith in rw h (e ∙ ap (λ (x : ℕ). g (pages x)) (sym same))
  | inr h ↦ rw h refl
]

pub set_page-if :
    (i : ℕ) (f : Page) (pages : ℕ → Page) (j : ℕ)
    → set_page i f pages j ≡ (if j == i then f else pages j)
unfolding set_page
set_page-if i f pages j = refl

module _ {T : Type 0} ⦃table : PageTable T⦄ where
  -- One pin less on the page in frame `i`. At the last one the frame may be evicted.
  pub record Unpinned (i : ℕ) (is_dirty : Bool) (p p' : Pool T) : Type 0 where
    pub valid : IsValid p'
    pub next : IsNext p p'
    pub pins : (p'.pages i).pin_count + 1 ≡ (p.pages i).pin_count
    pub dirty : (p'.pages i).is_dirty ≡ ((p.pages i).is_dirty || is_dirty)
    pub bytes : (p'.pages i).bytes ≡ (p.pages i).bytes
    pub others : (j : ℕ) → (j == i) ≡ false → p'.pages j ≡ p.pages j
    pub going :
        (j : ℕ)
        → may_go j p'.replacer
          ≡ (if j == i then (p.pages i).pin_count == 1 else may_go j p.replacer)
    pub id : (p'.pages i).page_id ≡ (p.pages i).page_id
    pub mapping : p'.page_table ≡ p.page_table
    pub free : p'.free_list ≡ p.free_list
    pub size : p'.pool_size ≡ p.pool_size
    pub next_id : p'.next_page_id ≡ p.next_page_id
    -- In the replacer nothing but `going` changes.
    pub order :
        (p'.replacer.history ≡ p.replacer.history)
        × (p'.replacer.lru ≡ p.replacer.lru)
        × (p'.replacer.k ≡ p.replacer.k)
        × (p'.replacer.current_timestamp ≡ p.replacer.current_timestamp)
        × (p'.replacer.tot_size ≡ p.replacer.tot_size)
        × (p'.replacer.replacer_size ≡ p.replacer.replacer_size)
    pub used : (j : ℕ) → accesses (get j p'.replacer.mp) ≡ accesses (get j p.replacer.mp)
    pub disk : p'.disk ≡ p.disk

  module _ (p : Pool T) (v : IsValid p) where
    module _ (q i : ℕ) (b : Bool) (m : table.find q p.page_table ≡ some i)
        (some_pin : ((p.pages i).pin_count == 0) ≡ false) where
      left : ℕ
      left = (p.pages i).pin_count - 1

      freed : Replacer
      freed = if left == 0 then set_evictable i true p.replacer else p.replacer

      -- The replacer that results is valid, knows the same frames, and lets frame `i` go at the last pin.
      freed_lem :
          Replacer.Valid.IsValid freed
          × (freed.replacer_size ≡ p.replacer.replacer_size)
          × (freed.tot_size ≡ p.replacer.tot_size)
          × (freed.current_timestamp ≡ p.replacer.current_timestamp)
          × ((j : ℕ) → is_known j freed ≡ is_known j p.replacer)
          × ((j : ℕ) → may_go j freed ≡ (if j == i then left == 0 else may_go j p.replacer))
      unfolding freed
      freed_lem =
          let flags = set_evictable_lem p.replacer v.replacer i true in
          let fields = set_evictable_fields i true p.replacer in
          let (known_or, at) = v.mapped q i m in
          let known : is_known i p.replacer ≡ true = ground (arith, known_or) in
          let same : (j : ℕ) → (j == i) ≡ true → may_go j p.replacer ≡ may_go i p.replacer =
            λ j h. let here : j ≡ i = ground arith in ap (λ (x : ℕ). may_go x p.replacer) here in
          let going : (j : ℕ)
              → may_go j (set_evictable i true p.replacer)
                ≡ (if j == i then true else may_go j p.replacer) =
            λ j. ground (arith, flags.1 j, known) in
          elim (Bool-cases (left == 0)) [
            | inl last ↦ rw last (flags.0, fields.1, fields.0, fields.2, flags.2, (λ j. going j))
            | inr more ↦ rw more (
              v.replacer,
              refl,
              refl,
              refl,
              (λ j. refl),
              (λ j. ground (arith, same j, v.pins i known)),
            )
          ]

      freed_rest :
          ((freed.history ≡ p.replacer.history)
            × (freed.lru ≡ p.replacer.lru)
            × (freed.k ≡ p.replacer.k))
          × ((j : ℕ) → accesses (get j freed.mp) ≡ accesses (get j p.replacer.mp))
      unfolding freed
      freed_rest = elim (Bool-cases (left == 0)) [
        | inl last ↦
            rw last
              (set_evictable_order i true p.replacer, set_evictable-accesses i true p.replacer)
        | inr more ↦ rw more ((refl, refl, refl), λ j. refl)
      ]

      less : Page
      less = record (p.pages i) { pin_count = left; is_dirty = (p.pages i).is_dirty || b }

      unpinned : Pool T
      unpinned = record p { pages = set_page i less p.pages; replacer = freed }

      unpinned-IsValid : IsValid unpinned
      unfolding unpinned less left
      unpinned-IsValid =
          let (valid, limit, total, time, known, going) = freed_lem in
          record {
            replacer = valid;
            limit = limit ∙ v.limit;
            room = ground (arith, v.room, total);
            shared = λ j. ground (arith, v.shared j, known j);
            mapped = λ q' j e.
                let (known', at) = v.mapped q' j e in
                (
                  ground (arith, known', known j),
                  set_page-kept (λ (f : Page). f.page_id) i less p.pages j refl ∙ at,
                );
            pins = λ j k. ground (arith, going j, set_page-if i less p.pages j, v.pins j, known j);
          }

      unpin_pg-Unpinned : (p' : Pool T) × (unpin_pg (some q) b p ≡ (p', true)) × Unpinned i b p p'
      unfolding unpinned less left unpin_pg set_page freed
      unpin_pg-Unpinned = (
        unpinned,
        rw (unpin_pg, m, some_pin) refl,
        record {
          valid = unpinned-IsValid;
          next = (omega (arith, freed_lem.3), omega arith);
          pins = ground (arith, set_page-if i less p.pages i, some_pin);
          dirty = ground (arith, set_page-if i less p.pages i);
          bytes = ground (arith, set_page-if i less p.pages i);
          others = λ j ne. ground (arith, set_page-if i less p.pages j);
          going = λ j. ground (arith, freed_lem.5 j, some_pin);
          id = ground (arith, set_page-if i less p.pages i);
          mapping = refl;
          free = refl;
          size = refl;
          next_id = refl;
          order = (
            freed_rest.0.0, freed_rest.0.1, freed_rest.0.2, freed_lem.3, freed_lem.2, freed_lem.1,
          );
          used = freed_rest.1;
          disk = refl;
        },
      )

    -- UnpinPgImp in a valid pool fails and changes nothing if the page is not in the table or has
    -- no pin. Else it takes one pin away, the frame may be evicted exactly if that was the last
    -- one, the dirty flag is set if it was set or is asked for, nothing else changes, neither the
    -- next page id nor the free list nor the accesses and the order that the replacer keeps, and
    -- the invariant holds.
    pub unpin_pg_lem :
        (q : ℕ) (b : Bool)
        → ((table.find q p.page_table ≡ none) × (unpin_pg (some q) b p ≡ (p, false)))
          ⊎ ((i : ℕ) × (table.find q p.page_table ≡ some i)
              × ((p.pages i).pin_count ≡ 0)
              × (unpin_pg (some q) b p ≡ (p, false)))
          ⊎ ((i : ℕ) × (p' : Pool T) × (table.find q p.page_table ≡ some i)
              × (unpin_pg (some q) b p ≡ (p', true))
              × Unpinned i b p p')
    unfolding unpin_pg
    unpin_pg_lem q b = elim (Option-cases (table.find q p.page_table)) [
      | inl m ↦ inl (m, rw (unpin_pg, m) refl)
      | inr (i, m) ↦ elim (Bool-cases ((p.pages i).pin_count == 0)) [
        | inl no_pin ↦ inr (inl (i, m, ground arith, rw (unpin_pg, m, no_pin) refl))
        | inr some_pin ↦
            let (p', run, a) = unpin_pg-Unpinned q i b m some_pin in inr (inr (i, p', m, run, a))
      ]
    ]
