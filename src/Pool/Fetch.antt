-- ===== src/Pool/Fetch.antt =====
-- What `NewPgImp` and `FetchPgImp` do.
use cmu.Common.{
  ℕ, ◌+◌, ◌^◌, ◌<◌, ◌≡◌, refl, sym, ap, ◌∙◌, ◌⊎◌, inl, inr, true, false, none, some, [], arith,
  if◌then◌else◌, ◌==◌, Option-cases,
}
use cmu.Replacer.{Replacer, ok, size}
use cmu.Pool.{Pool, Page, set_page, zeros, new_pg, allocate, fetch_pg, read_in}
use cmu.Pool.Table.{PageTable}
use cmu.Pool.Valid.{is_known, IsHeld, IsValid, IsNext, Pinned, pin-Pinned}
use cmu.Pool.Frames.{IsFree, take_frame-IsHeld}
use cmu.Pool.Load.{flushed, Loaded, load-Loaded, is_named}

module _ {T : Type 0} ⦃table : PageTable T⦄ where
  -- Page `q` is in frame `i`, and pinned. Its bytes are those it had in the pool, or else those on
  -- the disk. The other frames are as they were; a page that had to leave is on the disk.
  pub record Fetched (q i : ℕ) (p p' : Pool T) : Type 0 where
    pub valid : IsValid p'
    pub next : IsNext p p'
    -- A page that is in the pool stays in its frame, and one that is not takes a frame that is free.
    pub found : (k : ℕ) → table.find q p.page_table ≡ some k → i ≡ k
    pub taken : table.find q p.page_table ≡ none → IsFree i p
    pub ids : p'.next_page_id ≡ p.next_page_id
    pub mapping :
        (r : ℕ)
        → table.find r p'.page_table ≡ elim (table.find q p.page_table) [
          | none ↦
              if q == r
              then some i
              else if is_named r (p.pages i).page_id
              then none
              else table.find r p.page_table
          | some _ ↦ table.find r p.page_table
        ]
    pub frame : (p'.pages i).page_id ≡ some q
    pub pinned :
        (p'.pages i).pin_count
        ≡ elim (table.find q p.page_table) [ none ↦ 1 | some _ ↦ (p.pages i).pin_count + 1 ]
    pub bytes :
        (p'.pages i).bytes
        ≡ elim (table.find q p.page_table) [ none ↦ p'.disk q | some _ ↦ (p.pages i).bytes ]
    pub others : (j : ℕ) → (j == i) ≡ false → p'.pages j ≡ p.pages j
    pub disk :
        p'.disk
        ≡ elim (table.find q p.page_table) [ none ↦ flushed (p.pages i) p.disk | some _ ↦ p.disk ]

  repinned : ℕ → Pool T → Pool T
  repinned i p = record p {
    pages = set_page i (record (p.pages i) { pin_count = (p.pages i).pin_count + 1 }) p.pages;
  }

  repinned_page :
      (i : ℕ) (p : Pool T) (j : ℕ)
      → (repinned i p).pages j ≡ (
          if j == i
          then record (p.pages i) { pin_count = (p.pages i).pin_count + 1 }
          else p.pages j)
  unfolding repinned set_page
  repinned_page i p j = refl

  module _ (p : Pool T) (v : IsValid p) (busy : p.replacer.current_timestamp + 1 < 2 ^ 64) where
    -- Of a NewPgImp in a valid pool whose clock has a step left and whose page ids are not used up,
    -- one of two things holds. Either the free list is empty, no frame may be evicted, and it
    -- returns null and changes nothing, the next page id included; or it takes the next page id;
    -- the new page is zero, clean and pinned once in the frame it returns, and the invariant holds.
    pub new_pg-Loaded :
        p.next_page_id < 2 ^ 31
        → ((p.free_list ≡ []) × (size p.replacer ≡ 0) × (new_pg p ≡ ok (p, none)))
          ⊎ ((i : ℕ) × (p' : Pool T) × (new_pg p ≡ ok (p', some (i, p.next_page_id)))
              × (i < p.pool_size)
              × (p'.next_page_id ≡ p.next_page_id + 1)
              × IsFree i p
              × Loaded i p.next_page_id zeros p p')
    unfolding new_pg allocate
    new_pg-Loaded small = elim (take_frame-IsHeld p v) [
      | inl (empty, none_left, run) ↦ inl (empty, none_left, ap allocate run)
      | inr (i, r, l, run, held, inside, free, time) ↦
          let p₁ : Pool T = record p {
            replacer = r;
            free_list = l;
            next_page_id = p.next_page_id + 1;
          } in
          let held₁ : IsHeld (some i) p₁ = record {
            replacer = held.replacer;
            limit = held.limit;
            room = held.room;
            shared = held.shared;
            mapped = held.mapped;
            pins = held.pins;
          } in
          let (p', go, id, a) =
            load-Loaded false i p.next_page_id p₁ held₁ small inside (omega (arith, time, busy)) in
          inr (
            i,
            p',
            ap allocate run ∙ rw (allocate, go) refl,
            inside,
            id,
            free,
            record {
              valid = a.valid;
              next = (omega (arith, a.next, time), omega (arith, id));
              mapping = a.mapping;
              frame = a.frame;
              others = a.others;
              disk = a.disk;
            },
          )
    ]

    -- A page that is in the pool is pinned once more.
    repinned-IsValid :
        (i : ℕ) (r : Replacer)
        → Pinned i p.replacer r
        → is_known i p.replacer ≡ true
        → IsValid (record (repinned i p) { replacer = r })
    unfolding repinned
    repinned-IsValid i r pinned known = record {
      replacer = pinned.valid;
      limit = pinned.limit ∙ v.limit;
      room = ground (arith, v.room, pinned.total, known);
      shared = λ j. ground (arith, v.shared j, pinned.known j, v.shared i, known, pinned.known i);
      mapped = λ q' j m.
          let (known', at) = v.mapped q' j m in
          (inl (ground (arith, pinned.known j, known')), ground (arith, repinned_page i p j, at));
      pins = λ j k. ground (arith, pinned.known j, pinned.going j, repinned_page i p j, v.pins j);
    }

    pub resident-Fetched :
        (q i : ℕ)
        → table.find q p.page_table ≡ some i
        → (p' : Pool T) × (fetch_pg q p ≡ ok (p', some i)) × Fetched q i p p'
    unfolding fetch_pg
    resident-Fetched q i e =
        let (known_or, at) = v.mapped q i e in
        let known : is_known i p.replacer ≡ true = ground (arith, known_or) in
        let (r, run, pinned) =
          pin-Pinned i p v.replacer busy (ground (arith, v.shared i, known, v.limit))
            (λ u. absurd (ground (arith, u, known))) in
        (
          record (repinned i p) { replacer = r },
          rw (fetch_pg, e, run) (unfold repinned in refl),
          record {
            valid = repinned-IsValid i r pinned known;
            next = unfold repinned in (omega (arith, pinned.time), omega arith);
            found = λ k at'. ground (arith, e, at');
            taken = λ absent. absurd (ground (arith, e, absent));
            ids = unfold repinned in refl;
            mapping = λ r. rw e (unfold repinned in refl);
            frame = ground (arith, repinned_page i p i, at);
            pinned = rw e (ground (arith, repinned_page i p i));
            bytes = rw e (ground (arith, repinned_page i p i));
            others = λ j ne. ground (arith, repinned_page i p j);
            disk = rw e (unfold repinned in refl);
          },
        )

    -- A page that is not is read into a frame.
    pub absent-Loaded :
        (q : ℕ)
        → q < 2 ^ 31
        → table.find q p.page_table ≡ none
        → ((p.free_list ≡ []) × (size p.replacer ≡ 0) × (fetch_pg q p ≡ ok (p, none)))
          ⊎ ((i : ℕ) × (p' : Pool T) × (fetch_pg q p ≡ ok (p', some i))
              × IsFree i p
              × (p'.next_page_id ≡ p.next_page_id)
              × Loaded i q (flushed (p.pages i) p.disk q) p p')
    unfolding fetch_pg read_in
    absent-Loaded q small e = elim (take_frame-IsHeld p v) [
      | inl (empty, none_left, run) ↦ inl (empty, none_left, rw (fetch_pg, e) (ap (read_in q) run))
      | inr (i, r, l, run, held, inside, free, time) ↦
          let p₁ : Pool T = record p { replacer = r; free_list = l } in
          let (p', go, id, a) =
            load-Loaded true i q p₁ held small inside (omega (arith, time, busy)) in
          inr (
            i,
            p',
            rw (fetch_pg, e) (ap (read_in q) run ∙ rw (read_in, go) refl),
            free,
            id,
            record {
              valid = a.valid;
              next = (omega (arith, a.next, time), omega (arith, a.next));
              mapping = a.mapping;
              frame = a.frame;
              others = a.others;
              disk = a.disk;
            },
          )
    ]

    -- The two outcomes of `FetchPgImp`.
    pub fetch_pg-cases :
        (q : ℕ)
        → q < 2 ^ 31
        → ((table.find q p.page_table ≡ none)
            × (p.free_list ≡ [])
            × (size p.replacer ≡ 0)
            × (fetch_pg q p ≡ ok (p, none)))
          ⊎ ((i : ℕ) × (p' : Pool T) × (fetch_pg q p ≡ ok (p', some i)) × Fetched q i p p')
    fetch_pg-cases q small = elim (Option-cases (table.find q p.page_table)) [
      | inr (i, e) ↦ let (p', run, fetched) = resident-Fetched q i e in inr (i, p', run, fetched)
      | inl e ↦ elim (absent-Loaded q small e) [
        | inl (empty, none_left, run) ↦ inl (e, empty, none_left, run)
        | inr (i, p', run, free, id, a) ↦ inr (
          i,
          p',
          run,
          record {
            valid = a.valid;
            next = a.next;
            found = λ k at. absurd (ground (arith, e, at));
            taken = λ _. free;
            ids = id;
            mapping = λ r. rw e (a.mapping r);
            frame = ap (λ (f : Page). f.page_id) a.frame;
            pinned = rw e (ap (λ (f : Page). f.pin_count) a.frame);
            bytes =
                rw e
                  (ap (λ (f : Page). f.bytes) a.frame ∙ ap (λ (d : ℕ → ℕ → ℕ). d q) (sym a.disk));
            others = a.others;
            disk = rw e a.disk;
          },
        )
      ]
    ]
