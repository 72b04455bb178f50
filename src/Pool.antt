-- ===== src/Pool.antt =====
-- The buffer pool manager of src/buffer/buffer_pool_manager_instance.cpp, over the replacer and a
-- page table. Each operation runs under `latch_` as one step. The disk manager is a map from page
-- ids to contents: what is read is what was written last.
pub mod Table
pub mod Valid
pub mod Frames
pub mod Load
pub mod Fetch
pub mod Unpin
pub mod Flush
pub mod Delete
pub mod Run
pub mod View
pub mod Content
pub mod HashTable
mod Tests
use cmu.Common.{
  ℕ, zero, suc, ◌+◌, ◌-◌, ◌^◌, Bool, true, false, Option, none, some, List, [], ◌∷◌, ◌++◌,
  if◌then◌else◌, ◌==◌, ◌||◌, ltb,
}
use cmu.Replacer
use cmu.Replacer.{Replacer, Outcome, ok, throws, deadlock, evict, record_access, set_evictable}
use Table.{PageTable}

infixl 5 ◌>>=◌
abbrev pub ◌>>=◌ : {A B : Type 0} → Outcome A → (A → Outcome B) → Outcome B
ok a >>= f = f a
throws >>= f = throws
deadlock >>= f = deadlock

-- The class `Page`, a frame of the pool; the id is `none` where it is `INVALID_PAGE_ID`. The code has
-- an `int` for the pin count, which the model lets grow past 2 ^ 31.
pub record Page : Type 0 where
  pub bytes : ℕ → ℕ
  pub page_id : Option ℕ
  pub pin_count : ℕ
  pub is_dirty : Bool

pub record Pool (T : Type 0) : Type 0 where
  pub pool_size : ℕ
  pub next_page_id : ℕ
  pub pages : ℕ → Page
  pub page_table : T
  pub replacer : Replacer
  pub free_list : List ℕ
  pub disk : ℕ → ℕ → ℕ

-- `ResetMemory`.
abbrev pub zeros : ℕ → ℕ
zeros x = 0

unfoldable pub set_page : ℕ → Page → (ℕ → Page) → ℕ → Page
set_page i f pages j = if j == i then f else pages j

-- `WritePage`. A frame without a page id is never dirty.
unfoldable pub write_page : Option ℕ → (ℕ → ℕ) → (ℕ → ℕ → ℕ) → ℕ → ℕ → ℕ
write_page none bytes disk = disk
write_page (some q) bytes disk = λ r. if r == q then bytes else disk r

-- The frame ids from `i` on, `n` of them.
unfoldable pub range : ℕ → ℕ → List ℕ
range i zero = []
range i (suc n) = i ∷ range (i + 1) n

module _ {T : Type 0} ⦃table : PageTable T⦄ where
  unfoldable pub new : ℕ → ℕ → (ℕ → ℕ → ℕ) → Pool T
  unfolding range
  new pool_size replacer_k disk = record {
    pool_size = pool_size;
    next_page_id = 0;
    pages = λ i. record { bytes = zeros; page_id = none; pin_count = 0; is_dirty = false };
    page_table = table.new;
    replacer = Replacer.new pool_size replacer_k;
    free_list = range 0 pool_size;
    disk = disk;
  }

  -- A frame from the free list, or else a victim of the replacer.
  unfoldable pub take_from : List ℕ → Pool T → Pool T × Option ℕ
  take_from (i ∷ rest) p = (record p { free_list = rest }, some i)
  take_from [] p =
      let (replacer, victim) = evict p.replacer in (record p { replacer = replacer }, victim)

  unfoldable pub take_frame : Pool T → Pool T × Option ℕ
  unfolding take_from
  take_frame p = take_from p.free_list p

  -- What `RecordAccess` and `SetEvictable` do for a frame that is pinned.
  unfoldable pub pin : ℕ → Pool T → Outcome (Pool T)
  pin i p = do r ← record_access i p.replacer; ok (record p { replacer = set_evictable i false r })

  -- What `NewPgImp` and `FetchPgImp` do with the frame they got: the page in it is written back if it
  -- is dirty, and page `q` takes its place, read from the disk or zero. `disk q` is what `ReadPage`
  -- reads for ids below 2 ^ 19; above, its offset overflows. `INVALID_PAGE_ID` is not in the table, so
  -- that its removal changes nothing.
  unfoldable pub load : Bool → ℕ → ℕ → Pool T → Outcome (Pool T)
  unfolding set_page write_page pin
  load read i q p =
      let frame = p.pages i in
      let disk = if frame.is_dirty then write_page frame.page_id frame.bytes p.disk else p.disk in
      let unmapped : T = elim frame.page_id [
        | none ↦ p.page_table
        | some r ↦ table.remove r p.page_table
      ] in
      pin i (record p {
        disk = disk;
        page_table = table.insert q i unmapped;
        pages =
            set_page i
              (record {
                bytes = if read then disk q else zeros;
                page_id = some q;
                pin_count = 1;
                is_dirty = false;
              })
              p.pages;
      })

  -- The new page's id is allocated only once there is a frame for it.
  unfoldable pub allocate : Pool T × Option ℕ → Outcome (Pool T × Option (ℕ × ℕ))
  unfolding load
  allocate (p, none) = ok (p, none)
  allocate (p, some i) = do
    p₁ ← load false i p.next_page_id (record p { next_page_id = p.next_page_id + 1 })
    ok (p₁, some (i, p.next_page_id))

  -- `NewPgImp`: the frame and the id of the new page.
  unfoldable pub new_pg : Pool T → Outcome (Pool T × Option (ℕ × ℕ))
  unfolding take_frame allocate
  new_pg p = allocate (take_frame p)

  unfoldable pub read_in : ℕ → Pool T × Option ℕ → Outcome (Pool T × Option ℕ)
  unfolding load
  read_in q (p, none) = ok (p, none)
  read_in q (p, some i) = do p₁ ← load true i q p; ok (p₁, some i)

  -- `FetchPgImp` of a page id but `INVALID_PAGE_ID`: the frame of the page.
  unfoldable pub fetch_pg : ℕ → Pool T → Outcome (Pool T × Option ℕ)
  unfolding take_frame read_in pin set_page
  fetch_pg q p = elim (table.find q p.page_table) [
    | some i ↦ do
      p₁ ← pin i p
      let frame = p.pages i
      ok (
        record p₁ { pages = set_page i (record frame { pin_count = frame.pin_count + 1 }) p.pages },
        some i,
      )
    | none ↦ read_in q (take_frame p)
  ]

  -- `UnpinPgImp`.
  unfoldable pub unpin_pg : Option ℕ → Bool → Pool T → Pool T × Bool
  unfolding set_page
  unpin_pg none is_dirty p = (p, false)
  unpin_pg (some q) is_dirty p = elim (table.find q p.page_table) [
    | none ↦ (p, false)
    | some i ↦
        let frame = p.pages i in
        let left = frame.pin_count - 1 in
        if frame.pin_count == 0 then (p, false) else (
          record p {
            pages =
                set_page i
                  (record frame { pin_count = left; is_dirty = frame.is_dirty || is_dirty })
                  p.pages;
            replacer = if left == 0 then set_evictable i true p.replacer else p.replacer;
          },
          true,
        )
  ]

  -- `FlushPgImp`.
  unfoldable pub flush_pg : Option ℕ → Pool T → Pool T × Bool
  unfolding set_page write_page
  flush_pg none p = (p, false)
  flush_pg (some q) p = elim (table.find q p.page_table) [
    | none ↦ (p, false)
    | some i ↦
        let frame = p.pages i in
        (
          record p {
            disk = write_page (some q) frame.bytes p.disk;
            pages = set_page i (record frame { is_dirty = false }) p.pages;
          },
          true,
        )
  ]

  -- The loop of `FlushAllPgsImp` over the frames `frames`.
  unfoldable pub flush_frames : List ℕ → Pool T → Pool T
  unfolding flush_pg
  flush_frames [] p = p
  flush_frames (i ∷ frames) p = flush_frames frames (flush_pg (p.pages i).page_id p).0

  unfoldable pub flush_all_pgs : Pool T → Pool T
  unfolding flush_frames range
  flush_all_pgs p = flush_frames (range 0 p.pool_size) p

  -- `DeletePgImp`: the frame keeps the id of the page, and its dirty flag.
  unfoldable pub delete_pg : Option ℕ → Pool T → Outcome (Pool T × Bool)
  unfolding set_page
  delete_pg none p = ok (p, true)
  delete_pg (some q) p = elim (table.find q p.page_table) [
    | none ↦ ok (p, true)
    | some i ↦
        let frame = p.pages i in
        let emptied = record p { pages = set_page i (record frame { bytes = zeros }) p.pages } in
        if ltb 0 frame.pin_count then ok (p, false) else do
          r ← Replacer.remove i p.replacer
          ok (
            record emptied {
              replacer = r;
              page_table = table.remove q p.page_table;
              free_list = p.free_list ++ i ∷ [];
            },
            true,
          )
  ]
