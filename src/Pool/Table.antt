-- ===== src/Pool/Table.antt =====
-- What the buffer pool asks of its page table, `ExtendibleHashTable<page_id_t, frame_id_t>`. Page ids
-- are non-negative values of an `int32_t`.
use cmu.Common.{ℕ, ◌^◌, ◌<◌, ◌≡◌, Option, none, some, if◌then◌else◌, ◌==◌}

pub record PageTable (T : Type 0) : Type 0 where
  pub new : T
  pub find : ℕ → T → Option ℕ
  pub insert : ℕ → ℕ → T → T
  pub remove : ℕ → T → T
  pub find-new : (q : ℕ) → find q new ≡ none
  pub find-insert :
      (k i : ℕ) (t : T) (q : ℕ)
      → k < 2 ^ 31
      → find q (insert k i t) ≡ (if k == q then some i else find q t)
  pub find-remove :
      (k : ℕ) (t : T) (q : ℕ) → find q (remove k t) ≡ (if k == q then none else find q t)
