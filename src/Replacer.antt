-- ===== src/Replacer.antt =====
-- The LRU-K replacer of src/buffer/lru_k_replacer.cpp. Each operation runs under `latch_` as one
-- step. A linked list between its two sentinels is the list of its frame ids, from the tail's end,
-- where the victims are looked for, to the head's end, where frames are put in. Frame ids are not
-- negative, and the size stands for an `int` in the test of `RecordAccess`.
pub mod Frames
pub mod Valid
pub mod Evict
pub mod Access
pub mod Record
pub mod Flags
mod Tests
use cmu.Common.{
  ℕ, ◌+◌, ◌-◌, ◌%◌, ◌^◌, Bool, true, false, not, Option, none, some, List, [], ◌∷◌, ◌++◌,
  if◌then◌else◌, ◌==◌, leb, ltb, length,
}
use cmu.Common.Dict.{Dict, get, put, drop_key}

-- `LRUKReplacer::Frame`; the id is its key in `mp_`.
pub record Frame : Type 0 where
  pub timestamps : List ℕ
  pub record_cnt : ℕ
  pub evictable : Bool

pub record Replacer : Type 0 where
  pub current_timestamp : ℕ
  pub curr_size : ℕ
  pub replacer_size : ℕ
  pub k : ℕ
  pub history : List ℕ
  pub lru : List ℕ
  pub tot_size : ℕ
  pub mp : Dict Frame

-- `size_t` counters.
abbrev pub size_max : ℕ
size_max = 2 ^ 64

unfoldable pub inc : ℕ → ℕ
inc n = (n + 1) % 2 ^ 64

unfoldable pub dec : ℕ → ℕ
dec n = (n + (2 ^ 64 - 1)) % 2 ^ 64

-- A call throws, or waits for ever for a latch that its own thread holds.
pub data Outcome (A : Type 0) : Type 0 where
  ok : A → Outcome A
  throws : Outcome A
  deadlock : Outcome A

unfoldable pub new : ℕ → ℕ → Replacer
new num_frames k = record {
  current_timestamp = 0;
  curr_size = 0;
  replacer_size = num_frames;
  k = k;
  history = [];
  lru = [];
  tot_size = 0;
  mp = [];
}

-- `Frame(frame_id)`.
abbrev pub fresh_frame : Frame
fresh_frame = record { timestamps = []; record_cnt = 0; evictable = true }

unfoldable pub size : Replacer → ℕ
size r = r.curr_size

-- `RemoveFromList` in the list that holds the frame.
unfoldable pub unlink : ℕ → List ℕ → List ℕ
unlink i [] = []
unlink i (j ∷ l) = if j == i then l else j ∷ unlink i l

unfoldable pub remove_from_list : ℕ → Replacer → Replacer
remove_from_list i r = record r { history = unlink i r.history; lru = unlink i r.lru }

-- `InsertToListHead`.
unfoldable pub insert_to_list_head : ℕ → List ℕ → List ℕ
insert_to_list_head i l = l ++ i ∷ []

abbrev pub is_evictable : Option Frame → Bool
is_evictable none = false
is_evictable (some f) = f.evictable

-- The loops of `Evict`: from the tail to the first frame that may go.
unfoldable pub scan : List ℕ → Dict Frame → Option ℕ
scan [] mp = none
scan (i ∷ l) mp = if is_evictable (get i mp) then some i else scan l mp

-- What both loops of `Evict`, and `Remove`, do with the frame.
unfoldable pub forget : ℕ → Replacer → Replacer
unfolding remove_from_list unlink dec
forget i r = record (remove_from_list i r) {
  mp = drop_key i r.mp;
  tot_size = dec r.tot_size;
  curr_size = dec r.curr_size;
}

unfoldable pub evict : Replacer → Replacer × Option ℕ
evict r = if size r == 0 then (r, none) else elim (scan r.history r.mp) [
  | some i ↦ (forget i r, some i)
  | none ↦ elim (scan r.lru r.mp) [ some i ↦ (forget i r, some i) | none ↦ (r, none) ]
]

-- The frame with this access written down: the queue of times is as long as `k` at most.
unfoldable pub touch : ℕ → ℕ → Frame → Frame
touch k now f = record f {
  timestamps =
      (if length f.timestamps == k
        then elim f.timestamps [ [] ↦ [] | x ∷ xs ↦ xs ]
        else f.timestamps)
      ++ now ∷ [];
  record_cnt = inc f.record_cnt;
}

-- The end of `RecordAccess`: a frame with `k` accesses goes to the head of the second list.
unfoldable pub promote : ℕ → ℕ → Replacer → Replacer
promote i cnt r =
    if leb r.k cnt
    then record (remove_from_list i r) { lru = insert_to_list_head i (remove_from_list i r).lru }
    else r

-- A full replacer calls `Evict` under its own latch, and the mutex is not recursive.
unfoldable pub record_access : ℕ → Replacer → Outcome Replacer
record_access i r =
    if ltb r.replacer_size i
    then throws
    else let now = inc r.current_timestamp in
      let p = touch r.k now (elim (get i r.mp) [ none ↦ fresh_frame | some f ↦ f ]) in
      let r₁ = record r { current_timestamp = now; mp = put i p r.mp } in
      if p.record_cnt == 1
      then if r.tot_size == r.replacer_size
        then deadlock
        else ok (
            promote i p.record_cnt (record r₁ {
              history = insert_to_list_head i r.history;
              curr_size = inc r.curr_size;
              tot_size = inc r.tot_size;
            }))
      else ok (promote i p.record_cnt r₁)

unfoldable pub set_evictable : ℕ → Bool → Replacer → Replacer
set_evictable i b r = elim (get i r.mp) [
  | none ↦ r
  | some p ↦
      if p.evictable
      then if b then r else record r {
        curr_size = dec r.curr_size;
        mp = put i (record p { evictable = false }) r.mp;
      }
      else if b
      then record r { curr_size = inc r.curr_size; mp = put i (record p { evictable = true }) r.mp }
      else r
]

unfoldable pub remove : ℕ → Replacer → Outcome Replacer
remove i r = elim (get i r.mp) [
  | none ↦ ok r
  | some p ↦ if not p.evictable then throws else ok (forget i r)
]
