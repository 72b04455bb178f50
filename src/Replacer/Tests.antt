-- ===== src/Replacer/Tests.antt =====
-- Runs of the replacer of src/buffer/lru_k_replacer.cpp.
use cmu.Common.{ℕ, ◌≤◌, ◌<◌, ◌≡◌, refl, ◌⊎◌, true, Option, none, some, [], ◌∷◌, arith}
use cmu.Common.Dict.{get, put, drop_key}
use cmu.Replacer.{
  throws, deadlock, Replacer, Outcome, ok, throws, deadlock, new, inc, dec, size, unlink,
  remove_from_list, insert_to_list_head, scan, forget, evict, touch, promote, record_access,
}
use cmu.Replacer.Valid.{IsValid, new-IsValid}
use cmu.Replacer.Evict.{IsVictim, Evicted, evict_lem}
use cmu.Replacer.Record.{Accessed, record_access_lem, record_access-IsValid}

infixl 5 ◌>>=◌
abbrev ◌>>=◌ : {A B : Type 0} → Outcome A → (A → Outcome B) → Outcome B
ok a >>= f = f a
throws >>= f = throws
deadlock >>= f = deadlock

abbrev start : Replacer
start = new 3 2

-- Frames 1 and 2, each with one access.
abbrev one_frame : Replacer
one_frame = record {
  current_timestamp = 1;
  curr_size = 1;
  replacer_size = 3;
  k = 2;
  history = 1 ∷ [];
  lru = [];
  tot_size = 1;
  mp = (1, record { timestamps = 1 ∷ []; record_cnt = 1; evictable = true }) ∷ [];
}

abbrev two_frames : Replacer
two_frames = record one_frame {
  current_timestamp = 2;
  curr_size = 2;
  history = 1 ∷ 2 ∷ [];
  tot_size = 2;
  mp =
      (1, record { timestamps = 1 ∷ []; record_cnt = 1; evictable = true })
      ∷ (2, record { timestamps = 2 ∷ []; record_cnt = 1; evictable = true })
      ∷ [];
}

-- After another access to frame 1, frame 2 is alone in the history list, and goes first.
abbrev session : Outcome (Option ℕ)
session = do a ← record_access 1 start; b ← record_access 2 a; c ← record_access 1 b; ok (evict c).1

session_runs : session ≡ ok (some 2)
unfolding new inc dec size unlink remove_from_list insert_to_list_head scan forget evict touch
    promote record_access get put drop_key
session_runs = refl

start-IsValid : IsValid start
start-IsValid = new-IsValid 3 2 (omega arith) (omega arith)

one_frame-IsValid : IsValid one_frame
unfolding new inc insert_to_list_head touch promote record_access get put
one_frame-IsValid = record_access-IsValid start start-IsValid 1 (omega arith) one_frame refl

two_frames-IsValid : IsValid two_frames
unfolding inc insert_to_list_head touch promote record_access get put
two_frames-IsValid =
    record_access-IsValid one_frame one_frame-IsValid 2 (omega arith) two_frames refl

evict_lem_example :
    ((size two_frames ≡ 0) × (evict two_frames ≡ (two_frames, none)))
    ⊎ ((i : ℕ) × (evict two_frames ≡ (forget i two_frames, some i))
        × IsVictim two_frames i
        × Evicted two_frames i (forget i two_frames))
evict_lem_example = evict_lem two_frames two_frames-IsValid

record_access_lem_example :
    ((two_frames.replacer_size < 1) × (record_access 1 two_frames ≡ throws))
    ⊎ ((1 ≤ two_frames.replacer_size)
        × (get 1 two_frames.mp ≡ none)
        × (two_frames.tot_size ≡ two_frames.replacer_size)
        × (record_access 1 two_frames ≡ deadlock))
    ⊎ ((r' : Replacer) × (1 ≤ two_frames.replacer_size)
        × (record_access 1 two_frames ≡ ok r')
        × Accessed two_frames 1 3 r')
record_access_lem_example = record_access_lem two_frames two_frames-IsValid 1 (omega arith)
