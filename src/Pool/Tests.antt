-- ===== src/Pool/Tests.antt =====
-- Runs of the buffer pool of src/buffer/buffer_pool_manager_instance.cpp, with an association list
-- for the page table.
use cmu.Common.{
  ℕ, ◌+◌, ◌*◌, ◌%◌, ◌^◌, ◌<◌, ◌≡◌, refl, sym, ap, subst, ==_iff, ◌⊎◌, true, false, Option, none,
  some, List, [], ◌∷◌, arith, if◌then◌else◌, ◌==◌,
}
use cmu.Common.Dict.{Dict, get, put, drop_key, get-put, get-drop_key}
use cmu.Replacer
use cmu.Replacer.{Outcome, ok, throws, deadlock, size}
use cmu.Pool.{Pool, ◌>>=◌, new, new_pg, unpin_pg, flush_all_pgs, delete_pg, range, zeros}
use cmu.Pool.Table.{PageTable}
use cmu.Pool.Valid.{IsValid, new-IsValid}
use cmu.Pool.Frames.{IsFree}
use cmu.Pool.Load.{Loaded}
use cmu.Pool.Fetch.{new_pg-Loaded}
use cmu.Pool.Unpin.{Unpinned, unpin_pg_lem}
use cmu.Pool.Flush.{Flushing, IsSaved, flush_all_pgs-IsSaved}
use cmu.Pool.Delete.{Deleted, delete_pg_lem}
use cmu.Pool.Run.{Call, new_page, fetch_page, unpin_page, delete_page, run, run_safe}
use cmu.Hash.Buckets.{HashKey}
use cmu.Hash.{insert}
use cmu.Pool.HashTable.{PageId, insert_id, same_id, Valids, hash_table, hash_table-run_safe}
use cmu.Pool.View.{IsTidy, content}
use cmu.Pool.Content.{new_pg-content}

instance abbrev dict_table : PageTable (Dict ℕ)
dict_table = record {
  new = [];
  find = get;
  insert = put;
  remove = drop_key;
  find-new = λ q. unfold get in refl;
  find-insert = λ k i t q small. get-put k q i t;
  find-remove = λ k t q. get-drop_key k q t;
}

-- Byte `j` of page `q` is `100 * q + j`.
abbrev disk : ℕ → ℕ → ℕ
disk q j = 100 * q + j

abbrev start : Pool (Dict ℕ)
start = new 2 2 disk

abbrev see : {A : Type 0} → Outcome (Pool (Dict ℕ)) → (Pool (Dict ℕ) → A) → Option A
see (ok p) f = some (f p)
see throws f = none
see deadlock f = none

-- Page 7 is read, written, and unpinned.
abbrev write : ℕ → ℕ → Pool (Dict ℕ) → Pool (Dict ℕ)
write i b p = record p {
  pages = λ j. if j == i then record (p.pages i) { bytes = λ x. b } else p.pages j;
}

-- A dirty page is deleted, and read again into the other frame; when the first frame is used for a
-- new page, the pool writes zeros over the page on the disk, and loses it in the table.
abbrev deleted_page : Outcome (Pool (Dict ℕ))
deleted_page = do
  p ←
      run
        (fetch_page 7 (omega arith)
          ∷ fetch_page 8 (omega arith)
          ∷ unpin_page 7 true
          ∷ unpin_page 8 false
          ∷ [])
        start
  q ← run (delete_page 8 ∷ delete_page 7 ∷ fetch_page 7 (omega arith) ∷ []) (write 0 5 p)
  run (new_page ∷ []) q

deleted_page_lost :
    see {A = ℕ × Option ℕ} deleted_page (λ p. (p.disk 7 3, get 7 p.page_table)) ≡ some (0, none)
unfolding new range run get put drop_key Replacer.record_access Replacer.new Replacer.touch
    Replacer.inc Replacer.set_evictable Replacer.promote Replacer.remove Replacer.forget
deleted_page_lost = refl

-- Page 7 is in frame 0, not pinned and dirty, and page 8 in frame 1, pinned.
abbrev calls : List Call
calls = fetch_page 7 (omega arith) ∷ fetch_page 8 (omega arith) ∷ unpin_page 7 true ∷ []

abbrev pool_of : Outcome (Pool (Dict ℕ)) → Pool (Dict ℕ)
pool_of (ok p) = p
pool_of throws = start
pool_of deadlock = start

abbrev used : Pool (Dict ℕ)
used = pool_of (run calls start)

used-IsValid : IsValid used
used-IsValid =
    let (p, e, v) =
      run_safe {T = Dict ℕ} 2 2 disk calls (omega arith) (omega arith) (omega arith) in
    subst IsValid (sym (ap pool_of e)) v

used_busy : used.replacer.current_timestamp + 1 < 2 ^ 64
unfolding new range run get put drop_key Replacer.record_access Replacer.new Replacer.touch
    Replacer.inc Replacer.set_evictable Replacer.promote Replacer.remove Replacer.forget
used_busy = omega arith

used_small : used.next_page_id < 2 ^ 31
unfolding new range run get put drop_key Replacer.record_access Replacer.new Replacer.touch
    Replacer.inc Replacer.set_evictable Replacer.promote Replacer.remove Replacer.forget
used_small = omega arith

run_safe_example : (p : Pool (Dict ℕ)) × (run calls start ≡ ok p) × IsValid p
run_safe_example = run_safe 2 2 disk calls (omega arith) (omega arith) (omega arith)

start-IsValid : IsValid start
start-IsValid = new-IsValid 2 2 disk (omega arith) (omega arith)

new_pg-Loaded_example :
    ((used.free_list ≡ []) × (size used.replacer ≡ 0) × (new_pg used ≡ ok (used, none)))
    ⊎ ((i : ℕ) × (p' : Pool (Dict ℕ)) × (new_pg used ≡ ok (p', some (i, used.next_page_id)))
        × (i < used.pool_size)
        × (p'.next_page_id ≡ used.next_page_id + 1)
        × IsFree i used
        × Loaded i used.next_page_id zeros used p')
new_pg-Loaded_example = new_pg-Loaded used used-IsValid used_busy used_small

unpin_pg_lem_example :
    ((get 8 used.page_table ≡ none) × (unpin_pg (some 8) true used ≡ (used, false)))
    ⊎ ((i : ℕ) × (get 8 used.page_table ≡ some i)
        × ((used.pages i).pin_count ≡ 0)
        × (unpin_pg (some 8) true used ≡ (used, false)))
    ⊎ ((i : ℕ) × (p' : Pool (Dict ℕ)) × (get 8 used.page_table ≡ some i)
        × (unpin_pg (some 8) true used ≡ (p', true))
        × Unpinned i true used p')
unpin_pg_lem_example = unpin_pg_lem used used-IsValid 8 true

delete_pg_lem_example :
    ((get 7 used.page_table ≡ none) × (delete_pg (some 7) used ≡ ok (used, true)))
    ⊎ ((i : ℕ) × (get 7 used.page_table ≡ some i)
        × (0 < (used.pages i).pin_count)
        × (delete_pg (some 7) used ≡ ok (used, false)))
    ⊎ ((i : ℕ) × (p' : Pool (Dict ℕ)) × (get 7 used.page_table ≡ some i)
        × ((used.pages i).pin_count ≡ 0)
        × (delete_pg (some 7) used ≡ ok (p', true))
        × Deleted 7 i used p')
delete_pg_lem_example = delete_pg_lem used used-IsValid 7

flush_all_pgs-IsSaved_example :
    Flushing used (flush_all_pgs used)
    × ((q i : ℕ) → get q used.page_table ≡ some i → IsSaved q i (flush_all_pgs used))
flush_all_pgs-IsSaved_example = flush_all_pgs-IsSaved used used-IsValid

start-IsTidy : IsTidy start
unfolding new get
start-IsTidy = record {
  named = λ q i e. absurd (ground (arith, e));
  clean = λ q i m c n. absurd (ground (arith, m));
}

new_pg-content_example :
    (new_pg start ≡ ok (start, none))
    ⊎ ((i : ℕ) × (p' : Pool (Dict ℕ)) × (new_pg start ≡ ok (p', some (i, start.next_page_id)))
        × IsTidy p'
        × ((r : ℕ) → content r p' ≡ (if start.next_page_id == r then zeros else content r start)))
unfolding new Replacer.new get
new_pg-content_example =
    new_pg-content start start-IsValid start-IsTidy (omega arith) (omega arith) refl

-- Page ids that are their own hash.
instance abbrev page_id_key : HashKey PageId
page_id_key = record {
  equal = λ q r. q.id == r.id;
  hash = λ q. q.id;
  equal_iff = λ q r. (
    λ e. same_id q r ((==_iff q.id r.id).0 e),
    λ e. (==_iff q.id r.id).1 (ap (λ (x : PageId). x.id) e),
  );
}

ids_apart : (q r : PageId) → q.id % 2 ^ 31 ≡ r.id % 2 ^ 31 → q ≡ r
ids_apart q r e = same_id q r (omega (arith, e, q.small, r.small))

instance abbrev ids_table : PageTable Valids
ids_table = hash_table 31 ids_apart

hash_table-run_safe_example :
    ((q : PageId) (i : ℕ) (t : Valids)
      → insert 32 q i t.table ≡ some (insert_id 31 ids_apart q i t.table))
    × ((p : Pool Valids) × (run calls (new 2 2 disk) ≡ ok p) × IsValid p)
hash_table-run_safe_example =
    hash_table-run_safe 31 ids_apart 2 2 disk calls (omega arith) (omega arith) (omega arith)
