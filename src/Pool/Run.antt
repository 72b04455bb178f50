-- ===== src/Pool/Run.antt =====
-- Sequences of calls of the buffer pool. A call holds `latch_` from its start to its end, so that
-- what threads do together is a sequence of calls; only `FlushAllPgsImp`, which takes it anew for each
-- page, is one step here and several there.
use cmu.Common.{
  ℕ, ◌+◌, ◌^◌, ◌≤◌, ◌<◌, ◌≡◌, refl, ap, inl, inr, Bool, some, List, [], ◌∷◌, arith, length,
}
use cmu.Replacer
use cmu.Replacer.{Replacer, Outcome, ok, throws, deadlock}
use cmu.Pool.{Pool, ◌>>=◌, new, new_pg, fetch_pg, unpin_pg, flush_pg, flush_all_pgs, delete_pg}
use cmu.Pool.Table.{PageTable}
use cmu.Pool.Valid.{IsValid, IsNext, new-IsValid}
use cmu.Pool.Fetch.{new_pg-Loaded, fetch_pg-cases}
use cmu.Pool.Unpin.{unpin_pg_lem}
use cmu.Pool.Flush.{Flushing, flush_pg_lem, flush_all_pgs-IsSaved}
use cmu.Pool.Delete.{delete_pg_lem}

-- The calls; page ids are those of an `int32_t` that is not negative.
pub data Call : Type 0 where
  new_page : Call
  fetch_page : (q : ℕ) → q < 2 ^ 31 → Call
  unpin_page : ℕ → Bool → Call
  flush_page : ℕ → Call
  flush_all_pages : Call
  delete_page : ℕ → Call

module _ {T : Type 0} ⦃table : PageTable T⦄ where
  -- The pool after a call, whatever the call returned.
  abbrev pub state : {A : Type 0} → Outcome (Pool T × A) → Outcome (Pool T)
  state (ok (p, a)) = ok p
  state throws = throws
  state deadlock = deadlock

  unfoldable pub step : Call → Pool T → Outcome (Pool T)
  unfolding new_pg fetch_pg unpin_pg flush_pg flush_all_pgs delete_pg
  step new_page p = state (new_pg p)
  step (fetch_page q small) p = state (fetch_pg q p)
  step (unpin_page q b) p = ok (unpin_pg (some q) b p).0
  step (flush_page q) p = ok (flush_pg (some q) p).0
  step flush_all_pages p = ok (flush_all_pgs p)
  step (delete_page q) p = state (delete_pg (some q) p)

  unfoldable pub run : List Call → Pool T → Outcome (Pool T)
  unfolding step
  run [] p = ok p
  run (c ∷ calls) p = step c p >>= run calls

  abbrev returned : Pool T × Bool → Outcome (Pool T)
  returned (p, b) = ok p

  still : (p : Pool T) → IsNext p p
  still p = (omega arith, omega arith)

  Flushing-IsNext : (p p' : Pool T) → Flushing p p' → IsNext p p'
  Flushing-IsNext p p' a =
      (omega (arith, ap (λ (r : Replacer). r.current_timestamp) a.next.0), omega (arith, a.next.1))

  step-IsValid :
      (c : Call) (p : Pool T)
      → IsValid p
      → p.replacer.current_timestamp + 1 < 2 ^ 64
      → p.next_page_id < 2 ^ 31
      → (p' : Pool T) × (step c p ≡ ok p') × IsValid p' × IsNext p p'
  unfolding step
  step-IsValid new_page p v busy small = elim (new_pg-Loaded p v busy small) [
    | inl (empty, none_left, e) ↦ (p, ap state e, v, still p)
    | inr (i, p', e, inside, id, free, a) ↦
        (p', ap state e, a.valid, (omega (arith, a.next), omega (arith, id)))
  ]
  step-IsValid (fetch_page q fits) p v busy small = elim (fetch_pg-cases p v busy q fits) [
    | inl (missing, empty, none_left, e) ↦ (p, ap state e, v, still p)
    | inr (i, p', e, a) ↦ (p', ap state e, a.valid, a.next)
  ]
  step-IsValid (unpin_page q b) p v busy small = elim (unpin_pg_lem p v q b) [
    | inl (m, e) ↦ (p, ap returned e, v, still p)
    | inr (inl (i, m, none_left, e)) ↦ (p, ap returned e, v, still p)
    | inr (inr (i, p', m, e, a)) ↦ (p', ap returned e, a.valid, a.next)
  ]
  step-IsValid (flush_page q) p v busy small = elim (flush_pg_lem p v q) [
    | inl (m, e) ↦ (p, ap returned e, v, still p)
    | inr (i, p', m, e, a, saved) ↦ (p', ap returned e, a.valid, Flushing-IsNext p p' a)
  ]
  step-IsValid flush_all_pages p v busy small =
      let (a, saved) = flush_all_pgs-IsSaved p v in
      (flush_all_pgs p, refl, a.valid, Flushing-IsNext p (flush_all_pgs p) a)
  step-IsValid (delete_page q) p v busy small = elim (delete_pg_lem p v q) [
    | inl (m, e) ↦ (p, ap state e, v, still p)
    | inr (inl (i, m, pinned, e)) ↦ (p, ap state e, v, still p)
    | inr (inr (i, p', m, idle, e, a)) ↦ (p', ap state e, a.valid, a.next)
  ]

  run-IsValid :
      (calls : List Call) (p : Pool T)
      → IsValid p
      → p.replacer.current_timestamp + length calls < 2 ^ 64
      → p.next_page_id + length calls ≤ 2 ^ 31
      → (p' : Pool T) × (run calls p ≡ ok p') × IsValid p'
  unfolding run
  run-IsValid [] p v busy small = (p, refl, v)
  run-IsValid (c ∷ calls) p v busy small =
      let (p₁, e, v₁, next) = step-IsValid c p v (omega (arith, busy)) (omega (arith, small)) in
      let (p', e', v') =
        run-IsValid calls p₁ v₁ (omega (arith, busy, next)) (omega (arith, small, next)) in
      (p', rw (run, e) e', v')

  -- From a new buffer pool of less than 2 ^ 31 frames with k > 0, every sequence of at most 2 ^ 31
  -- calls returns: none throws or waits for its own latch, and the invariant holds at the end, so
  -- that page table, free list, replacer and pin counts agree.
  pub run_safe :
      (n k : ℕ) (disk : ℕ → ℕ → ℕ) (calls : List Call)
      → 0 < k
      → n < 2 ^ 31
      → length calls ≤ 2 ^ 31
      → (p : Pool T) × (run calls (new n k disk) ≡ ok p) × IsValid p
  unfolding new Replacer.new
  run_safe n k disk calls positive bounded few =
      run-IsValid calls (new n k disk) (new-IsValid n k disk positive bounded) (omega (arith, few))
        (omega (arith, few))
