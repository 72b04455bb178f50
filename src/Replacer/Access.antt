-- ===== src/Replacer/Access.antt =====
-- The steps of `RecordAccess`, and that they keep the invariant together.
use cmu.Common.{
  ℕ, ◌+◌, ◌^◌, ◌≤◌, ◌<◌, ◌≡◌, refl, inl, inr, false, none, some, List, [], ◌∷◌, ◌++◌, arith, ◌==◌,
  leb, length, length-append, Bool-cases,
}
use cmu.Common.Dict.{get, put, get-put}
use cmu.Replacer.Frames.{
  count, to_nat, evictables, count-append, count-unlink, length-unlink, evictables-append,
  evictables-unlink, evictables-put,
}
use cmu.Replacer.Valid.{IsValid, is_some}
use cmu.Replacer.{
  Frame, Replacer, inc, fresh_frame, unlink, remove_from_list, insert_to_list_head, touch, promote,
}

-- The invariant, but for the list that frame `i` should be in after its access.
pub record IsNearlyValid (i : ℕ) (p : Frame) (r : Replacer) : Type 0 where
  positive : 0 < r.k
  members : (j : ℕ) → count j r.history + count j r.lru ≡ to_nat (is_some (get j r.mp))
  total : r.tot_size ≡ length r.history + length r.lru
  roomy : r.tot_size ≤ r.replacer_size
  bounded : r.replacer_size < 2 ^ 31
  current : r.curr_size ≡ evictables r.mp r.history + evictables r.mp r.lru
  here : get i r.mp ≡ some p
  listed : leb r.k p.record_cnt ≡ false → count i r.lru ≡ 0
  counts : (0 < p.record_cnt) × (p.record_cnt ≤ r.current_timestamp) × (length p.timestamps ≤ r.k)
  accessed :
      (j : ℕ) (f : Frame)
      → (j == i) ≡ false
      → get j r.mp ≡ some f
      → (0 < f.record_cnt)
        × (f.record_cnt ≤ r.current_timestamp)
        × (leb r.k f.record_cnt ≡ (count j r.lru == 1))
        × (length f.timestamps ≤ r.k)
  clock : r.current_timestamp < 2 ^ 64

pub promote-IsValid :
    (i : ℕ) (p : Frame) (r : Replacer) → IsNearlyValid i p r → IsValid (promote i p.record_cnt r)
promote-IsValid i p r v = elim (Bool-cases (leb r.k p.record_cnt)) [
  | inr low ↦
      let same : promote i p.record_cnt r ≡ r = unfold promote in ground arith in
      rw same (record {
        positive = v.positive;
        members = v.members;
        total = v.total;
        roomy = v.roomy;
        bounded = v.bounded;
        current = v.current;
        accessed = λ j f e. ground (arith, v.accessed j f, v.listed, v.counts, v.here);
        clock = v.clock;
      })
  | inl high ↦
      let same : promote i p.record_cnt r
          ≡ record r { history = unlink i r.history; lru = unlink i r.lru ++ i ∷ [] } =
        unfold promote remove_from_list insert_to_list_head in ground arith in
      rw same (record {
        positive = v.positive;
        members = λ j. ground (
          arith,
          v.members j,
          v.here,
          count-unlink i j r.history,
          count-unlink i j r.lru,
          count-append i j (unlink i r.lru),
        );
        total = ground (
          arith,
          v.total,
          v.members i,
          v.here,
          length-unlink i r.history,
          length-unlink i r.lru,
          length-append (unlink i r.lru) (i ∷ []),
        );
        roomy = v.roomy;
        bounded = v.bounded;
        current = ground (
          arith,
          v.current,
          v.members i,
          v.here,
          evictables-unlink i r.mp r.history,
          evictables-unlink i r.mp r.lru,
          evictables-append i r.mp (unlink i r.lru),
        );
        accessed = λ j f e. ground (
          arith,
          v.accessed j f,
          v.members i,
          v.counts,
          v.here,
          count-unlink i j r.lru,
          count-append i j (unlink i r.lru),
        );
        clock = v.clock;
      })
]

pub touch_bounds :
    (k now : ℕ) (f : Frame)
    → 0 < k
    → f.record_cnt + 1 < 2 ^ 64
    → length f.timestamps ≤ k
    → ((touch k now f).record_cnt ≡ f.record_cnt + 1)
      × (length (touch k now f).timestamps ≤ k)
      × ((touch k now f).evictable ≡ f.evictable)
unfolding touch inc
touch_bounds k now f pos small short = (omega arith, times f.timestamps refl, refl)
  where
    times : (l : List ℕ) → f.timestamps ≡ l → length (touch k now f).timestamps ≤ k
    times [] e = rw e (ground arith)
    times (x ∷ l) e =
        rw e (ground (arith, length-append l (now ∷ []), length-append (x ∷ l) (now ∷ []), e))

module _ (r : Replacer) (v : IsValid r) (i : ℕ) (busy : r.current_timestamp + 1 < 2 ^ 64) where
  pub known-IsNearlyValid :
      (f : Frame)
      → get i r.mp ≡ some f
      → IsNearlyValid i (touch r.k (r.current_timestamp + 1) f) (record r {
        current_timestamp = (r.current_timestamp + 1);
        mp = put i (touch r.k (r.current_timestamp + 1) f) r.mp;
      })
  known-IsNearlyValid f e =
      let p = touch r.k (r.current_timestamp + 1) f in
      let a = v.accessed i f e in
      let b = touch_bounds r.k (r.current_timestamp + 1) f v.positive (omega (arith, a.1)) a.3 in
      record {
        positive = v.positive;
        members = λ j. ground (arith, get-put i j p r.mp, v.members j);
        total = v.total;
        roomy = v.roomy;
        bounded = v.bounded;
        current = ground (
          arith,
          b,
          v.members i,
          v.current,
          evictables-put i p r.mp r.history,
          evictables-put i p r.mp r.lru,
        );
        here = ground (arith, get-put i i p r.mp);
        listed = λ low. ground (arith, a, b, v.members i);
        counts = (ground (arith, b), ground (arith, a, b), b.1);
        accessed = λ j g ne h. ground (arith, get-put i j p r.mp, v.accessed j g);
        clock = busy;
      }

  pub new-IsNearlyValid :
      get i r.mp ≡ none
      → r.tot_size < r.replacer_size
      → IsNearlyValid i (touch r.k (r.current_timestamp + 1) fresh_frame) (record r {
        current_timestamp = (r.current_timestamp + 1);
        mp = put i (touch r.k (r.current_timestamp + 1) fresh_frame) r.mp;
        history = r.history ++ i ∷ [];
        curr_size = r.curr_size + 1;
        tot_size = r.tot_size + 1;
      })
  new-IsNearlyValid e room =
      let p = touch r.k (r.current_timestamp + 1) fresh_frame in
      let b =
        touch_bounds r.k (r.current_timestamp + 1) fresh_frame v.positive (omega arith)
          (omega arith) in
      record {
        positive = v.positive;
        members = λ j. ground (arith, get-put i j p r.mp, v.members j, count-append i j r.history);
        total = omega (arith, v.total, length-append r.history (i ∷ []));
        roomy = omega arith;
        bounded = v.bounded;
        current = ground (
          arith,
          b,
          e,
          v.members i,
          v.current,
          get-put i i p r.mp,
          evictables-append i (put i p r.mp) r.history,
          evictables-put i p r.mp r.history,
          evictables-put i p r.mp r.lru,
        );
        here = ground (arith, get-put i i p r.mp);
        listed = λ low. ground (arith, e, v.members i);
        counts = (ground (arith, b), ground (arith, b), b.1);
        accessed = λ j g ne h. ground (arith, get-put i j p r.mp, v.accessed j g);
        clock = busy;
      }
