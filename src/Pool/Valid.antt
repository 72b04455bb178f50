-- ===== src/Pool/Valid.antt =====
-- The invariant of the buffer pool, and what its calls of the replacer do to it.
use cmu.Common.{
  ℕ, zero, suc, ◌+◌, ◌^◌, ◌≤◌, ◌<◌, ◌≡◌, refl, ap, ◌∙◌, ◌⊎◌, inl, inr, Bool, true, false, Option,
  none, some, List, arith, if◌then◌else◌, ◌==◌, ltb, leb, length, Bool-cases, ◌&&◌,
}
use cmu.Common.Dict.{get}
use cmu.Replacer
use cmu.Replacer.{
  Replacer, Outcome, ok, is_evictable, touch, fresh_frame, evict, record_access, set_evictable,
}
use cmu.Replacer.Frames.{count, to_nat}
use cmu.Replacer.Valid.{is_some}
use cmu.Replacer.Valid
use cmu.Replacer.Record.{record_access_lem}
use cmu.Replacer.Flags.{set_evictable_lem, set_evictable_fields}
use cmu.Pool.{Pool, pin, new, range}
use cmu.Pool.Table.{PageTable}

-- The replacer has an entry for a frame, and may evict it.
abbrev pub is_known : ℕ → Replacer → Bool
is_known i r = is_some (get i r.mp)

abbrev pub may_go : ℕ → Replacer → Bool
may_go i r = is_evictable (get i r.mp)

-- Every frame of the pool is in the free list, once, or known to the replacer, but for the frame
-- `taken`, which is in neither.
abbrev pub IsShared : ℕ → List ℕ → Replacer → Option ℕ → Type 0
IsShared pool_size free_list r taken =
    (i : ℕ)
    → count i free_list
        + to_nat (is_known i r)
        + (elim taken [ none ↦ 0 | some j ↦ to_nat (i == j) ])
      ≡ to_nat (ltb i pool_size)

pub count-range : (i n j : ℕ) → count j (range i n) ≡ to_nat (leb i j && ltb j (i + n))
unfolding count range
count-range i zero j = ground arith
count-range i (suc n) j = ground (arith, count-range (i + 1) n j)

pub length-range : (i n : ℕ) → length (range i n) ≡ n
unfolding range
length-range i zero = refl
length-range i (suc n) = ap suc (length-range (i + 1) n)

module _ {T : Type 0} ⦃table : PageTable T⦄ where
  -- The state between two operations, for `none`; for a frame, while the operation has it in hand.
  pub record IsHeld (taken : Option ℕ) (p : Pool T) : Type 0 where
    pub replacer : Valid.IsValid p.replacer
    pub limit : p.replacer.replacer_size ≡ p.pool_size
    pub room :
        length p.free_list + p.replacer.tot_size + (elim taken [ none ↦ 0 | some _ ↦ 1 ])
        ≡ p.pool_size
    pub shared : IsShared p.pool_size p.free_list p.replacer taken
    -- A page in the table is in a frame that the replacer knows and that has the page's id.
    pub mapped :
        (q i : ℕ)
        → table.find q p.page_table ≡ some i
        → (is_known i p.replacer ≡ true ⊎ taken ≡ some i) × ((p.pages i).page_id ≡ some q)
    -- The replacer may evict exactly the frames that nobody has pinned.
    pub pins :
        (i : ℕ) → is_known i p.replacer ≡ true → may_go i p.replacer ≡ ((p.pages i).pin_count == 0)

  abbrev pub IsValid : Pool T → Type 0
  IsValid p = IsHeld none p

-- The replacer's clock and the next page id grow by one at most.
abbrev pub IsNext : {T : Type 0} → Pool T → Pool T → Type 0
IsNext p p' =
    (p'.replacer.current_timestamp ≤ p.replacer.current_timestamp + 1)
    × (p'.next_page_id ≤ p.next_page_id + 1)

-- `RecordAccess` and then `SetEvictable(frame, false)`.
pub record Pinned (i : ℕ) (r r' : Replacer) : Type 0 where
  pub valid : Valid.IsValid r'
  pub limit : r'.replacer_size ≡ r.replacer_size
  pub time : r'.current_timestamp ≡ r.current_timestamp + 1
  pub total : r'.tot_size ≡ (if is_known i r then r.tot_size else r.tot_size + 1)
  pub known : (j : ℕ) → is_known j r' ≡ (if j == i then true else is_known j r)
  pub going : (j : ℕ) → may_go j r' ≡ (if j == i then false else may_go j r)

pub pin-Pinned :
    {T : Type 0} ⦃table : PageTable T⦄ (i : ℕ) (p : Pool T)
    → Valid.IsValid p.replacer
    → p.replacer.current_timestamp + 1 < 2 ^ 64
    → i ≤ p.replacer.replacer_size
    → (is_known i p.replacer ≡ false → p.replacer.tot_size < p.replacer.replacer_size)
    → (r : Replacer) × (pin i p ≡ ok (record p { replacer = r })) × Pinned i p.replacer r
unfolding pin
pin-Pinned i p v busy inside room = elim (record_access_lem p.replacer v i busy) [
  | inl (big, e) ↦ absurd (omega (arith, big))
  | inr (inl (_, new, full, e)) ↦ absurd (ground (arith, room))
  | inr (inr (r, _, e, a)) ↦
      let flags = set_evictable_lem r a.valid i false in
      let fields = set_evictable_fields i false r in
      (
        set_evictable i false r,
        rw e refl,
        record {
          valid = flags.0;
          limit = fields.1 ∙ a.limit;
          time = fields.2 ∙ a.time;
          total = ground (arith, fields, a.total);
          known = λ j. flags.2 j ∙ elim (Bool-cases (j == i)) [
            | inl h ↦
                let same : j ≡ i = ground arith in
                rw h (ap (λ (x : ℕ). is_some (get x r.mp)) same ∙ ap is_some a.entry)
            | inr h ↦ rw h (ap is_some (a.others j h))
          ];
          going = λ j. elim (Bool-cases (j == i)) [
            | inl h ↦ ground (arith, flags.1 j)
            | inr h ↦ rw h (ground (arith, flags.1 j, h) ∙ ap is_evictable (a.others j h))
          ];
        },
      )
]

-- A new pool is valid.
pub new-IsValid :
    {T : Type 0} ⦃table : PageTable T⦄ (n k : ℕ) (disk : ℕ → ℕ → ℕ)
    → 0 < k
    → n < 2 ^ 31
    → IsValid {T = T} (new n k disk)
unfolding new Replacer.new get
new-IsValid ⦃table = table⦄ n k disk positive bounded = record {
  replacer = Valid.new-IsValid n k positive bounded;
  limit = refl;
  room = ground (arith, length-range 0 n);
  shared = λ i. ground (arith, count-range 0 n i);
  mapped = λ q i m. absurd (ground (arith, m, table.find-new q));
  pins = λ i known. absurd (ground (arith, known));
}
