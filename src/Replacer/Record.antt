-- ===== src/Replacer/Record.antt =====
-- What `RecordAccess` does.
use cmu.Common.{
  ℕ, ◌+◌, ◌^◌, ◌≤◌, ◌<◌, ◌≡◌, refl, ◌∙◌, ap, ◌⊎◌, inl, inr, false, none, some, [], ◌∷◌, ◌++◌, arith,
  ◌==◌, leb, ltb, Bool-cases, Option-cases, subst,
}
use cmu.Common.Dict.{get, put, get-put}
use cmu.Replacer.Valid.{IsValid, evictables-le-length}
use cmu.Replacer.Access.{promote-IsValid, touch_bounds, known-IsNearlyValid, new-IsNearlyValid}
use cmu.Replacer.{
  Frame, Replacer, ok, throws, deadlock, inc, fresh_frame, size, remove_from_list,
  insert_to_list_head, touch, promote, record_access,
}

promote_fields :
    (i c : ℕ) (r : Replacer)
    → ((promote i c r).mp ≡ r.mp)
      × ((promote i c r).curr_size ≡ r.curr_size)
      × ((promote i c r).tot_size ≡ r.tot_size)
      × ((promote i c r).replacer_size ≡ r.replacer_size)
      × ((promote i c r).current_timestamp ≡ r.current_timestamp)
unfolding promote remove_from_list
promote_fields i c r = elim (Bool-cases (leb r.k c)) [
  | inl e ↦ rw e (refl, refl, refl, refl, refl)
  | inr e ↦ rw e (refl, refl, refl, refl, refl)
]

-- The frame `i` has one access more, at the time `now`; the other frames are as they were, and a
-- frame that is new counts to the size.
pub record Accessed (r : Replacer) (i now : ℕ) (r' : Replacer) : Type 0 where
  pub valid : IsValid r'
  pub entry :
      get i r'.mp ≡ some (touch r.k now (elim (get i r.mp) [ none ↦ fresh_frame | some f ↦ f ]))
  pub others : (j : ℕ) → (j == i) ≡ false → get j r'.mp ≡ get j r.mp
  pub total : r'.tot_size ≡ elim (get i r.mp) [ none ↦ r.tot_size + 1 | some _ ↦ r.tot_size ]
  pub limit : r'.replacer_size ≡ r.replacer_size
  pub time : r'.current_timestamp ≡ now
  pub counted : size r' ≡ elim (get i r.mp) [ none ↦ size r + 1 | some _ ↦ size r ]

module _ (r : Replacer) (v : IsValid r) (i : ℕ) (busy : r.current_timestamp + 1 < 2 ^ 64) where
  tick : inc r.current_timestamp ≡ r.current_timestamp + 1
  unfolding inc
  tick = omega arith

  known-Accessed :
      (f : Frame)
      → get i r.mp ≡ some f
      → let p = touch r.k (r.current_timestamp + 1) f in
        Accessed r i (r.current_timestamp + 1) (
          promote i p.record_cnt
            (record r { current_timestamp = r.current_timestamp + 1; mp = put i p r.mp }))
  unfolding size
  known-Accessed f e =
      let p = touch r.k (r.current_timestamp + 1) f in
      let r₁ = record r { current_timestamp = r.current_timestamp + 1; mp = put i p r.mp } in
      let fields = promote_fields i p.record_cnt r₁ in
      record {
        valid = promote-IsValid i p _ (known-IsNearlyValid r v i busy f e);
        entry = ap (get i) fields.0 ∙ rw e (ground (arith, get-put i i p r.mp));
        others = λ j ne. ap (get j) fields.0 ∙ ground (arith, get-put i j p r.mp);
        total = fields.2 ∙ rw e refl;
        limit = fields.3;
        time = fields.4;
        counted = fields.1 ∙ rw e refl;
      }

  new-Accessed :
      get i r.mp ≡ none
      → r.tot_size < r.replacer_size
      → let p = touch r.k (r.current_timestamp + 1) fresh_frame in
        Accessed r i (r.current_timestamp + 1) (
          promote i p.record_cnt (record r {
            current_timestamp = r.current_timestamp + 1;
            mp = put i p r.mp;
            history = r.history ++ i ∷ [];
            curr_size = r.curr_size + 1;
            tot_size = r.tot_size + 1;
          }))
  unfolding size
  new-Accessed e room =
      let p = touch r.k (r.current_timestamp + 1) fresh_frame in
      let r₁ = record r {
        current_timestamp = r.current_timestamp + 1;
        mp = put i p r.mp;
        history = r.history ++ i ∷ [];
        curr_size = r.curr_size + 1;
        tot_size = r.tot_size + 1;
      } in
      let fields = promote_fields i p.record_cnt r₁ in
      record {
        valid = promote-IsValid i p _ (new-IsNearlyValid r v i busy e room);
        entry = ap (get i) fields.0 ∙ rw e (ground (arith, get-put i i p r.mp));
        others = λ j ne. ap (get j) fields.0 ∙ ground (arith, get-put i j p r.mp);
        total = fields.2 ∙ rw e refl;
        limit = fields.3;
        time = fields.4;
        counted = fields.1 ∙ rw e refl;
      }

  -- On a valid replacer whose clock has a step left, RecordAccess throws for a frame id above the
  -- size. For one up to the size it hangs for a new frame if the replacer is full, and else returns
  -- and keeps the invariant: the frame has one access more, the others are as they were, and Size
  -- grows by one for a new frame.
  pub record_access_lem :
      ((r.replacer_size < i) × (record_access i r ≡ throws))
      ⊎ ((i ≤ r.replacer_size)
          × (get i r.mp ≡ none)
          × (r.tot_size ≡ r.replacer_size)
          × (record_access i r ≡ deadlock))
      ⊎ ((r' : Replacer) × (i ≤ r.replacer_size)
          × (record_access i r ≡ ok r')
          × Accessed r i (r.current_timestamp + 1) r')
  unfolding record_access insert_to_list_head
  record_access_lem = elim (Bool-cases (ltb r.replacer_size i)) [
    | inl big ↦ inl (ground arith, ground arith)
    | inr fits ↦ elim (Option-cases (get i r.mp)) [
      | inr (f, e) ↦
          let p = touch r.k (r.current_timestamp + 1) f in
          let a = v.accessed i f e in
          let b =
            touch_bounds r.k (r.current_timestamp + 1) f v.positive (omega (arith, a.1)) a.3 in
          inr (
            inr (
              promote i p.record_cnt
                  (record r { current_timestamp = (r.current_timestamp + 1); mp = put i p r.mp }),
              ground (arith, fits),
              rw (tick, e, fits) (ground (arith, a, b)),
              known-Accessed f e,
            ))
      | inl e ↦
          let p = touch r.k (r.current_timestamp + 1) fresh_frame in
          let b =
            touch_bounds r.k (r.current_timestamp + 1) fresh_frame v.positive (omega arith)
              (omega arith) in
          elim (Bool-cases (r.tot_size == r.replacer_size)) [
            | inl full ↦ inr (
                inl (ground (arith, fits), e, ground arith, rw (tick, e, fits) (ground (arith, b))))
            | inr room ↦
                let more : inc r.tot_size ≡ r.tot_size + 1 =
                  unfold inc in ground (arith, v.roomy, v.bounded, room) in
                let freer : inc r.curr_size ≡ r.curr_size + 1 =
                  unfold inc in
                  ground (
                    arith,
                    v.current,
                    v.total,
                    v.roomy,
                    v.bounded,
                    room,
                    evictables-le-length r r.history,
                    evictables-le-length r r.lru,
                  ) in
                inr (
                  inr (
                    promote i p.record_cnt (record r {
                      current_timestamp = (r.current_timestamp + 1);
                      mp = put i p r.mp;
                      history = r.history ++ i ∷ [];
                      curr_size = r.curr_size + 1;
                      tot_size = r.tot_size + 1;
                    }),
                    ground (arith, fits),
                    rw (tick, e, fits, more, freer) (ground (arith, b)),
                    new-Accessed e (ground (arith, v.roomy)),
                  ))
          ]
    ]
  ]

  pub record_access-IsValid : (r' : Replacer) → record_access i r ≡ ok r' → IsValid r'
  record_access-IsValid r' e = elim record_access_lem [
    | inl t ↦ absurd (ground (arith, t.1))
    | inr (inl d) ↦ absurd (ground (arith, d.3))
    | inr (inr (s, _, h, a)) ↦ subst IsValid (ground arith) a.valid
  ]
