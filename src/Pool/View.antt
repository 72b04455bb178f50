-- ===== src/Pool/View.antt =====
-- The buffer pool as what its clients see: a map from page ids to bytes.
use cmu.Common.{
  ℕ, ◌≡◌, ◌≢◌, refl, sym, ap, ◌∙◌, inl, inr, true, false, none, some, arith, ◌==◌, Bool-cases,
  Option-cases,
}
use cmu.Pool.{Pool, Page, write_page}
use cmu.Pool.Table.{PageTable}
use cmu.Pool.Valid.{IsValid}
use cmu.Pool.Frames.{IsFree}
use cmu.Pool.Load.{flushed, Loaded, is_named}

module _ {T : Type 0} ⦃table : PageTable T⦄ where
  -- The bytes of a page are those in the pool, or else those on the disk.
  unfoldable pub content : ℕ → Pool T → ℕ → ℕ
  content q p = elim (table.find q p.page_table) [ none ↦ p.disk q | some i ↦ (p.pages i).bytes ]

  pub content-none :
      (q : ℕ) (p : Pool T) → table.find q p.page_table ≡ none → content q p ≡ p.disk q
  unfolding content
  content-none q p m = rw (content, m) refl

  pub content-some :
      (q i : ℕ) (p : Pool T) → table.find q p.page_table ≡ some i → content q p ≡ (p.pages i).bytes
  unfolding content
  content-some q i p m = rw (content, m) refl

  -- A page that a frame has the id of is in the table, and a page that may be evicted without a write
  -- is on the disk.
  pub record IsTidy (p : Pool T) : Type 0 where
    pub named : (q i : ℕ) → (p.pages i).page_id ≡ some q → table.find q p.page_table ≡ some i
    pub clean :
        (q i : ℕ)
        → table.find q p.page_table ≡ some i
        → (p.pages i).is_dirty ≡ false
        → (p.pages i).pin_count ≡ 0
        → p.disk q ≡ (p.pages i).bytes

  module _ (p : Pool T) (v : IsValid p) (tidy : IsTidy p) (i : ℕ) where
    -- The disk changes at the page of the frame alone.
    pub flushed-other :
        (r : ℕ) → is_named r (p.pages i).page_id ≡ false → flushed (p.pages i) p.disk r ≡ p.disk r
    unfolding flushed write_page
    flushed-other r ne = elim (Bool-cases (p.pages i).is_dirty) [
      | inr e ↦ rw e refl
      | inl e ↦ elim (Option-cases (p.pages i).page_id) [
        | inl new ↦ rw (e, new) refl
        | inr (x, was) ↦
            let other : (r == x) ≡ false = ground (arith, was, ne) in rw (e, was, other) refl
      ]
    ]

    -- A page that leaves its frame is on the disk.
    flushed-page :
        IsFree i p
        → (r : ℕ) → table.find r p.page_table ≡ some i
        → flushed (p.pages i) p.disk r ≡ (p.pages i).bytes
    unfolding flushed write_page
    flushed-page free r m =
        let (known, at) = v.mapped r i m in
        elim (Bool-cases (p.pages i).is_dirty) [
          | inl e ↦ let same : (r == r) ≡ true = ground arith in rw (e, at, same) refl
          | inr e ↦ rw e (tidy.clean r i m e (ground (arith, free, known)))
        ]

    -- The page of the frame is the one that the table has there.
    pub named-false :
        (r : ℕ) → table.find r p.page_table ≢ some i → is_named r (p.pages i).page_id ≡ false
    named-false r ne = elim (Option-cases (p.pages i).page_id) [
      | inl new ↦ rw new refl
      | inr (x, was) ↦ elim (Bool-cases (x == r)) [
        | inr other ↦ rw was other
        | inl h ↦
            let same : x ≡ r = ground arith in
            absurd (ne (tidy.named r i (was ∙ ap (λ (y : ℕ). some y) same)))
      ]
    ]

    module _ (q : ℕ) (bytes : ℕ → ℕ) (p' : Pool T) (free : IsFree i p)
        (absent : table.find q p.page_table ≡ none) (a : Loaded i q bytes p p') where
      stays :
          (r j : ℕ)
          → table.find r p.page_table ≡ some j
          → (j == i) ≡ false
          → table.find r p'.page_table ≡ some j
      stays r j m ne =
          let away = named-false r (λ m'. absurd (ground (arith, m, m', ne))) in
          let other : (q == r) ≡ false = elim (Bool-cases (q == r)) [
            | inr e ↦ e
            | inl h ↦
                let same : q ≡ r = ground arith in
                absurd (ground (arith, m, absent, ap (λ (x : ℕ). table.find x p.page_table) same))
          ] in
          ground (arith, a.mapping r, away, m, other)

      -- The other pages keep their bytes.
      pub loaded-content : (r : ℕ) → (q == r) ≡ false → content r p' ≡ content r p
      loaded-content r other = elim (Option-cases (table.find r p.page_table)) [
        | inl none_there ↦
            let away = named-false r (λ m. absurd (ground (arith, m, none_there))) in
            let gone : table.find r p'.page_table ≡ none =
              ground (arith, a.mapping r, away, none_there, other) in
            content-none r p' gone
            ∙ ap (λ (d : ℕ → ℕ → ℕ). d r) a.disk
            ∙ flushed-other r away
            ∙ sym (content-none r p none_there)
        | inr (j, m) ↦ elim (Bool-cases (j == i)) [
          | inl h ↦
              let same : j ≡ i = ground arith in
              let here : table.find r p.page_table ≡ some i = m ∙ ap (λ (x : ℕ). some x) same in
              let at = (v.mapped r i here).1 in
              let gone : table.find r p'.page_table ≡ none =
                ground (arith, a.mapping r, at, other) in
              content-none r p' gone
              ∙ ap (λ (d : ℕ → ℕ → ℕ). d r) a.disk
              ∙ flushed-page free r here
              ∙ sym (content-some r i p here)
          | inr ne ↦
              content-some r j p' (stays r j m ne)
              ∙ ap (λ (f : Page). f.bytes) (a.others j ne)
              ∙ sym (content-some r j p m)
        ]
      ]

      found_before :
          (r j : ℕ)
          → table.find r p'.page_table ≡ some j
          → (j == i) ≡ false
          → table.find r p.page_table ≡ some j
      found_before r j m ne = ground (arith, a.mapping r, m, ne)

      pub loaded-IsTidy : IsTidy p'
      loaded-IsTidy = record {
        named = λ r j at. elim (Bool-cases (j == i)) [
          | inl h ↦
              let same : j ≡ i = ground arith in
              let is_q : some q ≡ some r =
                sym (ap (λ (f : Page). f.page_id) a.frame)
                ∙ ap (λ (x : ℕ). (p'.pages x).page_id) (sym same)
                ∙ at in
              ground (arith, a.mapping r, is_q)
          | inr ne ↦
              stays r j (tidy.named r j (sym (ap (λ (f : Page). f.page_id) (a.others j ne)) ∙ at))
                ne
        ];
        clean = λ r j m c n. elim (Bool-cases (j == i)) [
          | inl h ↦
              let same : j ≡ i = ground arith in
              absurd (
                ground (
                  arith,
                  n,
                  ap (λ (f : Page). f.pin_count) a.frame,
                  ap (λ (x : ℕ). (p'.pages x).pin_count) same,
                ))
          | inr ne ↦
              let unchanged = a.others j ne in
              let old = found_before r j m ne in
              ap (λ (d : ℕ → ℕ → ℕ). d r) a.disk
              ∙ flushed-other r (named-false r (λ m'. absurd (ground (arith, m', old, ne))))
              ∙ tidy.clean r j old (sym (ap (λ (f : Page). f.is_dirty) unchanged) ∙ c)
                  (sym (ap (λ (f : Page). f.pin_count) unchanged) ∙ n)
              ∙ sym (ap (λ (f : Page). f.bytes) unchanged)
        ];
      }
