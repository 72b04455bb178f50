-- ===== src/Pool/Content.antt =====
-- What `FetchPgImp` and `NewPgImp` do to the contents of the pages.
use cmu.Common.{
  ℕ, ◌+◌, ◌^◌, ◌<◌, ◌≡◌, refl, ap, ◌∙◌, ◌⊎◌, inl, inr, none, some, arith, if◌then◌else◌, ◌==◌,
  Bool-cases,
}
use cmu.Replacer.{ok}
use cmu.Pool.{Pool, Page, zeros, new_pg}
use cmu.Pool.Table.{PageTable}
use cmu.Pool.Valid.{IsValid}
use cmu.Pool.Fetch.{new_pg-Loaded}
use cmu.Pool.View.{content, content-some, IsTidy, loaded-content, loaded-IsTidy}

module _ {T : Type 0} ⦃table : PageTable T⦄ where
  module _ (p : Pool T) (v : IsValid p) (tidy : IsTidy p)
      (busy : p.replacer.current_timestamp + 1 < 2 ^ 64) where
    -- Let every page whose id a frame has be in the table at that frame, and a clean page that
    -- nobody has pinned be on the disk as it is in its frame. If the next page id is below 2 ^ 31
    -- and not in the table, a NewPgImp in a valid pool whose clock has a step left finds no frame
    -- and changes nothing, or the new page is zero and no other page's bytes change, whatever page
    -- has to leave, and the condition on the frames holds again.
    pub new_pg-content :
        p.next_page_id < 2 ^ 31
        → table.find p.next_page_id p.page_table ≡ none
        → (new_pg p ≡ ok (p, none))
          ⊎ ((i : ℕ) × (p' : Pool T) × (new_pg p ≡ ok (p', some (i, p.next_page_id)))
              × IsTidy p'
              × ((r : ℕ) → content r p' ≡ (if p.next_page_id == r then zeros else content r p)))
    new_pg-content small absent = elim (new_pg-Loaded p v busy small) [
      | inl (empty, none_left, e) ↦ inl e
      | inr (i, p', e, inside, id, free, a) ↦ inr (
        i,
        p',
        e,
        loaded-IsTidy p v tidy i p.next_page_id zeros p' free absent a,
        λ r. elim (Bool-cases (p.next_page_id == r)) [
          | inr other ↦
              loaded-content p v tidy i p.next_page_id zeros p' free absent a r other
              ∙ rw other refl
          | inl h ↦
              let found : table.find r p'.page_table ≡ some i = ground (arith, a.mapping r) in
              content-some r i p' found ∙ ap (λ (f : Page). f.bytes) a.frame ∙ rw h refl
        ],
      )
    ]
