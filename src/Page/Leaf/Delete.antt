-- ===== src/Page/Leaf/Delete.antt =====
-- What `DeleteKey` does to a leaf page.
use cmu.Common.{
  ℕ, zero, suc, ◌+◌, ◌-◌, ◌≤◌, ◌<◌, ◌≡◌, ap, ◌⊎◌, inl, inr, true, false, Option, none, some, arith,
  if◌then◌else◌, ◌==◌, Bool-cases,
}
use cmu.Page.{Comparator, Slots, write}
use cmu.Page.Leaf.{LeafPage, find_key, close_gap, delete_key}
use cmu.Page.Leaf.Search.{rank_at, IsOrdered, find_key-IsSlot}
use cmu.Page.Leaf.Insert.{get, Answers, get-Answers, Answers-get}

module _ {K V : Type 0} where
  -- Once the loop starts, it runs off the front of the array.
  close_gap-eq-none : (size i : ℕ) (a : Slots K V) → i < size → close_gap size i a ≡ none
  unfolding close_gap write
  close_gap-eq-none size zero a lt = ground arith
  close_gap-eq-none size (suc i) a lt =
      let rest = close_gap-eq-none size i (write i (a (suc i)) a) (omega arith) in
      ground (arith, rest)

  close_gap-eq-some : (size i : ℕ) (a : Slots K V) → size ≤ i → close_gap size i a ≡ some a
  unfolding close_gap
  close_gap-eq-some size zero a le = ground arith
  close_gap-eq-some size (suc i) a le = ground arith

module _ {K V : Type 0} ⦃key : Comparator K⦄ where
  -- A page in order without its last slot.
  shorter-Answers :
      (k q : K) (p : LeafPage K V) (last : ℕ) (o : Option V)
      → IsOrdered p.array 0 p.size
      → last + 1 ≡ p.size
      → rank_at p.array last ≡ key.rank k
      → Answers p q o
      → Answers (record p { size = p.size - 1 }) q (if key.rank q == key.rank k then none else o)
  shorter-Answers k q p last o ordered end at (inl (e, all)) =
      inl (ground arith, λ j lt. all j (omega arith))
  shorter-Answers k q p last o ordered end at (inr (i, lt, r, e)) = elim (Bool-cases (i == last)) [
    | inl h ↦
        let same : i ≡ last = ground arith in
        let ranks = ap (rank_at p.array) same in
        inl (ground (arith, ranks), λ j in_page. ground (arith, ordered j last, ranks))
    | inr h ↦ inr (i, ground arith, r, ground (arith, ordered i last))
  ]

  -- DeleteKey of a key that a page in order does not hold returns false and changes nothing. Of the
  -- key in the last slot it returns true; the page stays in order, the key is found no more, and
  -- every other key as before. Of any other key it writes before the array.
  pub delete_key-cases :
      (k : K) (p : LeafPage K V)
      → IsOrdered p.array 0 p.size
      → ((get k p ≡ none) × (delete_key k p ≡ some (p, false)))
        ⊎ ((p' : LeafPage K V) × (find_key k p + 1 ≡ p.size)
            × (delete_key k p ≡ some (p', true))
            × IsOrdered p'.array 0 p'.size
            × (p'.size + 1 ≡ p.size)
            × ((q : K) → get q p' ≡ (if key.rank q == key.rank k then none else get q p)))
        ⊎ ((find_key k p + 1 < p.size) × (delete_key k p ≡ none))
  unfolding delete_key get
  delete_key-cases k p ordered =
      let pos = find_key k p in
      elim (find_key-IsSlot k p) [
        | inl (e, all) ↦ inl (ground arith, ground arith)
        | inr (lt, at) ↦ elim (Bool-cases (pos + 1 == p.size)) [
          | inl last ↦
              let shorter = record p { size = p.size - 1 } in
              let kept : IsOrdered p.array 0 (p.size - 1) =
                λ i j a b c. ordered i j a b (omega arith) in
              let whole = close_gap-eq-some p.size (pos + 1) p.array (ground arith) in
              inr (
                inl (
                  shorter,
                  ground arith,
                  ground (arith, whole),
                  kept,
                  omega arith,
                  λ q.
                      Answers-get q shorter (if key.rank q == key.rank k then none else get q p)
                        kept
                        (shorter-Answers k q p pos (get q p) ordered (ground arith) at
                          (get-Answers q p)),
                ))
          | inr inner ↦
              let lost = close_gap-eq-none p.size (pos + 1) p.array (ground arith) in
              inr (inr (ground arith, ground (arith, lost)))
        ]
      ]
