-- ===== src/Header/Records.antt =====
-- The header page as a map from names to root page ids.
use cmu.Common.{
  ℕ, zero, suc, ◌+◌, ◌<◌, ◌≡◌, ◌↔◌, refl, sym, ap, subst, ◌∙◌, ◌⊎◌, inl, inr, true, false, Option,
  none, some, List, [], ◌∷◌, ◌++◌, arith, if◌then◌else◌, leb, length, Bool-cases,
}
use cmu.Header.{
  Entry, HeaderPage, c_str, strcmp, find_from, find_record, remove_at, set_root_id, root_id_at,
  get_root_id,
}

pub strcmp_iff : (s t : List ℕ) → (strcmp s t ≡ true) ↔ (s ≡ t)
unfolding strcmp
strcmp_iff [] [] = (λ e. refl, λ e. refl)
strcmp_iff [] (y ∷ t) = (λ e. absurd (ground arith), λ e. absurd (ground arith))
strcmp_iff (x ∷ s) [] = (λ e. absurd (ground arith), λ e. absurd (ground arith))
strcmp_iff (x ∷ s) (y ∷ t) =
    (λ e. ground (arith, (strcmp_iff s t).0), λ e. ground (arith, (strcmp_iff s t).1))

-- What the page says of a name: the first entry that has it.
unfoldable pub lookup : List ℕ → List Entry → Option ℕ
unfolding strcmp
lookup name [] = none
lookup name (e ∷ entries) = if strcmp e.name name then some e.root_id else lookup name entries

-- No name stands twice.
unfoldable pub IsDistinct : List Entry → Type 0
unfolding lookup
IsDistinct [] = Unit {0}
IsDistinct (e ∷ entries) = (lookup e.name entries ≡ none) × IsDistinct entries

-- The loop finds the entry that `lookup` reads.
find_from-lookup :
    (name : List ℕ) (i : ℕ) (entries : List Entry)
    → ((find_from name i entries ≡ none) × (lookup name entries ≡ none))
      ⊎ ((j : ℕ) × (x : ℕ) × (find_from name i entries ≡ some (i + j))
          × (lookup name entries ≡ some x)
          × (root_id_at j entries ≡ some x))
unfolding find_from lookup root_id_at
find_from-lookup name i [] = inl (refl, refl)
find_from-lookup name i (e ∷ entries) = elim (Bool-cases (strcmp e.name name)) [
  | inl h ↦ inr (0, e.root_id, ground (arith, h), ground (arith, h), refl)
  | inr h ↦ elim (find_from-lookup name (i + 1) entries) [
    | inl (f, l) ↦ inl (ground (arith, h, f), ground (arith, h, l))
    | inr (j, x, f, l, r) ↦ inr (suc j, x, ground (arith, h, f), ground (arith, h, l), r)
  ]
]

pub find_record-lookup :
    (name : List ℕ) (page : HeaderPage)
    → ((find_record name page ≡ none) × (lookup (c_str name) page ≡ none))
      ⊎ ((j : ℕ) × (x : ℕ) × (find_record name page ≡ some j)
          × (lookup (c_str name) page ≡ some x)
          × (root_id_at j page ≡ some x))
unfolding find_record
find_record-lookup name page = elim (find_from-lookup (c_str name) 0 page) [
  | inl (f, l) ↦ inl (f, l)
  | inr (j, x, f, l, r) ↦
      let at : 0 + j ≡ j = omega arith in inr (j, x, f ∙ ap (λ (n : ℕ). some n) at, l, r)
]

-- `GetRootId` reads the map.
pub get_root_id-lookup :
    (name : List ℕ) (page : HeaderPage)
    → length name < 32
    → get_root_id name page ≡ some (lookup (c_str name) page)
unfolding get_root_id
get_root_id-lookup name page short =
    let fits : leb 32 (length name) ≡ false = ground arith in
    elim (find_record-lookup name page) [
      | inl (f, l) ↦ rw (get_root_id, fits, f) (ap some (sym l))
      | inr (j, x, f, l, r) ↦ rw (get_root_id, fits, f) (ap some (r ∙ sym l))
    ]

pub lookup-append :
    (q : List ℕ) (entries : List Entry) (e : Entry)
    → lookup q (entries ++ e ∷ []) ≡ elim (lookup q entries) [
      | none ↦ if strcmp e.name q then some e.root_id else none
      | some x ↦ some x
    ]
unfolding lookup
lookup-append q [] e = refl
lookup-append q (f ∷ entries) e = elim (Bool-cases (strcmp f.name q)) [
  | inl h ↦ rw h refl
  | inr h ↦ rw h (lookup-append q entries e)
]

strcmp-sym : (s t : List ℕ) → strcmp s t ≡ strcmp t s
unfolding strcmp
strcmp-sym [] [] = refl
strcmp-sym [] (y ∷ t) = refl
strcmp-sym (x ∷ s) [] = refl
strcmp-sym (x ∷ s) (y ∷ t) = ground (arith, strcmp-sym s t)

pub append-IsDistinct :
    (entries : List Entry) (e : Entry)
    → IsDistinct entries
    → lookup e.name entries ≡ none
    → IsDistinct (entries ++ e ∷ [])
unfolding IsDistinct lookup
append-IsDistinct [] e d l = (refl, tt)
append-IsDistinct (f ∷ entries) e (new, d) l =
    let other : strcmp f.name e.name ≡ false = ground (arith, l) in
    (
      lookup-append f.name entries e ∙ rw new (ground (arith, strcmp-sym e.name f.name, other)),
      append-IsDistinct entries e d (ground (arith, l, other)),
    )

-- An entry taken out: its name is gone, the others read as before.
pub lookup-remove_at :
    (name : List ℕ) (i j : ℕ) (entries : List Entry) (q : List ℕ)
    → IsDistinct entries
    → find_from name i entries ≡ some (i + j)
    → (lookup q (remove_at j entries) ≡ (if strcmp name q then none else lookup q entries))
      × IsDistinct (remove_at j entries)
unfolding IsDistinct lookup find_from remove_at
lookup-remove_at name i j [] q d f = absurd (ground (arith, f))
lookup-remove_at name i zero (e ∷ entries) q (new, d) f = elim (Bool-cases (strcmp e.name name)) [
  | inr h ↦ elim (find_from-lookup name (i + 1) entries) [
    | inl (missing, l) ↦ absurd (ground (arith, f, h, missing))
    | inr (j, x, there, l, r) ↦ absurd (ground (arith, f, h, there))
  ]
  | inl h ↦
      let same : e.name ≡ name = (strcmp_iff e.name name).0 h in
      (
        subst
            (λ (n : List ℕ). lookup q entries ≡ (
              if strcmp n q
              then none
              else if strcmp e.name q
              then some e.root_id
              else lookup q entries))
            same
            (elim (Bool-cases (strcmp e.name q)) [
              | inl g ↦
                  rw g
                    (ap (λ (n : List ℕ). lookup n entries) (sym ((strcmp_iff e.name q).0 g)) ∙ new)
              | inr g ↦ rw g refl
            ]),
        d,
      )
]
lookup-remove_at name i (suc j) (e ∷ entries) q (new, d) f =
    elim (Bool-cases (strcmp e.name name)) [
      | inl h ↦ absurd (ground (arith, f, h))
      | inr h ↦
          let f' : find_from name (i + 1) entries ≡ some ((i + 1) + j) = ground (arith, f, h) in
          let (reads, d') = lookup-remove_at name (i + 1) j entries q d f' in
          let (reads_e, d'') = lookup-remove_at name (i + 1) j entries e.name d f' in
          (
            elim (Bool-cases (strcmp e.name q)) [
              | inl g ↦
                  let same : e.name ≡ q = (strcmp_iff e.name q).0 g in
                  let apart : strcmp name q ≡ false =
                    ap (strcmp name) (sym same) ∙ strcmp-sym name e.name ∙ h in
                  rw (g, apart) refl
              | inr g ↦ rw g reads
            ],
            (ground (arith, reads_e, new), d'),
          )
    ]

pub strcmp_self : (s : List ℕ) → strcmp s s ≡ true
strcmp_self s = (strcmp_iff s s).1 refl

-- A new entry at the end is found there, and taken out again.
pub find_from-append :
    (i : ℕ) (entries : List Entry) (e : Entry)
    → find_from e.name i entries ≡ none
    → find_from e.name i (entries ++ e ∷ []) ≡ some (i + length entries)
unfolding find_from
find_from-append i [] e missing =
    let here = strcmp_self e.name in rw here (ap (λ (n : ℕ). some n) (omega arith))
find_from-append i (f ∷ entries) e missing = elim (Bool-cases (strcmp f.name e.name)) [
  | inl h ↦ absurd (ground (arith, missing, h))
  | inr h ↦
      let rest = find_from-append (i + 1) entries e (ground (arith, missing, h)) in
      rw h (rest ∙ ap (λ (n : ℕ). some n) (omega arith))
]

pub remove_at-append :
    (entries : List Entry) (e : Entry) → remove_at (length entries) (entries ++ e ∷ []) ≡ entries
unfolding remove_at
remove_at-append [] e = refl
remove_at-append (f ∷ entries) e = ap (λ (l : List Entry). f ∷ l) (remove_at-append entries e)

-- A root id that is replaced is read under its name alone.
pub lookup-set_root_id :
    (name : List ℕ) (i j x : ℕ) (entries : List Entry) (q : List ℕ)
    → find_from name i entries ≡ some (i + j)
    → lookup q (set_root_id j x entries) ≡ (if strcmp name q then some x else lookup q entries)
unfolding lookup find_from set_root_id
lookup-set_root_id name i j x [] q f = absurd (ground (arith, f))
lookup-set_root_id name i zero x (e ∷ entries) q f = elim (Bool-cases (strcmp e.name name)) [
  | inr h ↦ elim (find_from-lookup name (i + 1) entries) [
    | inl (missing, l) ↦ absurd (ground (arith, f, h, missing))
    | inr (j, x, there, l, r) ↦ absurd (ground (arith, f, h, there))
  ]
  | inl h ↦
      let same : e.name ≡ name = (strcmp_iff e.name name).0 h in
      subst
        (λ (n : List ℕ). (if strcmp e.name q then some x else lookup q entries) ≡ (
          if strcmp n q
          then some x
          else if strcmp e.name q
          then some e.root_id
          else lookup q entries))
        same (elim (Bool-cases (strcmp e.name q)) [ inl g ↦ rw g refl | inr g ↦ rw g refl ])
]
lookup-set_root_id name i (suc j) x (e ∷ entries) q f = elim (Bool-cases (strcmp e.name name)) [
  | inl h ↦ absurd (ground (arith, f, h))
  | inr h ↦
      let rest = lookup-set_root_id name (i + 1) j x entries q (ground (arith, f, h)) in
      elim (Bool-cases (strcmp e.name q)) [
        | inl g ↦
            let same : e.name ≡ q = (strcmp_iff e.name q).0 g in
            let apart : strcmp name q ≡ false =
              ap (strcmp name) (sym same) ∙ strcmp-sym name e.name ∙ h in
            rw (g, apart) refl
        | inr g ↦ rw g rest
      ]
]
