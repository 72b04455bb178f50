-- ===== src/Header/Map.antt =====
-- What the operations of the header page do to the map from names to root page ids.
use cmu.Common.{
  ℕ, ◌+◌, ◌<◌, ◌≤◌, ◌≡◌, refl, sym, ap, subst, ◌∙◌, ◌⊎◌, inl, inr, true, false, none, some, List,
  [], ◌∷◌, ◌++◌, arith, if◌then◌else◌, ◌==◌, leb, length, length-append, Bool-cases, Option-cases,
}
use cmu.Header.{
  Entry, HeaderPage, c_str, strcmp, find_record, insert_record, remove_at, delete_record,
  set_root_id, update_record, get_root_id, capacity,
}
use cmu.Header.Records.{
  strcmp_iff, lookup, IsDistinct, find_record-lookup, get_root_id-lookup, lookup-append,
  append-IsDistinct, lookup-remove_at, lookup-set_root_id, find_from-append, remove_at-append,
}

abbrev entry : List ℕ → ℕ → Entry
entry name root_id = record { name = c_str name; root_id = root_id }

module _ (name : List ℕ) (root_id : ℕ) (page : HeaderPage) (d : IsDistinct page)
    (short : length name < 32) where
  fits : leb 32 (length name) ≡ false
  fits = ground arith

  inserted :
      (q : List ℕ)
      → length q < 32
      → lookup (c_str name) page ≡ none
      → get_root_id q (page ++ entry name root_id ∷ [])
        ≡ (if strcmp (c_str name) (c_str q) then some (some root_id) else get_root_id q page)
  inserted q short' l =
      let p = get_root_id-lookup q page short' in
      let grown = lookup-append (c_str q) page (entry name root_id) in
      get_root_id-lookup q (page ++ entry name root_id ∷ []) short'
      ∙ elim (Bool-cases (strcmp (c_str name) (c_str q))) [
        | inl h ↦
            let same : c_str name ≡ c_str q = (strcmp_iff (c_str name) (c_str q)).0 h in
            let missing : lookup (c_str q) page ≡ none =
              ap (λ (n : List ℕ). lookup n page) (sym same) ∙ l in
            rw h (ap some (grown ∙ rw (missing, h) refl))
        | inr h ↦ elim (Option-cases (lookup (c_str q) page)) [
          | inl missing ↦
              rw h (ap some (grown ∙ rw (missing, h) refl) ∙ ap some (sym missing) ∙ sym p)
          | inr (x, there) ↦ rw h (ap some (grown ∙ rw there refl) ∙ ap some (sym there) ∙ sym p)
        ]
      ]

  -- On a header page in which no name stands twice, one of three things holds of an InsertRecord of
  -- a name of less than 32 bytes. Either the page has the name, and it returns false and changes
  -- nothing; or the page does not and has 113 entries or more, and it writes past the end; or it
  -- returns true, no name stands twice, GetRootId reads the new id under the name, and what it
  -- reads under every other name is as before.
  pub get_root_id-insert_record :
      ((x : ℕ) × (get_root_id name page ≡ some (some x))
        × (insert_record name root_id page ≡ some (page, false)))
      ⊎ ((get_root_id name page ≡ some none)
          × (capacity ≤ length page)
          × (insert_record name root_id page ≡ none))
      ⊎ ((page' : HeaderPage) × (insert_record name root_id page ≡ some (page', true))
          × IsDistinct page'
          × ((q : List ℕ)
              → length q < 32
              → get_root_id q page' ≡ (
                  if strcmp (c_str name) (c_str q)
                  then some (some root_id)
                  else get_root_id q page)))
  unfolding insert_record
  get_root_id-insert_record = elim (find_record-lookup name page) [
    | inr (j, x, f, l, r) ↦
        inl (x, get_root_id-lookup name page short ∙ ap some l, rw (insert_record, fits, f) refl)
    | inl (f, l) ↦ elim (Bool-cases (leb capacity (length page))) [
      | inl full ↦ inr (
          inl (
            get_root_id-lookup name page short ∙ ap some l,
            ground arith,
            rw (insert_record, fits, f, full) refl,
          ))
      | inr room ↦ inr (
          inr (
            page ++ entry name root_id ∷ [],
            rw (insert_record, fits, f, room) refl,
            append-IsDistinct page (entry name root_id) d l,
            λ q short'. inserted q short' l,
          ))
    ]
  ]

  deleted :
      find_record name page ≡ none
      → delete_record name (page ++ entry name root_id ∷ []) ≡ some (page, true)
  unfolding delete_record find_record
  deleted f =
      let some_entry : (length (page ++ entry name root_id ∷ []) == 0) ≡ false =
        ground (arith, length-append page (entry name root_id ∷ [])) in
      let at = find_from-append 0 page (entry name root_id) f in
      let zero_left : 0 + length page ≡ length page = omega arith in
      rw (delete_record, some_entry, at, zero_left)
        (ap (λ (p : HeaderPage). some (p, true)) (remove_at-append page (entry name root_id)))

  -- On a header page in which no name stands twice, DeleteRecord takes back an InsertRecord of a
  -- name of less than 32 bytes that has returned true: the page is as it was.
  pub delete_record-insert_record :
      (page' : HeaderPage)
      → insert_record name root_id page ≡ some (page', true)
      → delete_record name page' ≡ some (page, true)
  unfolding insert_record delete_record
  delete_record-insert_record page' e = elim (find_record-lookup name page) [
    | inr (j, x, f, l, r) ↦ absurd (ground (arith, e, f))
    | inl (f, l) ↦ elim (Bool-cases (leb capacity (length page))) [
      | inl full ↦ absurd (ground (arith, e, f, full, fits))
      | inr room ↦
          let grown = page ++ entry name root_id ∷ [] in
          let run : insert_record name root_id page ≡ some (grown, true) =
            rw (insert_record, fits, f, room) refl in
          let same : grown ≡ page' = ground (arith, e, run) in
          subst (λ (p : HeaderPage). delete_record name p ≡ some (page, true)) same (deleted f)
    ]
  ]

-- On a header page that is not empty and in which no name stands twice, DeleteRecord returns
-- whether the page has the name. Afterwards no name stands twice, GetRootId does not find the name,
-- and what it reads under every other name is as before.
pub get_root_id-delete_record :
    (name : List ℕ) (page : HeaderPage)
    → IsDistinct page
    → 0 < length page
    → (page' : HeaderPage) × (delete_record name page
        ≡ some (page', elim (find_record name page) [ none ↦ false | some _ ↦ true ]))
      × IsDistinct page'
      × ((q : List ℕ)
          → length q < 32
          → get_root_id q page'
            ≡ (if strcmp (c_str name) (c_str q) then some none else get_root_id q page))
unfolding delete_record find_record
get_root_id-delete_record name page d some_entry =
    let counted : (length page == 0) ≡ false = ground arith in
    elim (find_record-lookup name page) [
      | inl (f, l) ↦ (
        page,
        rw (delete_record, counted, f) refl,
        d,
        λ q short. elim (Bool-cases (strcmp (c_str name) (c_str q))) [
          | inr h ↦ rw h refl
          | inl h ↦
              let same : c_str name ≡ c_str q = (strcmp_iff (c_str name) (c_str q)).0 h in
              rw h (
                get_root_id-lookup q page short
                ∙ ap some (ap (λ (n : List ℕ). lookup n page) (sym same) ∙ l))
        ],
      )
      | inr (j, x, f, l, r) ↦
          let at : 0 + j ≡ j = omega arith in
          let removed = λ (q : List ℕ).
            lookup-remove_at (c_str name) 0 j page q d (f ∙ ap (λ (n : ℕ). some n) (sym at)) in
          (
            remove_at j page,
            rw (delete_record, counted, f) refl,
            (removed []).1,
            λ q short.
                get_root_id-lookup q (remove_at j page) short
                ∙ ap some (removed (c_str q)).0
                ∙ elim (Bool-cases (strcmp (c_str name) (c_str q))) [
                  | inl h ↦ rw h refl
                  | inr h ↦ rw h (sym (get_root_id-lookup q page short))
                ],
          )
    ]

-- `UpdateRecord` changes the root id of a name that the page has, and nothing else.
pub get_root_id-update_record :
    (name : List ℕ) (root_id : ℕ) (page : HeaderPage)
    → length name < 32
    → ((get_root_id name page ≡ some none) × (update_record name root_id page ≡ some (page, false)))
      ⊎ ((page' : HeaderPage) × (update_record name root_id page ≡ some (page', true))
          × ((q : List ℕ)
              → length q < 32
              → get_root_id q page' ≡ (
                  if strcmp (c_str name) (c_str q)
                  then some (some root_id)
                  else get_root_id q page)))
unfolding update_record find_record
get_root_id-update_record name root_id page short =
    let fits : leb 32 (length name) ≡ false = ground arith in
    elim (find_record-lookup name page) [
      | inl (f, l) ↦
          inl (get_root_id-lookup name page short ∙ ap some l, rw (update_record, fits, f) refl)
      | inr (j, x, f, l, r) ↦
          let at : 0 + j ≡ j = omega arith in
          let there = f ∙ ap (λ (n : ℕ). some n) (sym at) in
          inr (
            set_root_id j root_id page,
            rw (update_record, fits, f) refl,
            λ q short'.
                get_root_id-lookup q (set_root_id j root_id page) short'
                ∙ ap some (lookup-set_root_id (c_str name) 0 j root_id page (c_str q) there)
                ∙ elim (Bool-cases (strcmp (c_str name) (c_str q))) [
                  | inl h ↦ rw h refl
                  | inr h ↦ rw h (sym (get_root_id-lookup q page short'))
                ],
          )
    ]
