-- ===== src/Tree/Insertion.antt =====
-- `Insert`, `InsertIntoParent`, `UpdateRootPageId` and the internal half of `Split` of
-- src/storage/index/b_plus_tree.cpp. That `NewPage` and `FetchPage` have a frame is taken for granted;
-- a new page is zero, and what its slots are read as is an argument. The header page was allocated
-- before, with the id `HEADER_PAGE_ID`, and is a field of the tree.
pub mod First
use cmu.Common.{
  ℕ, zero, suc, ◌+◌, ◌-◌, Bool, true, false, Option, none, some, List, [], ◌∷◌, if◌then◌else◌, ◌==◌,
  ltb,
}
use cmu.Page.{Comparator, Slots, PageId, invalid_index_page, get_min_size, copy}
use cmu.Page.Leaf
use cmu.Page.Leaf.{LeafPage, insert_key}
use cmu.Page.Internal
use cmu.Page.Internal.{InternalPage, insertkv, set_all_at, set_value_at, key_at}
use cmu.Header.{HeaderPage, insert_record, update_record}
use cmu.Tree.{TreePage, leaf, internal, BPlusTree, find_leaf_from, get_value}

infixl 5 ◌>>=◌
abbrev pub ◌>>=◌ : {A B : Type 0} → Option A → (A → Option B) → Option B
none >>= f = none
some a >>= f = f a

module _ {K V : Type 0} where
  unfoldable pub put_page : ℕ → TreePage K V → (ℕ → TreePage K V) → ℕ → TreePage K V
  put_page id p pages j = if j == id then p else pages j

  -- `SetParentPageId` and `GetParentPageId`.
  unfoldable pub set_parent : PageId → TreePage K V → TreePage K V
  set_parent id (leaf p) = leaf (record p { parent_page_id = id })
  set_parent id (internal p) = internal (record p { parent_page_id = id })

  unfoldable pub get_parent : TreePage K V → PageId
  get_parent (leaf p) = p.parent_page_id
  get_parent (internal p) = p.parent_page_id

  -- The loop over the children in `Split`, of the `n` slots from `i` on.
  unfoldable pub reparent : ℕ → ℕ → ℕ → Slots K ℕ → (ℕ → TreePage K V) → ℕ → TreePage K V
  unfolding put_page set_parent
  reparent new_page_id i zero a pages = pages
  reparent new_page_id i (suc n) a pages =
      let son = (a i).1 in
      reparent new_page_id (i + 1) n a
        (put_page son (set_parent (some new_page_id) (pages son)) pages)

module _ {K : Type 0} where
  -- `Split` of an internal page, into itself and a new page, which was zero.
  unfoldable pub split_internal : K → ℕ → ℕ → InternalPage K → InternalPage K × InternalPage K
  unfolding Internal.init get_min_size copy
  split_internal zero_key internal_max_size new_page_id old_internal =
      let zeroed : InternalPage K = record {
        page_type = invalid_index_page;
        lsn = none;
        size = 0;
        max_size = 0;
        parent_page_id = some 0;
        page_id = some 0;
        array = λ j. (zero_key, 0);
      } in
      let new_internal =
        Internal.init (some new_page_id) old_internal.parent_page_id internal_max_size zeroed in
      let st_index = get_min_size old_internal.max_size in
      (
        record old_internal { size = st_index },
        record new_internal {
          array =
              copy old_internal.array st_index (old_internal.size - st_index) new_internal.size
                new_internal.array;
          size = new_internal.size + (old_internal.max_size - st_index);
        },
      )

module _ {K V : Type 0} ⦃key : Comparator K⦄ (zero_slot : K × V) where
  -- `UpdateRootPageId`.
  unfoldable pub update_root_page_id : Bool → ℕ → BPlusTree K V → Option (BPlusTree K V)
  unfolding insert_record update_record
  update_root_page_id insert root t = do
    r ←
        if insert
        then insert_record t.index_name root t.header_page
        else update_record t.index_name root t.header_page
    some (record t { header_page = r.0; root_page_id = some root })

  -- A page from `NewPage` as a leaf.
  abbrev pub zero_leaf : LeafPage K V
  zero_leaf = record {
    page_type = invalid_index_page;
    lsn = none;
    size = 0;
    max_size = 0;
    parent_page_id = some 0;
    page_id = some 0;
    next_page_id = some 0;
    array = λ j. zero_slot;
  }

  -- The new root of `InsertIntoParent`, over the pages `old` and `new`.
  abbrev pub new_root : ℕ → ℕ → ℕ → K → ℕ → InternalPage K
  new_root internal_max_size root old k new =
      record (set_value_at 0 old (
        set_all_at 1 k new (
          Internal.init (some root) none internal_max_size (record {
            page_type = invalid_index_page;
            lsn = none;
            size = 0;
            max_size = 0;
            parent_page_id = some 0;
            page_id = some 0;
            array = λ j. (zero_slot.0, 0);
          })))) { size = 2 }

  -- `InsertIntoParent`, of a page next to its left sibling, which stand in the pages already. `none`
  -- if the fuel runs out, if an assertion fails, and if the parent is no internal page.
  unfoldable pub insert_into_parent : ℕ → ℕ → K → ℕ → BPlusTree K V → Option (BPlusTree K V)
  unfolding update_root_page_id put_page set_parent get_parent reparent split_internal insertkv
      set_all_at set_value_at key_at Internal.init get_min_size
  insert_into_parent zero old k new t = none
  insert_into_parent (suc fuel) old k new t = elim (get_parent (t.pages old)) [
    | none ↦
        let root = t.next_page_id in
        let below = put_page old (set_parent (some root) (t.pages old)) t.pages in
        update_root_page_id false root (record t {
          next_page_id = root + 1;
          pages =
              put_page root (internal (new_root t.internal_max_size root old k new))
                (put_page new (set_parent (some root) (below new)) below);
        })
    | some parent ↦ elim (t.pages parent) [
      | leaf p ↦ none
      | internal p ↦
          let copied = insertkv old k new p in
          elim (ltb p.size t.internal_max_size) [
            | true ↦ some (record t { pages = put_page parent (internal copied) t.pages })
            | false ↦
                let sibling = t.next_page_id in
                let st_index = get_min_size copied.max_size in
                let halves = split_internal zero_slot.0 t.internal_max_size sibling copied in
                let kept = record halves.0 {
                  array = λ j. if ltb j st_index then halves.0.array j else p.array j;
                } in
                insert_into_parent fuel parent (key_at 0 halves.1) sibling (record t {
                  next_page_id = sibling + 1;
                  pages = put_page parent (internal kept) (
                      put_page sibling (internal halves.1)
                        (reparent sibling st_index st_index copied.array t.pages));
                })
          ]
    ]
  ]

  -- `Insert` into a tree that is empty, and into the leaf `found`, with its id.
  unfoldable pub insert_first : K → V → BPlusTree K V → Option (BPlusTree K V × Bool)
  unfolding insert_key Leaf.init update_root_page_id put_page
  insert_first k v t = do
    let root = t.next_page_id
    let first = Leaf.init (some root) none t.leaf_max_size zero_leaf
    t' ← update_root_page_id true root (record t {
      next_page_id = root + 1;
      pages = put_page root (leaf (insert_key k v first)) t.pages;
    })
    some (t', true)

  unfoldable pub insert_in_leaf :
      ℕ → K → V → ℕ × LeafPage K V → BPlusTree K V → Option (BPlusTree K V × Bool)
  unfolding insert_key Leaf.split Leaf.key_at put_page insert_into_parent
  insert_in_leaf fuel k v (id, leaf_page) t =
      let p = insert_key k v leaf_page in
      elim (p.size == p.max_size) [
        | false ↦ some (record t { pages = put_page id (leaf p) t.pages }, true)
        | true ↦ do
          let sibling = t.next_page_id
          let halves = Leaf.split t.leaf_max_size (some sibling) p zero_leaf
          let left = record halves.0 { next_page_id = halves.1.page_id }
          let right = record halves.1 { next_page_id = halves.0.next_page_id }
          t' ← insert_into_parent fuel id (Leaf.key_at 0 right) sibling (record t {
            next_page_id = sibling + 1;
            pages = put_page id (leaf left) (put_page sibling (leaf right) t.pages);
          })
          some (t', true)
      ]

  unfoldable pub insert_at : ℕ → K → V → PageId → BPlusTree K V → Option (BPlusTree K V × Bool)
  unfolding insert_first insert_in_leaf find_leaf_from
  insert_at fuel k v none t = insert_first k v t
  insert_at fuel k v (some root) t = do
    found ← find_leaf_from fuel k root t.pages
    insert_in_leaf fuel k v found t

  -- What `Insert` does after `GetValue` has returned.
  unfoldable pub insert_unless : Bool → ℕ → K → V → BPlusTree K V → Option (BPlusTree K V × Bool)
  unfolding insert_at
  insert_unless true fuel k v t = some (t, false)
  insert_unless false fuel k v t = insert_at fuel k v t.root_page_id t

  -- `Insert`, with what it returns.
  unfoldable pub insert : ℕ → K → V → BPlusTree K V → Option (BPlusTree K V × Bool)
  unfolding get_value insert_unless
  insert fuel k v t = do r ← get_value fuel k t; insert_unless r.1 fuel k v t

  -- A sequence of calls of `Insert`.
  unfoldable pub insert_all : ℕ → List (K × V) → BPlusTree K V → Option (BPlusTree K V)
  unfolding insert
  insert_all fuel [] t = some t
  insert_all fuel ((k, v) ∷ l) t = do r ← insert fuel k v t; insert_all fuel l r.0
