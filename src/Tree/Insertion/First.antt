-- ===== src/Tree/Insertion/First.antt =====
-- What a sequence of `Insert`s leaves in a tree.
use cmu.Common.{
  ℕ, suc, ◌+◌, ◌<◌, ◌≡◌, refl, ap, ◌∙◌, inl, inr, Bool, true, false, not, Option, none, some, List,
  [], ◌∷◌, arith, ◌==◌, Bool-cases,
}
use cmu.Page.{Comparator, is_equal, write}
use cmu.Page.Leaf
use cmu.Page.Leaf.{LeafPage, insert_key, key_index, lower_bound}
use cmu.Page.Leaf.Search.{is_equal_lem}
use cmu.Page.Leaf.Insert.{insert_key-held}
use cmu.Header.{HeaderPage, insert_record}
use cmu.Tree.{leaf, BPlusTree, find_leaf_from, get_value, scan_leaf, collect}
use cmu.Tree.Insertion.{
  ◌>>=◌, insert_first, insert_in_leaf, insert_at, insert_unless, insert, insert_all, put_page,
  update_root_page_id, zero_leaf,
}

module _ {K V : Type 0} ⦃key : Comparator K⦄ where
  -- The root is a leaf, and holds one pair.
  pub record HasOne (k : K) (v : V) (t : BPlusTree K V) : Type 0 where
    pub root : ℕ
    pub page : LeafPage K V
    pub rooted : t.root_page_id ≡ some root
    pub there : t.pages root ≡ leaf page
    pub one : page.size ≡ 1
    pub room : 1 < page.max_size
    pub pair : page.array 0 ≡ (k, v)

  -- The loop of `GetValue` finds every other key than the one that is there.
  scan_one :
      (k q : K) (v : V) (p : LeafPage K V)
      → p.size ≡ 1
      → p.array 0 ≡ (k, v)
      → (scan_leaf q p).1 ≡ not (is_equal (key.compare k q))
  unfolding scan_leaf collect
  scan_one k q v p one pair =
      let here : key.compare (p.array 0).0 q ≡ key.compare k q =
        ap (λ (x : K × V). key.compare x.0 q) pair in
      elim (Bool-cases (is_equal (key.compare k q))) [
        | inl e ↦ rw (one, here, e) refl
        | inr e ↦ rw (one, here, e) refl
      ]

  module _ (zero_slot : K × V) (k : K) (v : V) (t : BPlusTree K V) (h : HasOne k v t) where
    value_read : (fuel : ℕ) (q : K) → get_value (suc fuel) q t ≡ some (scan_leaf q h.page)
    unfolding get_value find_leaf_from
    value_read fuel q = rw (get_value, h.rooted, h.there) refl

    insert-unless :
        (fuel : ℕ) (q : K) (w : V) (b : Bool)
        → not (is_equal (key.compare k q)) ≡ b
        → insert zero_slot (suc fuel) q w t ≡ insert_unless zero_slot b (suc fuel) q w t
    unfolding insert
    insert-unless fuel q w b e =
        ap
          (λ (r : Option (List V × Bool)).
            r >>= (λ x. insert_unless zero_slot x.1 (suc fuel) q w t))
          (value_read fuel q)
        ∙ ap (λ (x : Bool). insert_unless zero_slot x (suc fuel) q w t)
            (scan_one k q v h.page h.one h.pair ∙ e)

    leaf_found :
        (fuel : ℕ) (q : K) → find_leaf_from (suc fuel) q h.root t.pages ≡ some (h.root, h.page)
    unfolding find_leaf_from
    leaf_found fuel q = rw (find_leaf_from, h.there) refl

    -- A key that is there changes nothing.
    insert_same :
        (fuel : ℕ) (q : K) (w : V)
        → is_equal (key.compare k q) ≡ true
        → (t' : BPlusTree K V) × (insert zero_slot (suc fuel) q w t ≡ some (t', true))
          × HasOne k v t'
    unfolding insert_unless insert_at insert_in_leaf put_page
    insert_same fuel q w same =
        let held : insert_key q w h.page ≡ h.page =
          insert_key-held h.page (λ i j a b c. absurd (omega (arith, b, c, h.one))) q w 0
            (omega (arith, h.one))
            (ground (arith, is_equal_lem k q, same, ap (λ (x : K × V). key.rank x.0) h.pair)) in
        let space : (h.page.size == h.page.max_size) ≡ false = ground (arith, h.one, h.room) in
        (
          record t { pages = put_page h.root (leaf h.page) t.pages },
          insert-unless fuel q w false (ap not same)
              ∙ ap (λ (x : Option ℕ). insert_at zero_slot (suc fuel) q w x t) h.rooted
              ∙ ap
                  (λ (x : Option (ℕ × LeafPage K V)).
                    x >>= (λ f. insert_in_leaf zero_slot (suc fuel) q w f t))
                  (leaf_found fuel q)
              ∙ rw (insert_in_leaf, held, space)
                  (ap
                    (λ (p : LeafPage K V).
                      some (record t { pages = put_page h.root (leaf p) t.pages }, true))
                    held),
          record {
            root = h.root;
            page = h.page;
            rooted = h.rooted;
            there = ground arith;
            one = h.one;
            room = h.room;
            pair = h.pair;
          },
        )

    insert_any :
        (fuel : ℕ) (q : K) (w : V)
        → (t' : BPlusTree K V) × (insert zero_slot (suc fuel) q w t
            ≡ some (t', is_equal (key.compare k q)))
          × HasOne k v t'
    insert_any fuel q w = elim (Bool-cases (is_equal (key.compare k q))) [
      | inr other ↦ (
        t,
        rw other (insert-unless fuel q w true (ap not other) ∙ unfold insert_unless in refl),
        h,
      )
      | inl same ↦ let (t', run, h') = insert_same fuel q w same in (t', rw same run, h')
    ]

  insert_all-HasOne_from :
      (zero_slot : K × V) (fuel : ℕ) (k : K) (v : V) (l : List (K × V)) (t : BPlusTree K V)
      → HasOne k v t
      → (t' : BPlusTree K V) × (insert_all zero_slot (suc fuel) l t ≡ some t') × HasOne k v t'
  unfolding insert_all
  insert_all-HasOne_from zero_slot fuel k v [] t h = (t, refl, h)
  insert_all-HasOne_from zero_slot fuel k v ((q, w) ∷ l) t h =
      let (t', run, h') = insert_any zero_slot k v t h fuel q w in
      let (t'', run', h'') = insert_all-HasOne_from zero_slot fuel k v l t' h' in
      (t'', rw (insert_all, run) run', h'')

  module _ (zero_slot : K × V) (k : K) (v : V) (t : BPlusTree K V) (empty : t.root_page_id ≡ none)
      (room : 1 < t.leaf_max_size) (header : HeaderPage)
      (recorded : insert_record t.index_name t.next_page_id t.header_page
        ≡ some (header, true)) where
    first_page : LeafPage K V
    unfolding Leaf.init
    first_page =
        insert_key k v (Leaf.init (some t.next_page_id) none t.leaf_max_size (zero_leaf zero_slot))

    first_tree : BPlusTree K V
    first_tree = record t {
      root_page_id = some t.next_page_id;
      next_page_id = t.next_page_id + 1;
      pages = put_page t.next_page_id (leaf first_page) t.pages;
      header_page = header;
    }

    first_tree-HasOne : HasOne k v first_tree
    unfolding first_tree first_page put_page insert_key key_index lower_bound write Leaf.init
    first_tree-HasOne = record {
      root = t.next_page_id;
      page = first_page;
      rooted = refl;
      there = ground arith;
      one = refl;
      room = room;
      pair = refl;
    }

    insert_first-tree : insert_first zero_slot k v t ≡ some (first_tree, true)
    unfolding first_tree first_page insert_first update_root_page_id Leaf.init
    insert_first-tree = rw (insert_first, update_root_page_id, recorded) refl

    insert-first : (fuel : ℕ) → insert zero_slot fuel k v t ≡ some (first_tree, true)
    unfolding insert insert_unless insert_at get_value
    insert-first fuel =
        let nothing : get_value fuel k t ≡ some ([], false) = rw (get_value, empty) refl in
        ap (λ (r : Option (List V × Bool)). r >>= (λ x. insert_unless zero_slot x.1 fuel k v t))
          nothing
        ∙ ap (λ (x : Option ℕ). insert_at zero_slot fuel k v x t) empty
        ∙ insert_first-tree

  -- Let the tree be empty, a leaf have room for two slots at least, and the header page take the
  -- record of the root. A sequence of Inserts that is not empty then returns, with one round of
  -- search each, and leaves a root that is a leaf with the first pair and no other: whatever is
  -- inserted later, the tree holds one key.
  pub insert_all-HasOne :
      (zero_slot : K × V) (fuel : ℕ) (k : K) (v : V) (l : List (K × V)) (t : BPlusTree K V)
      → t.root_page_id ≡ none
      → 1 < t.leaf_max_size
      → (header : HeaderPage)
      → insert_record t.index_name t.next_page_id t.header_page ≡ some (header, true)
      → (t' : BPlusTree K V) × (insert_all zero_slot (suc fuel) ((k, v) ∷ l) t ≡ some t')
        × HasOne k v t'
  unfolding insert_all
  insert_all-HasOne zero_slot fuel k v l t empty room header recorded =
      let first = insert-first zero_slot k v t empty room header recorded (suc fuel) in
      let tree = first_tree zero_slot k v t empty room header recorded in
      let (t', run, h) =
        insert_all-HasOne_from zero_slot fuel k v l tree
          (first_tree-HasOne zero_slot k v t empty room header recorded) in
      (t', rw (insert_all, first) run, h)
