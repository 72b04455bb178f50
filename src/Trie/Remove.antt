-- ===== src/Trie/Remove.antt =====
-- What `Remove` does to every key of the trie.
use cmu.Common.{
  ℕ, ◌≡◌, refl, Bool, true, false, not, Option, none, some, List, [], ◌∷◌, ◌++◌, arith,
  if◌then◌else◌, ◌==◌, ◌&&◌, inl, inr, Option-cases, Bool-cases,
}
use cmu.Trie.Node.{
  TrieNode, value_of, has_children, get_child_node, remove_child_node, get_child_node-set_child,
  get_child_node-remove_child_node, get_child_node-eq-none, value_of-set_child,
  value_of-remove_child_node, has_children-set_child,
}
use cmu.Trie.{Trie, has_path, prune, remove, remove_aux, value_at}

-- `q` is a prefix of `k`.
unfoldable pub is_prefix : List ℕ → List ℕ → Bool
is_prefix [] k = true
is_prefix (c ∷ q) [] = false
is_prefix (c ∷ q) (d ∷ k) = c == d && is_prefix q k

module _ {V : Type 0} where
  -- Below the node only the path `s` is left, with no branch on it or at its end.
  unfoldable pub is_chain : List ℕ → TrieNode V → Bool
  is_chain [] n = not (has_children n)
  is_chain (c ∷ s) n = elim (get_child_node c n) [
    | none ↦ false
    | some m ↦ is_chain s m && not (has_children (remove_child_node c n))
  ]

  -- Where the loop has met its `break`, the node has a child left.
  has_children-prune :
      (k : List ℕ) (n : TrieNode V)
      → has_path k n ≡ true
      → (prune k n).1 ≡ false
      → has_children (prune k n).0 ≡ true
  unfolding prune has_path
  has_children-prune [] n h g = cc
  has_children-prune (c ∷ k) n h g = elim (Option-cases (get_child_node c n)) [
    | inl e ↦ ground arith
    | inr (m, e) ↦ ground (arith, has_children-set_child c (prune k m).0 n)
  ]

  -- Where the key has a path, RemoveAux dereferences no null and leaves the trie as the loop of
  -- Remove does, although it never breaks off.
  pub remove_aux-prune :
      (k : List ℕ) (n : TrieNode V)
      → has_path k n ≡ true
      → remove_aux k (some n) ≡ some (some (prune k n).0)
  unfolding remove_aux prune has_path
  remove_aux-prune [] n h = refl
  remove_aux-prune (c ∷ k) n h = elim (Option-cases (get_child_node c n)) [
    | inl e ↦ ground arith
    | inr (m, e) ↦
        let path : has_path k m ≡ true = ground arith in
        rw (e, remove_aux, prune, remove_aux-prune k m path)
          (ground (arith, has_children-prune k m path))
  ]

  -- The loop goes on past a node exactly if nothing but the path was left below it.
  going-is_chain :
      (k : List ℕ) (n : TrieNode V)
      → has_path k n ≡ true
      → (prune k n).1 && not (has_children (prune k n).0) ≡ is_chain k n
  unfolding prune has_path is_chain
  going-is_chain [] n h = refl
  going-is_chain (c ∷ k) n h = elim (Option-cases (get_child_node c n)) [
    | inl e ↦ ground arith
    | inr (m, e) ↦ ground (arith, going-is_chain k m, has_children-set_child c (prune k m).0 n)
  ]

  -- The node at a path.
  unfoldable pub node_at : List ℕ → TrieNode V → Option (TrieNode V)
  node_at [] n = some n
  node_at (c ∷ q) n = elim (get_child_node c n) [ none ↦ none | some m ↦ node_at q m ]

  value_of-prune : (k : List ℕ) (n : TrieNode V) → value_of (prune k n).0 ≡ value_of n
  unfolding prune
  value_of-prune [] n = refl
  value_of-prune (c ∷ k) n = elim (Option-cases (get_child_node c n)) [
    | inl e ↦ ground arith
    | inr (m, e) ↦
        ground (arith, value_of-set_child c (prune k m).0 n, value_of-remove_child_node c n)
  ]

  get_child_node-prune :
      (c d : ℕ) (k : List ℕ) (n m : TrieNode V)
      → has_path (c ∷ k) n ≡ true
      → get_child_node c n ≡ some m
      → get_child_node d (prune (c ∷ k) n).0 ≡ (
          if d == c
          then (if is_chain k m then none else some (prune k m).0)
          else get_child_node d n)
  unfolding prune has_path
  get_child_node-prune c d k n m h e = ground (
    arith,
    going-is_chain k m,
    get_child_node-set_child d c (prune k m).0 n,
    get_child_node-remove_child_node d c n,
  )

  is_chain-value_at :
      (k q : List ℕ) (n : TrieNode V)
      → is_chain k n ≡ true
      → is_prefix q k ≡ false
      → value_at q n ≡ none
  unfolding is_chain is_prefix value_at
  is_chain-value_at k [] n h p = ground arith
  is_chain-value_at [] (d ∷ q) n h p = ground (arith, get_child_node-eq-none d n)
  is_chain-value_at (c ∷ k) (d ∷ q) n h p = elim (Option-cases (get_child_node c n)) [
    | inl e ↦ ground arith
    | inr (m, e) ↦ ground (
      arith,
      is_chain-value_at k q m,
      get_child_node-eq-none d (remove_child_node c n),
      get_child_node-remove_child_node d c n,
    )
  ]

  prune_off :
      (k q : List ℕ) (n : TrieNode V)
      → has_path k n ≡ true
      → is_prefix q k ≡ false
      → value_at q (prune k n).0 ≡ value_at q n
  unfolding is_prefix value_at
  prune_off k [] n h p = ground arith
  prune_off [] (d ∷ q) n h p = unfold prune in refl
  prune_off (c ∷ k) (d ∷ q) n h p = elim (Option-cases (get_child_node c n)) [
    | inl e ↦ unfold has_path in ground arith
    | inr (m, e) ↦
        let path : has_path k m ≡ true = unfold has_path in ground arith in
        ground
          (arith, get_child_node-prune c d k n m h e, prune_off k q m path, is_chain-value_at k q m)
  ]

  is_chain-suffix :
      (q s : List ℕ) (n m : TrieNode V)
      → is_chain (q ++ s) n ≡ true
      → node_at q n ≡ some m
      → is_chain s m ≡ true
  unfolding node_at is_chain
  is_chain-suffix [] s n m h e = ground arith
  is_chain-suffix (c ∷ q) s n m h e = elim (Option-cases (get_child_node c n)) [
    | inl f ↦ ground arith
    | inr (son, f) ↦ ground (arith, is_chain-suffix q s son m)
  ]

  prune_on :
      (c : ℕ) (q s : List ℕ) (n m : TrieNode V)
      → has_path (c ∷ (q ++ s)) n ≡ true
      → node_at (c ∷ q) n ≡ some m
      → value_at (c ∷ q) (prune (c ∷ (q ++ s)) n).0
        ≡ (if is_chain s m then none else value_at (c ∷ q) n)
  unfolding node_at value_at
  prune_on c [] s n m h e =
      let son : get_child_node c n ≡ some m = ground arith in
      ground (arith, get_child_node-prune c c s n m h son, value_of-prune s m)
  prune_on c (d ∷ q) s n m h e = elim (Option-cases (get_child_node c n)) [
    | inl f ↦ ground arith
    | inr (son, f) ↦
        let path : has_path (d ∷ (q ++ s)) son ≡ true = unfold has_path in ground arith in
        let below : node_at (d ∷ q) son ≡ some m = ground arith in
        ground (
          arith,
          get_child_node-prune c c (d ∷ (q ++ s)) n son h f,
          prune_on d q s son m path below,
          is_chain-suffix (d ∷ q) s son m,
        )
  ]

  -- Remove of a key, stored or not, leaves the value under every key that is no prefix of it as it
  -- was. It returns whether the key has a path, so also true for a key that was never stored and is
  -- a prefix of one that is.
  pub value_at-remove_off :
      (c : ℕ) (k q : List ℕ) (t : Trie V)
      → is_prefix q (c ∷ k) ≡ false
      → ((remove (c ∷ k) t).1 ≡ has_path (c ∷ k) t.root)
        × (value_at q (remove (c ∷ k) t).0.root ≡ value_at q t.root)
  unfolding remove
  value_at-remove_off c k q t off = elim (Bool-cases (has_path (c ∷ k) t.root)) [
    | inl h ↦ rw h (refl, prune_off (c ∷ k) q t.root h off)
    | inr h ↦ rw h (refl, refl)
  ]

  -- Let the key have a path, and split it into c :: q and a rest s. Remove drops the value of c ::
  -- q exactly if nothing but the path s is left below that node, also where s is not empty, so that
  -- c :: q is another key; else that value stays, also where s is empty.
  pub value_at-remove_on :
      (c : ℕ) (q s : List ℕ) (t : Trie V) (m : TrieNode V)
      → has_path (c ∷ (q ++ s)) t.root ≡ true
      → node_at (c ∷ q) t.root ≡ some m
      → value_at (c ∷ q) (remove (c ∷ (q ++ s)) t).0.root
        ≡ (if is_chain s m then none else value_at (c ∷ q) t.root)
  unfolding remove
  value_at-remove_on c q s t m h e = rw h (prune_on c q s t.root m h e)
