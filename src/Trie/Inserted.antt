-- ===== src/Trie/Inserted.antt =====
-- What `Insert` does to the nodes and the values of the trie.
use cmu.Common.{
  ℕ, ◌≡◌, refl, ◌∙◌, Bool, true, false, not, none, some, List, [], ◌∷◌, arith, if◌then◌else◌, ◌==◌,
  ◌&&◌,
}
use cmu.Trie.Node.{
  TrieNode, new_node, with_value, is_end_node, value_of, get_child_node, insert_child_node,
  set_child, find, get_child_node-insert_child_node, get_child_node-set_child, value_of-set_child,
  is_end_node-set_child, with_value_lem, get_child_node-with_value,
}
use cmu.Trie.{ensure_child, insert_at, value_at}

-- Two keys are the same string.
unfoldable pub same_key : List ℕ → List ℕ → Bool
same_key [] [] = true
same_key [] (d ∷ ds) = false
same_key (c ∷ cs) [] = false
same_key (c ∷ cs) (d ∷ ds) = c == d && same_key cs ds

pub same_key_refl : (k : List ℕ) → same_key k k ≡ true
unfolding same_key
same_key_refl [] = refl
same_key_refl (c ∷ cs) = ground (arith, same_key_refl cs)

pub same_key→eq : (k l : List ℕ) → same_key k l ≡ true → k ≡ l
unfolding same_key
same_key→eq [] [] h = refl
same_key→eq [] (d ∷ ds) h = cc
same_key→eq (c ∷ cs) [] h = cc
same_key→eq (c ∷ cs) (d ∷ ds) h = ground (arith, same_key→eq cs ds)

module _ {V : Type 0} where
  -- `is_end_` of the node at a path, `false` where there is none.
  unfoldable pub end_at : List ℕ → TrieNode V → Bool
  end_at [] n = is_end_node n
  end_at (c ∷ cs) n = elim (get_child_node c n) [ none ↦ false | some m ↦ end_at cs m ]

module _ (V : Type 0) where
  pub value_at-new_node : (k : List ℕ) (c : ℕ) → value_at k (new_node {V = V} c) ≡ none
  unfolding value_at new_node value_of get_child_node find
  value_at-new_node [] c = refl
  value_at-new_node (d ∷ k) c = refl

  pub end_at-new_node : (k : List ℕ) (c : ℕ) → end_at k (new_node {V = V} c) ≡ false
  unfolding end_at new_node is_end_node get_child_node find
  end_at-new_node [] c = refl
  end_at-new_node (d ∷ k) c = refl

module _ {V : Type 0} where
  -- The child that `Insert` steps to.
  child_or_new : ℕ → TrieNode V → TrieNode V
  child_or_new c n = elim (get_child_node c n) [ none ↦ new_node c | some m ↦ m ]

  value_of-ensure_child : (c : ℕ) (n : TrieNode V) → value_of (ensure_child c n) ≡ value_of n
  unfolding ensure_child insert_child_node
  value_of-ensure_child c n = ground (arith, value_of-set_child c (new_node c) n)

  is_end_node-ensure_child :
      (c : ℕ) (n : TrieNode V) → is_end_node (ensure_child c n) ≡ is_end_node n
  unfolding ensure_child insert_child_node
  is_end_node-ensure_child c n = ground (arith, is_end_node-set_child c (new_node c) n)

  get_child_node-ensure_child :
      (d c : ℕ) (n : TrieNode V)
      → get_child_node d (ensure_child c n)
        ≡ (if d == c then some (child_or_new c n) else get_child_node d n)
  unfolding ensure_child child_or_new
  get_child_node-ensure_child d c n = ground (arith, get_child_node-insert_child_node d c n)

  -- The result of `insert_at`, without the fault.
  pub inserted : List ℕ → V → TrieNode V → TrieNode V
  inserted [] v n = if is_end_node n then n else with_value n v
  inserted (c ∷ cs) v n = set_child c (inserted cs v (child_or_new c n)) (ensure_child c n)

  end_at-child_or_new :
      (k : List ℕ) (c : ℕ) (n : TrieNode V) → end_at k (child_or_new c n) ≡ end_at (c ∷ k) n
  unfolding child_or_new end_at
  end_at-child_or_new k c n = ground (arith, end_at-new_node V k c)

  value_at-child_or_new :
      (k : List ℕ) (c : ℕ) (n : TrieNode V) → value_at k (child_or_new c n) ≡ value_at (c ∷ k) n
  unfolding child_or_new value_at
  value_at-child_or_new k c n = ground (arith, value_at-new_node V k c)

  pub insert_at-inserted :
      (k : List ℕ) (v : V) (n : TrieNode V)
      → insert_at k v n ≡ some (inserted k v n, not (end_at k n))
  unfolding insert_at inserted end_at
  insert_at-inserted [] v n = ground arith
  insert_at-inserted (c ∷ cs) v n =
      rw (get_child_node-ensure_child c c n)
        (ground (arith, insert_at-inserted cs v (child_or_new c n), end_at-child_or_new cs c n))

  pub value_at-inserted :
      (k : List ℕ) (v : V) (n : TrieNode V) (q : List ℕ)
      → value_at q (inserted k v n)
        ≡ (if not (end_at k n) && same_key q k then some v else value_at q n)
  unfolding value_at inserted same_key end_at
  value_at-inserted [] v n [] = ground (arith, with_value_lem n v)
  value_at-inserted [] v n (d ∷ q) = ground (arith, get_child_node-with_value d n v)
  value_at-inserted (c ∷ cs) v n [] = ground (
    arith,
    value_of-set_child c (inserted cs v (child_or_new c n)) (ensure_child c n),
    value_of-ensure_child c n,
  )
  value_at-inserted (c ∷ cs) v n (d ∷ q) = ground (
    arith,
    get_child_node-set_child d c (inserted cs v (child_or_new c n)) (ensure_child c n),
    get_child_node-ensure_child d c n,
    value_at-inserted cs v (child_or_new c n) q,
    value_at-child_or_new q c n,
    end_at-child_or_new cs c n,
  )

  pub end_at-inserted :
      (k : List ℕ) (v : V) (n : TrieNode V) (q : List ℕ)
      → end_at q (inserted k v n) ≡ (if not (end_at k n) && same_key q k then true else end_at q n)
  unfolding inserted same_key end_at
  end_at-inserted [] v n [] = ground (arith, with_value_lem n v)
  end_at-inserted [] v n (d ∷ q) = ground (arith, get_child_node-with_value d n v)
  end_at-inserted (c ∷ cs) v n [] = ground (
    arith,
    is_end_node-set_child c (inserted cs v (child_or_new c n)) (ensure_child c n),
    is_end_node-ensure_child c n,
  )
  end_at-inserted (c ∷ cs) v n (d ∷ q) = ground (
    arith,
    get_child_node-set_child d c (inserted cs v (child_or_new c n)) (ensure_child c n),
    get_child_node-ensure_child d c n,
    end_at-inserted cs v (child_or_new c n) q,
    end_at-child_or_new q c n,
    end_at-child_or_new cs c n,
  )

  pub value_of-inserted :
      (c : ℕ) (cs : List ℕ) (v : V) (n : TrieNode V) → value_of (inserted (c ∷ cs) v n) ≡ value_of n
  unfolding inserted
  value_of-inserted c cs v n =
      value_of-set_child c (inserted cs v (child_or_new c n)) (ensure_child c n)
      ∙ value_of-ensure_child c n
