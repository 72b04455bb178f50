-- ===== src/Trie/Node.antt =====
-- `TrieNode` and `TrieNodeWithValue` of src/include/primer/p0_trie.h.
use cmu.Common.{
  ℕ, ◌≡◌, refl, Bool, true, false, Option, none, some, arith, if◌then◌else◌, ◌==◌, not, ◌&&◌,
}

-- Both classes in one type: `value_` is `none` in a plain `TrieNode`, and is there in a
-- `TrieNodeWithValue`. The fields of `node` are `key_char_`, `is_end_`, `value_` and `children_`.
mutual
  pub data TrieNode (V : Type 0) : Type 0 where
    node : ℕ → Bool → Option V → Children V → TrieNode V

  -- The map `children_`, as its entries; of two with one key only the first counts.
  pub data Children (V : Type 0) : Type 0 where
    nil : Children V
    entry : ℕ → TrieNode V → Children V → Children V

abbrev pub is_some {ℓ} : {A : Type ℓ} → Option A → Bool
is_some none = false
is_some (some a) = true

module _ {V : Type 0} where
  -- The map's own operations.
  unfoldable pub find : ℕ → Children V → Option (TrieNode V)
  find c nil = none
  find c (entry d n ch) = if c == d then some n else find c ch

  unfoldable pub erase : ℕ → Children V → Children V
  erase c nil = nil
  erase c (entry d n ch) = if c == d then erase c ch else entry d n (erase c ch)

  unfoldable pub is_empty : Children V → Bool
  is_empty nil = true
  is_empty (entry d n ch) = false

  -- `TrieNode(key_char)`.
  unfoldable pub new_node : ℕ → TrieNode V
  new_node c = node c false none nil

  -- `TrieNodeWithValue(TrieNode &&, value)`: the children move over, `is_end_` is set.
  unfoldable pub with_value : TrieNode V → V → TrieNode V
  with_value (node c e w ch) v = node c true (some v) ch

  -- `TrieNodeWithValue(key_char, value)`.
  unfoldable pub new_value_node : ℕ → V → TrieNode V
  new_value_node c v = node c true (some v) nil

  unfoldable pub get_key_char : TrieNode V → ℕ
  get_key_char (node c e v ch) = c

  unfoldable pub is_end_node : TrieNode V → Bool
  is_end_node (node c e v ch) = e

  -- What a `dynamic_cast` to the class with a value finds.
  unfoldable pub value_of : TrieNode V → Option V
  value_of (node c e v ch) = v

  unfoldable pub get_child_node : ℕ → TrieNode V → Option (TrieNode V)
  get_child_node c (node d e v ch) = find c ch

  unfoldable pub has_child : ℕ → TrieNode V → Bool
  unfolding get_child_node
  has_child c n = is_some (get_child_node c n)

  unfoldable pub has_children : TrieNode V → Bool
  has_children (node d e v ch) = not (is_empty ch)

  -- A write through the pointer that `GetChildNode` returns.
  unfoldable pub set_child : ℕ → TrieNode V → TrieNode V → TrieNode V
  set_child c m (node d e v ch) = node d e v (entry c m (erase c ch))

  -- The flag says whether a pointer other than `nullptr` comes back.
  unfoldable pub insert_child_node : ℕ → TrieNode V → TrieNode V → TrieNode V × Bool
  insert_child_node c child n =
      if not (has_child c n) && c == get_key_char child
      then (set_child c child n, true)
      else (n, false)

  unfoldable pub remove_child_node : ℕ → TrieNode V → TrieNode V
  remove_child_node c (node d e v ch) =
      if has_child c (node d e v ch) then node d e v (erase c ch) else node d e v ch

  unfoldable pub set_end_node : Bool → TrieNode V → TrieNode V
  set_end_node b (node d e v ch) = node d b v ch

  find-erase :
      (c d : ℕ) (ch : Children V) → find c (erase d ch) ≡ (if c == d then none else find c ch)
  unfolding find erase
  find-erase c d nil = ground arith
  find-erase c d (entry i n ch) = ground (arith, find-erase c d ch)

  pub get_child_node-set_child :
      (c d : ℕ) (m n : TrieNode V)
      → get_child_node c (set_child d m n) ≡ (if c == d then some m else get_child_node c n)
  unfolding get_child_node set_child find
  get_child_node-set_child c d m (node i e v ch) = ground (arith, find-erase c d ch)

  pub get_child_node-remove_child_node :
      (c d : ℕ) (n : TrieNode V)
      → get_child_node c (remove_child_node d n) ≡ (if c == d then none else get_child_node c n)
  unfolding get_child_node remove_child_node has_child
  get_child_node-remove_child_node c d (node i e v ch) = ground (arith, find-erase c d ch)

  -- A node with no children has no child under any character.
  pub get_child_node-eq-none :
      (c : ℕ) (n : TrieNode V) → has_children n ≡ false → get_child_node c n ≡ none
  unfolding get_child_node has_children is_empty find
  get_child_node-eq-none c (node i e v nil) h = refl
  get_child_node-eq-none c (node i e v (entry d n ch)) h = ground arith

  pub value_of-set_child : (d : ℕ) (m n : TrieNode V) → value_of (set_child d m n) ≡ value_of n
  unfolding value_of set_child
  value_of-set_child d m (node i e v ch) = refl

  pub is_end_node-set_child :
      (d : ℕ) (m n : TrieNode V) → is_end_node (set_child d m n) ≡ is_end_node n
  unfolding is_end_node set_child
  is_end_node-set_child d m (node i e v ch) = refl

  pub has_children-set_child : (d : ℕ) (m n : TrieNode V) → has_children (set_child d m n) ≡ true
  unfolding has_children set_child is_empty
  has_children-set_child d m (node i e v ch) = refl

  pub value_of-remove_child_node :
      (d : ℕ) (n : TrieNode V) → value_of (remove_child_node d n) ≡ value_of n
  unfolding value_of remove_child_node
  value_of-remove_child_node d (node i e v ch) = ground arith

  pub is_end_node-remove_child_node :
      (d : ℕ) (n : TrieNode V) → is_end_node (remove_child_node d n) ≡ is_end_node n
  unfolding is_end_node remove_child_node
  is_end_node-remove_child_node d (node i e v ch) = ground arith

  -- `Insert` asks for the child, and makes it first where there is none.
  pub get_child_node-insert_child_node :
      (c d : ℕ) (n : TrieNode V)
      → get_child_node d n ≡ none
      → get_child_node c (insert_child_node d (new_node d) n).0
        ≡ (if c == d then some (new_node d) else get_child_node c n)
  unfolding insert_child_node has_child get_key_char new_node
  get_child_node-insert_child_node c d n h =
      ground (arith, get_child_node-set_child c d (new_node d) n)

  pub with_value_lem :
      (n : TrieNode V) (v : V)
      → (value_of (with_value n v) ≡ some v) × (is_end_node (with_value n v) ≡ true)
  unfolding with_value value_of is_end_node
  with_value_lem (node c e w ch) v = (refl, refl)

  pub get_child_node-with_value :
      (c : ℕ) (n : TrieNode V) (v : V) → get_child_node c (with_value n v) ≡ get_child_node c n
  unfolding with_value get_child_node
  get_child_node-with_value c (node d e w ch) v = refl
