-- ===== src/Trie.antt =====
-- The trie of src/include/primer/p0_trie.h, one operation at a time: each runs as one step, the
-- latch is not modelled.
pub mod Node
pub mod Inserted
pub mod Insert
pub mod Remove
mod Tests
use cmu.Common.{
  ℕ, ◌≡◌, refl, Bool, true, false, not, Option, none, some, List, [], ◌∷◌, arith, if◌then◌else◌,
  ◌==◌, ◌&&◌,
}
use Node.{
  TrieNode, new_node, with_value, is_end_node, value_of, has_child, has_children, get_child_node,
  insert_child_node, remove_child_node, set_child, is_some,
}

pub record Trie (V : Type 0) : Type 0 where
  pub root : TrieNode V

-- `none` is a null pointer that is dereferenced.
infixl 5 ◌>>=◌
abbrev pub ◌>>=◌ : {A B : Type 0} → Option A → (A → Option B) → Option B
none >>= f = none
some a >>= f = f a

module _ {V : Type 0} where
  -- `Trie()`.
  unfoldable pub new : Trie V
  new = record { root = new_node 0 }

  -- The body of the loop of `Insert` above the step down.
  unfoldable pub ensure_child : ℕ → TrieNode V → TrieNode V
  ensure_child c n = elim (get_child_node c n) [
    | none ↦ (insert_child_node c (new_node c) n).0
    | some _ ↦ n
  ]

  -- The loop of `Insert` and what follows it, from the node `*p`. What the code writes through `p`
  -- is put back under each parent on the way up.
  unfoldable pub insert_at : List ℕ → V → TrieNode V → Option (TrieNode V × Bool)
  insert_at [] v n = if is_end_node n then some (n, false) else some (with_value n v, true)
  insert_at (c ∷ cs) v n = do
    let n' = ensure_child c n
    child ← get_child_node c n'
    (child', done) ← insert_at cs v child
    some (set_child c child' n', done)

  unfoldable pub insert : List ℕ → V → Trie V → Option (Trie V × Bool)
  insert [] v t = some (t, false)
  insert (c ∷ cs) v t = do
    (n, done) ← insert_at (c ∷ cs) v t.root
    some (record t { root = n }, done)

  -- The read loop of `Remove`: is there a node for each character?
  unfoldable pub has_path : List ℕ → TrieNode V → Bool
  has_path [] n = true
  has_path (c ∷ cs) n = elim (get_child_node c n) [ none ↦ false | some m ↦ has_path cs m ]

  -- The `while (!v.empty())` loop of `Remove`. The vector of pointers is the stack of these calls,
  -- and a return is a `pop_back`; the flag says that the loop has not met its `break`.
  unfoldable pub prune : List ℕ → TrieNode V → TrieNode V × Bool
  prune [] n = (n, true)
  prune (c ∷ cs) n = elim (get_child_node c n) [
    | none ↦ (n, false)
    | some son ↦
        let (son', going) = prune cs son in
        if going && not (has_children son')
        then (remove_child_node c n, true)
        else (set_child c son' n, false)
  ]

  unfoldable pub remove : List ℕ → Trie V → Trie V × Bool
  remove [] t = (t, false)
  remove (c ∷ cs) t =
      if has_path (c ∷ cs) t.root
      then (record t { root = (prune (c ∷ cs) t.root).0 }, true)
      else (t, false)

  -- `RemoveAux(key, index, pre)`, at the part of the key from `index` on. The pointer `pre` may be
  -- null, and is dereferenced unless the key is used up.
  unfoldable pub remove_aux : List ℕ → Option (TrieNode V) → Option (Option (TrieNode V))
  remove_aux [] pre = some pre
  remove_aux (c ∷ cs) none = none
  remove_aux (c ∷ cs) (some n) = do
    node ← remove_aux cs (get_child_node c n)
    elim node [
      | none ↦ some (some n)
      | some m ↦
          some (some (if not (has_children m) then remove_child_node c n else set_child c m n))
    ]

  -- The values by key: what the trie stands for.
  unfoldable pub value_at : List ℕ → TrieNode V → Option V
  value_at [] n = value_of n
  value_at (c ∷ cs) n = elim (get_child_node c n) [ none ↦ none | some m ↦ value_at cs m ]

  -- `GetValue<T>`, where `tag` gives the type of a value; `none` for `*success = false`.
  module _ (tag : V → ℕ) where
    unfoldable pub get_value_at : ℕ → List ℕ → TrieNode V → Option V
    get_value_at ty [] n = elim (value_of n) [
      | none ↦ none
      | some v ↦ if tag v == ty then some v else none
    ]
    get_value_at ty (c ∷ cs) n = elim (get_child_node c n) [
      | none ↦ none
      | some m ↦ get_value_at ty cs m
    ]

    unfoldable pub get_value : ℕ → List ℕ → Trie V → Option V
    unfolding get_value_at
    get_value ty key t = get_value_at ty key t.root
