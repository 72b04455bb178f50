-- ===== src/Trie/Tests.antt =====
-- Runs of the trie of src/include/primer/p0_trie.h.
use cmu.Common.{
  ◌/◌, ℕ, ◌≡◌, refl, Bool, true, false, Option, none, some, [], ◌∷◌, if◌then◌else◌, ◌==◌, ◌&&◌,
}
use cmu.Trie.Node.{
  TrieNode, node, nil, entry, find, erase, is_empty, is_end_node, value_of, get_child_node,
  has_child, has_children, set_child, new_node, insert_child_node, remove_child_node, with_value,
  get_key_char,
}
use cmu.Trie.{
  Trie, ◌>>=◌, new, insert, insert_at, ensure_child, remove, has_path, prune, value_at, get_value,
}
use cmu.Trie.Insert.{new-IsConsistent, is_fresh, get_value-insert}
use cmu.Trie.Inserted.{same_key}
use cmu.Trie.Remove.{is_prefix, is_chain, node_at, value_at-remove_off, value_at-remove_on}

-- Values of two types: numbers below ten, and the others.
abbrev tag : ℕ → ℕ
tag v = if v / 10 == 0 then 0 else 1

-- "a" and "ab" are stored.
abbrev two_keys : Trie ℕ
two_keys = record {
  root =
      node 0 false none
        (entry 1 (node 1 true (some 5) (entry 2 (node 2 true (some 6) nil) nil)) nil);
}

abbrev session : Option (Trie ℕ × Bool × Bool × Bool)
session = do
  (a, done) ← insert (1 ∷ []) 5 new
  (b, done') ← insert (1 ∷ 2 ∷ []) 6 a
  (c, done'') ← insert (1 ∷ []) 7 b
  some (c, done, done', done'')

session_runs : session ≡ some (two_keys, true, true, false)
unfolding new insert insert_at ensure_child find erase is_empty is_end_node value_of get_child_node
    has_child has_children set_child new_node insert_child_node with_value get_key_char
session_runs = refl

-- Removing "a", which has "ab" below it, reports success and removes nothing.
removed_short : remove (1 ∷ []) two_keys ≡ (two_keys, true)
unfolding remove has_path prune find erase is_empty get_child_node has_child has_children set_child
removed_short = refl

-- Removing "ab" removes "a" as well.
removed_long : remove (1 ∷ 2 ∷ []) two_keys ≡ (new, true)
unfolding remove has_path prune find erase is_empty get_child_node has_child has_children set_child
    remove_child_node new new_node
removed_long = refl

get_value-insert_example :
    (t' : Trie ℕ) × (insert (1 ∷ []) 5 new ≡ some (t', is_fresh (1 ∷ []) (new {V = ℕ})))
    × (get_value tag 0 (1 ∷ []) t' ≡ (
        if is_fresh (1 ∷ []) (new {V = ℕ}) && same_key (1 ∷ []) (1 ∷ [])
        then (if tag 5 == 0 then some 5 else none)
        else get_value tag 0 (1 ∷ []) new))
get_value-insert_example = get_value-insert tag 0 (1 ∷ []) (1 ∷ []) 5 new (new-IsConsistent ℕ)

value_at-remove_off_example :
    ((remove (1 ∷ 2 ∷ []) two_keys).1 ≡ has_path (1 ∷ 2 ∷ []) two_keys.root)
    × (value_at (3 ∷ []) (remove (1 ∷ 2 ∷ []) two_keys).0.root ≡ value_at (3 ∷ []) two_keys.root)
unfolding is_prefix
value_at-remove_off_example = value_at-remove_off 1 (2 ∷ []) (3 ∷ []) two_keys refl

-- "b" was never stored, but has a path; its removal returns true, and "ba" stays.
never_stored :
    (remove (2 ∷ []) (record two_keys {
      root =
          node 0 false none
            (entry 2 (node 2 false none (entry 1 (node 1 true (some 5) nil) nil)) nil);
    })).1
    ≡ true
unfolding remove has_path get_child_node find
never_stored = refl

abbrev below : TrieNode ℕ
below = node 1 true (some 5) (entry 2 (node 2 true (some 6) nil) nil)

value_at-remove_on_example :
    value_at (1 ∷ []) (remove (1 ∷ 2 ∷ []) two_keys).0.root
    ≡ (if is_chain (2 ∷ []) below then none else value_at (1 ∷ []) two_keys.root)
unfolding has_path get_child_node find node_at
value_at-remove_on_example = value_at-remove_on 1 [] (2 ∷ []) two_keys below refl refl

-- "a" alone.
abbrev one_key : Trie ℕ
one_key = record { root = node 0 false none (entry 1 (node 1 true (some 5) nil) nil) }
