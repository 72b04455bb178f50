-- ===== src/Trie/Insert.antt =====
-- What `Insert` does to the values of the trie, and what `GetValue` reads afterwards.
use cmu.Common.{
  subst, ℕ, ◌≡◌, refl, sym, ◌∙◌, ap, Bool, false, not, none, some, List, [], ◌∷◌, arith,
  if◌then◌else◌, ◌==◌, ◌&&◌, inl, inr, Option-cases,
}
use cmu.Trie.Node.{TrieNode, new_node, value_of, get_child_node, is_some}
use cmu.Trie.{Trie, new, insert, value_at, get_value_at, get_value}
use cmu.Trie.Inserted.{
  same_key, end_at, value_at-new_node, end_at-new_node, inserted, insert_at-inserted,
  value_at-inserted, end_at-inserted, value_of-inserted,
}

module _ {V : Type 0} where
  -- `is_end_` is set exactly at the nodes that hold a value, and the root holds none.
  pub record IsConsistent (t : Trie V) : Type 0 where
    pub ends : (k : List ℕ) → end_at k t.root ≡ is_some (value_at k t.root)
    pub rootless : value_of t.root ≡ none

module _ (V : Type 0) where
  -- The constructor makes a trie that is consistent.
  pub new-IsConsistent : IsConsistent (new {V = V})
  unfolding new value_of new_node
  new-IsConsistent = record {
    ends = λ k. end_at-new_node V k 0 ∙ sym (ap is_some (value_at-new_node V k 0));
    rootless = refl;
  }

module _ {V : Type 0} where
  -- `Insert` stores a value under a key that is not empty and has no value yet.
  abbrev pub is_fresh : List ℕ → Trie V → Bool
  is_fresh [] t = false
  is_fresh (c ∷ cs) t = not (is_some (value_at (c ∷ cs) t.root))

  -- The trie after `Insert`.
  pub after_insert : List ℕ → V → Trie V → Trie V
  after_insert [] v t = t
  after_insert (c ∷ cs) v t = record t { root = inserted (c ∷ cs) v t.root }

  -- On a consistent trie `Insert` never dereferences null; it returns whether the key was not
  -- empty and had no value.
  pub insert-after_insert :
      (k : List ℕ) (v : V) (t : Trie V)
      → IsConsistent t
      → insert k v t ≡ some (after_insert k v t, is_fresh k t)
  unfolding insert after_insert
  insert-after_insert [] v t h = refl
  insert-after_insert (c ∷ cs) v t h =
      ground (arith, insert_at-inserted (c ∷ cs) v t.root, h.ends (c ∷ cs))

  value_at-after_insert :
      (k q : List ℕ) (v : V) (t : Trie V)
      → IsConsistent t
      → value_at q (after_insert k v t).root
        ≡ (if is_fresh k t && same_key q k then some v else value_at q t.root)
  unfolding after_insert
  value_at-after_insert [] q v t h = refl
  value_at-after_insert (c ∷ cs) q v t h =
      ground (arith, value_at-inserted (c ∷ cs) v t.root q, h.ends (c ∷ cs))

  -- `Insert` keeps the trie consistent.
  pub after_insert-IsConsistent :
      (k : List ℕ) (v : V) (t : Trie V) → IsConsistent t → IsConsistent (after_insert k v t)
  unfolding after_insert
  after_insert-IsConsistent [] v t h = h
  after_insert-IsConsistent (c ∷ cs) v t h = record {
    ends = λ q. ground (
      arith,
      end_at-inserted (c ∷ cs) v t.root q,
      value_at-inserted (c ∷ cs) v t.root q,
      h.ends q,
    );
    rootless = value_of-inserted c cs v t.root ∙ h.rootless;
  }

  -- An Insert into a consistent trie that returns leaves a trie that is consistent: is_end_ is set
  -- exactly at the nodes that hold a value, and the root holds none.
  pub insert-IsConsistent :
      (k : List ℕ) (v : V) (t t' : Trie V) (done : Bool)
      → IsConsistent t
      → insert k v t ≡ some (t', done)
      → IsConsistent t'
  insert-IsConsistent k v t t' done h e =
      let run = insert-after_insert k v t h in
      let same : after_insert k v t ≡ t' = ground arith in
      subst IsConsistent same (after_insert-IsConsistent k v t h)

  module _ (tag : V → ℕ) where
    -- A value of another type than the one that is asked for is not returned.
    pub get_value-value_at :
        (ty : ℕ) (k : List ℕ) (n : TrieNode V)
        → get_value_at tag ty k n
          ≡ elim (value_at k n) [ none ↦ none | some v ↦ if tag v == ty then some v else none ]
    unfolding get_value_at value_at
    get_value-value_at ty [] n = ground arith
    get_value-value_at ty (c ∷ cs) n = elim (Option-cases (get_child_node c n)) [
      | inl e ↦ rw (e, get_value_at, value_at) refl
      | inr (m, e) ↦ rw (e, get_value_at, value_at) (get_value-value_at ty cs m)
    ]

    -- Insert of a key and a value into a consistent trie succeeds exactly if the key is not empty
    -- and holds no value of any type. Then GetValue finds the value under the key, at its type and
    -- no other, and what it reads under every other key is as before; if Insert fails, that is so
    -- under every key.
    pub get_value-insert :
        (ty : ℕ) (k q : List ℕ) (v : V) (t : Trie V)
        → IsConsistent t
        → (t' : Trie V) × (insert k v t ≡ some (t', is_fresh k t))
          × (get_value tag ty q t' ≡ (
              if is_fresh k t && same_key q k
              then (if tag v == ty then some v else none)
              else get_value tag ty q t))
    unfolding get_value
    get_value-insert ty k q v t h = (
      after_insert k v t,
      insert-after_insert k v t h,
      ground (
        arith,
        get_value-value_at ty q (after_insert k v t).root,
        get_value-value_at ty q t.root,
        value_at-after_insert k q v t h,
      ),
    )
