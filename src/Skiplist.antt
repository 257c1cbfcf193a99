-- ===== src/Skiplist.antt =====
-- The ordered container of libfastcommon (uniq_skiplist), which this repository only calls.
-- It is a parameter: the operations with what the callers rely on. `chain` is the list of elements
-- that the level-0 links show; a node is given as the chain from it on, and `[]` is the null node.
pub mod Sorted
use faststore.Prelude.{ℕ, ◌<◌, ◌≤◌, ◌≡◌, List, [], ◌∷◌, ◌++◌, Option, last?, All}
use faststore.Errno.{enoent, eexist}

pub record Skiplist (A : Type 0) (key : A → ℕ) : Type 1 where
  pub Nodes : Type 0
  pub chain : Nodes → List A
  -- uniq_skiplist_new
  pub new : Nodes
  -- uniq_skiplist_insert, uniq_skiplist_delete: the result code, and the container after it
  pub insert : Nodes → A → ℕ × Nodes
  pub delete : Nodes → A → ℕ × Nodes
  -- uniq_skiplist_find_ge_node, by the key of the target
  pub find_ge_node : Nodes → ℕ → List A
  -- UNIQ_SKIPLIST_LEVEL0_PREV_NODE of that node, or UNIQ_SKIPLIST_LEVEL0_TAIL_NODE where it is null
  pub previous_node : Nodes → ℕ → Option A
  pub chain-new : chain new ≡ []
  -- An element with a fresh key goes to its place in the order.
  pub insert_fresh :
      (s : Nodes) (a : A) (xs ys : List A)
      → chain s ≡ xs ++ ys
      → All (λ x. key x < key a) xs
      → All (λ y. key a < key y) ys
      → ((insert s a).0 ≡ 0) × (chain (insert s a).1 ≡ xs ++ a ∷ ys)
  -- A key that is there already is refused.
  pub insert_exists :
      (s : Nodes) (a b : A) (xs ys : List A)
      → chain s ≡ xs ++ b ∷ ys
      → key b ≡ key a
      → insert s a ≡ (eexist, s)
  pub delete_found :
      (s : Nodes) (a b : A) (xs ys : List A)
      → chain s ≡ xs ++ b ∷ ys
      → All (λ x. key x < key a) xs
      → key b ≡ key a
      → ((delete s a).0 ≡ 0) × (chain (delete s a).1 ≡ xs ++ ys)
  pub delete_missing :
      (s : Nodes) (a : A) (xs ys : List A)
      → chain s ≡ xs ++ ys
      → All (λ x. key x < key a) xs
      → All (λ y. key a < key y) ys
      → delete s a ≡ (enoent, s)
  -- The first node whose key is not below the target's, and the node before it.
  pub find_ge :
      (s : Nodes) (k : ℕ) (xs ys : List A)
      → chain s ≡ xs ++ ys
      → All (λ x. key x < k) xs
      → All (λ y. k ≤ key y) ys
      → (find_ge_node s k ≡ ys) × (previous_node s k ≡ last? xs)
