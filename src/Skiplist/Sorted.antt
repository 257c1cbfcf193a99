-- ===== src/Skiplist/Sorted.antt =====
-- A sorted list is such a container: the laws of `Skiplist` can be met.
use faststore.Prelude.{
  ℕ, ◌<◌, ◌≤◌, ◌≡◌, refl, Bool, true, false, List, [], ◌∷◌, ◌++◌, Option, none, some, last?, All,
  arith, ltb, ◌==◌, if◌then◌else◌, ap, ◌||◌, ◌∙◌,
}
use faststore.Errno.{enoent, eexist}
use faststore.Skiplist.{Skiplist}

module _ (A : Type 0) (key : A → ℕ) where
  abbrev has : ℕ → List A → Bool
  has k [] = false
  has k (x ∷ xs) = (key x == k) || has k xs

  abbrev place : A → List A → List A
  place a [] = a ∷ []
  place a (x ∷ xs) = if ltb (key x) (key a) then x ∷ place a xs else a ∷ x ∷ xs

  abbrev without : ℕ → List A → List A
  without k [] = []
  without k (x ∷ xs) = if key x == k then xs else x ∷ without k xs

  abbrev from : ℕ → List A → List A
  from k [] = []
  from k (x ∷ xs) = if ltb (key x) k then from k xs else x ∷ xs

  abbrev before : Option A → ℕ → List A → Option A
  before p k [] = p
  before p k (x ∷ xs) = if ltb (key x) k then before (some x) k xs else p

  has-fresh :
      (k : ℕ) (xs ys : List A)
      → All (λ x. key x < k) xs
      → All (λ y. k < key y) ys
      → has k (xs ++ ys) ≡ false
  has-fresh k [] [] h g = refl
  has-fresh k [] (y ∷ ys) h g = ground (arith, has-fresh k [] ys tt g.1)
  has-fresh k (x ∷ xs) ys h g = ground (arith, has-fresh k xs ys h.1 g)

  has-mem : (k : ℕ) (xs : List A) (b : A) (ys : List A) → key b ≡ k → has k (xs ++ b ∷ ys) ≡ true
  has-mem k [] b ys e = ground arith
  has-mem k (x ∷ xs) b ys e = ground (arith, has-mem k xs b ys e)

  place-append :
      (a : A) (xs ys : List A)
      → All (λ x. key x < key a) xs
      → All (λ y. key a < key y) ys
      → place a (xs ++ ys) ≡ xs ++ a ∷ ys
  place-append a [] [] h g = refl
  place-append a [] (y ∷ ys) h g = ground arith
  place-append a (x ∷ xs) ys h g = ground (arith, place-append a xs ys h.1 g)

  without-append :
      (k : ℕ) (xs : List A) (b : A) (ys : List A)
      → All (λ x. key x < k) xs
      → key b ≡ k
      → without k (xs ++ b ∷ ys) ≡ xs ++ ys
  without-append k [] b ys h e = ground arith
  without-append k (x ∷ xs) b ys h e = ground (arith, without-append k xs b ys h.1 e)

  from-append :
      (k : ℕ) (xs ys : List A)
      → All (λ x. key x < k) xs
      → All (λ y. k ≤ key y) ys
      → from k (xs ++ ys) ≡ ys
  from-append k [] [] h g = refl
  from-append k [] (y ∷ ys) h g = ground arith
  from-append k (x ∷ xs) ys h g = ground (arith, from-append k xs ys h.1 g)

  before-stop : (p : Option A) (k : ℕ) (ys : List A) → All (λ y. k ≤ key y) ys → before p k ys ≡ p
  before-stop p k [] g = refl
  before-stop p k (y ∷ ys) g = ground arith

  before-append :
      (p : Option A) (k : ℕ) (x : A) (xs ys : List A)
      → All (λ x. key x < k) (x ∷ xs)
      → All (λ y. k ≤ key y) ys
      → before p k ((x ∷ xs) ++ ys) ≡ last? (x ∷ xs)
  before-append p k x [] ys h g = ground (arith, before-stop (some x) k ys g)
  before-append p k x (z ∷ xs) ys h g = ground (arith, before-append (some x) k z xs ys h.1 g)

  before-last? :
      (k : ℕ) (xs ys : List A)
      → All (λ x. key x < k) xs
      → All (λ y. k ≤ key y) ys
      → before none k (xs ++ ys) ≡ last? xs
  before-last? k [] ys h g = before-stop none k ys g
  before-last? k (x ∷ xs) ys h g = before-append none k x xs ys h g

  abbrev insert_sorted : List A → A → ℕ × List A
  insert_sorted s a = if has (key a) s then (eexist, s) else (0, place a s)

  abbrev delete_sorted : List A → A → ℕ × List A
  delete_sorted s a = if has (key a) s then (0, without (key a) s) else (enoent, s)

  pub insert_fresh_lem :
      (s : List A) (a : A) (xs ys : List A)
      → s ≡ xs ++ ys
      → All (λ x. key x < key a) xs
      → All (λ y. key a < key y) ys
      → ((insert_sorted s a).0 ≡ 0) × ((insert_sorted s a).1 ≡ xs ++ a ∷ ys)
  insert_fresh_lem s a xs ys e h g =
      ground (arith, has-fresh (key a) xs ys h g, place-append a xs ys h g)

  pub insert_exists_lem :
      (s : List A) (a b : A) (xs ys : List A)
      → s ≡ xs ++ b ∷ ys
      → key b ≡ key a
      → insert_sorted s a ≡ (eexist, s)
  insert_exists_lem s a b xs ys e k = ground (arith, has-mem (key a) xs b ys k)

  pub delete_found_lem :
      (s : List A) (a b : A) (xs ys : List A)
      → s ≡ xs ++ b ∷ ys
      → All (λ x. key x < key a) xs
      → key b ≡ key a
      → ((delete_sorted s a).0 ≡ 0) × ((delete_sorted s a).1 ≡ xs ++ ys)
  delete_found_lem s a b xs ys e h k =
      ground (arith, has-mem (key a) xs b ys k, without-append (key a) xs b ys h k)

  pub delete_missing_lem :
      (s : List A) (a : A) (xs ys : List A)
      → s ≡ xs ++ ys
      → All (λ x. key x < key a) xs
      → All (λ y. key a < key y) ys
      → delete_sorted s a ≡ (enoent, s)
  delete_missing_lem s a xs ys e h g = ground (arith, has-fresh (key a) xs ys h g)

  pub find_ge_lem :
      (s : List A) (k : ℕ) (xs ys : List A)
      → s ≡ xs ++ ys
      → All (λ x. key x < k) xs
      → All (λ y. k ≤ key y) ys
      → (from k s ≡ ys) × (before none k s ≡ last? xs)
  find_ge_lem s k xs ys e h g =
      (ap (from k) e ∙ from-append k xs ys h g, ap (before none k) e ∙ before-last? k xs ys h g)

  abbrev pub sorted_list : Skiplist A key
  sorted_list = record {
    Nodes = List A;
    chain = λ s. s;
    new = [];
    insert = insert_sorted;
    delete = delete_sorted;
    find_ge_node = λ s k. from k s;
    previous_node = λ s k. before none k s;
    chain-new = refl;
    insert_fresh = insert_fresh_lem;
    insert_exists = insert_exists_lem;
    delete_found = delete_found_lem;
    delete_missing = delete_missing_lem;
    find_ge = find_ge_lem;
  }
