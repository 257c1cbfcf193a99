-- ===== src/ServerPairs/Found.antt =====
-- Which channels fs_get_server_pair_base_offset (server/server_group_info.c) finds for two servers.
use faststore.Prelude.{
  ℕ, suc, ◌+◌, ◌*◌, ◌<◌, ◌≡◌, subst, inl, inr, some, List, [], ◌∷◌, ◌++◌, length, All-at, Among,
  arith,
}
use faststore.Sort.{Comparison-cases}
use faststore.ServerPairs.{
  PairEntry, compare_server_pair_entry, pairs_of, all_pairs, bsearch, Ascending,
}

abbrev pub pair : ℕ → ℕ → PairEntry
pair lo hi = record { id1 = lo; id2 = hi; offset = 0 }

-- An entry for the two ids is found in the list.
abbrev pub Found : ℕ → ℕ → List PairEntry → Type 0
Found lo hi l = (e : PairEntry) × (bsearch (pair lo hi) l ≡ some e)

module _ (lo hi : ℕ) where
  Found-cons : (f : PairEntry) (l : List PairEntry) → Found lo hi l → Found lo hi (f ∷ l)
  unfolding bsearch
  Found-cons f l (e, q) = elim (Comparison-cases (compare_server_pair_entry (pair lo hi) f)) [
    | inl c ↦ (e, rw (bsearch, c) q)
    | inr (inl c) ↦ (f, rw (bsearch, c))
    | inr (inr c) ↦ (e, rw (bsearch, c) q)
  ]

  Found-right : (xs ys : List PairEntry) → Found lo hi ys → Found lo hi (xs ++ ys)
  Found-right [] ys h = h
  Found-right (x ∷ xs) ys h = Found-cons x (xs ++ ys) (Found-right xs ys h)

  Found-left : (xs ys : List PairEntry) → Found lo hi xs → Found lo hi (xs ++ ys)
  unfolding bsearch
  Found-left [] ys (e, q) = absurd (ground arith)
  Found-left (x ∷ xs) ys (e, q) =
      elim (Comparison-cases (compare_server_pair_entry (pair lo hi) x)) [
        | inl c ↦ Found-cons x (xs ++ ys) (Found-left xs ys (e, rw (bsearch, c) at q))
        | inr (inl c) ↦ (x, rw (bsearch, c))
        | inr (inr c) ↦ Found-cons x (xs ++ ys) (Found-left xs ys (e, rw (bsearch, c) at q))
      ]

  module _ (channels : ℕ) where
    pairs_of-Found : (k : ℕ) (l : List ℕ) → Among hi l → Found lo hi (pairs_of channels k lo l)
    unfolding pairs_of bsearch
    pairs_of-Found k [] m = absurd m
    pairs_of-Found k (y ∷ l) (inl e) =
        (record { id1 = lo; id2 = y; offset = k * channels }, ground arith)
    pairs_of-Found k (y ∷ l) (inr m) = Found-cons _ _ (pairs_of-Found (suc k) l m)

    pub all_pairs-Found :
        (k : ℕ) (l : List ℕ)
        → Ascending l
        → lo < hi
        → Among lo l
        → Among hi l
        → Found lo hi (all_pairs channels k l)
    unfolding all_pairs
    all_pairs-Found k [] a h m n = absurd m
    all_pairs-Found k (x ∷ l) a h (inl e) (inl q) = absurd (omega arith)
    all_pairs-Found k (x ∷ l) a h (inl e) (inr n) =
        Found-left (pairs_of channels k x l) (all_pairs channels (k + length l) l)
          (subst (λ z. Found lo hi (pairs_of channels k z l)) e (pairs_of-Found k l n))
    all_pairs-Found k (x ∷ l) a h (inr m) (inl q) =
        absurd (omega (arith, All-at (λ y. x < y) l lo a.0 m, h, q))
    all_pairs-Found k (x ∷ l) a h (inr m) (inr n) =
        Found-right (pairs_of channels k x l) (all_pairs channels (k + length l) l)
          (all_pairs-Found (k + length l) l a.1 h m n)
