-- ===== src/ServerPairs/Offsets.antt =====
-- Every two servers have channels of their own (server/server_group_info.c).
use faststore.Prelude.{
  ℕ, suc, ◌+◌, ◌<◌, ◌≡◌, refl, sym, subst, inl, inr, leb, Bool-cases, List, [], ◌∷◌, ◌++◌, length,
  All, All-mono, All-append, arith,
}
use faststore.Sort.{less}
use faststore.ServerPairs.{
  PairEntry, compare_server_pair_entry, pairs_of, all_pairs, init_server_pair_index_array,
  Ascending,
}

-- The array is sorted as bsearch needs it.
abbrev pub IsSortedPairs : List PairEntry → Type 0
IsSortedPairs [] = Unit
IsSortedPairs (e ∷ l) = All (λ f. compare_server_pair_entry e f ≡ less) l × IsSortedPairs l

IsSortedPairs-append :
    (xs ys : List PairEntry)
    → IsSortedPairs xs
    → IsSortedPairs ys
    → All (λ e. All (λ f. compare_server_pair_entry e f ≡ less) ys) xs
    → IsSortedPairs (xs ++ ys)
IsSortedPairs-append [] ys hx hy h = hy
IsSortedPairs-append (x ∷ xs) ys hx hy h =
    (All-append _ xs ys hx.0 h.0, IsSortedPairs-append xs ys hx.1 hy h.1)

module _ (channels : ℕ) where
  -- The entries of one server: its id first, and an id of the list second.
  pairs_of-ids :
      (P : ℕ → Type 0) (k x : ℕ) (l : List ℕ)
      → All P l
      → All (λ e. (e.id1 ≡ x) × P e.id2) (pairs_of channels k x l)
  unfolding pairs_of
  pairs_of-ids P k x [] h = tt
  pairs_of-ids P k x (y ∷ l) h = ((refl, h.0), pairs_of-ids P (suc k) x l h.1)

  pairs_of-IsSortedPairs :
      (k x : ℕ) (l : List ℕ) → Ascending l → IsSortedPairs (pairs_of channels k x l)
  unfolding pairs_of compare_server_pair_entry
  pairs_of-IsSortedPairs k x [] a = tt
  pairs_of-IsSortedPairs k x (y ∷ l) a = (
    All-mono _ _ (λ e h. ground (arith, h)) (pairs_of channels (suc k) x l)
        (pairs_of-ids (λ z. y < z) (suc k) x l a.0),
    pairs_of-IsSortedPairs (suc k) x l a.1,
  )

  all_pairs-ids :
      (P : ℕ → Type 0) (k : ℕ) (l : List ℕ) → All P l → All (λ e. P e.id1) (all_pairs channels k l)
  unfolding all_pairs
  all_pairs-ids P k [] h = tt
  all_pairs-ids P k (x ∷ l) h =
      All-append _ (pairs_of channels k x l) (all_pairs channels (k + length l) l)
        (All-mono _ _ (λ e q. subst P (sym q.0) h.0) (pairs_of channels k x l)
          (pairs_of-ids P k x l h.1))
        (all_pairs-ids P (k + length l) l h.1)

  all_pairs-IsSortedPairs :
      (k : ℕ) (l : List ℕ) → Ascending l → IsSortedPairs (all_pairs channels k l)
  unfolding all_pairs compare_server_pair_entry
  all_pairs-IsSortedPairs k [] a = tt
  all_pairs-IsSortedPairs k (x ∷ l) a =
      IsSortedPairs-append (pairs_of channels k x l) (all_pairs channels (k + length l) l)
        (pairs_of-IsSortedPairs k x l a.1) (all_pairs-IsSortedPairs (k + length l) l a.1)
        (All-mono _ _
          (λ e h.
            All-mono _ _ (λ f q. ground (arith, h, q)) (all_pairs channels (k + length l) l)
              (all_pairs-ids (λ y. x < y) (k + length l) l a.0))
          (pairs_of channels k x l) (pairs_of-ids (λ y. x < y) k x l a.0))

-- For servers in the order of their ids, the entries stand in strictly ascending order of
-- compare_server_pair_entry, as bsearch needs them.
pub init_server_pair_index_array-IsSortedPairs :
    (channels : ℕ) (ids : List ℕ)
    → Ascending ids
    → IsSortedPairs (init_server_pair_index_array channels ids)
unfolding init_server_pair_index_array
init_server_pair_index_array-IsSortedPairs channels ids up =
    elim (Bool-cases (leb (length ids) 1)) [
      | inl q ↦ rw (init_server_pair_index_array, q) tt
      | inr q ↦ rw (init_server_pair_index_array, q) (all_pairs-IsSortedPairs channels 0 ids up)
    ]
