-- ===== src/ServerPairs/Channels.antt =====
-- The channels of two pairs of servers do not overlap (server/server_group_info.c).
use faststore.Prelude.{
  ℕ, zero, suc, ◌+◌, ◌-◌, ◌*◌, ◌<◌, ◌≡◌, refl, sym, ap, ◌∙◌, subst, inl, inr, Option, some, none,
  List, [], ◌∷◌, ◌++◌, length, length-append, arith,
}
use faststore.Sort.{equal, Comparison-cases}
use faststore.ServerPairs.{PairEntry, compare_server_pair_entry, pairs_of, all_pairs, bsearch}

compare_equal :
    (a b : PairEntry) → compare_server_pair_entry a b ≡ equal → (a.id1 ≡ b.id1) × (a.id2 ≡ b.id2)
unfolding compare_server_pair_entry
compare_equal a b h = (ground arith, ground arith)

add_zero : (k : ℕ) → k + 0 ≡ k
add_zero k = omega arith

abbrev pub entry_at : List PairEntry → ℕ → Option PairEntry
entry_at [] j = none
entry_at (e ∷ l) zero = some e
entry_at (e ∷ l) (suc j) = entry_at l j

pub some_is : {a b : PairEntry} → some a ≡ some b → a ≡ b
some_is h = ground arith

-- A row of n entries and m entries below it, where 2 m + n = n * n.
double_rows :
    (n m : ℕ) {all : ℕ} → all ≡ n + m → 2 * m + n ≡ n * n → 2 * all + suc n ≡ suc n * suc n
double_rows n m {all} h q = grind arith

pub square_less : (n : ℕ) → n * (n - 1) + n ≡ n * n
square_less zero = omega arith
square_less (suc n) = rw (suc_less n) (grind arith)
  where
    suc_less : (k : ℕ) → suc k - 1 ≡ k
    suc_less k = omega arith

module _ (channels : ℕ) where
  -- The entries have the offsets of their positions, counted from `k` on.
  abbrev pub Numbered : ℕ → List PairEntry → Type 0
  Numbered k [] = Unit
  Numbered k (e ∷ l) = (e.offset ≡ k * channels) × Numbered (suc k) l

  Numbered-append :
      (k : ℕ) (xs ys : List PairEntry)
      → Numbered k xs
      → Numbered (k + length xs) ys
      → Numbered k (xs ++ ys)
  Numbered-append k [] ys hx hy = subst (λ n. Numbered n ys) (omega arith) hy
  Numbered-append k (x ∷ xs) ys hx hy =
      (hx.0, Numbered-append (suc k) xs ys hx.1 (subst (λ n. Numbered n ys) (omega arith) hy))

  length-pairs_of : (k x : ℕ) (l : List ℕ) → length (pairs_of channels k x l) ≡ length l
  unfolding pairs_of
  length-pairs_of k x [] = refl
  length-pairs_of k x (y ∷ l) = omega (arith, length-pairs_of (suc k) x l)

  pairs_of-Numbered : (k x : ℕ) (l : List ℕ) → Numbered k (pairs_of channels k x l)
  unfolding pairs_of
  pairs_of-Numbered k x [] = tt
  pairs_of-Numbered k x (y ∷ l) = (refl, pairs_of-Numbered (suc k) x l)

  pub all_pairs-Numbered : (k : ℕ) (l : List ℕ) → Numbered k (all_pairs channels k l)
  unfolding all_pairs
  all_pairs-Numbered k [] = tt
  all_pairs-Numbered k (x ∷ l) =
      Numbered-append k (pairs_of channels k x l) (all_pairs channels (k + length l) l)
        (pairs_of-Numbered k x l)
        (subst (λ n. Numbered n (all_pairs channels (k + length l) l))
          (omega (arith, length-pairs_of k x l)) (all_pairs-Numbered (k + length l) l))

  -- The array has as many entries as are allocated for it.
  pub length-all_pairs :
      (k : ℕ) (l : List ℕ) → 2 * length (all_pairs channels k l) + length l ≡ length l * length l
  unfolding all_pairs
  length-all_pairs k [] = refl
  length-all_pairs k (x ∷ l) =
      double_rows (length l) (length (all_pairs channels (k + length l) l))
        (length-append (pairs_of channels k x l) (all_pairs channels (k + length l) l)
          ∙ ap (λ n. n + length (all_pairs channels (k + length l) l)) (length-pairs_of k x l))
        (length-all_pairs (k + length l) l)

  -- The entry `e` answers the ids of `t` and stands at position `j` of a list numbered from `k` on.
  abbrev pub EntryAt : PairEntry → PairEntry → ℕ → List PairEntry → ℕ → Type 0
  EntryAt t e k l j =
      (e.offset ≡ (k + j) * channels) × (t.id1 ≡ e.id1) × (t.id2 ≡ e.id2) × (entry_at l j ≡ some e)

  EntryAt-cons :
      (t e f : PairEntry) (k : ℕ) (l : List PairEntry) (j : ℕ)
      → EntryAt t e (suc k) l j
      → EntryAt t e k (f ∷ l) (suc j)
  EntryAt-cons t e f k l j h = (h.0 ∙ ap (λ n. n * channels) shift, h.1, h.2, h.3)
    where
      shift : suc k + j ≡ k + suc j
      shift = omega arith

  -- A found entry matches, and lies at a position.
  pub bsearch-EntryAt :
      (t : PairEntry) (k : ℕ) (l : List PairEntry) {e : PairEntry}
      → Numbered k l
      → bsearch t l ≡ some e
      → (j : ℕ) × (j < length l) × EntryAt t e k l j
  unfolding bsearch
  bsearch-EntryAt t k [] n h = absurd (ground arith)
  bsearch-EntryAt t k (f ∷ l) {e} n h = elim (Comparison-cases (compare_server_pair_entry t f)) [
    | inl c ↦
        let r = bsearch-EntryAt t (suc k) l n.1 (rw (bsearch, c) at h) in
        (suc r.0, omega (arith, r), EntryAt-cons t e f k l r.0 r.2)
    | inr (inl c) ↦
        let same : f ≡ e = some_is (rw (bsearch, c) at h) in
        (
          0,
          omega arith,
          (
            sym (ap (λ z. z.offset) same) ∙ n.0 ∙ ap (λ n. n * channels) (sym (add_zero k)),
            (compare_equal t f c).0 ∙ ap (λ z. z.id1) same,
            (compare_equal t f c).1 ∙ ap (λ z. z.id2) same,
            ap some same,
          ),
        )
    | inr (inr c) ↦
        let r = bsearch-EntryAt t (suc k) l n.1 (rw (bsearch, c) at h) in
        (suc r.0, omega (arith, r), EntryAt-cons t e f k l r.0 r.2)
  ]
