-- ===== src/Sort.antt =====
-- The C library's qsort as the server uses it, on comparison functions that return at the first
-- key that differs (server/master_election.c, server/cluster_relationship.c). glibc's qsort merges
-- and keeps equal elements in their order, as every stable sort does, so that its result is this one.
use Prim.Native.Nat.{compare, Ordering}
use faststore.Prelude.{
  ℕ, ◌≡◌, refl, ◌≢◌, ◌⊎◌, inl, inr, some, List, [], ◌∷◌, All, All-mono, All-at, Among, Among-All,
  last?, arith,
}

pub data Comparison : Type 0 where
  less : Comparison
  equal : Comparison
  greater : Comparison

-- The sign of a difference a - b.
abbrev pub sign_of : ℕ → ℕ → Comparison
sign_of a b = elim (compare a b) [
  | Ordering.lt ↦ less
  | Ordering.eq ↦ equal
  | Ordering.gt ↦ greater
]

-- What a comparison says when its arguments change places.
abbrev pub opposite : Comparison → Comparison
opposite less = greater
opposite equal = equal
opposite greater = less

-- The first comparison that is not equal decides.
abbrev pub or_else : Comparison → Comparison → Comparison
or_else equal d = d
or_else less d = less
or_else greater d = greater

pub Comparison-cases : (c : Comparison) → (c ≡ less) ⊎ (c ≡ equal) ⊎ (c ≡ greater)
Comparison-cases less = inl refl
Comparison-cases equal = inr (inl refl)
Comparison-cases greater = inr (inr refl)

-- What a comparison function owes to qsort.
pub record IsOrder {ℓ} {A : Type ℓ} (cmp : A → A → Comparison) : Type ℓ where
  pub swap : (a b : A) → cmp b a ≡ opposite (cmp a b)
  pub chain :
      (a b c : A) → cmp a b ≢ greater → cmp b c ≢ greater → cmp a c ≡ or_else (cmp a b) (cmp b c)

module _ {ℓ} {A : Type ℓ} where
  pub by_key-IsOrder : (key : A → ℕ) → IsOrder (λ a b. sign_of (key a) (key b))
  by_key-IsOrder key = record { swap = λ a b. ground arith; chain = λ a b c p q. ground arith }

  pub by_key_down-IsOrder : (key : A → ℕ) → IsOrder (λ a b. sign_of (key b) (key a))
  by_key_down-IsOrder key = record { swap = λ a b. ground arith; chain = λ a b c p q. ground arith }

  pub or_else-IsOrder :
      (f g : A → A → Comparison) → IsOrder f → IsOrder g → IsOrder (λ a b. or_else (f a b) (g a b))
  or_else-IsOrder f g hf hg = record {
    swap = λ a b. ground (arith, hf.swap a b, hg.swap a b);
    chain = λ a b c p q. ground (arith, hf.chain a b c, hg.chain a b c);
  }

  module _ (cmp : A → A → Comparison) where
    unfoldable pub insert : A → List A → List A
    insert x [] = x ∷ []
    insert x (y ∷ ys) = elim (cmp x y) [ greater ↦ y ∷ insert x ys | _ ↦ x ∷ y ∷ ys ]

    unfoldable pub sort : List A → List A
    unfolding insert
    sort [] = []
    sort (x ∷ xs) = insert x (sort xs)

    abbrev IsSorted : List A → Type ℓ
    IsSorted [] = Unit
    IsSorted (x ∷ xs) = All (λ a. cmp x a ≢ greater) xs × IsSorted xs

    module _ {κ} (P : A → Type κ) where
      All-insert : (x : A) (l : List A) → P x → All P l → All P (insert x l)
      unfolding insert
      All-insert x [] px h = (px, tt)
      All-insert x (y ∷ ys) px h = elim (Comparison-cases (cmp x y)) [
        | inl e ↦ rw (All, e) (px, h)
        | inr (inl e) ↦ rw (All, e) (px, h)
        | inr (inr e) ↦ rw (All, e) (h.0, All-insert x ys px h.1)
      ]

      insert-All : (x : A) (l : List A) → All P (insert x l) → P x × All P l
      unfolding insert
      insert-All x [] h = h
      insert-All x (y ∷ ys) h = elim (Comparison-cases (cmp x y)) [
        | inl e ↦ rw (All, e) at h
        | inr (inl e) ↦ rw (All, e) at h
        | inr (inr e) ↦
            let g : P y × All P (insert x ys) = rw (All, e) at h in
            let r = insert-All x ys g.1 in (r.0, (g.0, r.1))
      ]

      pub All-sort : (l : List A) → All P l → All P (sort l)
      unfolding sort
      All-sort [] h = h
      All-sort (x ∷ xs) h = All-insert x (sort xs) h.0 (All-sort xs h.1)

      pub sort-All : (l : List A) → All P (sort l) → All P l
      unfolding sort
      sort-All [] h = h
      sort-All (x ∷ xs) h = let r = insert-All x (sort xs) h in (r.0, sort-All xs r.1)

    module _ (o : IsOrder cmp) where
      below_trans : (a b c : A) → cmp a b ≢ greater → cmp b c ≢ greater → cmp a c ≢ greater
      below_trans a b c p q = ground (arith, o.chain a b c p q)

      below_refl : (a : A) → cmp a a ≢ greater
      below_refl a = ground (arith, o.swap a a)

      insert-IsSorted : (x : A) (l : List A) → IsSorted l → IsSorted (insert x l)
      unfolding insert
      insert-IsSorted x [] s = (tt, tt)
      insert-IsSorted x (y ∷ ys) s = elim (Comparison-cases (cmp x y)) [
        | inl e ↦ rw (IsSorted, e) (ahead (λ q. ground arith), s)
        | inr (inl e) ↦ rw (IsSorted, e) (ahead (λ q. ground arith), s)
        | inr (inr e) ↦
            rw (IsSorted, e)
              (
                All-insert (λ a. cmp y a ≢ greater) x ys (λ q. ground (arith, o.swap x y)) s.0,
                insert-IsSorted x ys s.1,
              )
      ]
        where
          ahead : cmp x y ≢ greater → All (λ a. cmp x a ≢ greater) (y ∷ ys)
          ahead p = (p, All-mono _ _ (λ a q. below_trans x y a p q) ys s.0)

      sort-IsSorted : (l : List A) → IsSorted (sort l)
      unfolding sort
      sort-IsSorted [] = tt
      sort-IsSorted (x ∷ xs) = insert-IsSorted x (sort xs) (sort-IsSorted xs)

      last-IsGreatest :
          (l : List A) (m : A) → IsSorted l → last? l ≡ some m → All (λ a. cmp a m ≢ greater) l
      last-IsGreatest [] m s e = tt
      last-IsGreatest (x ∷ []) m s e = (ground (arith, below_refl x), tt)
      last-IsGreatest (x ∷ y ∷ ys) m s e =
          let rest = last-IsGreatest (y ∷ ys) m s.1 e in (below_trans x y m s.0.0 rest.0, rest)

      -- The last element after qsort is not less than any element before it.
      pub last-sort :
          (l : List A) (m : A) → last? (sort l) ≡ some m → All (λ a. cmp a m ≢ greater) l
      last-sort l m e =
          sort-All (λ a. cmp a m ≢ greater) l (last-IsGreatest (sort l) m (sort-IsSorted l) e)

module _ {A : Type 0} (cmp : A → A → Comparison) where
  -- The same elements stand in the sorted list.
  pub Among-sort : (l : List A) (a : A) → Among a l → Among a (sort cmp l)
  Among-sort l a =
      All-at (λ b. Among b (sort cmp l)) l a
        (sort-All cmp (λ b. Among b (sort cmp l)) l (Among-All _ (sort cmp l) (λ b m. m)))

  pub sort-Among : (l : List A) (a : A) → Among a (sort cmp l) → Among a l
  sort-Among l a =
      All-at (λ b. Among b l) (sort cmp l) a
        (All-sort cmp (λ b. Among b l) l (Among-All _ l (λ b m. m)))
