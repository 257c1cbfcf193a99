-- ===== src/ObIndex/Memory.antt =====
-- What an allocating step is worth: `Holds`, a fact of its value if it has one, and `Runs`, that it
-- has one when so many allocations succeed.
use faststore.Prelude.{
  ℕ, zero, suc, ◌+◌, ◌≤◌, ◌≡◌, [], ◌∷◌, ◌++◌, Option, none, some, arith, Bool, true, false,
  if◌then◌else◌,
}
use faststore.Types.{ObSliceEntry}
use faststore.ObIndex.Defs.{
  Alloc, pure, ◌>>=◌, malloc, ObSlicePtrSmartArray, add_to_slice_ptr_smart_array, cut,
  dup_slice_to_smart_array,
}

abbrev pub Holds {ℓ} : {A : Type 0} → (A → Type ℓ) → Option (A × ℕ) → Type ℓ
Holds P none = Unit
Holds P (some (a, m)) = P a

module _ {ℓ κ} {A B : Type 0} (P : A → Type ℓ) (Q : B → Type κ) (f : A → Alloc B) where
  continue :
      ((a : A) (k : ℕ) → P a → Holds Q (f a k))
      → (r : Option (A × ℕ)) → Holds P r
      → Holds Q (elim r [ none ↦ none | some (a, k) ↦ f a k ])
  continue g none h = tt
  continue g (some (a, k)) h = g a k h

  pub Holds-bind :
      (x : Alloc A) (m : ℕ)
      → Holds P (x m)
      → ((a : A) (k : ℕ) → P a → Holds Q (f a k))
      → Holds Q ((x >>= f) m)
  Holds-bind x m h g = continue g (x m) h

abbrev pub Lasts : {A : Type 0} → ℕ → ℕ → Option (A × ℕ) → Type 0
Lasts n m none = ⊥
Lasts n m (some (a, k)) = m ≤ k + n

pub Holds-mono {ℓ κ} :
    {A : Type 0} (P : A → Type ℓ) (Q : A → Type κ) (r : Option (A × ℕ))
    → ((a : A) → P a → Q a)
    → Holds P r
    → Holds Q r
Holds-mono P Q none g h = tt
Holds-mono P Q (some (a, k)) g h = g a h

-- The step succeeds on at least `n` allocations, and uses no more of them.
pub record Runs {A : Type 0} (n : ℕ) (x : Alloc A) : Type 0 where
  pub at : (m : ℕ) → n ≤ m → Lasts n m (x m)

module _ {A : Type 0} where
  pub Runs-pure : (a : A) → Runs 0 (pure a)
  Runs-pure a = record { at = λ m h. omega arith }

  Lasts-more : (n k m : ℕ) (r : Option (A × ℕ)) → n ≤ k → Lasts n m r → Lasts k m r
  Lasts-more n k m none h l = l
  Lasts-more n k m (some (a, j)) h l = omega arith

  pub Runs-more : (n k : ℕ) (x : Alloc A) → n ≤ k → Runs n x → Runs k x
  Runs-more n k x h r = record { at = λ m g. Lasts-more n k m (x m) h (r.at m (omega arith)) }

  pub Runs-if :
      (n : ℕ) (b : Bool) (x y : Alloc A) → Runs n x → Runs n y → Runs n (if b then x else y)
  Runs-if n true x y r q = r
  Runs-if n false x y r q = q

module _ {A B : Type 0} (n k : ℕ) (f : A → Alloc B) (g : (a : A) → Runs k (f a)) where
  Lasts-join : (m j : ℕ) (r : Option (B × ℕ)) → m ≤ j + n → Lasts k j r → Lasts (n + k) m r
  Lasts-join m j none h l = l
  Lasts-join m j (some (b, i)) h l = omega arith

  Lasts-bind :
      (m : ℕ) (r : Option (A × ℕ))
      → n + k ≤ m
      → Lasts n m r
      → Lasts (n + k) m (elim r [ none ↦ none | some (a, j) ↦ f a j ])
  Lasts-bind m none h l = l
  Lasts-bind m (some (a, j)) h l = Lasts-join m j (f a j) l ((g a).at j (omega arith))

  pub Runs-bind : (x : Alloc A) → Runs n x → Runs (n + k) (x >>= f)
  Runs-bind x r = record { at = λ m h. Lasts-bind m (x m) h (r.at m (omega arith)) }

pub Runs-malloc : Runs 1 malloc
Runs-malloc = record { at = go }
  where
    go : (m : ℕ) → 1 ≤ m → Lasts 1 m (malloc m)
    go zero h = omega arith
    go (suc m) h = omega arith

abbrev pub Adds : ObSlicePtrSmartArray → ObSliceEntry → ObSlicePtrSmartArray → Type 0
Adds array s new = new.slices ≡ array.slices ++ s ∷ []

pub add_to-Adds :
    (array : ObSlicePtrSmartArray) (s : ObSliceEntry) (m : ℕ)
    → Holds (Adds array s) (add_to_slice_ptr_smart_array array s m)
unfolding add_to_slice_ptr_smart_array
add_to-Adds array s zero = ground arith
add_to-Adds array s (suc m) = ground arith

pub add_to-Runs :
    (array : ObSlicePtrSmartArray) (s : ObSliceEntry)
    → Runs 1 (add_to_slice_ptr_smart_array array s)
unfolding add_to_slice_ptr_smart_array
add_to-Runs array s =
    Runs-if 1 _ _ _ (Runs-bind 1 0 _ (λ _. Runs-pure _) malloc Runs-malloc)
      (Runs-more 0 1 _ (omega arith) (Runs-pure _))

pub dup-Adds :
    (src : ObSliceEntry) (offset n : ℕ) (array : ObSlicePtrSmartArray) (m : ℕ)
    → Holds (Adds array (cut src offset n)) (dup_slice_to_smart_array src offset n array m)
unfolding dup_slice_to_smart_array
dup-Adds src offset n array zero = tt
dup-Adds src offset n array (suc m) = add_to-Adds array (cut src offset n) m

pub dup-Runs :
    (src : ObSliceEntry) (offset n : ℕ) (array : ObSlicePtrSmartArray)
    → Runs 2 (dup_slice_to_smart_array src offset n array)
unfolding dup_slice_to_smart_array
dup-Runs src offset n array =
    Runs-bind 1 1 _ (λ s. add_to-Runs array (record s { space = record (s.space) { size = n } })) _
      (Runs-bind 1 0 _ (λ _. Runs-pure _) malloc Runs-malloc)
