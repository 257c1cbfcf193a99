-- ===== src/Prelude/Lists.antt =====
-- Lists measured by native numbers, and predicates on all elements of a list.
use Prim.Native.Nat.{ℕ, suc, ◌+◌}
use mathlib.Core.Path.{◌≡◌, refl, sym, subst}
use mathlib.Core.Logic.{◌⊎◌, inl, inr}
use mathlib.Core.List.{List, [], ◌∷◌, ◌++◌}
use mathlib.Core.Option.{Option, none, some}
use native.Mathlib.Omega.{arith}

module _ {ℓ} {A : Type ℓ} where
  abbrev pub length : List A → ℕ
  length [] = 0
  length (x ∷ xs) = suc (length xs)

  abbrev pub last? : List A → Option A
  last? [] = none
  last? (x ∷ []) = some x
  last? (x ∷ y ∷ xs) = last? (y ∷ xs)

  pub length-append : (xs ys : List A) → length (xs ++ ys) ≡ length xs + length ys
  length-append [] ys = omega arith
  length-append (x ∷ xs) ys = omega (arith, length-append xs ys)

  pub last?-append : (xs : List A) (a : A) → last? (xs ++ a ∷ []) ≡ some a
  last?-append [] a = refl
  last?-append (x ∷ []) a = refl
  last?-append (x ∷ y ∷ xs) a = last?-append (y ∷ xs) a

  pub last?-none : (xs : List A) → last? xs ≡ none → xs ≡ []
  last?-none [] e = refl
  last?-none (x ∷ []) e = cc
  last?-none (x ∷ y ∷ xs) e = absurd (cons-ne-nil (last?-none (y ∷ xs) e))
    where
      cons-ne-nil : (y ∷ xs ≡ []) → ⊥
      cons-ne-nil q = cc

  pub List-cases : (l : List A) → (l ≡ []) ⊎ ((x : A) × (xs : List A) × (l ≡ x ∷ xs))
  List-cases [] = inl refl
  List-cases (x ∷ xs) = inr (x, xs, refl)

-- Every element has the property.
abbrev pub All {ℓ κ} : {A : Type ℓ} → (A → Type κ) → List A → Type κ
All P [] = Unit
All P (x ∷ xs) = P x × All P xs

module _ {ℓ κ} {A : Type ℓ} (P : A → Type κ) where
  pub All-append : (xs ys : List A) → All P xs → All P ys → All P (xs ++ ys)
  All-append [] ys hx hy = hy
  All-append (x ∷ xs) ys hx hy = (hx.0, All-append xs ys hx.1 hy)

  pub last?-All : (xs : List A) {a : A} → All P xs → last? xs ≡ some a → P a
  last?-All [] h e = absurd (ground arith)
  last?-All (x ∷ []) {a} h e = subst P x-is-a h.0
    where
      x-is-a : x ≡ a
      x-is-a = cc
  last?-All (x ∷ y ∷ xs) h e = last?-All (y ∷ xs) h.1 e

module _ {ℓ κ} {A : Type ℓ} (P Q : A → Type κ) (imp : (a : A) → P a → Q a) where
  pub All-mono : (xs : List A) → All P xs → All Q xs
  All-mono [] h = tt
  All-mono (x ∷ xs) h = (imp x h.0, All-mono xs h.1)

-- An element stands in a list.
abbrev pub Among : {A : Type 0} → A → List A → Type 0
Among a [] = ⊥
Among a (x ∷ xs) = (a ≡ x) ⊎ Among a xs

module _ {κ} {A : Type 0} (P : A → Type κ) where
  pub All-at : (l : List A) (a : A) → All P l → Among a l → P a
  All-at [] a h m = absurd m
  All-at (x ∷ xs) a h (inl e) = subst P (sym e) h.0
  All-at (x ∷ xs) a h (inr m) = All-at xs a h.1 m

  pub Among-All : (l : List A) → ((a : A) → Among a l → P a) → All P l
  Among-All [] f = tt
  Among-All (x ∷ xs) f = (f x (inl refl), Among-All xs (λ a m. f a (inr m)))
