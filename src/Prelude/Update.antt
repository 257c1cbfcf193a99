-- ===== src/Prelude/Update.antt =====
-- A function changed at one argument.
use Prim.Native.Nat.{ℕ}
use mathlib.Core.Path.{◌≡◌, refl, ap, ◌∙◌}
use mathlib.Core.Logic.{inl, inr, ◌≢◌}
use faststore.Prelude.Tests.{◌==◌, if◌then◌else◌, eq→eqb, ne→eqb, eq-or-ne}

abbrev pub set_at {ℓ} : {A : Type ℓ} → (ℕ → A) → ℕ → A → ℕ → A
set_at f p v q = if p == q then v else f q

module _ {ℓ} {A : Type ℓ} (f : ℕ → A) (p : ℕ) (v : A) where
  pub set_at-same : set_at f p v p ≡ v
  set_at-same = rw (eq→eqb p p refl) refl

  pub set_at-other : (q : ℕ) → p ≢ q → set_at f p v q ≡ f q
  set_at-other q n = rw (ne→eqb p q n) refl

  -- What the new value shares with the old one is as it was everywhere.
  pub set_at-keeps {κ} :
      {B : Type κ} (g : A → B) → g v ≡ g (f p) → (q : ℕ) → g (set_at f p v q) ≡ g (f q)
  set_at-keeps g h q = elim (eq-or-ne p q) [
    | inl e ↦ rw (eq→eqb p q e) (h ∙ ap (λ z. g (f z)) e)
    | inr n ↦ rw (ne→eqb p q n) refl
  ]
