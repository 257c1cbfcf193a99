-- ===== src/RpcRing/Window.antt =====
-- Circular indexes: which slots lie between the start and the end of the ring.
use faststore.Prelude.{
  ℕ, suc, ◌+◌, ◌-◌, ◌%◌, ◌≤◌, ◌<◌, ◌≡◌, ◌≢◌, leb, if◌then◌else◌, arith, subst, ◌⊎◌, inl, inr, ap,
  ◌∙◌, le-or-lt,
}
use native.Mathlib.Nat.{mod_self, mod-eq_of_lt}

-- How many slots from one index on to another.
abbrev pub dist : ℕ → ℕ → ℕ → ℕ
dist size s i = if leb s i then i - s else i + size - s

-- The slot `i` lies from `s` on, before `e`.
abbrev pub Within : ℕ → ℕ → ℕ → ℕ → Type 0
Within size s e i = dist size s i < dist size s e

pub next-lt : (size s : ℕ) → s < size → (s + 1) % size < size
next-lt size s h = omega arith

-- The next slot is the one after, or the first.
pub next-cases :
    (size s : ℕ)
    → s < size
    → (((s + 1) % size ≡ s + 1) × (s + 1 < size)) ⊎ (((s + 1) % size ≡ 0) × (s + 1 ≡ size))
next-cases size s h = elim (le-or-lt size (s + 1)) [
  | inl k ↦ inr (ap (λ n. n % size) (full k) ∙ mod_self size, full k)
  | inr k ↦ inl (mod-eq_of_lt k, k)
]
  where
    full : size ≤ s + 1 → s + 1 ≡ size
    full k = omega arith

pub next-ne : (size s : ℕ) → s < size → 1 < size → (s + 1) % size ≢ s
next-ne size s h k e = elim (next-cases size s h) [
  | inl (q, j) ↦ omega (arith, q, e)
  | inr (q, j) ↦ omega (arith, q, e, j)
]

pub dist-next :
    (size s e : ℕ)
    → s < size
    → e < size
    → s ≢ e
    → suc (dist size ((s + 1) % size) e) ≡ dist size s e
dist-next size s e hs he ne = elim (next-cases size s hs) [
  | inl (q, k) ↦ rw q (ground arith)
  | inr (q, k) ↦ rw q (ground arith)
]

pub Within-next :
    (size s e i : ℕ)
    → s < size
    → e < size
    → i < size
    → s ≢ i
    → Within size s e i
    → Within size ((s + 1) % size) e i
Within-next size s e i hs he hi ne h = elim (next-cases size s hs) [
  | inl (q, k) ↦ rw q (ground arith)
  | inr (q, k) ↦ rw q (ground arith)
]

pub Within-grow :
    (size s e i : ℕ)
    → s < size
    → e < size
    → i < size
    → (e + 1) % size ≢ s
    → Within size s e i
    → Within size s ((e + 1) % size) i
Within-grow size s e i hs he hi ne h = elim (next-cases size e he) [
  | inl (q, k) ↦ rw q (ground arith)
  | inr (q, k) ↦ rw q (ground arith)
]

pub Within-end :
    (size s e : ℕ) → s < size → e < size → (e + 1) % size ≢ s → Within size s ((e + 1) % size) e
Within-end size s e hs he ne = elim (next-cases size e he) [
  | inl (q, k) ↦ rw q (ground arith)
  | inr (q, k) ↦ rw q (ground arith)
]

pub dist-zero : (size s e : ℕ) → s < size → e < size → dist size s e ≤ 0 → s ≡ e
dist-zero size s e hs he h = ground arith

pub dist-le : (size s e : ℕ) → s < size → e < size → dist size s e ≤ size
dist-le size s e hs he = ground arith

-- Going on from the start leaves the start behind, and reaches only what was ahead.
pub Within-passed : (size s e : ℕ) → s < size → e < size → ¬ Within size ((s + 1) % size) e s
Within-passed size s e hs he w = elim (next-cases size s hs) [
  | inl (q, k) ↦ late (subst (λ n. Within size n e s) q w) k
  | inr (q, k) ↦ first (subst (λ n. Within size n e s) q w) k
]
  where
    late : Within size (s + 1) e s → s + 1 < size → ⊥
    late v k = ground arith

    first : Within size 0 e s → s + 1 ≡ size → ⊥
    first v k = ground arith

pub Within-ahead :
    (size s e i : ℕ)
    → s < size
    → e < size
    → i < size
    → s ≢ e
    → Within size ((s + 1) % size) e i
    → Within size s e i
Within-ahead size s e i hs he hi ne w = elim (next-cases size s hs) [
  | inl (q, k) ↦ late (subst (λ n. Within size n e i) q w) k
  | inr (q, k) ↦ first (subst (λ n. Within size n e i) q w) k
]
  where
    late : Within size (s + 1) e i → s + 1 < size → Within size s e i
    late v k = ground arith

    first : Within size 0 e i → s + 1 ≡ size → Within size s e i
    first v k = ground arith

pub dist-same : (size s e : ℕ) → s ≡ e → dist size s e ≡ 0
dist-same size s e h = ground arith

module _ (size s e n : ℕ) (hs : s < size) (he : e < size) (h : dist size s e ≡ suc n) where
  pub dist-suc-ne : s ≢ e
  dist-suc-ne q = ground arith

  pub dist-suc-Within : Within size s e s
  dist-suc-Within = ground arith

  pub dist-suc-next : dist size ((s + 1) % size) e ≡ n
  dist-suc-next = down (dist-next size s e hs he dist-suc-ne ∙ h)
    where
      down : {a : ℕ} → suc a ≡ suc n → a ≡ n
      down q = omega arith
