-- ===== src/RpcRing/Skip.antt =====
-- Removing an entry from the ring: the loop past the slots that are empty already.
use faststore.Prelude.{
  ℕ, zero, suc, ◌+◌, ◌%◌, ◌<◌, ◌≤◌, ◌≡◌, ◌≢◌, refl, sym, ap, ◌∙◌, subst, arith, ◌==◌, not, ◌&&◌,
  Bool, true, false, ◌⊎◌, inl, inr, eq-or-ne, eq→eqb, ne→eqb, Bool-cases, set_at,
}
use native.Mathlib.Nat.{mod-add-mod}
use faststore.RpcRing.{Ring, reset, skip_removed, ring_without}
use faststore.RpcRing.Window.{Within, dist, dist-next, dist-zero, dist-le, Within-next}
use faststore.RpcRing.Valid.{version_at, ValidRing, empty-Valid}

-- A ring whose start has moved past empty slots only, to the end or to an entry.
pub record Skipped (r r' : Ring) : Type 0 where
  pub to : ℕ
  pub moved : r' ≡ record r { start = to }
  pub to_in : to < r.size
  pub keeps :
      (i : ℕ)
      → i < r.size
      → version_at r i ≢ 0
      → Within r.size r.start r.end i
      → Within r.size to r.end i
  pub done : (to ≡ r.end) ⊎ (version_at r to ≢ 0)

abbrev goes_on : Ring → Bool
goes_on r = not (r.start == r.end) && (version_at r r.start == 0)

skip_removed-step :
    (fuel index : ℕ) (r : Ring)
    → goes_on r ≡ true
    → skip_removed (suc fuel) index r
      ≡ skip_removed fuel (index + 1) (record r { start = (index + 1) % r.size })
unfolding skip_removed
skip_removed-step fuel index r q = rw q refl

skip_removed-stop : (fuel index : ℕ) (r : Ring) → goes_on r ≡ false → skip_removed fuel index r ≡ r
unfolding skip_removed
skip_removed-stop zero index r q = refl
skip_removed-stop (suc fuel) index r q = rw q refl

goes_on-true : (r : Ring) → goes_on r ≡ true → (r.start ≢ r.end) × (version_at r r.start ≡ 0)
goes_on-true r q = ground arith

goes_on-false : (r : Ring) → goes_on r ≡ false → (r.start ≡ r.end) ⊎ (version_at r r.start ≢ 0)
goes_on-false r q = ground arith

pub next-start : (size index s : ℕ) → s ≡ index % size → (s + 1) % size ≡ (index + 1) % size
next-start size index s q = ap (λ n. (n + 1) % size) q ∙ mod-add-mod index size 1

Skipped-stop :
    (fuel index : ℕ) (r : Ring)
    → r.start < r.size
    → goes_on r ≡ false
    → Skipped r (skip_removed fuel index r)
Skipped-stop fuel index r h q = rw (skip_removed-stop fuel index r q) (record {
  to = r.start;
  moved = refl;
  to_in = h;
  keeps = λ i k n w. w;
  done = goes_on-false r q;
})

-- Fuel for all slots up to the end is enough.
pub skip_removed-Skipped :
    (fuel index : ℕ) (r : Ring)
    → r.start < r.size
    → r.end < r.size
    → r.start ≡ index % r.size
    → dist r.size r.start r.end ≤ fuel
    → Skipped r (skip_removed fuel index r)
skip_removed-Skipped zero index r h he q d =
    Skipped-stop zero index r h (at_end (dist-zero r.size r.start r.end h he d))
  where
    at_end : r.start ≡ r.end → goes_on r ≡ false
    at_end e = ground arith
skip_removed-Skipped (suc fuel) index r h he q d = elim (Bool-cases (goes_on r)) [
  | inr c ↦ Skipped-stop (suc fuel) index r h c
  | inl c ↦
      let on = goes_on-true r c in
      let step = next-start r.size index r.start q in
      let rest =
        skip_removed-Skipped fuel (index + 1) (record r { start = (index + 1) % r.size })
          (omega arith) he refl
          (subst (λ n. dist r.size n r.end ≤ fuel) step
            (one_less (dist-next r.size r.start r.end h he on.0) d)) in
      rw (skip_removed-step fuel index r c) (record {
        to = rest.to;
        moved = rest.moved;
        to_in = rest.to_in;
        keeps = λ i k n w. rest.keeps i k n (
            subst (λ x. Within r.size x r.end i) step
              (Within-next r.size r.start r.end i h he k (apart i on.1 n) w));
        done = rest.done;
      })
]
  where
    one_less : {x y : ℕ} → suc x ≡ y → y ≤ suc fuel → x ≤ fuel
    one_less p b = omega arith

    apart : (i : ℕ) → version_at r r.start ≡ 0 → version_at r i ≢ 0 → r.start ≢ i
    apart i z n e = n (subst (λ x. version_at r x ≡ 0) e z)

-- The ring without an entry: the bounds are in order, and the other slots are as they were.
pub record Emptied (r : Ring) (index : ℕ) (r' : Ring) : Type 0 where
  pub from : ℕ
  pub is :
      r' ≡ record r { entries = set_at r.entries index (reset (r.entries index)); start = from }
  pub valid : ValidRing r'

pub ring_without-Emptied :
    (r : Ring) (index : ℕ)
    → ValidRing r
    → index < r.size
    → r.start ≢ r.end
    → Emptied r index (ring_without r index)
unfolding ring_without
ring_without-Emptied r index v h ne = elim (eq-or-ne r.start index) [
  | inr q ↦
      rw (ring_without, ne→eqb r.start index q)
        (record {
          from = r.start;
          is = refl;
          valid = empty-Valid r index r.start v v.1 (λ i k n z. (v.3 i k z).1);
        })
  | inl q ↦
      let next : Ring = record r { start = (index + 1) % r.size } in
      let s =
        skip_removed-Skipped r.size (index + 1) next (omega arith) v.2 refl
          (dist-le r.size ((index + 1) % r.size) r.end (omega arith) v.2) in
      rw (ring_without, eq→eqb r.start index q, s.moved)
        (record {
          from = s.to;
          is = refl;
          valid =
              empty-Valid r index s.to v s.to_in
                (λ i k n z. s.keeps i k z (later q i k n (v.3 i k z).1));
        })
]
  where
    later :
        r.start ≡ index
        → (i : ℕ) → i < r.size
        → i ≢ index
        → Within r.size r.start r.end i
        → Within r.size ((index + 1) % r.size) r.end i
    later q i k n w =
        subst (λ x. Within r.size ((x + 1) % r.size) r.end i) q
          (Within-next r.size r.start r.end i v.1 v.2 k (λ e. n (sym e ∙ q)) w)
