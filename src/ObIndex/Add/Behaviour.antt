-- ===== src/ObIndex/Add/Behaviour.antt =====
-- What a reader, and the accounts of allocated bytes, see of add_slice.
use faststore.Prelude.{
  ℕ, ◌+◌, ◌≤◌, ◌<◌, ◌≡◌, some, List, ◌∷◌, arith, inl, inr, length, ap, ◌∙◌, subst, sym,
  if◌then◌else◌,
}
use faststore.Types.{ObSliceEntry, end_of}
use faststore.ObIndex.Defs.{Slices, HtFlags, ObState}
use faststore.ObIndex.Carve.{
  Wf, total, covered, lefts, rights, overwrite, overwrite-Wf, total-append, total-lefts-rights,
}
use faststore.ObIndex.Bytes.{byte_at, holds, place_in, byte_at-overwrite}
use faststore.ObIndex.Apply.{chain_of}
use faststore.ObIndex.Add.{add_slice}
use faststore.ObIndex.Add.Refines.{Added, add_slice-Added}

total-overwrite :
    (n : ObSliceEntry) (l : List ObSliceEntry)
    → total (overwrite n l) + covered n.ssize.offset (end_of n) l ≡ total l + n.ssize.length
unfolding overwrite total
total-overwrite n l = omega (
  arith,
  total-append (lefts n.ssize.offset l) (n ∷ rights (end_of n) l),
  total-lefts-rights l n.ssize.offset (end_of n) (omega arith),
)

module _ (S : Slices) (ht : HtFlags) (ob : ObState S) (n : ObSliceEntry) (pos : 0 < n.ssize.length)
    (wf : Wf 0 (chain_of S ht ob)) (mem : ℕ) (enough : length (chain_of S ht ob) + 7 ≤ mem) where
  add_slice-enough : Added S ht ob n (add_slice S ht ob n mem)
  add_slice-enough = elim (add_slice-Added S ht ob n pos wf mem) [
    | inl o ↦ absurd (omega (arith, o.short))
    | inr a ↦ a
  ]

  -- Where the slices of a block are in order and memory is enough, after add_slice every byte of the
  -- new slice lies in the new slice, and every other byte of the block lies where it did before.
  pub byte_at-add_slice :
      (x : ℕ)
      → byte_at x (chain_of S ht (add_slice S ht ob n mem).state)
        ≡ (if holds n x then some (place_in n x) else byte_at x (chain_of S ht ob))
  byte_at-add_slice x =
      ap (byte_at x) add_slice-enough.chain ∙ byte_at-overwrite x n (chain_of S ht ob)

  -- Under the same conditions the slices are in order again, without overlaps, and the bytes that they
  -- cover grow by exactly the `inc_alloc` that add_slice reports.
  pub add_slice-Wf :
      Wf 0 (chain_of S ht (add_slice S ht ob n mem).state)
      × (total (chain_of S ht (add_slice S ht ob n mem).state)
          ≡ total (chain_of S ht ob) + (add_slice S ht ob n mem).inc_alloc)
  add_slice-Wf = (
    subst (Wf 0) (sym add_slice-enough.chain) (overwrite-Wf n (chain_of S ht ob) pos wf),
    omega (
      arith,
      ap total add_slice-enough.chain,
      total-overwrite n (chain_of S ht ob),
      add_slice-enough.counts,
    ),
  )
