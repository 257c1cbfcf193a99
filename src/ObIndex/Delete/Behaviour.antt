-- ===== src/ObIndex/Delete/Behaviour.antt =====
-- What a reader, and the accounts of allocated bytes, see of delete_slices.
use faststore.Prelude.{
  ℕ, ◌+◌, ◌≤◌, ◌<◌, ◌≡◌, none, arith, ◌⊎◌, inl, inr, length, ap, ◌∙◌, subst, sym, if◌then◌else◌,
  leb, ltb, ◌&&◌, List,
}
use faststore.Errno.{enoent}
use faststore.Types.{ObSliceEntry, FsSliceSize}
use faststore.ObIndex.Defs.{Slices, HtFlags, ObState}
use faststore.ObIndex.Carve.{
  Wf, total, covered, lefts, rights, carve, carve-Wf, total-append, total-lefts-rights,
}
use faststore.ObIndex.Bytes.{byte_at, byte_at-carve}
use faststore.ObIndex.Apply.{chain_of}
use faststore.ObIndex.Delete.{delete_slices, slice_end}
use faststore.ObIndex.Delete.Refines.{Deleted, Missing, covered_in, delete_slices-Outcome}

total-carve :
    (o e : ℕ) (l : List ObSliceEntry) → o ≤ e → total (carve o e l) + covered o e l ≡ total l
unfolding carve
total-carve o e l h =
    omega (arith, total-append (lefts o l) (rights e l), total-lefts-rights l o e h)

module _ (S : Slices) (ht : HtFlags) (ob : ObState S) (r : FsSliceSize) (pos : 0 < r.length)
    (wf : Wf 0 (chain_of S ht ob)) (mem : ℕ) (enough : length (chain_of S ht ob) + 7 ≤ mem) where
  delete_slices-enough :
      Missing S ht ob r (delete_slices S ht ob r mem)
      ⊎ Deleted S ht ob r (delete_slices S ht ob r mem)
  delete_slices-enough = elim (delete_slices-Outcome S ht ob r pos wf mem) [
    | inl o ↦ absurd (omega (arith, o.short))
    | inr d ↦ d
  ]

  -- Where the slices of a block are in order and memory is enough, delete_slices returns 0 where they
  -- cover a byte of the range, and ENOENT, with the state as it was, where they cover none.
  pub delete_slices_code :
      ((0 < covered_in S ht ob r) → (delete_slices S ht ob r mem).result ≡ 0)
      × ((covered_in S ht ob r ≡ 0)
          → ((delete_slices S ht ob r mem).result ≡ enoent)
            × ((delete_slices S ht ob r mem).state ≡ ob))
  delete_slices_code = elim delete_slices-enough [
    | inl m ↦ (λ h. absurd (omega (arith, m.uncovered)), λ _. (m.code, m.state))
    | inr d ↦ (λ _. d.code, λ h. absurd (omega (arith, d.some_covered)))
  ]

  -- Under the same conditions, when 0 is returned, no byte of the range lies anywhere afterwards, and
  -- every other byte of the block lies where it did before.
  pub byte_at-delete_slices :
      (delete_slices S ht ob r mem).result ≡ 0
      → (x : ℕ)
      → byte_at x (chain_of S ht (delete_slices S ht ob r mem).state)
        ≡ (if leb r.offset x && ltb x (slice_end r) then none else byte_at x (chain_of S ht ob))
  byte_at-delete_slices h x = elim delete_slices-enough [
    | inl m ↦ absurd (omega (arith, m.code))
    | inr d ↦ ap (byte_at x) d.chain ∙ byte_at-carve x r.offset r.length (chain_of S ht ob)
  ]

  -- Under the same conditions the slices are in order afterwards, and the bytes that they cover shrink
  -- by exactly the `dec_alloc` that delete_slices reports.
  pub delete_slices-Wf :
      Wf 0 (chain_of S ht (delete_slices S ht ob r mem).state)
      × (total (chain_of S ht (delete_slices S ht ob r mem).state)
            + (delete_slices S ht ob r mem).dec_alloc
          ≡ total (chain_of S ht ob))
  delete_slices-Wf = elim delete_slices-enough [
    | inl m ↦ (
      subst (λ t. Wf 0 (chain_of S ht t)) (sym m.state) wf,
      omega (arith, m.counts, ap (λ t. total (chain_of S ht t)) m.state),
    )
    | inr d ↦ (
      subst (Wf 0) (sym d.chain)
          (carve-Wf r.offset (slice_end r) (chain_of S ht ob) (omega arith) wf),
      omega (
        arith,
        ap total d.chain,
        d.counts,
        total-carve r.offset (slice_end r) (chain_of S ht ob) (omega arith),
      ),
    )
  ]
