-- ===== src/ObIndex/Get/Behaviour.antt =====
-- What get_slices returns to a reader.
use faststore.Prelude.{
  ℕ, ◌+◌, ◌*◌, ◌≤◌, ◌<◌, ◌≡◌, refl, List, [], ◌∷◌, none, arith, ltb, leb, ◌&&◌, if◌then◌else◌, ap,
  ◌∙◌, subst, sym, length, max,
}
use faststore.Errno.{enoent}
use faststore.Types.{ObSliceEntry, FsSliceSize}
use faststore.ObIndex.Defs.{Slices, HtFlags, ObState}
use faststore.ObIndex.Carve.{Wf, Wf-mono, EndsBy, total}
use faststore.ObIndex.Bytes.{byte_at}
use faststore.ObIndex.Plan.{parted}
use faststore.ObIndex.Apply.{chain_of}
use faststore.ObIndex.Delete.{slice_end}
use faststore.ObIndex.Delete.Refines.{covered_in}
use faststore.ObIndex.Get.{get_slices}
use faststore.ObIndex.Get.Steps.{Parted-Fills, shown}
use faststore.ObIndex.Get.Window.{byte_at-window, window-ends, window-Wf, total-window}

-- A list of slices in order is empty where they hold no byte.
code-total :
    (a : ℕ) (l : List ObSliceEntry)
    → Wf a l
    → ((0 < total l) → (elim l [ [] ↦ enoent | s ∷ r ↦ 0 ]) ≡ 0)
      × ((total l ≡ 0) → (elim l [ [] ↦ enoent | s ∷ r ↦ 0 ]) ≡ enoent)
unfolding total
code-total a [] w = (λ h. absurd (omega arith), λ _. refl)
code-total a (s ∷ l) w = (λ _. refl, λ h. absurd (omega (arith, w.1)))

module _ (S : Slices) (ht : HtFlags) (ob : ObState S) (r : FsSliceSize) (pos : 0 < r.length)
    (wf : Wf 0 (chain_of S ht ob)) (alloc mem : ℕ)
    (enough : 2 + 2 * length (chain_of S ht ob) ≤ mem) where
  filled :
      ((get_slices S ob r alloc mem).sarray.slices ≡ shown S ht ob r pos wf)
      × ((get_slices S ob r alloc mem).result
          ≡ (elim (shown S ht ob r pos wf) [ [] ↦ enoent | s ∷ l ↦ 0 ]))
  filled = Parted-Fills S ht ob r pos wf alloc mem enough (parted (chain_of S ht ob) 0 r.offset wf)

  shown-Wf : Wf r.offset (shown S ht ob r pos wf)
  shown-Wf =
      Wf-mono _ r.offset (max 0 r.offset) (omega arith)
        (window-Wf (chain_of S ht ob) r.offset (slice_end r) 0 (omega arith) wf)

  -- Where the slices of a block are in order and memory is enough, a byte of the range lies in the
  -- returned slices where it lies in the block, and they hold no byte outside the range.
  pub byte_at-get_slices :
      (x : ℕ)
      → byte_at x (get_slices S ob r alloc mem).sarray.slices
        ≡ (if leb r.offset x && ltb x (slice_end r) then byte_at x (chain_of S ht ob) else none)
  byte_at-get_slices x =
      ap (byte_at x) filled.0 ∙ byte_at-window x r.offset (slice_end r) (chain_of S ht ob)

  -- Under the same conditions the returned slices are in order, without overlaps, from the first to the
  -- last byte of the range, and their lengths sum to the number of bytes of the range that are covered.
  pub get_slices-Wf :
      Wf r.offset (get_slices S ob r alloc mem).sarray.slices
      × EndsBy (slice_end r) (get_slices S ob r alloc mem).sarray.slices
      × (total (get_slices S ob r alloc mem).sarray.slices ≡ covered_in S ht ob r)
  get_slices-Wf = (
    subst (Wf r.offset) (sym filled.0) shown-Wf,
    subst (EndsBy (slice_end r)) (sym filled.0)
        (window-ends r.offset (slice_end r) (chain_of S ht ob) (omega arith)),
    ap total filled.0 ∙ total-window (chain_of S ht ob) 0 r.offset (slice_end r) (omega arith) wf,
  )

  -- Under the same conditions get_slices returns 0 where a byte of the range is covered, and ENOENT
  -- where none is.
  pub get_slices_code :
      ((0 < covered_in S ht ob r) → (get_slices S ob r alloc mem).result ≡ 0)
      × ((covered_in S ht ob r ≡ 0) → (get_slices S ob r alloc mem).result ≡ enoent)
  get_slices_code =
      let t = total-window (chain_of S ht ob) 0 r.offset (slice_end r) (omega arith) wf in
      let c = code-total r.offset (shown S ht ob r pos wf) shown-Wf in
      (λ h. filled.1 ∙ c.0 (omega (arith, t)), λ h. filled.1 ∙ c.1 (omega (arith, t)))
