-- ===== src/Reclaim/Combine.antt =====
-- The gathered ranges hold the bytes of the slices, each as often (server/storage/trunk_reclaim.c).
use Prim.Native.Nat.{Ordering}
use faststore.Prelude.{
  ℕ, ◌+◌, ◌≤◌, ◌≡◌, refl, sym, ◌∙◌, subst, ◌⊎◌, inl, inr, ◌==◌, leb, ltb, if◌then◌else◌, ◌&&◌,
  Bool-cases, Option-cases, eqb→eq, Option, none, some, List, [], ◌∷◌, length, arith,
}
use faststore.Types.{FsBlockKey, FsBlockSliceKeyInfo}
use faststore.ObTable.{ObEntry, ObHashtable, compare_block_key, find_entry}
use faststore.ObTable.Blocks.{ob_index_reclaim_lock, lookup, bucket_index, count_up}
use faststore.Reclaim.{lengthened, chain_of}

-- Whether a slice holds the byte `x` of the block with the object id and the offset.
abbrev pub holds : ℕ → ℕ → ℕ → FsBlockSliceKeyInfo → ℕ
holds oid offset x s =
    if s.block.oid == oid
      && s.block.offset == offset
      && leb s.slice.offset x
      && ltb x (s.slice.offset + s.slice.length)
    then 1
    else 0

-- How many of the slices hold the byte.
abbrev pub held : ℕ → ℕ → ℕ → List FsBlockSliceKeyInfo → ℕ
held oid offset x [] = 0
held oid offset x (s ∷ l) = holds oid offset x s + held oid offset x l

module _ (oid offset x : ℕ) where
  -- Two slices of one block that follow one another hold what the combined one holds.
  holds-lengthened :
      (t s : FsBlockSliceKeyInfo)
      → t.block.oid ≡ s.block.oid
      → t.block.offset ≡ s.block.offset
      → t.slice.offset + t.slice.length ≡ s.slice.offset
      → holds oid offset x (lengthened t s.slice.length)
        ≡ holds oid offset x t + holds oid offset x s
  holds-lengthened t s h k m = ground arith

abbrev pub SameBlock : FsBlockKey → FsBlockKey → Type 0
SameBlock a b = (a.oid ≡ b.oid) × (a.offset ≡ b.offset)

compare_SameBlock : (a b : FsBlockKey) → compare_block_key a b ≡ Ordering.eq → SameBlock a b
compare_SameBlock a b h = (ground (arith, h), ground (arith, h))

Ordering-cases : (o : Ordering) → (o ≡ Ordering.eq) ⊎ ((o ≡ Ordering.lt) ⊎ (o ≡ Ordering.gt))
Ordering-cases Ordering.eq = inl refl
Ordering-cases Ordering.lt = inr (inl refl)
Ordering-cases Ordering.gt = inr (inr refl)

module _ (oid offset x : ℕ) (key : FsBlockKey) where
  abbrev pub both_held : List FsBlockSliceKeyInfo × List FsBlockSliceKeyInfo → ℕ
  both_held r = held oid offset x r.0 + held oid offset x r.1

  -- The chain of a block and the slices left hold together what there was.
  pub chain_of-held :
      (tail : FsBlockSliceKeyInfo) (l : List FsBlockSliceKeyInfo)
      → SameBlock key tail.block
      → both_held (chain_of key tail l) ≡ holds oid offset x tail + held oid offset x l
  unfolding chain_of
  chain_of-held tail [] h = omega arith
  chain_of-held tail (s ∷ l) h = elim (Ordering-cases (compare_block_key key s.block)) [
    | inl q ↦ elim (Bool-cases (tail.slice.offset + tail.slice.length == s.slice.offset)) [
      | inl e ↦
          let same = compare_SameBlock key s.block q in
          rw (chain_of, q, e)
            (omega (
              arith,
              chain_of-held (lengthened tail s.slice.length) l h,
              holds-lengthened oid offset x tail s (sym h.0 ∙ same.0) (sym h.1 ∙ same.1)
                  (eqb→eq _ _ e),
            ))
      | inr n ↦
          rw (chain_of, q, n) (omega (arith, chain_of-held s l (compare_SameBlock key s.block q)))
    ]
    | inr (inl q) ↦ rw (chain_of, q) (omega arith)
    | inr (inr q) ↦ rw (chain_of, q) (omega arith)
  ]

pub length-chain_of :
    (key : FsBlockKey) (tail : FsBlockSliceKeyInfo) (l : List FsBlockSliceKeyInfo)
    → length (chain_of key tail l).1 ≤ length l
unfolding chain_of
length-chain_of key tail [] = omega arith
length-chain_of key tail (s ∷ l) =
    ground (arith, length-chain_of key (lengthened tail s.slice.length) l, length-chain_of key s l)

module _ {N : Type 0} where
  -- The entry that is locked is that of the key.
  find_entry-SameBlock :
      (k : FsBlockKey) (l : List (ObEntry N)) {e : ObEntry N}
      → find_entry k l ≡ some e
      → SameBlock k e.bkey
  unfolding find_entry
  find_entry-SameBlock k [] h = absurd (ground arith)
  find_entry-SameBlock k (f ∷ l) {e} h = elim (Ordering-cases (compare_block_key k f.bkey)) [
    | inl q ↦
        subst (λ z. SameBlock k z.bkey) (found_is (rw (find_entry, q) at h))
          (compare_SameBlock k f.bkey q)
    | inr (inl q) ↦ absurd (not_found (rw (find_entry, q) at h))
    | inr (inr q) ↦ find_entry-SameBlock k l (rw (find_entry, q) at h)
  ]
    where
      found_is : some f ≡ some e → f ≡ e
      found_is q = ground arith

      not_found : ◌≡◌ {A = Option (ObEntry N)} none (some e) → ⊥
      not_found q = ground arith

  pub locked-SameBlock :
      (ht : ObHashtable N) (k : FsBlockKey) {ob : ObEntry N}
      → (ob_index_reclaim_lock ht k).0 ≡ some ob
      → SameBlock k ob.bkey
  unfolding ob_index_reclaim_lock
  locked-SameBlock ht k {ob} h = elim (Option-cases (lookup ht k)) [
    | inl q ↦ absurd (not_locked (rw (ob_index_reclaim_lock, q) at h))
    | inr (e, q) ↦
        subst (λ z. SameBlock k z) (key_is e (rw (ob_index_reclaim_lock, q) at h))
          (find_entry-SameBlock k (ht.buckets (bucket_index ht k)) q)
  ]
    where
      not_locked : ◌≡◌ {A = Option (ObEntry N)} none (some ob) → ⊥
      not_locked q = ground arith

      key_is : (e : ObEntry N) → some (count_up e) ≡ some ob → e.bkey ≡ ob.bkey
      key_is e q = ground arith
