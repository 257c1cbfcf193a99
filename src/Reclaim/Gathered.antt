-- ===== src/Reclaim/Gathered.antt =====
-- The result of the gathering is the set of bytes of the trunk's slices (server/storage/trunk_reclaim.c).
use faststore.Prelude.{
  ℕ, zero, suc, ◌+◌, ◌≤◌, ◌≡◌, refl, sym, ap, ◌∙◌, ◌⊎◌, inl, inr, true, Option-cases, some, List,
  [], ◌∷◌, ◌++◌, length, arith,
}
use faststore.Errno.{enoent}
use faststore.Types.{FsBlockSliceKeyInfo}
use faststore.Sort.{Comparison-cases, insert, sort}
use faststore.ObTable.{ObEntry, ObHashtable}
use faststore.ObTable.Blocks.{ob_index_reclaim_lock}
use faststore.Reclaim.{
  compare_by_block_slice_key, convert_to_rs_array, chain_of, ReclaimBlock, ReclaimResult,
  unlock_blocks, combine, combine_to_rb_array,
}
use faststore.Reclaim.Gone.{Gone, not_locked-lookup, locked-Gone, chain_of-Gone, convert-Gone}
use faststore.Reclaim.Combine.{
  holds, held, SameBlock, chain_of-held, length-chain_of, locked-SameBlock,
}

module _ (oid offset x : ℕ) where
  insert-held :
      (s : FsBlockSliceKeyInfo) (l : List FsBlockSliceKeyInfo)
      → held oid offset x (insert compare_by_block_slice_key s l)
        ≡ holds oid offset x s + held oid offset x l
  unfolding insert
  insert-held s [] = refl
  insert-held s (t ∷ l) = elim (Comparison-cases (compare_by_block_slice_key s t)) [
    | inl q ↦ rw (insert, q) refl
    | inr (inl q) ↦ rw (insert, q) refl
    | inr (inr q) ↦ rw (insert, q) (omega (arith, insert-held s l))
  ]

  -- Sorting leaves each byte in as many slices.
  convert-held :
      (l : List FsBlockSliceKeyInfo)
      → held oid offset x (convert_to_rs_array l) ≡ held oid offset x l
  unfolding convert_to_rs_array sort
  convert-held [] = refl
  convert-held (s ∷ l) =
      insert-held s (convert_to_rs_array l) ∙ ap (λ n. holds oid offset x s + n) (convert-held l)

  module _ {N : Type 0} where
    -- How many ranges of the blocks hold the byte.
    abbrev pub blocks_held : List (ReclaimBlock N) → ℕ
    blocks_held [] = 0
    blocks_held (b ∷ l) = held oid offset x b.ranges + blocks_held l

    blocks_held-append :
        (xs ys : List (ReclaimBlock N)) → blocks_held (xs ++ ys) ≡ blocks_held xs + blocks_held ys
    blocks_held-append [] ys = omega arith
    blocks_held-append (b ∷ xs) ys = omega (arith, blocks_held-append xs ys)

    -- No blocks are given, as one of the slices has none in the hash table, or the byte is in `n`
    -- ranges of the blocks.
    abbrev pub Gathers : ObHashtable N → List FsBlockSliceKeyInfo → ℕ → ReclaimResult N → Type 0
    Gathers ht l n r =
        ((r.result ≡ enoent) × (r.blocks ≡ []) × Gone ht l)
        ⊎ ((r.result ≡ 0) × (blocks_held r.blocks ≡ n))

    Gathers-from :
        (ht at : ObHashtable N) (l m : List FsBlockSliceKeyInfo) (n k : ℕ) (r : ReclaimResult N)
        → (Gone ht l → Gone at m)
        → n ≡ k
        → Gathers ht l n r
        → Gathers at m k r
    Gathers-from ht at l m n k r gone e (inl (p, q, g)) = inl (p, q, gone g)
    Gathers-from ht at l m n k r gone e (inr (p, q)) = inr (p, q ∙ e)

    combine-Gathers :
        (fuel : ℕ) (ht : ObHashtable N) (done : List (ReclaimBlock N))
        (l : List FsBlockSliceKeyInfo)
        → length l ≤ fuel
        → (r : ReclaimResult N) × (combine fuel ht done l ≡ some r)
          × Gathers ht l (blocks_held done + held oid offset x l) r
    unfolding combine
    combine-Gathers fuel ht done [] h =
        (record { htable = ht; result = 0; blocks = done }, refl, inr (refl, omega arith))
    combine-Gathers zero ht done (s ∷ l) h = absurd (omega arith)
    combine-Gathers (suc fuel) ht done (s ∷ l) h =
        elim (Option-cases (ob_index_reclaim_lock ht s.block).0) [
          | inl q ↦ (
            record {
              htable = unlock_blocks (ob_index_reclaim_lock ht s.block).1 done;
              result = enoent;
              blocks = [];
            },
            rw (combine, q) refl,
            inl (refl, refl, inl (not_locked-lookup ht s.block q)),
          )
          | inr (ob, q) ↦
              let next =
                combine-Gathers fuel (ob_index_reclaim_lock ht s.block).1
                  (done ++ record { ob = ob; ranges = (chain_of ob.bkey s l).0 } ∷ [])
                  (chain_of ob.bkey s l).1 (omega (arith, length-chain_of ob.bkey s l)) in
              (
                next.0,
                rw (combine, q) next.1,
                Gathers-from (ob_index_reclaim_lock ht s.block).1 ht (chain_of ob.bkey s l).1
                    (s ∷ l)
                    (blocks_held
                        (done ++ record { ob = ob; ranges = (chain_of ob.bkey s l).0 } ∷ [])
                      + held oid offset x (chain_of ob.bkey s l).1)
                    (blocks_held done + held oid offset x (s ∷ l)) next.0
                    (λ g. inr (
                      locked-Gone ht s.block l
                        (chain_of-Gone (ob_index_reclaim_lock ht s.block).1 ob.bkey s l g)))
                    (block_added ob (locked-SameBlock ht s.block q)) next.2,
              )
        ]
      where
        -- The ranges of the block and the slices left hold the byte as often as the slices did.
        block_added :
            (ob : ObEntry N)
            → SameBlock s.block ob.bkey
            → blocks_held (done ++ record { ob = ob; ranges = (chain_of ob.bkey s l).0 } ∷ [])
                + held oid offset x (chain_of ob.bkey s l).1
              ≡ blocks_held done + held oid offset x (s ∷ l)
        block_added ob same = omega (
          arith,
          blocks_held-append done (record { ob = ob; ranges = (chain_of ob.bkey s l).0 } ∷ []),
          chain_of-held oid offset x ob.bkey s l (sym same.0, sym same.1),
        )

    -- Where memory is there for the blocks, the gathering of the sorted slices of a trunk ends: with
    -- ENOENT and no blocks, where the block of one of the slices has no entry in the hash table, or
    -- with 0 and blocks whose ranges hold each byte of each block as often as the slices of the
    -- trunk did.
    pub combine_to_rb_array-Gathers :
        (ht : ObHashtable N) (slices : List FsBlockSliceKeyInfo)
        → (r : ReclaimResult N) × (combine_to_rb_array true ht (convert_to_rs_array slices)
            ≡ some r)
          × Gathers ht slices (held oid offset x slices) r
    unfolding combine_to_rb_array
    combine_to_rb_array-Gathers ht slices =
        let gathered =
          combine-Gathers (length (convert_to_rs_array slices)) ht [] (convert_to_rs_array slices)
            (omega arith) in
        (
          gathered.0,
          gathered.1,
          Gathers-from ht ht (convert_to_rs_array slices) slices
              (blocks_held [] + held oid offset x (convert_to_rs_array slices))
              (held oid offset x slices) gathered.0 (convert-Gone ht slices)
              (omega (arith, convert-held slices)) gathered.2,
        )
