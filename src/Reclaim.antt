-- ===== src/Reclaim.antt =====
-- How the reclaim of a trunk gathers its slices (server/storage/trunk_reclaim.c): the slices in the
-- order of their blocks and offsets, then for each block one lock and the ranges to move, in which
-- slices that follow one another are one.
pub mod Combine
pub mod Gone
pub mod Gathered
mod Tests
use Prim.Native.Nat.{Ordering}
use faststore.Prelude.{
  ℕ, zero, suc, ◌+◌, ◌==◌, if◌then◌else◌, Bool, Option, none, some, List, [], ◌∷◌, ◌++◌, length,
}
use faststore.Errno.{enoent, enomem}
use faststore.Types.{FsBlockKey, FsBlockSliceKeyInfo}
use faststore.Sort.{Comparison, sign_of, or_else, sort}
use faststore.ObTable.{ObEntry, ObHashtable, compare_block_key}
use faststore.ObTable.Blocks.{ob_index_reclaim_lock, ob_index_reclaim_unlock}

unfoldable pub compare_by_block_slice_key : FsBlockSliceKeyInfo → FsBlockSliceKeyInfo → Comparison
compare_by_block_slice_key a b =
    or_else (sign_of a.block.oid b.block.oid)
      (or_else (sign_of a.block.offset b.block.offset) (sign_of a.slice.offset b.slice.offset))

-- The end of convert_to_rs_array: the slices of the trunk, sorted.
unfoldable pub convert_to_rs_array : List FsBlockSliceKeyInfo → List FsBlockSliceKeyInfo
unfolding compare_by_block_slice_key sort
convert_to_rs_array slices = sort compare_by_block_slice_key slices

abbrev pub lengthened : FsBlockSliceKeyInfo → ℕ → FsBlockSliceKeyInfo
lengthened tail n = record tail { slice = record tail.slice { length = tail.slice.length + n } }

-- The inner loop of combine_to_rb_array: the chain of ranges of one block that ends with `tail` so
-- far, and the slices of later blocks.
unfoldable pub chain_of :
    FsBlockKey
    → FsBlockSliceKeyInfo
    → List FsBlockSliceKeyInfo
    → List FsBlockSliceKeyInfo × List FsBlockSliceKeyInfo
chain_of key tail [] = (tail ∷ [], [])
chain_of key tail (s ∷ l) =
    let longer = chain_of key (lengthened tail s.slice.length) l in
    let apart = chain_of key s l in
    elim (compare_block_key key s.block) [
      | Ordering.eq ↦
          if tail.slice.offset + tail.slice.length == s.slice.offset
          then longer
          else (tail ∷ apart.0, apart.1)
      | _ ↦ (tail ∷ [], s ∷ l)
    ]

pub record ReclaimBlock (N : Type 0) : Type 0 where
  pub ob : ObEntry N
  pub ranges : List FsBlockSliceKeyInfo

pub record ReclaimResult (N : Type 0) : Type 0 where
  pub htable : ObHashtable N
  pub result : ℕ
  pub blocks : List (ReclaimBlock N)

module _ {N : Type 0} where
  -- The rollback where a block is gone: the blocks so far are unlocked, from the first on.
  unfoldable pub unlock_blocks : ObHashtable N → List (ReclaimBlock N) → ObHashtable N
  unlock_blocks ht [] = ht
  unlock_blocks ht (b ∷ l) = unlock_blocks (ob_index_reclaim_unlock ht b.ob).1 l

  -- The outer loop; `fuel` is the number of slices left at the most, and `none` that it ran out.
  unfoldable pub combine :
      ℕ
      → ObHashtable N
      → List (ReclaimBlock N)
      → List FsBlockSliceKeyInfo
      → Option (ReclaimResult N)
  unfolding chain_of unlock_blocks
  combine fuel ht done [] = some (record { htable = ht; result = 0; blocks = done })
  combine zero ht done (s ∷ l) = none
  combine (suc fuel) ht done (s ∷ l) =
      let locked = ob_index_reclaim_lock ht s.block in
      elim locked.0 [
        | none ↦
            some (record { htable = unlock_blocks locked.1 done; result = enoent; blocks = [] })
        | some ob ↦
            combine fuel locked.1
              (done ++ record { ob = ob; ranges = (chain_of ob.bkey s l).0 } ∷ [])
              (chain_of ob.bkey s l).1
      ]

  -- `alloc` is whether the array of blocks is or can be made large enough.
  unfoldable pub combine_to_rb_array :
      Bool → ObHashtable N → List FsBlockSliceKeyInfo → Option (ReclaimResult N)
  unfolding combine
  combine_to_rb_array alloc ht slices =
      if alloc
      then combine (length slices) ht [] slices
      else some (record { htable = ht; result = enomem; blocks = [] })
