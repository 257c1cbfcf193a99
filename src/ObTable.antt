-- ===== src/ObTable.antt =====
-- The hash table of blocks in server/storage/object_block_index.c: chains of entries in the order of
-- their keys.
pub mod Chain
pub mod Blocks
pub mod Create
pub mod DeleteBlock
pub mod GetSlices
mod Tests
use Prim.Native.Nat.{compare, Ordering}
use faststore.Prelude.{
  ℕ, zero, suc, ◌+◌, ◌-◌, ◌/◌, ◌%◌, ◌^◌, Bool, true, false, List, [], ◌∷◌, Option, none, some,
  set_at, if◌then◌else◌, ◌==◌,
}
use faststore.Types.{FsBlockKey, fs_file_block_size}

-- fs_calc_block_hashcode
abbrev pub fs_calc_block_hashcode : FsBlockKey → FsBlockKey
fs_calc_block_hashcode bkey = record bkey {
  hash_code = (bkey.oid + bkey.offset + bkey.offset / fs_file_block_size) % 2 ^ 64;
}

-- ob_index_compare_block_key
abbrev pub compare_block_key : FsBlockKey → FsBlockKey → Ordering
compare_block_key a b = elim (compare a.oid b.oid) [
  | Ordering.eq ↦ compare a.offset b.offset
  | c ↦ c
]

-- OBEntry, its slices left open.
pub record ObEntry (N : Type 0) : Type 0 where
  pub bkey : FsBlockKey
  pub slices : N
  pub reclaiming_count : ℕ

pub record ObHashtable (N : Type 0) : Type 0 where
  pub capacity : ℕ
  pub buckets : ℕ → List (ObEntry N)

module _ {N : Type 0} where
  -- The walk of get_ob_entry_ex to a key.
  unfoldable pub find_entry : FsBlockKey → List (ObEntry N) → Option (ObEntry N)
  find_entry k [] = none
  find_entry k (x ∷ l) = elim (compare_block_key k x.bkey) [
    | Ordering.eq ↦ some x
    | Ordering.lt ↦ none
    | Ordering.gt ↦ find_entry k l
  ]

  -- A new entry linked where that walk ends.
  unfoldable pub link_entry : ObEntry N → List (ObEntry N) → List (ObEntry N)
  link_entry e [] = e ∷ []
  link_entry e (x ∷ l) = elim (compare_block_key e.bkey x.bkey) [
    | Ordering.gt ↦ x ∷ link_entry e l
    | _ ↦ e ∷ x ∷ l
  ]

  -- A change of the entry of a key.
  unfoldable pub change_entry :
      FsBlockKey → (ObEntry N → ObEntry N) → List (ObEntry N) → List (ObEntry N)
  change_entry k f [] = []
  change_entry k f (x ∷ l) = elim (compare_block_key k x.bkey) [
    | Ordering.eq ↦ f x ∷ l
    | Ordering.lt ↦ x ∷ l
    | Ordering.gt ↦ x ∷ change_entry k f l
  ]

  -- OB_INDEX_DELETE_OB_ENTRY, for the entry of a key.
  unfoldable pub unlink_entry : FsBlockKey → List (ObEntry N) → List (ObEntry N)
  unlink_entry k [] = []
  unlink_entry k (x ∷ l) = elim (compare_block_key k x.bkey) [
    | Ordering.eq ↦ l
    | Ordering.lt ↦ x ∷ l
    | Ordering.gt ↦ x ∷ unlink_entry k l
  ]
