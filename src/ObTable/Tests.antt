-- ===== src/ObTable/Tests.antt =====
-- Runs of the hash table with two blocks in one chain, and the theorems applied to them.
use Prim.Native.Nat.{Ordering}
use faststore.Errno.{enoent}
use faststore.ObIndex.Carve.{total}
use faststore.ObTable.DeleteBlock.{ob_index_delete_block_ex, ob_index_delete_block_ex_lem}
use faststore.Prelude.{
  ltb, if◌then◌else◌, Bool, true, ℕ, ◌≡◌, ◌≢◌, refl, false, none, some, List, [], ◌∷◌, map, ◌==◌,
}
use faststore.Types.{FsBlockKey, FsBlockSliceKeyInfo, ObSliceEntry, ObSliceType}
use faststore.Skiplist.Sorted.{sorted_list}
use faststore.Trunk.{AllocatorMgr}
use faststore.ObIndex.Defs.{Slices, HtFlags, slice_key}
use faststore.ObIndex.Delete.{delete_slices}
use faststore.ObTable.{
  compare_block_key, change_entry, fs_calc_block_hashcode, ObEntry, ObHashtable, find_entry,
  link_entry, unlink_entry,
}
use faststore.ObTable.Create.{get_ob_entry_ex, get_ob_entry_ex_creates}
use faststore.ObTable.Blocks.{
  lookup, count_up, ob_index_reclaim_lock, ob_index_reclaim_unlock, ob_index_reclaim_lock_lem,
  ob_index_reclaim_unlock-ob_index_reclaim_lock, BlockDeleted, left, ob_index_delete_slices_ex,
  ob_index_delete_slices_ex_lem,
}

abbrev lists : Slices
lists = sorted_list ObSliceEntry slice_key

abbrev key : ℕ → FsBlockKey
key oid = fs_calc_block_hashcode (record { oid = oid; offset = 0; hash_code = 0 })

abbrev slice : ObSliceEntry
slice = record {
  ob = key 7;
  slice_type = ObSliceType.file;
  ssize = record { offset = 0; length = 10 };
  space = record { store = 0; id_info = record { id = 1; subdir = 1 }; offset = 0; size = 16 };
}

abbrev entry : ℕ → List ObSliceEntry → ObEntry (List ObSliceEntry)
entry oid slices = record { bkey = key oid; slices = slices; reclaiming_count = 0 }

-- Keys 2 and 7 fall into the same of five buckets.
abbrev table : ObHashtable (List ObSliceEntry)
table = record { capacity = 5; buckets = λ i. entry 2 [] ∷ entry 7 (slice ∷ []) ∷ [] }

abbrev mgr : AllocatorMgr
mgr = record { trunks = λ p t. none; path_used = λ p. 0; reclaim_queue = λ p. [] }

abbrev flags : HtFlags
flags = record { modify_sallocator = false; modify_used_space = false }

-- The whole of block 7.
abbrev whole : FsBlockSliceKeyInfo
whole = record { block = key 7; slice = record { offset = 0; length = 10 } }

oids : List (ObEntry (List ObSliceEntry)) → List ℕ
oids l = map (λ e. e.bkey.oid) l

linked : ℕ → List ℕ
unfolding link_entry oids
linked oid = oids (link_entry (entry oid []) (table.buckets 2))

link_run : linked 5 ≡ 2 ∷ 5 ∷ 7 ∷ []
unfolding linked
link_run = refl

unlinked : ℕ → List ℕ
unfolding unlink_entry oids
unlinked oid = oids (unlink_entry (key oid) (table.buckets 2))

unlink_run : unlinked 2 ≡ 7 ∷ []
unfolding unlinked
unlink_run = refl

ob_index_reclaim_lock_example :
    let r = ob_index_reclaim_lock table (key 7) in
    (r.0 ≡ some (count_up (entry 7 (slice ∷ []))))
    × (lookup r.1 (key 7) ≡ some (count_up (entry 7 (slice ∷ []))))
    × ((w : FsBlockKey) → compare_block_key w (key 7) ≢ Ordering.eq → lookup r.1 w ≡ lookup table w)
unfolding find_entry
ob_index_reclaim_lock_example = ob_index_reclaim_lock_lem table (key 7) (entry 7 (slice ∷ [])) refl

-- Two reclaims of block 7 that unlock it with the pointer of the first lock: only the last one wakes
-- the waiting threads.
two_unlocks : Bool × Bool
unfolding ob_index_reclaim_lock ob_index_reclaim_unlock find_entry change_entry
two_unlocks =
    let locked = (ob_index_reclaim_lock (ob_index_reclaim_lock table (key 7)).1 (key 7)).1 in
    let once = ob_index_reclaim_unlock locked (count_up (entry 7 (slice ∷ []))) in
    (once.0, (ob_index_reclaim_unlock once.1 (count_up (entry 7 (slice ∷ [])))).0)

two_unlocks_run : two_unlocks ≡ (false, true)
unfolding two_unlocks
two_unlocks_run = refl

ob_index_reclaim_unlock_example :
    let u =
      ob_index_reclaim_unlock (ob_index_reclaim_lock table (key 7)).1 (entry 7 (slice ∷ [])) in
    (u.0 ≡ (0 == 0)) × (lookup u.1 (key 7) ≡ some (entry 7 (slice ∷ [])))
unfolding find_entry
ob_index_reclaim_unlock_example =
    ob_index_reclaim_unlock-ob_index_reclaim_lock table (key 7) (entry 7 (slice ∷ []))
      (entry 7 (slice ∷ [])) refl refl

ob_index_delete_slices_ex_example :
    let d = delete_slices lists flags (record { slices = slice ∷ []; mgr = mgr }) whole.slice 64 in
    (r : BlockDeleted lists flags) × (ob_index_delete_slices_ex lists flags table mgr 100 whole
        false 64
      ≡ some r)
    × (r.result ≡ d.result)
    × (r.dec_alloc ≡ d.dec_alloc)
    × (lookup r.ht (key 7) ≡ left lists flags (entry 7 (slice ∷ [])) d)
    × ((w : FsBlockKey)
        → compare_block_key w (key 7) ≢ Ordering.eq
        → lookup r.ht w ≡ lookup table w)
unfolding find_entry
ob_index_delete_slices_ex_example =
    ob_index_delete_slices_ex_lem lists flags table mgr 100 whole false 64 (entry 7 (slice ∷ []))
      ((refl, tt), (tt, tt)) refl refl

get_ob_entry_ex_creates_example :
    let r = get_ob_entry_ex table (key 5) true [] 0 8 in
    (r.0 ≡ some (entry 5 []))
    × (lookup r.1 (key 5) ≡ some (entry 5 []))
    × ((w : FsBlockKey) → compare_block_key w (key 5) ≢ Ordering.eq → lookup r.1 w ≡ lookup table w)
unfolding find_entry
get_ob_entry_ex_creates_example = get_ob_entry_ex_creates table (key 5) [] 0 6 refl

ob_index_delete_block_ex_example :
    (r : BlockDeleted lists flags) × (ob_index_delete_block_ex lists flags table mgr 100
        (key 7)
        false
      ≡ some r)
    × (r.dec_alloc ≡ total (slice ∷ []))
    × (r.result ≡ (if ltb 0 (total (slice ∷ [])) then 0 else enoent))
    × (lookup r.ht (key 7) ≡ none)
    × ((w : FsBlockKey)
        → compare_block_key w (key 7) ≢ Ordering.eq
        → lookup r.ht w ≡ lookup table w)
unfolding find_entry
ob_index_delete_block_ex_example =
    ob_index_delete_block_ex_lem lists flags table mgr 100 (key 7) false (entry 7 (slice ∷ []))
      ((refl, tt), (tt, tt)) refl refl
