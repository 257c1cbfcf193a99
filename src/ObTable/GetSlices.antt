-- ===== src/ObTable/GetSlices.antt =====
-- ob_index_get_slices_ex: the slices of a range of a block, found through the hash table.
use faststore.Prelude.{ℕ, ◌≡◌, refl, Bool, false, Option, none, some, [], if◌then◌else◌, ◌==◌}
use faststore.Errno.{enoent}
use faststore.Types.{FsBlockSliceKeyInfo}
use faststore.Trunk.{AllocatorMgr}
use faststore.ObIndex.Defs.{Slices}
use faststore.ObIndex.Get.{GetResult, get_slices}
use faststore.ObTable.{ObEntry, ObHashtable}
use faststore.ObTable.Blocks.{lookup, must_wait}

-- On an error the array is emptied (free_slices).
abbrev pub freed_on_error : GetResult → GetResult
freed_on_error r =
    if r.result == 0 then r else record r { sarray = record (r.sarray) { slices = [] } }

module _ (S : Slices) where
  -- `mgr` goes with the slices into the state of a block, where get_slices does not read it.
  unfoldable pub ob_index_get_slices_ex :
      ObHashtable S.Nodes → AllocatorMgr → FsBlockSliceKeyInfo → Bool → ℕ → ℕ → Option GetResult
  ob_index_get_slices_ex ht mgr bs_key is_reclaim alloc mem = elim (lookup ht bs_key.block) [
    | none ↦
        some (record { result = enoent; sarray = record { alloc = alloc; slices = [] }; mem = mem })
    | some ob ↦
        if must_wait is_reclaim ob
        then none
        else some (
            freed_on_error
              (get_slices S (record { slices = ob.slices; mgr = mgr }) bs_key.slice alloc mem))
  ]

  -- Where the block has an entry and need not wait for a reclaim, ob_index_get_slices_ex returns what
  -- get_slices returns for its slices, with no slices where that is an error.
  ob_index_get_slices_ex_lem :
      (ht : ObHashtable S.Nodes) (mgr : AllocatorMgr) (bs_key : FsBlockSliceKeyInfo)
      (is_reclaim : Bool) (alloc mem : ℕ) (ob : ObEntry S.Nodes)
      → lookup ht bs_key.block ≡ some ob
      → must_wait is_reclaim ob ≡ false
      → ob_index_get_slices_ex ht mgr bs_key is_reclaim alloc mem
        ≡ some (
            freed_on_error
              (get_slices S (record { slices = ob.slices; mgr = mgr }) bs_key.slice alloc mem))
  unfolding ob_index_get_slices_ex
  ob_index_get_slices_ex_lem ht mgr bs_key is_reclaim alloc mem ob h free =
      rw (ob_index_get_slices_ex, h, free) refl
