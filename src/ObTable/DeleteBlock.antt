-- ===== src/ObTable/DeleteBlock.antt =====
-- ob_index_delete_block_ex: a block leaves the hash table with all its slices.
use Prim.Native.Nat.{Ordering}
use faststore.Prelude.{
  ℕ, ◌+◌, ◌≡◌, ◌≢◌, refl, ap, ◌∙◌, Bool, List, [], ◌∷◌, Option, none, some, ltb, arith, false,
  if◌then◌else◌,
}
use faststore.Errno.{enoent}
use faststore.Types.{FsBlockKey, ObSliceEntry}
use faststore.Trunk.{AllocatorMgr, add64, storage_allocator_delete_slice}
use faststore.ObIndex.Defs.{Slices, HtFlags}
use faststore.ObIndex.Carve.{total}
use faststore.ObTable.{compare_block_key, ObEntry, ObHashtable, unlink_entry}
use faststore.ObTable.Chain.{Ordered, find-unlink_entry, find-unlink_entry_other}
use faststore.ObTable.Blocks.{
  bucket_index, lookup, on_bucket, must_wait, lookup-on_bucket, lookup-on_bucket_other,
  BlockDeleted,
}

-- The loop over the slices: `*dec_alloc`, and the trunk accounts.
unfoldable pub delete_each : HtFlags → List ObSliceEntry → ℕ → AllocatorMgr → ℕ × AllocatorMgr
delete_each flags [] dec_alloc mgr = (dec_alloc, mgr)
delete_each flags (s ∷ l) dec_alloc mgr = delete_each flags l (dec_alloc + s.ssize.length) (
    if flags.modify_sallocator
    then (storage_allocator_delete_slice mgr s flags.modify_used_space).1
    else mgr)

delete_each-total :
    (flags : HtFlags) (l : List ObSliceEntry) (dec_alloc : ℕ) (mgr : AllocatorMgr)
    → (delete_each flags l dec_alloc mgr).0 ≡ dec_alloc + total l
unfolding delete_each total
delete_each-total flags [] dec_alloc mgr = omega arith
delete_each-total flags (s ∷ l) dec_alloc mgr =
    delete_each-total flags l (dec_alloc + s.ssize.length) (
      if flags.modify_sallocator
      then (storage_allocator_delete_slice mgr s flags.modify_used_space).1
      else mgr)
    ∙ omega arith

module _ (S : Slices) (flags : HtFlags) where
  -- What follows the loop; the sequence number is taken where slices were deleted.
  abbrev pub block_answer :
      ObHashtable S.Nodes → FsBlockKey → ℕ → ℕ × AllocatorMgr → BlockDeleted S flags
  block_answer ht k sn (dec_alloc, mgr) = record {
    result = if ltb 0 dec_alloc then 0 else enoent;
    dec_alloc = dec_alloc;
    sn = if ltb 0 dec_alloc then some (add64 sn 1) else none;
    ht = on_bucket ht k (unlink_entry k);
    mgr = mgr;
    slice_binlog_sn = if ltb 0 dec_alloc then add64 sn 1 else sn;
  }

  unfoldable pub ob_index_delete_block_ex :
      ObHashtable S.Nodes → AllocatorMgr → ℕ → FsBlockKey → Bool → Option (BlockDeleted S flags)
  ob_index_delete_block_ex ht mgr sn k is_reclaim = elim (lookup ht k) [
    | none ↦ some (record {
      result = enoent;
      dec_alloc = 0;
      sn = none;
      ht = ht;
      mgr = mgr;
      slice_binlog_sn = sn;
    })
    | some ob ↦
        if must_wait is_reclaim ob
        then none
        else some (block_answer ht k sn (delete_each flags (S.chain ob.slices) 0 mgr))
  ]

  -- Where the block has an entry in an ordered chain, and need not wait for a reclaim,
  -- ob_index_delete_block_ex reports the number of bytes that its slices cover, and returns 0 where
  -- that is not zero, else ENOENT; afterwards the block has no entry, and all other blocks have
  -- the entries that they had.
  pub ob_index_delete_block_ex_lem :
      (ht : ObHashtable S.Nodes) (mgr : AllocatorMgr) (sn : ℕ) (k : FsBlockKey) (is_reclaim : Bool)
      (ob : ObEntry S.Nodes)
      → Ordered (ht.buckets (bucket_index ht k))
      → lookup ht k ≡ some ob
      → must_wait is_reclaim ob ≡ false
      → (r : BlockDeleted S flags) × (ob_index_delete_block_ex ht mgr sn k is_reclaim ≡ some r)
        × (r.dec_alloc ≡ total (S.chain ob.slices))
        × (r.result ≡ (if ltb 0 (total (S.chain ob.slices)) then 0 else enoent))
        × (lookup r.ht k ≡ none)
        × ((w : FsBlockKey) → compare_block_key w k ≢ Ordering.eq → lookup r.ht w ≡ lookup ht w)
  unfolding ob_index_delete_block_ex
  ob_index_delete_block_ex_lem ht mgr sn k is_reclaim ob o h free =
      let d = delete_each flags (S.chain ob.slices) 0 mgr in
      let t = delete_each-total flags (S.chain ob.slices) 0 mgr in
      (
        block_answer ht k sn d,
        rw (ob_index_delete_block_ex, h, free) refl,
        t ∙ omega arith,
        ap (λ n. if ltb 0 n then 0 else enoent) (t ∙ omega arith),
        lookup-on_bucket ht k (unlink_entry k)
            ∙ find-unlink_entry k (ht.buckets (bucket_index ht k)) o,
        λ w n.
            lookup-on_bucket_other ht k (unlink_entry k) w
              (find-unlink_entry_other w k (ht.buckets (bucket_index ht k)) o n),
      )
