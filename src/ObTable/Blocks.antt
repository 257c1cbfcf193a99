-- ===== src/ObTable/Blocks.antt =====
-- ob_index_reclaim_lock, ob_index_reclaim_unlock and ob_index_delete_slices_ex: what is found, changed and
-- unlinked in the hash table. A call that has to wait for a reclaim is `none`.
use faststore.Prelude.{
  ℕ, ◌+◌, ◌-◌, ◌%◌, ◌≡◌, ◌≢◌, refl, sym, ap, ◌∙◌, subst, Bool, true, false, not, ◌&&◌, List, [],
  ◌∷◌, Option, none, some, arith, set_at, ltb, ◌==◌, if◌then◌else◌, inl, inr, eq-or-ne, eq→eqb,
  ne→eqb, Bool-cases,
}
use Prim.Native.Nat.{Ordering}
use faststore.Errno.{enoent}
use faststore.Types.{FsBlockKey, FsBlockSliceKeyInfo, ObSliceEntry}
use faststore.Trunk.{AllocatorMgr, add64}
use faststore.ObIndex.Defs.{Slices, HtFlags}
use faststore.ObIndex.Delete.{DeleteResult, delete_slices}
use faststore.ObTable.{
  compare_block_key, ObEntry, ObHashtable, find_entry, change_entry, unlink_entry,
}
use faststore.ObTable.Chain.{
  Ordered, find-change_entry, find-change_entry_other, find-unlink_entry, find-unlink_entry_other,
}

abbrev pub is_empty : List ObSliceEntry → Bool
is_empty [] = true
is_empty (s ∷ l) = false

module _ {N : Type 0} where
  -- OB_INDEX_SET_BUCKET_AND_LOCK
  abbrev pub bucket_index : ObHashtable N → FsBlockKey → ℕ
  bucket_index ht k = k.hash_code % ht.capacity

  abbrev pub lookup : ObHashtable N → FsBlockKey → Option (ObEntry N)
  lookup ht k = find_entry k (ht.buckets (bucket_index ht k))

  abbrev pub on_bucket :
      ObHashtable N → FsBlockKey → (List (ObEntry N) → List (ObEntry N)) → ObHashtable N
  on_bucket ht k g = record ht {
    buckets = set_at ht.buckets (bucket_index ht k) (g (ht.buckets (bucket_index ht k)));
  }

  abbrev pub count_up : ObEntry N → ObEntry N
  count_up e = record e { reclaiming_count = e.reclaiming_count + 1 }

  abbrev pub count_down : ObEntry N → ObEntry N
  count_down e = record e { reclaiming_count = e.reclaiming_count - 1 }

  unfoldable pub ob_index_reclaim_lock :
      ObHashtable N → FsBlockKey → Option (ObEntry N) × ObHashtable N
  ob_index_reclaim_lock ht k = elim (lookup ht k) [
    | none ↦ (none, ht)
    | some ob ↦ (some (count_up ob), on_bucket ht k (change_entry k count_up))
  ]

  -- The entry of a key is unlocked; true where the waiting threads are woken. An unlock follows a
  -- lock: its count is not zero, and where no entry is found nothing is done.
  abbrev pub unlock_at : ObHashtable N → FsBlockKey → Bool × ObHashtable N
  unlock_at ht k = elim (lookup ht k) [
    | none ↦ (false, ht)
    | some e ↦ (e.reclaiming_count == 1, on_bucket ht k (change_entry k count_down))
  ]

  -- The argument is a pointer to an entry of the table, which its key finds again: what counts is the
  -- entry that stands there now.
  unfoldable pub ob_index_reclaim_unlock : ObHashtable N → ObEntry N → Bool × ObHashtable N
  ob_index_reclaim_unlock ht ob = unlock_at ht ob.bkey

  -- CHECK_AND_WAIT_RECLAIM_DONE
  abbrev pub must_wait : Bool → ObEntry N → Bool
  must_wait is_reclaim ob = not is_reclaim && ltb 0 ob.reclaiming_count

  -- A change in one bucket leaves the other keys as they were.
  pub lookup-on_bucket_other :
      (ht : ObHashtable N) (k : FsBlockKey) (g : List (ObEntry N) → List (ObEntry N))
      (w : FsBlockKey)
      → (find_entry w (g (ht.buckets (bucket_index ht k)))
          ≡ find_entry w (ht.buckets (bucket_index ht k)))
      → lookup (on_bucket ht k g) w ≡ lookup ht w
  lookup-on_bucket_other ht k g w h = elim (eq-or-ne (bucket_index ht k) (bucket_index ht w)) [
    | inl q ↦
        rw (eq→eqb (bucket_index ht k) (bucket_index ht w) q)
          (h ∙ ap (λ i. find_entry w (ht.buckets i)) q)
    | inr q ↦ rw (ne→eqb (bucket_index ht k) (bucket_index ht w) q) refl
  ]

  pub lookup-on_bucket :
      (ht : ObHashtable N) (k : FsBlockKey) (g : List (ObEntry N) → List (ObEntry N))
      → lookup (on_bucket ht k g) k ≡ find_entry k (g (ht.buckets (bucket_index ht k)))
  lookup-on_bucket ht k g = rw (eq→eqb (bucket_index ht k) (bucket_index ht k) refl) refl

  -- Where the block has an entry, ob_index_reclaim_lock counts one more reclaim in it, and leaves the
  -- entries of all other blocks as they were.
  pub ob_index_reclaim_lock_lem :
      (ht : ObHashtable N) (k : FsBlockKey) (ob : ObEntry N)
      → lookup ht k ≡ some ob
      → (let r = ob_index_reclaim_lock ht k in
          (r.0 ≡ some (count_up ob))
          × (lookup r.1 k ≡ some (count_up ob))
          × ((w : FsBlockKey) → compare_block_key w k ≢ Ordering.eq → lookup r.1 w ≡ lookup ht w))
  unfolding ob_index_reclaim_lock
  ob_index_reclaim_lock_lem ht k ob h =
      rw (ob_index_reclaim_lock, h)
        (
          refl,
          lookup-on_bucket ht k (change_entry k count_up)
              ∙ find-change_entry k count_up (λ y. refl) (ht.buckets (bucket_index ht k)) ob h,
          λ w n.
              lookup-on_bucket_other ht k (change_entry k count_up) w (
                find-change_entry_other k count_up (λ y. refl) w (ht.buckets (bucket_index ht k))
                  n),
        )

  -- Where the block has an entry with its key, ob_index_reclaim_unlock after ob_index_reclaim_lock brings
  -- the entry back as it was, and wakes the waiting threads exactly where no reclaim was
  -- counted before. The entry that is unlocked is known by its key; the count is that in the table,
  -- whatever count the caller has seen.
  pub ob_index_reclaim_unlock-ob_index_reclaim_lock :
      (ht : ObHashtable N) (k : FsBlockKey) (ob seen : ObEntry N)
      → lookup ht k ≡ some ob
      → seen.bkey ≡ k
      → (let u = ob_index_reclaim_unlock (ob_index_reclaim_lock ht k).1 seen in
          (u.0 ≡ (ob.reclaiming_count == 0)) × (lookup u.1 k ≡ some ob))
  unfolding ob_index_reclaim_unlock
  ob_index_reclaim_unlock-ob_index_reclaim_lock ht k ob seen h e = subst Back (sym e) (
      rw (unlock_at, locked)
        (
          last_one ob.reclaiming_count,
          lookup-on_bucket r k (change_entry k count_down)
              ∙ (find-change_entry k count_down (λ y. refl) (r.buckets (bucket_index r k))
                    (count_up ob) locked
                  ∙ ap (λ n. some (record ob { reclaiming_count = n })) (back ob.reclaiming_count)),
        ))
    where
      r : ObHashtable N
      r = (ob_index_reclaim_lock ht k).1

      Back : FsBlockKey → Type 0
      Back z =
          ((unlock_at r z).0 ≡ (ob.reclaiming_count == 0)) × (lookup (unlock_at r z).1 k ≡ some ob)

      locked : lookup r k ≡ some (count_up ob)
      locked = (ob_index_reclaim_lock_lem ht k ob h).1

      last_one : (n : ℕ) → (n + 1 == 1) ≡ (n == 0)
      last_one n = ground arith

      back : (n : ℕ) → n + 1 - 1 ≡ n
      back n = omega arith

module _ (S : Slices) (flags : HtFlags) where
  -- The result, `*dec_alloc`, `*sn` where it was set, and what was changed.
  pub record BlockDeleted : Type 0 where
    pub result : ℕ
    pub dec_alloc : ℕ
    pub sn : Option ℕ
    pub ht : ObHashtable S.Nodes
    pub mgr : AllocatorMgr
    pub slice_binlog_sn : ℕ

  -- What is done to the block's chain: an entry without slices is unlinked.
  abbrev pub after_delete :
      FsBlockKey → DeleteResult S → List (ObEntry S.Nodes) → List (ObEntry S.Nodes)
  after_delete k d l =
      if (d.result == 0) && is_empty (S.chain d.state.slices)
      then unlink_entry k l
      else change_entry k (λ e. record e { slices = d.state.slices }) l

  -- What follows delete_slices; the sequence number is taken on success only. `sn` is not NULL here.
  abbrev pub answer : ObHashtable S.Nodes → FsBlockKey → ℕ → DeleteResult S → BlockDeleted
  answer ht k sn d = record {
    result = d.result;
    dec_alloc = d.dec_alloc;
    sn = if d.result == 0 then some (add64 sn 1) else none;
    ht = on_bucket ht k (after_delete k d);
    mgr = d.state.mgr;
    slice_binlog_sn = if d.result == 0 then add64 sn 1 else sn;
  }

  unfoldable pub ob_index_delete_slices_ex :
      ObHashtable S.Nodes → AllocatorMgr → ℕ → FsBlockSliceKeyInfo → Bool → ℕ → Option BlockDeleted
  ob_index_delete_slices_ex ht mgr sn bs_key is_reclaim mem = elim (lookup ht bs_key.block) [
    | none ↦ some (record {
      result = enoent;
      dec_alloc = 0;
      sn = none;
      ht = ht;
      mgr = mgr;
      slice_binlog_sn = sn;
    })
    | some ob ↦
        let d = delete_slices S flags (record { slices = ob.slices; mgr = mgr }) bs_key.slice mem in
        if must_wait is_reclaim ob then none else some (answer ht bs_key.block sn d)
  ]

  -- What is found for the block afterwards.
  abbrev pub left : ObEntry S.Nodes → DeleteResult S → Option (ObEntry S.Nodes)
  left ob d =
      if (d.result == 0) && is_empty (S.chain d.state.slices)
      then none
      else some (record ob { slices = d.state.slices })

  -- Where the block has an entry in an ordered chain, and need not wait for a reclaim,
  -- ob_index_delete_slices_ex returns what delete_slices returns for its slices; afterwards the block
  -- has the slices that delete_slices leaves, or no entry, where it succeeded and left none; all
  -- other blocks have the entries that they had.
  pub ob_index_delete_slices_ex_lem :
      (ht : ObHashtable S.Nodes) (mgr : AllocatorMgr) (sn : ℕ) (bs_key : FsBlockSliceKeyInfo)
      (is_reclaim : Bool) (mem : ℕ) (ob : ObEntry S.Nodes)
      → Ordered (ht.buckets (bucket_index ht bs_key.block))
      → lookup ht bs_key.block ≡ some ob
      → must_wait is_reclaim ob ≡ false
      → (let d =
            delete_slices S flags (record { slices = ob.slices; mgr = mgr }) bs_key.slice mem in
          (r : BlockDeleted) × (ob_index_delete_slices_ex ht mgr sn bs_key is_reclaim mem ≡ some r)
          × (r.result ≡ d.result)
          × (r.dec_alloc ≡ d.dec_alloc)
          × (lookup r.ht bs_key.block ≡ left ob d)
          × ((w : FsBlockKey)
              → compare_block_key w bs_key.block ≢ Ordering.eq
              → lookup r.ht w ≡ lookup ht w))
  unfolding ob_index_delete_slices_ex
  ob_index_delete_slices_ex_lem ht mgr sn bs_key is_reclaim mem ob o h free =
      let d = delete_slices S flags (record { slices = ob.slices; mgr = mgr }) bs_key.slice mem in
      (
        answer ht bs_key.block sn d,
        rw (ob_index_delete_slices_ex, h, free) refl,
        refl,
        refl,
        lookup-on_bucket ht bs_key.block (after_delete bs_key.block d) ∙ here d,
        λ w n.
            lookup-on_bucket_other ht bs_key.block (after_delete bs_key.block d) w (others d w n),
      )
    where
      chain : List (ObEntry S.Nodes)
      chain = ht.buckets (bucket_index ht bs_key.block)

      here :
          (d : DeleteResult S)
          → find_entry bs_key.block (after_delete bs_key.block d chain) ≡ left ob d
      here d = elim (Bool-cases ((d.result == 0) && is_empty (S.chain d.state.slices))) [
        | inl q ↦ rw q (find-unlink_entry bs_key.block chain o)
        | inr q ↦ rw q (
            find-change_entry bs_key.block (λ e. record e { slices = d.state.slices }) (λ y. refl)
              chain ob h)
      ]

      others :
          (d : DeleteResult S) (w : FsBlockKey)
          → compare_block_key w bs_key.block ≢ Ordering.eq
          → find_entry w (after_delete bs_key.block d chain) ≡ find_entry w chain
      others d w n = elim (Bool-cases ((d.result == 0) && is_empty (S.chain d.state.slices))) [
        | inl q ↦ rw q (find-unlink_entry_other w bs_key.block chain o n)
        | inr q ↦ rw q (
            find-change_entry_other bs_key.block (λ e. record e { slices = d.state.slices })
              (λ y. refl) w chain n)
      ]
