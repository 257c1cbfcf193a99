-- ===== src/Trunk/Tests.antt =====
-- Runs of the trunk accounts on one trunk with one slice, and the theorems applied to them.
use faststore.Prelude.{
  ℕ, ◌≡◌, refl, Bool, true, false, Option, none, some, [], ◌∷◌, if◌then◌else◌, ◌&&◌, ◌==◌, subst,
}
use faststore.Types.{ObSliceEntry, ObSliceType}
use faststore.Trunk.{
  FsTrunkFileInfo, AllocatorMgr, UtilEvent, unlink, push_trunk_util_change_event,
  trunk_allocator_add_slice, trunk_allocator_delete_slice, storage_allocator_add_slice,
  storage_allocator_delete_slice,
}
use faststore.Trunk.Accounts.{
  Accounted, AllAccounted, Listed, Held, storage_allocator_add_slice-AllAccounted,
  storage_allocator_delete_slice-AllAccounted,
}

-- A slice of 100 bytes in 104 bytes of trunk 1.
abbrev slice_at : ℕ → ObSliceEntry
slice_at offset = record {
  ob = record { oid = 9; offset = 0; hash_code = 9 };
  slice_type = ObSliceType.file;
  ssize = record { offset = offset; length = 100 };
  space = record {
    store = 0;
    id_info = record { id = 1; subdir = 0 };
    offset = offset;
    size = 104;
  };
}

abbrev trunk : FsTrunkFileInfo
trunk = record {
  id_info = record { id = 1; subdir = 0 };
  used_count = 1;
  used_bytes = 104;
  slice_head = slice_at 0 ∷ [];
  size = 1000;
  free_start = 104;
  event = UtilEvent.quiet;
}

abbrev manager : AllocatorMgr
manager = record {
  trunks = λ p t. if (p == 0) && (t == 1) then some trunk else none;
  path_used = λ p. 104;
  reclaim_queue = λ p. [];
}

trunk_of : Option FsTrunkFileInfo → ℕ × ℕ
trunk_of none = (0, 0)
trunk_of (some t) = (t.used_bytes, t.used_count)

after_add : ℕ → ℕ × (ℕ × ℕ)
unfolding storage_allocator_add_slice trunk_allocator_add_slice trunk_of
after_add offset =
    let r = storage_allocator_add_slice manager (slice_at offset) true in
    (r.0, trunk_of (r.1.trunks 0 1))

add_run : after_add 200 ≡ (0, (208, 2))
unfolding after_add
add_run = refl

after_delete : ℕ → ℕ × (ℕ × ℕ)
unfolding storage_allocator_delete_slice trunk_allocator_delete_slice trunk_of unlink
    push_trunk_util_change_event
after_delete offset =
    let r = storage_allocator_delete_slice manager (slice_at offset) true in
    (r.0, trunk_of (r.1.trunks 0 1))

delete_run : after_delete 0 ≡ (0, (0, 0))
unfolding after_delete
delete_run = refl

found_trunk :
    (b : Bool) (x : FsTrunkFileInfo) → (if b then some trunk else none) ≡ some x → trunk ≡ x
found_trunk true x h = cc
found_trunk false x h = cc

manager-AllAccounted : AllAccounted manager
manager-AllAccounted p t x h = subst Accounted (found_trunk ((p == 0) && (t == 1)) x h) (refl, refl)

manager-Held : Held manager (slice_at 0)
manager-Held x h = subst (λ y. Listed (slice_at 0) y.slice_head) (found_trunk true x h) refl

storage_allocator_add_slice-AllAccounted_example :
    AllAccounted (storage_allocator_add_slice manager (slice_at 200) true).1
storage_allocator_add_slice-AllAccounted_example =
    storage_allocator_add_slice-AllAccounted manager (slice_at 200) true manager-AllAccounted

storage_allocator_delete_slice-AllAccounted_example :
    AllAccounted (storage_allocator_delete_slice manager (slice_at 0) true).1
storage_allocator_delete_slice-AllAccounted_example =
    storage_allocator_delete_slice-AllAccounted manager (slice_at 0) true manager-AllAccounted
      manager-Held
