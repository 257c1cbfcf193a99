-- ===== src/Trunk.antt =====
-- server/storage/trunk_allocator.c and the inline functions of storage_allocator.h that keep the
-- accounts of the trunk files: which slices lie in a trunk, and how many bytes they use.
-- The container `trunks.by_id` is a map from a store path index and a trunk id.
pub mod Accounts
mod Tests
use faststore.Prelude.{
  ℕ, ◌+◌, ◌-◌, ◌%◌, ◌^◌, Bool, List, [], ◌∷◌, ◌++◌, Option, none, some, ◌&&◌, ◌==◌, if◌then◌else◌,
  set_at,
}
use faststore.Errno.{enoent}
use faststore.Types.{FsTrunkIdInfo, ObSliceEntry, fs_block_key_equal}

-- `int64_t` and `int` counters as bit patterns.
abbrev pub add64 : ℕ → ℕ → ℕ
add64 a b = (a + b) % 2 ^ 64

abbrev pub sub64 : ℕ → ℕ → ℕ
sub64 a b = (a + (2 ^ 64 - b % 2 ^ 64)) % 2 ^ 64

abbrev pub add32 : ℕ → ℕ → ℕ
add32 a b = (a + b) % 2 ^ 32

abbrev pub sub32 : ℕ → ℕ → ℕ
sub32 a b = (a + (2 ^ 32 - b % 2 ^ 32)) % 2 ^ 32

-- FS_TRUNK_UTIL_EVENT_NONE, FS_TRUNK_UTIL_EVENT_CREATE and FS_TRUNK_UTIL_EVENT_UPDATE
pub data UtilEvent : Type 0 where
  quiet create update : UtilEvent

pub record FsTrunkFileInfo : Type 0 where
  pub id_info : FsTrunkIdInfo
  pub used_count : ℕ
  pub used_bytes : ℕ
  pub slice_head : List ObSliceEntry
  pub size : ℕ
  pub free_start : ℕ
  pub event : UtilEvent

-- The part of `g_allocator_mgr` that the accounts live in, by store path index: `trunks.by_id`,
-- `path_info->trunk_stat.used`, and the ids in `reclaim.queue`.
pub record AllocatorMgr : Type 0 where
  pub trunks : ℕ → ℕ → Option FsTrunkFileInfo
  pub path_used : ℕ → ℕ
  pub reclaim_queue : ℕ → List ℕ

abbrev pub set_trunk :
    (ℕ → ℕ → Option FsTrunkFileInfo) → ℕ → ℕ → FsTrunkFileInfo → ℕ → ℕ → Option FsTrunkFileInfo
set_trunk f p t v q u = if (p == q) && (t == u) then some v else f q u

-- The link of a slice in its trunk's list is found by what names the slice: its block and offset.
unlink : ObSliceEntry → List ObSliceEntry → List ObSliceEntry
unlink s [] = []
unlink s (x ∷ xs) =
    if fs_block_key_equal x.ob s.ob && (x.ssize.offset == s.ssize.offset)
    then xs
    else x ∷ unlink s xs

-- The event is set, and the trunk queued, only where no event is pending.
push_trunk_util_change_event : AllocatorMgr → ℕ → ℕ → FsTrunkFileInfo → UtilEvent → AllocatorMgr
push_trunk_util_change_event m p t trunk event = elim trunk.event [
  | UtilEvent.quiet ↦ record m {
    trunks = set_trunk m.trunks p t (record trunk { event = event });
    reclaim_queue = set_at m.reclaim_queue p (m.reclaim_queue p ++ t ∷ []);
  }
  | _ ↦ record m { trunks = set_trunk m.trunks p t trunk }
]

pub trunk_allocator_add_slice : AllocatorMgr → ObSliceEntry → ℕ × AllocatorMgr
trunk_allocator_add_slice m s = elim (m.trunks s.space.store s.space.id_info.id) [
  | none ↦ (enoent, m)
  | some trunk ↦ (
    0,
    record m {
      trunks = set_trunk m.trunks s.space.store s.space.id_info.id (record trunk {
        used_bytes = add64 trunk.used_bytes s.space.size;
        used_count = add32 trunk.used_count 1;
        slice_head = trunk.slice_head ++ s ∷ [];
      });
    },
  )
]

pub trunk_allocator_delete_slice : AllocatorMgr → ObSliceEntry → ℕ × AllocatorMgr
unfolding unlink push_trunk_util_change_event
trunk_allocator_delete_slice m s = elim (m.trunks s.space.store s.space.id_info.id) [
  | none ↦ (enoent, m)
  | some trunk ↦ (
    0,
    push_trunk_util_change_event m s.space.store s.space.id_info.id
        (record trunk {
          used_bytes = sub64 trunk.used_bytes s.space.size;
          used_count = sub32 trunk.used_count 1;
          slice_head = unlink s trunk.slice_head;
        })
        UtilEvent.update,
  )
]

-- `modify_used_space` also keeps the store path's own count.
pub storage_allocator_add_slice : AllocatorMgr → ObSliceEntry → Bool → ℕ × AllocatorMgr
storage_allocator_add_slice m s modify_used_space =
    trunk_allocator_add_slice
      (if modify_used_space
        then record m {
          path_used =
              set_at m.path_used s.space.store (add64 (m.path_used s.space.store) s.space.size);
        }
        else m)
      s

pub storage_allocator_delete_slice : AllocatorMgr → ObSliceEntry → Bool → ℕ × AllocatorMgr
storage_allocator_delete_slice m s modify_used_space =
    trunk_allocator_delete_slice
      (if modify_used_space
        then record m {
          path_used =
              set_at m.path_used s.space.store (sub64 (m.path_used s.space.store) s.space.size);
        }
        else m)
      s
