-- ===== src/Freelist.antt =====
-- server/storage/trunk_freelist.c: the trunks of a store path that have room, and the space that
-- is taken from them.
pub mod Valid
pub mod Alloc
pub mod Wait
pub mod Granted
pub mod Behaviour
pub mod Head
mod Tests
use faststore.Prelude.{
  ℕ, zero, suc, ◌+◌, ◌-◌, ◌%◌, ◌^◌, Bool, true, false, not, ◌&&◌, ◌||◌, List, [], ◌∷◌, ◌++◌, Option,
  none, some, ltb, leb, ◌==◌, if◌then◌else◌, set_at,
}
use faststore.Errno.{eagain, enospc, eintr}
use faststore.Types.{FsTrunkSpaceInfo}
use faststore.Trunk.{FsTrunkFileInfo, UtilEvent, add64, sub64}

-- FSTrunkAllocator with a freelist of its trunks: its own, or, where all trunks of the freelist for
-- reclaims are of one store path, that one. A trunk is known by its address, the key of `trunks`; the
-- freelist links addresses from head to tail. `avail` is trunk_stat.avail of the store path, which
-- counts the room of its trunks in both freelists. `makes` counts the calls of trunk_maker_allocate_ex
-- that a low freelist causes, `is_avail` says that the allocator stands in the array of available
-- ones.
pub record FsTrunkAllocator : Type 0 where
  pub store : ℕ
  pub trunks : ℕ → FsTrunkFileInfo
  pub freelist : List ℕ
  pub count : ℕ
  pub water_mark_trunks : ℕ
  pub avail : ℕ
  pub current_version : ℕ
  pub reclaim_queue : List ℕ
  pub makes : ℕ
  pub is_avail : Bool

pub record FsTrunkSpaceWithVersion : Type 0 where
  pub version : ℕ
  pub space : FsTrunkSpaceInfo

-- FS_TRUNK_AVAIL_SPACE
abbrev pub avail_space : FsTrunkFileInfo → ℕ
avail_space trunk = trunk.size - trunk.free_start

-- TRUNK_ALLOC_SPACE: the space, and the allocator after it.
unfoldable pub space_at : FsTrunkAllocator → ℕ → ℕ → FsTrunkSpaceWithVersion
space_at a t alloc_size = record {
  version = add64 a.current_version 1;
  space = record {
    store = a.store;
    id_info = (a.trunks t).id_info;
    offset = (a.trunks t).free_start;
    size = alloc_size;
  };
}

abbrev pub trunk_alloc_space : FsTrunkAllocator → ℕ → ℕ → FsTrunkAllocator
trunk_alloc_space a t alloc_size = record a {
  current_version = add64 a.current_version 1;
  trunks =
      set_at a.trunks t (record (a.trunks t) { free_start = (a.trunks t).free_start + alloc_size });
  avail = sub64 a.avail alloc_size;
}

unfoldable pub trunk_freelist_add : FsTrunkAllocator → ℕ → FsTrunkAllocator
trunk_freelist_add a t = record a {
  freelist = a.freelist ++ t ∷ [];
  count = a.count + 1;
  avail = add64 a.avail (avail_space (a.trunks t));
}

-- push_trunk_util_event_force: the event is set, and the trunk queued if it had none.
unfoldable pub push_trunk_util_event_force : FsTrunkAllocator → ℕ → UtilEvent → FsTrunkAllocator
push_trunk_util_event_force a t event = record a {
  trunks = set_at a.trunks t (record (a.trunks t) { event = event });
  reclaim_queue = elim (a.trunks t).event [
    | UtilEvent.quiet ↦ a.reclaim_queue ++ t ∷ []
    | _ ↦ a.reclaim_queue
  ];
}

-- The head leaves the list.
unfoldable pub trunk_freelist_remove : FsTrunkAllocator → FsTrunkAllocator
unfolding push_trunk_util_event_force
trunk_freelist_remove a = elim a.freelist [
  | [] ↦ a
  | t ∷ rest ↦
      let b =
        push_trunk_util_event_force (record a { freelist = rest; count = a.count - 1 }) t
          UtilEvent.create in
      record b { makes = if ltb b.count b.water_mark_trunks then b.makes + 1 else b.makes }
]

-- What other threads do during one round of the wait: whether a trunk is being created before it,
-- whether the last trigger is older than a second, what trunk_maker_allocate_ex returns, the
-- trunks that are there after the wait, and the last error of the reclaim.
pub record Round : Type 0 where
  pub creating : Bool
  pub trigger_due : Bool
  pub make_result : ℕ
  pub arrived : List ℕ
  pub last_errno : ℕ

unfoldable pub add_all : FsTrunkAllocator → List ℕ → FsTrunkAllocator
add_all a [] = a
add_all a (t ∷ ts) = add_all (trunk_freelist_add a t) ts

abbrev pub is_empty : List ℕ → Bool
is_empty [] = true
is_empty (t ∷ ts) = false

abbrev pub triggers : Round → ℕ → Bool
triggers r i = not r.creating && (r.trigger_due || ltb 0 i)

-- The loop of waiting_avail_trunk, with the rounds that are left.
unfoldable pub wait_rounds : (ℕ → Round) → ℕ → ℕ → FsTrunkAllocator → ℕ × FsTrunkAllocator
wait_rounds rounds zero i a = (0, a)
wait_rounds rounds (suc left) i a =
    if triggers (rounds i) i && not ((rounds i).make_result == 0)
    then ((rounds i).make_result, a)
    else (let b = add_all a (rounds i).arrived in
        if not (is_empty b.freelist) || not ((rounds i).last_errno == 0)
        then (0, b)
        else wait_rounds rounds left (i + 1) b)

abbrev pub waiting_avail_trunk : (ℕ → Round) → FsTrunkAllocator → ℕ × FsTrunkAllocator
waiting_avail_trunk rounds a = wait_rounds rounds 10 0 a

-- The result, the spaces that are filled in, and the allocator; `none` is a call of abort.
pub record Allocated : Type 0 where
  pub result : ℕ
  pub spaces : List FsTrunkSpaceWithVersion
  pub allocator : FsTrunkAllocator

-- What the call depends on beside its arguments: SF_G_CONTINUE_FLAG, discard_remain_space_size, and
-- the rounds of a wait.
pub record Setting : Type 0 where
  pub continue_flag : Bool
  pub discard_remain_space_size : ℕ
  pub rounds : ℕ → Round

-- The allocator after the space is taken from the head: a head with too little room left leaves.
abbrev pub after_take : Setting → FsTrunkAllocator → ℕ → ℕ → FsTrunkAllocator
after_take s a t aligned_size =
    let b = trunk_alloc_space a t aligned_size in
    let remain = avail_space (b.trunks t) in
    let c = trunk_freelist_remove b in
    if ltb remain s.discard_remain_space_size then record c { avail = sub64 c.avail remain } else b

-- The last part: the space is taken from the head of the list, which each part is given.
unfoldable pub alloc_from_head :
    Setting → FsTrunkAllocator → List FsTrunkSpaceWithVersion → ℕ → List ℕ → Allocated
alloc_from_head s a spaces aligned_size [] = record {
  result = if s.continue_flag then enospc else eintr;
  spaces = spaces;
  allocator = a;
}
alloc_from_head s a spaces aligned_size (t ∷ rest) =
    if ltb (avail_space (a.trunks t)) aligned_size
    then record { result = eagain; spaces = spaces; allocator = a }
    else record {
      result = 0;
      spaces = spaces ++ space_at a t aligned_size ∷ [];
      allocator = after_take s a t aligned_size;
    }

-- What follows the wait.
unfoldable pub alloc_after_wait :
    Setting → List FsTrunkSpaceWithVersion → ℕ → ℕ × FsTrunkAllocator → Allocated
alloc_after_wait s spaces aligned_size (result, b) =
    if result == 0
    then alloc_from_head s b spaces aligned_size b.freelist
    else record { result = result; spaces = spaces; allocator = b }

-- The wait for a trunk, where the list is empty.
unfoldable pub alloc_when_ready :
    Setting → Bool → FsTrunkAllocator → List FsTrunkSpaceWithVersion → ℕ → List ℕ → Allocated
alloc_when_ready s is_normal a spaces aligned_size [] =
    if is_normal
    then alloc_after_wait s spaces aligned_size (waiting_avail_trunk s.rounds a)
    else record { result = eagain; spaces = spaces; allocator = a }
alloc_when_ready s is_normal a spaces aligned_size (t ∷ rest) =
    alloc_from_head s a spaces aligned_size (t ∷ rest)

-- A room that is kept in an int: its low 32 bits, where `none` is a negative number.
unfoldable pub to_int32 : ℕ → Option ℕ
to_int32 n = if ltb (n % 2 ^ 32) (2 ^ 31) then some (n % 2 ^ 32) else none

-- `remain_bytes` of a head with too little room is taken, and the head leaves.
abbrev pub take_rest : FsTrunkAllocator → ℕ → ℕ → FsTrunkAllocator
take_rest a t remain_bytes = trunk_freelist_remove (trunk_alloc_space a t remain_bytes)

-- The first part: a head with too little room gives what it has.
unfoldable pub alloc_spaces : Setting → Bool → FsTrunkAllocator → ℕ → List ℕ → Option Allocated
unfolding to_int32
alloc_spaces s is_normal a aligned_size [] =
    some (alloc_when_ready s is_normal a [] aligned_size [])
alloc_spaces s is_normal a aligned_size (t ∷ rest) =
    let refused : Allocated = record { result = eagain; spaces = []; allocator = a } in
    elim (to_int32 (avail_space (a.trunks t))) [
      | none ↦ if not is_normal && leb a.count 1 then some refused else none
      | some remain_bytes ↦
          let b = take_rest a t remain_bytes in
          if ltb remain_bytes aligned_size
          then (if not is_normal && leb a.count 1
              then some refused
              else if remain_bytes == 0
              then none
              else some (
                  alloc_when_ready s is_normal b (space_at a t remain_bytes ∷ [])
                    (aligned_size - remain_bytes) b.freelist))
          else some (alloc_when_ready s is_normal a [] aligned_size (t ∷ rest))
    ]

-- `mem_align_ceil size` is MEM_ALIGN_CEIL(size, FS_SPACE_ALIGN_SIZE), of another library. An allocator
-- without space leaves the array of available ones.
unfoldable pub trunk_freelist_alloc_space :
    (ℕ → ℕ) → Setting → FsTrunkAllocator → ℕ → Bool → Option Allocated
trunk_freelist_alloc_space mem_align_ceil s a size is_normal =
    elim (alloc_spaces s is_normal a (mem_align_ceil size) a.freelist) [
      | none ↦ none
      | some r ↦ some (record r {
        allocator =
            if (r.result == enospc) && is_normal
            then record r.allocator { is_avail = false }
            else r.allocator;
      })
    ]
