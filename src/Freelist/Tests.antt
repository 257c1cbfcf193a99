-- ===== src/Freelist/Tests.antt =====
-- Runs of the freelist on two small trunks, and the theorems applied to them.
use faststore.Prelude.{
  ℕ, ◌≡◌, refl, Bool, true, false, Option, none, some, List, [], ◌∷◌, map, All, arith,
  if◌then◌else◌, ◌==◌, ltb, ◌*◌, ◌^◌,
}
use faststore.Errno.{eagain}
use faststore.Trunk.{FsTrunkFileInfo, UtilEvent}
use faststore.Freelist.{
  FsTrunkAllocator, space_at, trunk_freelist_add, trunk_freelist_remove,
  push_trunk_util_event_force, add_all, wait_rounds, Allocated, Setting, alloc_from_head,
  alloc_after_wait, alloc_when_ready, to_int32, alloc_spaces, trunk_freelist_alloc_space,
  avail_space, after_take,
}
use faststore.Freelist.Valid.{Apart, Distinct, HasRoom, Valid, trunk_freelist_add-Valid}
use faststore.Freelist.Granted.{Granted}
use faststore.Freelist.Behaviour.{MayArrive, trunk_freelist_alloc_space_lem}
use faststore.Freelist.Head.{trunk_freelist_alloc_space_head}

-- Trunk 1 has 100 of 1000 bytes left; all others are empty.
abbrev trunk : ℕ → FsTrunkFileInfo
trunk t = record {
  id_info = record { id = t; subdir = 0 };
  used_count = 0;
  used_bytes = 0;
  slice_head = [];
  size = 1000;
  free_start = if t == 1 then 900 else 0;
  event = UtilEvent.quiet;
}

-- 500 bytes of the store path lie in a trunk of the other freelist.
abbrev allocator : FsTrunkAllocator
allocator = record {
  store = 0;
  trunks = trunk;
  freelist = 1 ∷ 2 ∷ [];
  count = 2;
  water_mark_trunks = 2;
  avail = 1600;
  current_version = 7;
  reclaim_queue = [];
  makes = 0;
  is_avail = true;
}

-- Trunk 3 arrives in the first round.
abbrev setting : Setting
setting = record {
  continue_flag = true;
  discard_remain_space_size = 256;
  rounds = λ i. record {
    creating = true;
    trigger_due = false;
    make_result = 0;
    arrived = if i == 0 then 3 ∷ [] else [];
    last_errno = 0;
  };
}

-- FS_SPACE_ALIGN_SIZE is 8.
abbrev align : ℕ → ℕ
align n = if n == 299 then 304 else n

record Seen : Type 0 where
  result : ℕ
  places : List (ℕ × ℕ × ℕ)
  left : List ℕ
  avail : ℕ

abbrev seen : Option Allocated → Option Seen
seen none = none
seen (some r) = some (record {
  result = r.result;
  places = map (λ x. (x.space.id_info.id, x.space.offset, x.space.size)) r.spaces;
  left = r.allocator.freelist;
  avail = r.allocator.avail;
})

run : FsTrunkAllocator → ℕ → Bool → Option Seen
unfolding trunk_freelist_alloc_space alloc_spaces to_int32 alloc_when_ready alloc_after_wait
    alloc_from_head wait_rounds add_all trunk_freelist_add trunk_freelist_remove
    push_trunk_util_event_force space_at
run a size normal = seen (trunk_freelist_alloc_space align setting a size normal)

-- A small piece comes from the head, which then has too little left and leaves.
small :
    run allocator 40 true
    ≡ some (record { result = 0; places = (1, 900, 40) ∷ []; left = 2 ∷ []; avail = 1500 })
unfolding run
small = refl

-- A larger one takes the rest of the head, and the remainder from the next trunk.
large :
    run allocator 299 true
    ≡ some (record {
      result = 0;
      places = (1, 900, 100) ∷ (2, 0, 204) ∷ [];
      left = 2 ∷ [];
      avail = 1296;
    })
unfolding run
large = refl

-- With one trunk only, the reclaim is refused, and another caller waits for trunk 3.
refused :
    run (record allocator { freelist = 1 ∷ []; count = 1; avail = 100 }) 299 false
    ≡ some (record { result = eagain; places = []; left = 1 ∷ []; avail = 100 })
unfolding run
refused = refl

waits :
    run (record allocator { freelist = 1 ∷ []; count = 1; avail = 100 }) 299 true
    ≡ some (record {
      result = 0;
      places = (1, 900, 100) ∷ (3, 0, 204) ∷ [];
      left = 3 ∷ [];
      avail = 796;
    })
unfolding run
waits = refl

allocator-Valid : Valid 500 allocator
allocator-Valid = record {
  kept = record {
    distinct = (((λ e. omega (arith, e)), tt), (tt, tt));
    counted = refl;
    account = refl;
  };
  room = (omega arith, (omega arith, tt));
}

setting-MayArrive : MayArrive allocator setting.rounds
setting-MayArrive = ((λ i. ready (i == 0)), (λ i. apart (i == 0)))
  where
    ready :
        (b : Bool)
        → Distinct (if b then 3 ∷ [] else []) × All (HasRoom trunk) (if b then 3 ∷ [] else [])
    ready true = ((tt, tt), (omega arith, tt))
    ready false = (tt, tt)

    apart : (b : Bool) → All (λ t. Apart t allocator.freelist) (if b then 3 ∷ [] else [])
    apart true = (((λ e. omega (arith, e)), ((λ e. omega (arith, e)), tt)), tt)
    apart false = tt

trunk_freelist_add-Valid_example : Valid 500 (trunk_freelist_add allocator 4)
trunk_freelist_add-Valid_example =
    trunk_freelist_add-Valid allocator 4 allocator-Valid
      ((λ e. omega (arith, e)), ((λ e. omega (arith, e)), tt)) (omega arith)

-- A trunk of 3 GB of which nothing is given away.
abbrev large_trunk : FsTrunkAllocator
large_trunk = record allocator {
  trunks = λ t. record (trunk t) { size = 3 * 2 ^ 30; free_start = 0 };
  freelist = 1 ∷ [];
  count = 1;
}

trunk_freelist_alloc_space_head_example :
    trunk_freelist_alloc_space align setting large_trunk 40 true ≡ (
      if ltb (avail_space (large_trunk.trunks 1)) (2 ^ 31)
      then some (record {
        result = 0;
        spaces = space_at large_trunk 1 40 ∷ [];
        allocator = after_take setting large_trunk 1 40;
      })
      else none)
trunk_freelist_alloc_space_head_example =
    trunk_freelist_alloc_space_head align setting large_trunk 40 true 1 [] refl refl (omega arith)
      (omega arith) (omega arith)

trunk_freelist_alloc_space_example :
    (r : Allocated) × (trunk_freelist_alloc_space align setting allocator 299 true ≡ some r)
    × Valid 500 r.allocator
    × (r.result ≡ 0 → Granted allocator 304 r)
trunk_freelist_alloc_space_example =
    trunk_freelist_alloc_space_lem align setting allocator 299 true allocator-Valid (omega arith)
      setting-MayArrive ((omega arith), ((omega arith), tt))
