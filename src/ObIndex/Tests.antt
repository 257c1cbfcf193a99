-- ===== src/ObIndex/Tests.antt =====
-- Runs of the index on a small block, and the theorems at these inputs.
use faststore.Prelude.{ℕ, ◌+◌, ◌*◌, ◌<◌, ◌≡◌, refl, [], ◌∷◌, none, some, map, arith, false}
use faststore.Errno.{enoent}
use faststore.Types.{FsBlockKey, FsSliceSize, ObSliceEntry, ObSliceType}
use faststore.Skiplist.Sorted.{sorted_list}
use faststore.Trunk.{AllocatorMgr}
use faststore.ObIndex.Defs.{
  Slices, HtFlags, ObState, slice_key, do_add_slice, do_delete_slice, add_all, delete_all,
  add_to_slice_ptr_smart_array, dup_slice_to_smart_array,
}
use faststore.ObIndex.Carve.{Wf, EndsBy, total, covered}
use faststore.ObIndex.Bytes.{byte_at, place_in}
use faststore.ObIndex.Apply.{chain_of}
use faststore.ObIndex.Add.{
  AddResult, add_slice, collect, add_previous, add_following, add_round, add_tail, apply_collected,
}
use faststore.ObIndex.Add.Behaviour.{byte_at-add_slice, add_slice-Wf}
use faststore.ObIndex.Delete
use faststore.ObIndex.Delete.{
  DeleteResult, delete_slices, slice_end, delete_previous, delete_following, delete_tail,
}
use faststore.ObIndex.Delete.Refines.{covered_in}
use faststore.ObIndex.Delete.Behaviour.{byte_at-delete_slices, delete_slices-Wf, delete_slices_code}
use faststore.ObIndex.Get.{
  GetResult, get_slices, get_previous, get_following, add_to_slice_ptr_array, dup_slice_to_array,
}
use faststore.ObIndex.Get.Behaviour.{byte_at-get_slices, get_slices-Wf, get_slices_code}

abbrev lists : Slices
lists = sorted_list ObSliceEntry slice_key

abbrev block : FsBlockKey
block = record { oid = 7; offset = 0; hash_code = 11 }

abbrev slice : ℕ → ℕ → ℕ → ObSliceEntry
slice o n trunk = record {
  ob = block;
  slice_type = ObSliceType.file;
  ssize = record { offset = o; length = n };
  space = record {
    store = 0;
    id_info = record { id = trunk; subdir = 1 };
    offset = 1000 * trunk;
    size = n;
  };
}

abbrev mgr : AllocatorMgr
mgr = record { trunks = λ p t. none; path_used = λ p. 0; reclaim_queue = λ p. [] }

abbrev flags : HtFlags
flags = record { modify_sallocator = false; modify_used_space = false }

abbrev state : ObState lists
state = record { slices = slice 0 10 1 ∷ slice 20 10 2 ∷ slice 30 10 3 ∷ []; mgr = mgr }

abbrev range : FsSliceSize
range = record { offset = 5; length = 20 }

abbrev added : ObSliceEntry
added = slice 5 20 4

-- Each run opens what its function calls.
run_add : ObState lists → ObSliceEntry → AddResult lists
unfolding add_slice collect add_previous add_following add_round add_tail apply_collected
    do_add_slice do_delete_slice add_all delete_all add_to_slice_ptr_smart_array
    dup_slice_to_smart_array
run_add ob n = add_slice lists flags ob n 64

run_delete : ObState lists → FsSliceSize → DeleteResult lists
unfolding delete_slices Delete.collect delete_previous delete_following delete_tail do_add_slice
    do_delete_slice add_all delete_all add_to_slice_ptr_smart_array dup_slice_to_smart_array
run_delete ob r = delete_slices lists flags ob r 64

run_get : ObState lists → FsSliceSize → GetResult
unfolding get_slices get_previous get_following add_to_slice_ptr_array dup_slice_to_array
run_get ob r = get_slices lists ob r 0 64

-- The new slice covers 5 to 25: two slices are cut, and ten bytes are new.
add_slice_run :
    ((run_add state added).inc_alloc ≡ 10)
    × (map slice_key (chain_of lists flags (run_add state added).state) ≡ 0 ∷ 5 ∷ 25 ∷ 30 ∷ [])
unfolding run_add
add_slice_run = (refl, refl)

delete_slices_run :
    ((run_delete state range).dec_alloc ≡ 10)
    × (map slice_key (chain_of lists flags (run_delete state range).state) ≡ 0 ∷ 25 ∷ 30 ∷ [])
unfolding run_delete
delete_slices_run = (refl, refl)

get_slices_run :
    (map slice_key (run_get state range).sarray.slices ≡ 5 ∷ 20 ∷ [])
    × ((run_get state range).sarray.alloc ≡ 256)
unfolding run_get
get_slices_run = (refl, refl)

state-Wf : Wf 0 (chain_of lists flags state)
state-Wf = omega arith

byte_at-add_slice_example :
    byte_at 27 (chain_of lists flags (add_slice lists flags state added 64).state)
    ≡ some (place_in (slice 20 10 2) 27)
unfolding byte_at
byte_at-add_slice_example =
    byte_at-add_slice lists flags state added (omega arith) state-Wf 64 (omega arith) 27

add_slice-Wf_example :
    Wf 0 (chain_of lists flags (add_slice lists flags state added 64).state)
    × (total (chain_of lists flags (add_slice lists flags state added 64).state)
        ≡ 30 + (add_slice lists flags state added 64).inc_alloc)
unfolding total
add_slice-Wf_example = add_slice-Wf lists flags state added (omega arith) state-Wf 64 (omega arith)

delete_slices_code_example :
    ((0 < covered_in lists flags state range)
      → (delete_slices lists flags state range 64).result ≡ 0)
    × ((covered_in lists flags state range ≡ 0)
        → ((delete_slices lists flags state range 64).result ≡ enoent)
          × ((delete_slices lists flags state range 64).state ≡ state))
delete_slices_code_example =
    delete_slices_code lists flags state range (omega arith) state-Wf 64 (omega arith)

byte_at-delete_slices_example :
    byte_at 7 (chain_of lists flags (delete_slices lists flags state range 64).state) ≡ none
unfolding run_delete
byte_at-delete_slices_example =
    byte_at-delete_slices lists flags state range (omega arith) state-Wf 64 (omega arith) refl 7

delete_slices-Wf_example :
    Wf 0 (chain_of lists flags (delete_slices lists flags state range 64).state)
    × (total (chain_of lists flags (delete_slices lists flags state range 64).state)
          + (delete_slices lists flags state range 64).dec_alloc
        ≡ 30)
unfolding total
delete_slices-Wf_example =
    delete_slices-Wf lists flags state range (omega arith) state-Wf 64 (omega arith)

byte_at-get_slices_example :
    byte_at 21 (get_slices lists state range 0 64).sarray.slices
    ≡ some (place_in (slice 20 10 2) 21)
unfolding byte_at
byte_at-get_slices_example =
    byte_at-get_slices lists flags state range (omega arith) state-Wf 0 64 (omega arith) 21

get_slices-Wf_example :
    Wf 5 (get_slices lists state range 0 64).sarray.slices
    × EndsBy 25 (get_slices lists state range 0 64).sarray.slices
    × (total (get_slices lists state range 0 64).sarray.slices ≡ 10)
unfolding covered
get_slices-Wf_example =
    get_slices-Wf lists flags state range (omega arith) state-Wf 0 64 (omega arith)

get_slices_code_example :
    ((0 < covered_in lists flags state range) → (get_slices lists state range 0 64).result ≡ 0)
    × ((covered_in lists flags state range ≡ 0)
        → (get_slices lists state range 0 64).result ≡ enoent)
get_slices_code_example =
    get_slices_code lists flags state range (omega arith) state-Wf 0 64 (omega arith)
