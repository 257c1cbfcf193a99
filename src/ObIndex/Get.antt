-- ===== src/ObIndex/Get.antt =====
-- get_slices of object_block_index.c: the pieces of the slices of a block that lie in a range.
pub mod Window
pub mod Behaviour
pub mod Steps
use faststore.Prelude.{
  ℕ, ◌+◌, ◌-◌, ◌*◌, List, [], ◌∷◌, ◌++◌, Option, none, some, length, ltb, leb, ◌==◌, if◌then◌else◌,
  min,
}
use faststore.Errno.{enoent, enomem}
use faststore.Types.{ObSliceEntry, FsSliceSize, end_of}
use faststore.ObIndex.Defs.{Alloc, pure, ◌>>=◌, ◌>>◌, malloc, slice_dup, Slices, ObState}
use faststore.ObIndex.Delete.{slice_end}

-- OBSlicePtrArray; `count` is the length of the list.
pub record ObSlicePtrArray : Type 0 where
  pub alloc : ℕ
  pub slices : List ObSliceEntry

unfoldable pub add_to_slice_ptr_array : ObSlicePtrArray → ObSliceEntry → Alloc ObSlicePtrArray
add_to_slice_ptr_array array slice =
    if leb array.alloc (length array.slices)
    then (do
      malloc
      pure (record {
        alloc = if array.alloc == 0 then 256 else array.alloc * 2;
        slices = array.slices ++ slice ∷ [];
      }))
    else pure (record array { slices = array.slices ++ slice ∷ [] })

unfoldable pub dup_slice_to_array : ObSliceEntry → ℕ → ℕ → ObSlicePtrArray → Alloc ObSlicePtrArray
unfolding slice_dup add_to_slice_ptr_array
dup_slice_to_array src offset length array = do
  s ← slice_dup src offset length
  add_to_slice_ptr_array array s

unfoldable pub get_previous :
    FsSliceSize → Option ObSliceEntry → ObSlicePtrArray → Alloc ObSlicePtrArray
get_previous r none sarray = pure sarray
get_previous r (some curr) sarray =
    if ltb r.offset (end_of curr)
    then dup_slice_to_array curr r.offset (min (end_of curr) (slice_end r) - r.offset) sarray
    else pure sarray

unfoldable pub get_following : ℕ → List ObSliceEntry → ObSlicePtrArray → Alloc ObSlicePtrArray
get_following e [] sarray = pure sarray
get_following e (curr ∷ rest) sarray = if leb e curr.ssize.offset then pure sarray else (do
  sarray' ←
      (if ltb e (end_of curr)
        then dup_slice_to_array curr curr.ssize.offset (e - curr.ssize.offset) sarray
        else add_to_slice_ptr_array sarray curr)
  get_following e rest sarray')

-- The result code and the array. After a failure the caller empties the array.
pub record GetResult : Type 0 where
  pub result : ℕ
  pub sarray : ObSlicePtrArray
  pub mem : ℕ

abbrev pub finish_get : ObSlicePtrArray → ℕ → Option (ObSlicePtrArray × ℕ) → GetResult
finish_get sarray mem none = record {
  result = enomem;
  sarray = record sarray { slices = [] };
  mem = mem;
}
finish_get sarray mem (some (a, mem')) = record {
  result = elim a.slices [ [] ↦ enoent | s ∷ l ↦ 0 ];
  sarray = a;
  mem = mem';
}

-- The array comes in with any size, and its count is set to 0 first.
unfoldable pub get_slices : (S : Slices) → ObState S → FsSliceSize → ℕ → ℕ → GetResult
get_slices S ob r alloc mem =
    let empty : ObSlicePtrArray = record { alloc = alloc; slices = [] } in
    finish_get empty mem (
      (do
        a ← get_previous r (S.previous_node ob.slices r.offset) empty
        get_following (slice_end r) (S.find_ge_node ob.slices r.offset) a)
        mem)
