-- ===== src/ObIndex/Add.antt =====
-- add_slice of object_block_index.c: a new slice takes the place of what it overlaps.
pub mod Collect
pub mod Found
pub mod Behaviour
pub mod Enough
pub mod Refines
use faststore.Prelude.{ℕ, ◌+◌, ◌-◌, List, [], ◌∷◌, Option, none, some, ltb, leb, if◌then◌else◌}
use faststore.Errno.{enomem}
use faststore.Types.{ObSliceEntry, end_of}
use faststore.ObIndex.Defs.{
  Alloc, pure, ◌>>=◌, ObSlicePtrSmartArray, init_slice_ptr_array, add_to_slice_ptr_smart_array,
  dup_slice_to_smart_array, Slices, HtFlags, ObState, do_add_slice, delete_all, add_all,
}

-- The local variables that the two collecting steps change.
pub record Collected : Type 0 where
  pub del : ObSlicePtrSmartArray
  pub add : ObSlicePtrSmartArray
  pub new_space_start : ℕ
  pub inc_alloc : ℕ

-- The slice before the place of the new one, if it reaches into it.
unfoldable pub add_previous : ObSliceEntry → Option ObSliceEntry → Collected → Alloc Collected
add_previous slice none c = pure c
add_previous slice (some curr) c =
    if ltb slice.ssize.offset (end_of curr)
    then (do
      del ← add_to_slice_ptr_smart_array c.del curr
      front ←
          dup_slice_to_smart_array curr curr.ssize.offset (slice.ssize.offset - curr.ssize.offset)
            c.add
      add ←
          (if ltb (end_of slice) (end_of curr)
            then dup_slice_to_smart_array curr (end_of slice) (end_of curr - end_of slice) front
            else pure front)
      pure (record c { del = del; add = add; new_space_start = end_of curr }))
    else pure c

-- One round of the loop for a slice that is overlapped: the new values, before the test that ends it.
unfoldable pub add_round : ObSliceEntry → Collected → Alloc Collected
add_round curr c = do
  del ← add_to_slice_ptr_smart_array c.del curr
  pure (record c {
    del = del;
    inc_alloc =
        if ltb c.new_space_start curr.ssize.offset
        then c.inc_alloc + (curr.ssize.offset - c.new_space_start)
        else c.inc_alloc;
    new_space_start = end_of curr;
  })

-- The cut-off rest of the slice that the new one ends in.
unfoldable pub add_tail : ℕ → ObSliceEntry → Collected → Alloc Collected
add_tail slice_end curr c = do
  add ← dup_slice_to_smart_array curr slice_end (end_of curr - slice_end) c.add
  pure (record c { add = add })

-- The do-while loop over the nodes from the first one at or after the new slice's offset.
unfoldable pub add_following : ℕ → List ObSliceEntry → Collected → Alloc Collected
add_following slice_end [] c = pure c
add_following slice_end (curr ∷ rest) c = if leb slice_end curr.ssize.offset then pure c else (do
  c' ← add_round curr c
  if ltb slice_end (end_of curr)
      then add_tail slice_end curr c'
      else add_following slice_end rest c')

abbrev pub start_collecting : ObSliceEntry → Collected
start_collecting slice = record {
  del = init_slice_ptr_array;
  add = init_slice_ptr_array;
  new_space_start = slice.ssize.offset;
  inc_alloc = 0;
}

-- What is counted after the loop.
abbrev pub count_rest : ℕ → Collected → ℕ
count_rest slice_end c =
    if ltb c.new_space_start slice_end
    then c.inc_alloc + (slice_end - c.new_space_start)
    else c.inc_alloc

-- Both collecting steps.
unfoldable pub collect : ObSliceEntry → Option ObSliceEntry → List ObSliceEntry → Alloc Collected
collect slice previous nodes = do
  c ← add_previous slice previous (start_collecting slice)
  add_following (end_of slice) nodes c

-- The result code, `*inc_alloc`, the state, and the memory that is left.
pub record AddResult (S : Slices) : Type 0 where
  pub result : ℕ
  pub inc_alloc : ℕ
  pub state : ObState S
  pub mem : ℕ

module _ (S : Slices) (ht : HtFlags) where
  unfoldable pub apply_collected : ObState S → ObSliceEntry → Collected → ℕ × ObState S
  apply_collected ob slice c =
      do_add_slice S ht (add_all S ht (delete_all S ht ob c.del.slices) c.add.slices) slice

  abbrev pub finish_add : ObState S → ObSliceEntry → ℕ → Option (Collected × ℕ) → AddResult S
  finish_add ob slice mem none = record { result = enomem; inc_alloc = 0; state = ob; mem = mem }
  finish_add ob slice mem (some (c, mem')) =
      let (result, ob') = apply_collected ob slice c in
      record { result = result; inc_alloc = count_rest (end_of slice) c; state = ob'; mem = mem' }

  -- The work of add_slice once the container is searched.
  unfoldable pub add_at :
      ObState S → ObSliceEntry → ℕ → Option ObSliceEntry → List ObSliceEntry → AddResult S
  add_at ob slice mem none [] =
      let (result, ob') = do_add_slice S ht ob slice in
      record { result = result; inc_alloc = slice.ssize.length; state = ob'; mem = mem }
  add_at ob slice mem (some p) [] = finish_add ob slice mem (collect slice (some p) [] mem)
  add_at ob slice mem previous (n ∷ ns) =
      finish_add ob slice mem (collect slice previous (n ∷ ns) mem)

  unfoldable pub add_slice : ObState S → ObSliceEntry → ℕ → AddResult S
  unfolding add_at
  add_slice ob slice mem =
      add_at ob slice mem (S.previous_node ob.slices slice.ssize.offset)
        (S.find_ge_node ob.slices slice.ssize.offset)
