-- ===== src/ObIndex/Delete.antt =====
-- delete_slices of object_block_index.c: the slices of a range are taken out.
pub mod Collect
pub mod Found
pub mod Behaviour
pub mod Refines
use faststore.Prelude.{
  ℕ, ◌+◌, ◌-◌, List, [], ◌∷◌, Option, none, some, length, ltb, leb, if◌then◌else◌,
}
use faststore.Errno.{enoent, enomem}
use faststore.Types.{ObSliceEntry, FsSliceSize, end_of}
use faststore.ObIndex.Defs.{
  Alloc, pure, ◌>>=◌, ObSlicePtrSmartArray, init_slice_ptr_array, add_to_slice_ptr_smart_array,
  dup_slice_to_smart_array, Slices, HtFlags, ObState, delete_all, add_all,
}

-- The local variables that the two collecting steps change.
pub record Removed : Type 0 where
  pub del : ObSlicePtrSmartArray
  pub add : ObSlicePtrSmartArray
  pub dec_alloc : ℕ

-- The first byte after the range.
abbrev pub slice_end : FsSliceSize → ℕ
slice_end r = r.offset + r.length

-- The slice before the range, if it reaches into it.
unfoldable pub delete_previous : FsSliceSize → Option ObSliceEntry → Removed → Alloc Removed
delete_previous r none c = pure c
delete_previous r (some curr) c =
    if ltb r.offset (end_of curr)
    then (do
      del ← add_to_slice_ptr_smart_array c.del curr
      front ← dup_slice_to_smart_array curr curr.ssize.offset (r.offset - curr.ssize.offset) c.add
      if ltb (slice_end r) (end_of curr)
          then (do
            add ← dup_slice_to_smart_array curr (slice_end r) (end_of curr - slice_end r) front
            pure (record { del = del; add = add; dec_alloc = c.dec_alloc + r.length }))
          else pure (record {
            del = del;
            add = front;
            dec_alloc = c.dec_alloc + (end_of curr - r.offset);
          }))
    else pure c

-- The cut-off rest of the slice that the range ends in.
unfoldable pub delete_tail : ℕ → ObSliceEntry → ObSlicePtrSmartArray → Removed → Alloc Removed
delete_tail e curr del c = do
  add ← dup_slice_to_smart_array curr e (end_of curr - e) c.add
  pure (record { del = del; add = add; dec_alloc = c.dec_alloc + (e - curr.ssize.offset) })

unfoldable pub delete_following : ℕ → List ObSliceEntry → Removed → Alloc Removed
delete_following e [] c = pure c
delete_following e (curr ∷ rest) c = if leb e curr.ssize.offset then pure c else (do
  del ← add_to_slice_ptr_smart_array c.del curr
  if ltb e (end_of curr)
      then delete_tail e curr del c
      else delete_following e rest
          (record c { del = del; dec_alloc = c.dec_alloc + curr.ssize.length }))

abbrev pub start_removing : Removed
start_removing = record { del = init_slice_ptr_array; add = init_slice_ptr_array; dec_alloc = 0 }

unfoldable pub collect : FsSliceSize → Option ObSliceEntry → List ObSliceEntry → Alloc Removed
collect r previous nodes = do
  c ← delete_previous r previous start_removing
  delete_following (slice_end r) nodes c

-- The result code, `*count`, `*dec_alloc`, the state, and the memory that is left.
pub record DeleteResult (S : Slices) : Type 0 where
  pub result : ℕ
  pub count : ℕ
  pub dec_alloc : ℕ
  pub state : ObState S
  pub mem : ℕ

module _ (S : Slices) (ht : HtFlags) where
  abbrev pub finish_delete : ObState S → ℕ → Option (Removed × ℕ) → DeleteResult S
  finish_delete ob mem none = record {
    result = enomem;
    count = 0;
    dec_alloc = 0;
    state = ob;
    mem = mem;
  }
  finish_delete ob mem (some (c, mem')) = elim c.del.slices [
    | [] ↦ record { result = enoent; count = 0; dec_alloc = c.dec_alloc; state = ob; mem = mem' }
    | s ∷ l ↦ record {
      result = 0;
      count = length (s ∷ l);
      dec_alloc = c.dec_alloc;
      state = add_all S ht (delete_all S ht ob (s ∷ l)) c.add.slices;
      mem = mem';
    }
  ]

  -- The work of delete_slices once the container is searched.
  unfoldable pub delete_at :
      ObState S → FsSliceSize → ℕ → Option ObSliceEntry → List ObSliceEntry → DeleteResult S
  delete_at ob r mem none [] = record {
    result = enoent;
    count = 0;
    dec_alloc = 0;
    state = ob;
    mem = mem;
  }
  delete_at ob r mem (some p) [] = finish_delete ob mem (collect r (some p) [] mem)
  delete_at ob r mem previous (n ∷ ns) = finish_delete ob mem (collect r previous (n ∷ ns) mem)

  unfoldable pub delete_slices : ObState S → FsSliceSize → ℕ → DeleteResult S
  unfolding delete_at
  delete_slices ob r mem =
      delete_at ob r mem (S.previous_node ob.slices r.offset) (S.find_ge_node ob.slices r.offset)
