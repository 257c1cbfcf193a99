-- ===== src/ObIndex/Defs.antt =====
-- The state of the index, allocation, and the arrays that add_slice and delete_slices collect into.
use faststore.Prelude.{
  ℕ, zero, suc, ◌+◌, ◌-◌, ◌*◌, Bool, List, [], ◌∷◌, ◌++◌, Option, none, some, length, ltb, leb,
  if◌then◌else◌,
}
use faststore.Types.{ObSliceEntry}
use faststore.Skiplist.{Skiplist}
use faststore.Trunk.{AllocatorMgr, storage_allocator_add_slice, storage_allocator_delete_slice}

-- Memory is the number of allocations that still succeed; `none` is the ENOMEM of the source.
abbrev pub Alloc : Type 0 → Type 0
Alloc A = ℕ → Option (A × ℕ)

abbrev pub pure : {A : Type 0} → A → Alloc A
pure a m = some (a, m)

infixl 5 ◌>>=◌ ◌>>◌
abbrev pub ◌>>=◌ : {A B : Type 0} → Alloc A → (A → Alloc B) → Alloc B
◌>>=◌ x f m = elim (x m) [ none ↦ none | some (a, m') ↦ f a m' ]

abbrev pub ◌>>◌ : {A B : Type 0} → Alloc A → Alloc B → Alloc B
x >> y = x >>= λ _. y

-- fc_malloc and fast_mblock_alloc_object
abbrev pub malloc : Alloc (Unit {0})
malloc zero = none
malloc (suc m) = some (tt, m)

-- OBSlicePtrSmartArray; `count` is the length of the list.
pub record ObSlicePtrSmartArray : Type 0 where
  pub alloc : ℕ
  pub slices : List ObSliceEntry

-- INIT_SLICE_PTR_ARRAY, with SLICE_ARRAY_FIXED_COUNT
abbrev pub init_slice_ptr_array : ObSlicePtrSmartArray
init_slice_ptr_array = record { alloc = 64; slices = [] }

unfoldable pub add_to_slice_ptr_smart_array :
    ObSlicePtrSmartArray → ObSliceEntry → Alloc ObSlicePtrSmartArray
add_to_slice_ptr_smart_array array slice =
    if leb array.alloc (length array.slices)
    then (do malloc; pure (record { alloc = array.alloc * 2; slices = array.slices ++ slice ∷ [] }))
    else pure (record array { slices = array.slices ++ slice ∷ [] })

-- The fields of the new slice: it begins at `offset`, or where the source does if that is later.
abbrev pub dup_fields : ObSliceEntry → ℕ → ℕ → ObSliceEntry
dup_fields src offset length =
    if ltb src.ssize.offset offset
    then record src {
      ssize = record { offset = offset; length = length };
      space = record src.space { offset = src.space.offset + (offset - src.ssize.offset) };
    }
    else record src { ssize = record { offset = src.ssize.offset; length = length } }

unfoldable pub slice_dup : ObSliceEntry → ℕ → ℕ → Alloc ObSliceEntry
slice_dup src offset length = do malloc; pure (dup_fields src offset length)

-- The piece that add_slice and delete_slices keep of a cut slice: its space is its length.
abbrev pub cut : ObSliceEntry → ℕ → ℕ → ObSliceEntry
cut src offset length =
    let s = dup_fields src offset length in record s { space = record (s.space) { size = length } }

unfoldable pub dup_slice_to_smart_array :
    ObSliceEntry → ℕ → ℕ → ObSlicePtrSmartArray → Alloc ObSlicePtrSmartArray
unfolding slice_dup add_to_slice_ptr_smart_array
dup_slice_to_smart_array src offset length array = do
  s ← slice_dup src offset length
  add_to_slice_ptr_smart_array array (record s { space = record (s.space) { size = length } })

-- The slices of a block are ordered by their offset (slice_compare).
abbrev pub slice_key : ObSliceEntry → ℕ
slice_key s = s.ssize.offset

abbrev pub Slices : Type 1
Slices = Skiplist ObSliceEntry slice_key

-- The two switches of OBHashtable.
pub record HtFlags : Type 0 where
  pub modify_sallocator : Bool
  pub modify_used_space : Bool

module _ (S : Slices) where
  -- What the slice operations of one block change: `ob->slices`, and the trunk accounts.
  pub record ObState : Type 0 where
    pub slices : S.Nodes
    pub mgr : AllocatorMgr

  unfoldable pub do_delete_slice : HtFlags → ObState → ObSliceEntry → ℕ × ObState
  do_delete_slice ht ob slice =
      let m =
        if ht.modify_sallocator
        then (storage_allocator_delete_slice ob.mgr slice ht.modify_used_space).1
        else ob.mgr in
      let (result, slices) = S.delete ob.slices slice in
      (result, record { slices = slices; mgr = m })

  unfoldable pub do_add_slice : HtFlags → ObState → ObSliceEntry → ℕ × ObState
  do_add_slice ht ob slice =
      let (result, slices) = S.insert ob.slices slice in
      elim result [
        | zero ↦
            if ht.modify_sallocator
            then (let (r, m) = storage_allocator_add_slice ob.mgr slice ht.modify_used_space in
                (r, record { slices = slices; mgr = m }))
            else (0, record ob { slices = slices })
        | suc e ↦ (suc e, record ob { slices = slices })
      ]

  -- The loops over the two arrays, which ignore the results.
  unfoldable pub delete_all : HtFlags → ObState → List ObSliceEntry → ObState
  unfolding do_delete_slice
  delete_all ht ob [] = ob
  delete_all ht ob (s ∷ l) = delete_all ht (do_delete_slice ht ob s).1 l

  unfoldable pub add_all : HtFlags → ObState → List ObSliceEntry → ObState
  unfolding do_add_slice
  add_all ht ob [] = ob
  add_all ht ob (s ∷ l) = add_all ht (do_add_slice ht ob s).1 l
