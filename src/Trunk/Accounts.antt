-- ===== src/Trunk/Accounts.antt =====
-- The accounts of a trunk say what its list of slices holds.
use faststore.Prelude.{
  ℕ, suc, ◌+◌, ◌%◌, ◌^◌, ◌≡◌, refl, ap, subst, Bool, true, false, List, [], ◌∷◌, ◌++◌, length,
  length-append, Option, some, arith, set_at, ◌&&◌, ◌==◌, if◌then◌else◌, ◌⊎◌, inl, inr, Bool-cases,
  Option-cases,
}
use faststore.Types.{ObSliceEntry, fs_block_key_equal}
use faststore.Trunk.{
  FsTrunkFileInfo, AllocatorMgr, UtilEvent, add64, sub64, add32, sub32, set_trunk, unlink,
  push_trunk_util_change_event, trunk_allocator_add_slice, trunk_allocator_delete_slice,
  storage_allocator_add_slice, storage_allocator_delete_slice,
}

-- The bytes of the slices of a list.
abbrev pub bytes_of : List ObSliceEntry → ℕ
bytes_of [] = 0
bytes_of (x ∷ xs) = x.space.size + bytes_of xs

abbrev pub Accounted : FsTrunkFileInfo → Type 0
Accounted trunk =
    (trunk.used_bytes ≡ bytes_of trunk.slice_head % 2 ^ 64)
    × (trunk.used_count ≡ length trunk.slice_head % 2 ^ 32)

-- The accounts of every trunk.
abbrev pub AllAccounted : AllocatorMgr → Type 0
AllAccounted m = (p t : ℕ) (trunk : FsTrunkFileInfo) → m.trunks p t ≡ some trunk → Accounted trunk

-- Two slices with the same block and offset.
abbrev pub same_slice : ObSliceEntry → ObSliceEntry → Bool
same_slice x s = fs_block_key_equal x.ob s.ob && (x.ssize.offset == s.ssize.offset)

-- The slice stands in the list, with the space that it has now.
abbrev pub Listed : ObSliceEntry → List ObSliceEntry → Type 0
Listed s [] = ⊥
Listed s (x ∷ xs) = if same_slice x s then x.space.size ≡ s.space.size else Listed s xs

bytes_of-append : (xs ys : List ObSliceEntry) → bytes_of (xs ++ ys) ≡ bytes_of xs + bytes_of ys
bytes_of-append [] ys = omega arith
bytes_of-append (x ∷ xs) ys = omega (arith, bytes_of-append xs ys)

unlink-Listed :
    (s : ObSliceEntry) (l : List ObSliceEntry)
    → Listed s l
    → (bytes_of l ≡ s.space.size + bytes_of (unlink s l)) × (length l ≡ suc (length (unlink s l)))
unfolding unlink
unlink-Listed s [] h = absurd h
unlink-Listed s (x ∷ l) h = elim (Bool-cases (same_slice x s)) [
  | inl q ↦
      let here = subst (λ b. if b then x.space.size ≡ s.space.size else Listed s l) q h in
      rw q (ap (λ n. n + bytes_of l) here, refl)
  | inr q ↦
      let rest =
        unlink-Listed s l
          (subst (λ b. if b then x.space.size ≡ s.space.size else Listed s l) q h) in
      rw q (swap (bytes_of l) (bytes_of (unlink s l)) rest.0, ap suc rest.1)
]
  where
    swap : (a b : ℕ) → a ≡ s.space.size + b → x.space.size + a ≡ s.space.size + (x.space.size + b)
    swap a b e = omega arith

-- What is looked up after a change at one trunk: the new value, or an old one.
set_trunk-cases :
    (f : ℕ → ℕ → Option FsTrunkFileInfo) (p t q u : ℕ) (v x : FsTrunkFileInfo)
    → set_trunk f p t v q u ≡ some x
    → (v ≡ x) ⊎ (f q u ≡ some x)
set_trunk-cases f p t q u v x h = elim (Bool-cases ((p == q) && (t == u))) [
  | inl e ↦ inl (inner (subst (λ b. (if b then some v else f q u) ≡ some x) e h))
  | inr e ↦ inr (subst (λ b. (if b then some v else f q u) ≡ some x) e h)
]
  where
    inner : some v ≡ some x → v ≡ x
    inner e = cc

set_trunk-Accounted :
    (m : AllocatorMgr) (p t : ℕ) (v : FsTrunkFileInfo)
    → AllAccounted m
    → Accounted v
    → (q u : ℕ) (x : FsTrunkFileInfo) → set_trunk m.trunks p t v q u ≡ some x
    → Accounted x
set_trunk-Accounted m p t v a h q u x e = elim (set_trunk-cases m.trunks p t q u v x e) [
  | inl z ↦ subst Accounted z h
  | inr z ↦ a q u x z
]

added-Accounted :
    (trunk : FsTrunkFileInfo) (s : ObSliceEntry)
    → Accounted trunk
    → Accounted (record trunk {
      used_bytes = add64 trunk.used_bytes s.space.size;
      used_count = add32 trunk.used_count 1;
      slice_head = trunk.slice_head ++ s ∷ [];
    })
added-Accounted trunk s a = (
  omega (arith, a.0, bytes_of-append trunk.slice_head (s ∷ [])),
  omega (arith, a.1, length-append trunk.slice_head (s ∷ [])),
)

deleted-Accounted :
    (trunk : FsTrunkFileInfo) (s : ObSliceEntry)
    → Accounted trunk
    → Listed s trunk.slice_head
    → Accounted (record trunk {
      used_bytes = sub64 trunk.used_bytes s.space.size;
      used_count = sub32 trunk.used_count 1;
      slice_head = unlink s trunk.slice_head;
    })
deleted-Accounted trunk s a h =
    let u = unlink-Listed s trunk.slice_head h in (omega (arith, a.0, u.0), omega (arith, a.1, u.1))

trunk_add-Accounted :
    (m : AllocatorMgr) (s : ObSliceEntry)
    → AllAccounted m
    → AllAccounted (trunk_allocator_add_slice m s).1
unfolding trunk_allocator_add_slice
trunk_add-Accounted m s a = elim (Option-cases (m.trunks s.space.store s.space.id_info.id)) [
  | inl q ↦ rw (trunk_allocator_add_slice, q) a
  | inr (trunk, q) ↦
      rw (trunk_allocator_add_slice, q)
        (set_trunk-Accounted m s.space.store s.space.id_info.id
          (record trunk {
            used_bytes = add64 trunk.used_bytes s.space.size;
            used_count = add32 trunk.used_count 1;
            slice_head = trunk.slice_head ++ s ∷ [];
          })
          a (added-Accounted trunk s (a s.space.store s.space.id_info.id trunk q)))
]

push-Accounted :
    (m : AllocatorMgr) (p t : ℕ) (v : FsTrunkFileInfo) (e : UtilEvent)
    → AllAccounted m
    → Accounted v
    → AllAccounted (push_trunk_util_change_event m p t v e)
unfolding push_trunk_util_change_event
push-Accounted m p t v e a h = by_event v.event refl
  where
    by_event :
        (ev : UtilEvent) → v.event ≡ ev → AllAccounted (push_trunk_util_change_event m p t v e)
    by_event UtilEvent.quiet q =
        rw (push_trunk_util_change_event, q)
          (set_trunk-Accounted m p t (record v { event = e }) a h)
    by_event UtilEvent.create q =
        rw (push_trunk_util_change_event, q) (set_trunk-Accounted m p t v a h)
    by_event UtilEvent.update q =
        rw (push_trunk_util_change_event, q) (set_trunk-Accounted m p t v a h)

-- The slice stands in the list of its trunk.
abbrev pub Held : AllocatorMgr → ObSliceEntry → Type 0
Held m s =
    (trunk : FsTrunkFileInfo)
    → m.trunks s.space.store s.space.id_info.id ≡ some trunk
    → Listed s trunk.slice_head

trunk_delete-Accounted :
    (m : AllocatorMgr) (s : ObSliceEntry)
    → AllAccounted m
    → Held m s
    → AllAccounted (trunk_allocator_delete_slice m s).1
unfolding trunk_allocator_delete_slice
trunk_delete-Accounted m s a h = elim (Option-cases (m.trunks s.space.store s.space.id_info.id)) [
  | inl q ↦ rw (trunk_allocator_delete_slice, q) a
  | inr (trunk, q) ↦
      rw (trunk_allocator_delete_slice, q)
        (push-Accounted m s.space.store s.space.id_info.id
          (record trunk {
            used_bytes = sub64 trunk.used_bytes s.space.size;
            used_count = sub32 trunk.used_count 1;
            slice_head = unlink s trunk.slice_head;
          })
          UtilEvent.update a
          (deleted-Accounted trunk s (a s.space.store s.space.id_info.id trunk q) (h trunk q)))
]

-- Where the used bytes and the count of every trunk are those of its list of slices, modulo the
-- width of the counters, they are so after storage_allocator_add_slice, for any slice.
pub storage_allocator_add_slice-AllAccounted :
    (m : AllocatorMgr) (s : ObSliceEntry) (modify_used_space : Bool)
    → AllAccounted m
    → AllAccounted (storage_allocator_add_slice m s modify_used_space).1
unfolding storage_allocator_add_slice
storage_allocator_add_slice-AllAccounted m s true a =
    trunk_add-Accounted
      (record m {
        path_used =
            set_at m.path_used s.space.store (add64 (m.path_used s.space.store) s.space.size);
      })
      s a
storage_allocator_add_slice-AllAccounted m s false a = trunk_add-Accounted m s a

-- Where the used bytes and the count of every trunk are those of its list of slices, modulo the
-- width of the counters, and the slice stands in its trunk's list with the space that it has now,
-- they are so after storage_allocator_delete_slice.
pub storage_allocator_delete_slice-AllAccounted :
    (m : AllocatorMgr) (s : ObSliceEntry) (modify_used_space : Bool)
    → AllAccounted m
    → Held m s
    → AllAccounted (storage_allocator_delete_slice m s modify_used_space).1
unfolding storage_allocator_delete_slice
storage_allocator_delete_slice-AllAccounted m s true a h =
    trunk_delete-Accounted
      (record m {
        path_used =
            set_at m.path_used s.space.store (sub64 (m.path_used s.space.store) s.space.size);
      })
      s a h
storage_allocator_delete_slice-AllAccounted m s false a h = trunk_delete-Accounted m s a h
