-- ===== src/Freelist/Head.antt =====
-- A call for which the first trunk has room, and the int that trunk_freelist_alloc_space keeps that
-- room in.
use faststore.Prelude.{
  ℕ, ◌%◌, ◌^◌, ltb, eq-or-ne, ◌≤◌, ◌<◌, ◌≡◌, refl, sym, ap, ◌∙◌, subst, Bool, true, false, not,
  ◌&&◌, leb, Option, none, some, List, [], ◌∷◌, arith, ◌==◌, if◌then◌else◌, inl, inr, le-or-lt,
  lt→ltb, le→ltb,
}
use faststore.Errno.{enospc}
use faststore.Freelist.{
  FsTrunkAllocator, avail_space, space_at, Allocated, Setting, alloc_from_head, alloc_when_ready,
  to_int32, alloc_spaces, trunk_freelist_alloc_space, after_take,
}
use faststore.Freelist.Behaviour.{to_int32-small}

module _ (s : Setting) (normal : Bool) (a : FsTrunkAllocator) (n t : ℕ) (l : List ℕ)
    (more : (not normal && leb a.count 1) ≡ false) (h : n ≤ avail_space (a.trunks t)) where
  abbrev from_head : Allocated
  from_head = record { result = 0; spaces = space_at a t n ∷ []; allocator = after_take s a t n }

  alloc_spaces-head :
      avail_space (a.trunks t) < 2 ^ 31 → alloc_spaces s normal a n (t ∷ l) ≡ some from_head
  unfolding alloc_spaces alloc_when_ready alloc_from_head
  alloc_spaces-head fits =
      rw
        (
          alloc_spaces,
          to_int32-small (avail_space (a.trunks t)) fits,
          le→ltb (avail_space (a.trunks t)) n h,
          alloc_when_ready,
          alloc_from_head,
        )
        refl

  -- The int that has the room is negative, or zero for 4 GB.
  alloc_spaces-none :
      0 < n
      → 2 ^ 31 ≤ avail_space (a.trunks t)
      → avail_space (a.trunks t) ≤ 2 ^ 32
      → alloc_spaces s normal a n (t ∷ l) ≡ none
  unfolding alloc_spaces to_int32
  alloc_spaces-none some_size large most = elim (eq-or-ne (avail_space (a.trunks t)) (2 ^ 32)) [
    | inl q ↦ rw (alloc_spaces, q, more, lt→ltb 0 n some_size) refl
    | inr q ↦
        rw
          (
            alloc_spaces,
            le→ltb (avail_space (a.trunks t) % 2 ^ 32) (2 ^ 31) (omega (arith, q, large, most)),
            more,
          )
          refl
  ]

-- Where the aligned size is not zero, the first trunk of the list has room for it and at most 4 GB
-- of room, and the call is a normal one or the list has more than one trunk,
-- trunk_freelist_alloc_space returns 0 and one space, which starts where that trunk was free, if the
-- room is less than 2 GB, and aborts if it is 2 GB or more.
pub trunk_freelist_alloc_space_head :
    (mem_align_ceil : ℕ → ℕ) (s : Setting) (a : FsTrunkAllocator) (size : ℕ) (normal : Bool) (t : ℕ)
    (l : List ℕ)
    → a.freelist ≡ t ∷ l
    → (not normal && leb a.count 1) ≡ false
    → 0 < mem_align_ceil size
    → mem_align_ceil size ≤ avail_space (a.trunks t)
    → avail_space (a.trunks t) ≤ 2 ^ 32
    → trunk_freelist_alloc_space mem_align_ceil s a size normal ≡ (
        if ltb (avail_space (a.trunks t)) (2 ^ 31)
        then some (record {
          result = 0;
          spaces = space_at a t (mem_align_ceil size) ∷ [];
          allocator = after_take s a t (mem_align_ceil size);
        })
        else none)
unfolding trunk_freelist_alloc_space
trunk_freelist_alloc_space_head mem_align_ceil s a size normal t l e more some_size h most =
    elim (le-or-lt (2 ^ 31) (avail_space (a.trunks t))) [
      | inl large ↦
          answer false (le→ltb (avail_space (a.trunks t)) (2 ^ 31) large)
            (ap finish (at_list ∙ alloc_spaces-none s normal a n t l more h some_size large most))
      | inr fits ↦
          answer true (lt→ltb (avail_space (a.trunks t)) (2 ^ 31) fits)
            (ap finish (at_list ∙ alloc_spaces-head s normal a n t l more h fits))
    ]
  where
    n : ℕ
    n = mem_align_ceil size

    finish : Option Allocated → Option Allocated
    finish o = elim o [
      | none ↦ none
      | some r ↦ some (record r {
        allocator =
            if (r.result == enospc) && normal
            then record r.allocator { is_avail = false }
            else r.allocator;
      })
    ]

    at_list : alloc_spaces s normal a n a.freelist ≡ alloc_spaces s normal a n (t ∷ l)
    at_list = ap (alloc_spaces s normal a n) e

    answer :
        (b : Bool)
        → ltb (avail_space (a.trunks t)) (2 ^ 31) ≡ b
        → finish (alloc_spaces s normal a n a.freelist)
          ≡ (if b then some (from_head s normal a n t l more h) else none)
        → finish (alloc_spaces s normal a n a.freelist) ≡ (
            if ltb (avail_space (a.trunks t)) (2 ^ 31)
            then some (from_head s normal a n t l more h)
            else none)
    answer b q p =
        subst
          (λ c.
            finish (alloc_spaces s normal a n a.freelist)
            ≡ (if c then some (from_head s normal a n t l more h) else none))
          (sym q) p
