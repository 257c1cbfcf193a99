-- ===== src/Freelist/Behaviour.antt =====
-- The space that a call of trunk_freelist_alloc_space gives, and the freelist after it.
use faststore.Prelude.{
  ℕ, ◌-◌, ◌%◌, ◌^◌, ◌≤◌, ◌<◌, ◌≡◌, ◌≢◌, refl, sym, ap, ◌∙◌, subst, Bool, true, false, not, ◌&&◌,
  leb, some, List, [], ◌∷◌, arith, All, Bool-cases, ◌==◌, if◌then◌else◌, inl, inr, le-or-lt, lt→ltb,
  le→ltb, ne→eqb, set_at-same,
}
use faststore.Errno.{eagain, enospc}
use faststore.Trunk.{FsTrunkFileInfo, sub64}
use faststore.Freelist.{
  FsTrunkAllocator, avail_space, space_at, trunk_alloc_space, Round, Allocated, Setting,
  alloc_when_ready, to_int32, take_rest, alloc_spaces, trunk_freelist_alloc_space,
}
use faststore.Freelist.Valid.{Apart, HasRoom, Valid, taken, trunk_freelist_remove-Valid}
use faststore.Freelist.Alloc.{Gives, take_remove-Gives, remove-avail}
use faststore.Freelist.Wait.{Ready}
use faststore.Freelist.Granted.{Granted, Granted-one, Granted-two, alloc_when_ready-Good}

-- A head whose room is taken whole, and that leaves.
abbrev emptied : FsTrunkAllocator → ℕ → FsTrunkAllocator
emptied a t = take_rest a t (avail_space (a.trunks t))

-- A trunk whose room is taken whole is another one than a trunk with room.
full-ne :
    (a b : FsTrunkAllocator) (t u : ℕ)
    → Gives a t (avail_space (a.trunks t)) b
    → HasRoom b.trunks u
    → t ≢ u
full-ne a b t u g r q =
    omega (arith, g.moved, g.sizes t, g.had_room, subst (HasRoom b.trunks) (sym q) r)

emptied-Valid :
    {outer : ℕ} (a : FsTrunkAllocator) (t : ℕ) (l : List ℕ)
    → Valid outer a
    → a.freelist ≡ t ∷ l
    → Valid outer (emptied a t)
emptied-Valid {outer} a t l v e =
    subst (λ x. Valid outer (record (emptied a t) { avail = x }))
      (whole ∙ sym (remove-avail b t l e)) (trunk_freelist_remove-Valid a t l n v e (omega arith))
  where
    n : ℕ
    n = avail_space (a.trunks t)

    b : FsTrunkAllocator
    b = trunk_alloc_space a t n

    none_left : avail_space (b.trunks t) ≡ 0
    none_left = ap avail_space (set_at-same a.trunks t (taken a t n)) ∙ omega arith

    whole : sub64 b.avail (avail_space (b.trunks t)) ≡ b.avail
    whole = ap (sub64 b.avail) none_left ∙ omega arith

-- What a call leaves.
abbrev pub Result : ℕ → FsTrunkAllocator → ℕ → Allocated → Type 0
Result outer a n r = Valid outer r.allocator × (r.result ≡ 0 → Granted a n r)

-- Trunks that may be added during a wait: different ones with room, that are not in the list.
abbrev pub MayArrive : FsTrunkAllocator → (ℕ → Round) → Type 0
MayArrive a rounds =
    Ready a.trunks rounds × ((i : ℕ) → All (λ t. Apart t a.freelist) (rounds i).arrived)

module _ (s : Setting) (normal : Bool) (a : FsTrunkAllocator) (n : ℕ) where
  Result-one :
      {outer : ℕ} (l : List ℕ)
      → Valid outer a
      → 0 < s.discard_remain_space_size
      → a.freelist ≡ l
      → Ready a.trunks s.rounds
      → Result outer a n (alloc_when_ready s normal a [] n l)
  Result-one l v d e r =
      let r' = alloc_when_ready s normal a [] n l in
      let g = alloc_when_ready-Good s normal a [] n l v d e (λ q. r) in
      (g.valid, λ z. (let (t, q, h) = g.gives z in Granted-one a n r' t q h))

  Result-two :
      {outer : ℕ} (t : ℕ) (l : List ℕ)
      → Valid outer a
      → 0 < s.discard_remain_space_size
      → a.freelist ≡ t ∷ l
      → Ready (emptied a t).trunks s.rounds
      → avail_space (a.trunks t) ≤ n
      → Result outer a n (
          alloc_when_ready s normal
            (emptied a t)
            (space_at a t (avail_space (a.trunks t)) ∷ [])
            (n - avail_space (a.trunks t))
            (emptied a t).freelist)
  Result-two t l v d e r h =
      let k = avail_space (a.trunks t) in
      let b = emptied a t in
      let r' = alloc_when_ready s normal b (space_at a t k ∷ []) (n - k) b.freelist in
      let g =
        alloc_when_ready-Good s normal b (space_at a t k ∷ []) (n - k) b.freelist
          (emptied-Valid a t l v e) d refl (λ q. r) in
      let first =
        take_remove-Gives a t l k (subst (All (HasRoom a.trunks)) e v.room).0 e (omega arith) in
      (
        g.valid,
        λ z.
            (let (u, q, h') = g.gives z in
              Granted-two a b k (n - k) n r' t u q (omega arith) (full-ne a b t u first h'.had_room)
                first h'),
      )

-- The trunks that arrive still have room after the head is emptied.
Ready-after :
    {outer : ℕ} (a : FsTrunkAllocator) (t : ℕ) (l : List ℕ) (rounds : ℕ → Round)
    → Valid outer a
    → a.freelist ≡ t ∷ l
    → MayArrive a rounds
    → Ready (emptied a t).trunks rounds
Ready-after a t l rounds v e m i = ((m.0 i).0, keep (rounds i).arrived (m.0 i).1 (m.1 i))
  where
    g : Gives a t (avail_space (a.trunks t)) (emptied a t)
    g =
        take_remove-Gives a t l (avail_space (a.trunks t))
          (subst (All (HasRoom a.trunks)) e v.room).0 e (omega arith)

    keep :
        (xs : List ℕ)
        → All (HasRoom a.trunks) xs
        → All (λ u. Apart u a.freelist) xs
        → All (HasRoom (emptied a t).trunks) xs
    keep [] r h = tt
    keep (u ∷ xs) r h = (
      omega (arith, r.0, g.sizes u, g.others u (λ q. (subst (Apart u) e h.0).0 (sym q))),
      keep xs r.1 h.1,
    )

-- An int can hold the room of the trunk.
abbrev pub FitsInt : (ℕ → FsTrunkFileInfo) → ℕ → Type 0
FitsInt f t = avail_space (f t) < 2 ^ 31

pub to_int32-small : (n : ℕ) → n < 2 ^ 31 → to_int32 n ≡ some n
unfolding to_int32
to_int32-small n h =
    rw (to_int32, lt→ltb (n % 2 ^ 32) (2 ^ 31) (omega (arith, h))) (ap some (omega (arith, h)))

alloc_spaces-Result :
    {outer : ℕ} (s : Setting) (normal : Bool) (a : FsTrunkAllocator) (n : ℕ) (l : List ℕ)
    → Valid outer a
    → 0 < s.discard_remain_space_size
    → a.freelist ≡ l
    → MayArrive a s.rounds
    → All (FitsInt a.trunks) l
    → (r : Allocated) × (alloc_spaces s normal a n l ≡ some r) × Result outer a n r
unfolding alloc_spaces
alloc_spaces-Result s normal a n [] v d e m fits = (_, refl, Result-one s normal a n [] v d e m.0)
alloc_spaces-Result s normal a n (t ∷ l) v d e m fits =
    elim (le-or-lt n (avail_space (a.trunks t))) [
      | inl h ↦ (
        _,
        rw (alloc_spaces, kept, le→ltb (avail_space (a.trunks t)) n h) refl,
        Result-one s normal a n (t ∷ l) v d e m.0,
      )
      | inr h ↦ elim (Bool-cases (not normal && leb a.count 1)) [
        | inl q ↦ (
          record { result = eagain; spaces = []; allocator = a },
          rw (alloc_spaces, kept, lt→ltb (avail_space (a.trunks t)) n h, q) refl,
          (v, λ z. absurd (omega (arith, z))),
        )
        | inr q ↦ (
          _,
          rw
              (
                alloc_spaces,
                kept,
                lt→ltb (avail_space (a.trunks t)) n h,
                q,
                ne→eqb (avail_space (a.trunks t)) 0 room,
              )
              refl,
          Result-two s normal a n t l v d e (Ready-after a t l s.rounds v e m) (omega arith),
        )
      ]
    ]
  where
    kept : to_int32 (avail_space (a.trunks t)) ≡ some (avail_space (a.trunks t))
    kept = to_int32-small (avail_space (a.trunks t)) fits.0

    room : avail_space (a.trunks t) ≢ 0
    room z = omega (arith, z, (subst (All (HasRoom a.trunks)) e v.room).0)

-- The flag of the available allocators changes nothing of this.
Result-flag :
    {outer : ℕ} (a : FsTrunkAllocator) (n : ℕ) (r : Allocated) (c : Bool)
    → Result outer a n r
    → Result outer a n (record r {
      allocator = if c then record r.allocator { is_avail = false } else r.allocator;
    })
Result-flag a n r false g = g
Result-flag a n r true g = (
  record {
    kept = record {
      distinct = g.0.kept.distinct;
      counted = g.0.kept.counted;
      account = g.0.kept.account;
    };
    room = g.0.room;
  },
  λ z.
      (let h = g.1 z in
        record {
          owners = h.owners;
          distinct = h.distinct;
          places = h.places;
          sum = h.sum;
          others = h.others;
        }),
)

-- Where the freelist is in order, with the room that the store path has outside of it, each of its
-- trunks has less than 2 GB of room, the limit for rests is not zero, and other threads add only
-- trunks with room that are not in the list, trunk_freelist_alloc_space does not abort, and leaves
-- the freelist in order, with the same room outside. Where it returns 0, the spaces add up to the
-- aligned size, each lies in a trunk of its own, inside it, from where that trunk was free on to
-- where it is free now, and of the other trunks nothing is given away.
pub trunk_freelist_alloc_space_lem :
    {outer : ℕ} (mem_align_ceil : ℕ → ℕ) (s : Setting) (a : FsTrunkAllocator) (size : ℕ)
    (normal : Bool)
    → Valid outer a
    → 0 < s.discard_remain_space_size
    → MayArrive a s.rounds
    → All (FitsInt a.trunks) a.freelist
    → (r : Allocated) × (trunk_freelist_alloc_space mem_align_ceil s a size normal ≡ some r)
      × Valid outer r.allocator
      × (r.result ≡ 0 → Granted a (mem_align_ceil size) r)
unfolding trunk_freelist_alloc_space
trunk_freelist_alloc_space_lem mem_align_ceil s a size normal v d m fits =
    let (r, q, g) =
      alloc_spaces-Result s normal a (mem_align_ceil size) a.freelist v d refl m fits in
    let g' = Result-flag a (mem_align_ceil size) r ((r.result == enospc) && normal) g in
    (_, rw (trunk_freelist_alloc_space, q) refl, g'.0, g'.1)
