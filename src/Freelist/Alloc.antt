-- ===== src/Freelist/Alloc.antt =====
-- Where the space of a call comes from, one part of the code at a time.
use faststore.Prelude.{
  ℕ, ◌+◌, ◌≤◌, ◌<◌, ◌≡◌, ◌≢◌, refl, sym, ap, ◌∙◌, subst, Bool, true, false, List, [], ◌∷◌, ◌++◌,
  arith, All, if◌then◌else◌, inl, inr, le-or-lt, lt→ltb, le→ltb, set_at, set_at-same, set_at-other,
  set_at-keeps,
}
use faststore.Errno.{enospc, eintr}
use faststore.Trunk.{UtilEvent, sub64}
use faststore.Freelist.{
  FsTrunkAllocator, FsTrunkSpaceWithVersion, avail_space, space_at, trunk_alloc_space,
  trunk_freelist_remove, push_trunk_util_event_force, Allocated, Setting, alloc_from_head,
  after_take,
}
use faststore.Freelist.Valid.{
  HasRoom, Valid, taken, trunk_alloc_space-Valid, trunk_freelist_remove-Valid,
}

-- How far a trunk is given away, and how large it is.
abbrev pub free_of : FsTrunkAllocator → ℕ → ℕ
free_of a t = (a.trunks t).free_start

abbrev pub size_of : FsTrunkAllocator → ℕ → ℕ
size_of a t = (a.trunks t).size

-- The room of one trunk goes down by an amount; nothing else is given away.
pub record Gives (a : FsTrunkAllocator) (t n : ℕ) (a' : FsTrunkAllocator) : Type 0 where
  pub fits : n ≤ avail_space (a.trunks t)
  pub had_room : HasRoom a.trunks t
  pub moved : free_of a' t ≡ free_of a t + n
  pub others : (u : ℕ) → t ≢ u → free_of a' u ≡ free_of a u
  pub sizes : (u : ℕ) → size_of a' u ≡ size_of a u
  pub ids : (u : ℕ) → (a'.trunks u).id_info ≡ (a.trunks u).id_info
  pub same_store : a'.store ≡ a.store

remove-trunks :
    (a : FsTrunkAllocator) (t : ℕ) (l : List ℕ)
    → a.freelist ≡ t ∷ l
    → (trunk_freelist_remove a).trunks
      ≡ set_at a.trunks t (record (a.trunks t) { event = UtilEvent.create })
unfolding trunk_freelist_remove push_trunk_util_event_force
remove-trunks a t l e = rw (trunk_freelist_remove, e) refl

remove-store :
    (a : FsTrunkAllocator) (t : ℕ) (l : List ℕ)
    → a.freelist ≡ t ∷ l
    → (trunk_freelist_remove a).store ≡ a.store
unfolding trunk_freelist_remove push_trunk_util_event_force
remove-store a t l e = rw (trunk_freelist_remove, e) refl

remove-id_info :
    (a : FsTrunkAllocator) (t : ℕ) (l : List ℕ) (u : ℕ)
    → a.freelist ≡ t ∷ l
    → ((trunk_freelist_remove a).trunks u).id_info ≡ (a.trunks u).id_info
remove-id_info a t l u e =
    ap (λ f. (f u).id_info) (remove-trunks a t l e)
    ∙ set_at-keeps a.trunks t (record (a.trunks t) { event = UtilEvent.create }) (λ y. y.id_info)
        refl u

pub remove-avail :
    (a : FsTrunkAllocator) (t : ℕ) (l : List ℕ)
    → a.freelist ≡ t ∷ l
    → (trunk_freelist_remove a).avail ≡ a.avail
unfolding trunk_freelist_remove push_trunk_util_event_force
remove-avail a t l e = rw (trunk_freelist_remove, e) refl

remove-free_of :
    (a : FsTrunkAllocator) (t : ℕ) (l : List ℕ) (u : ℕ)
    → a.freelist ≡ t ∷ l
    → (free_of (trunk_freelist_remove a) u ≡ free_of a u)
      × (size_of (trunk_freelist_remove a) u ≡ size_of a u)
remove-free_of a t l u e =
    let x = record (a.trunks t) { event = UtilEvent.create } in
    (
      ap (λ f. (f u).free_start) (remove-trunks a t l e)
          ∙ set_at-keeps a.trunks t x (λ y. y.free_start) refl u,
      ap (λ f. (f u).size) (remove-trunks a t l e) ∙ set_at-keeps a.trunks t x (λ y. y.size) refl u,
    )

take-Gives :
    (a : FsTrunkAllocator) (t n : ℕ)
    → HasRoom a.trunks t
    → n ≤ avail_space (a.trunks t)
    → Gives a t n (trunk_alloc_space a t n)
take-Gives a t n r h = record {
  fits = h;
  had_room = r;
  moved = ap (λ x. x.free_start) (set_at-same a.trunks t (taken a t n));
  others = λ u q. ap (λ x. x.free_start) (set_at-other a.trunks t (taken a t n) u q);
  sizes = set_at-keeps a.trunks t (taken a t n) (λ y. y.size) refl;
  ids = set_at-keeps a.trunks t (taken a t n) (λ y. y.id_info) refl;
  same_store = refl;
}

pub take_remove-Gives :
    (a : FsTrunkAllocator) (t : ℕ) (l : List ℕ) (n : ℕ)
    → HasRoom a.trunks t
    → a.freelist ≡ t ∷ l
    → n ≤ avail_space (a.trunks t)
    → Gives a t n (trunk_freelist_remove (trunk_alloc_space a t n))
take_remove-Gives a t l n r e h =
    let g = take-Gives a t n r h in
    let same = (λ (u : ℕ). remove-free_of (trunk_alloc_space a t n) t l u e) in
    record {
      fits = h;
      had_room = r;
      moved = (same t).0 ∙ g.moved;
      others = λ u q. (same u).0 ∙ g.others u q;
      sizes = λ u. (same u).1 ∙ g.sizes u;
      ids = λ u. remove-id_info (trunk_alloc_space a t n) t l u e ∙ g.ids u;
      same_store = remove-store (trunk_alloc_space a t n) t l e;
    }

Gives-avail :
    (a : FsTrunkAllocator) (t n : ℕ) (a' : FsTrunkAllocator) (x : ℕ)
    → Gives a t n a'
    → Gives a t n (record a' { avail = x })
Gives-avail a t n a' x g = record {
  fits = g.fits;
  had_room = g.had_room;
  moved = g.moved;
  others = g.others;
  sizes = g.sizes;
  ids = g.ids;
  same_store = g.same_store;
}

-- What a part of the code leaves: the freelist is in order; on success one more space is filled in.
pub record Good (outer : ℕ) (a : FsTrunkAllocator) (spaces : List FsTrunkSpaceWithVersion) (n : ℕ)
    (r : Allocated) : Type 0 where
  pub valid : Valid outer r.allocator
  pub gives :
      r.result ≡ 0 → (t : ℕ) × (r.spaces ≡ spaces ++ space_at a t n ∷ []) × Gives a t n r.allocator

no-space : (b : Bool) → (if b then enospc else eintr) ≢ 0
no-space true q = omega (arith, q)
no-space false q = omega (arith, q)

after_take-Good :
    {outer : ℕ} (s : Setting) (a : FsTrunkAllocator) (spaces : List FsTrunkSpaceWithVersion)
    (n t : ℕ) (l : List ℕ)
    → Valid outer a
    → 0 < s.discard_remain_space_size
    → a.freelist ≡ t ∷ l
    → n ≤ avail_space (a.trunks t)
    → Valid outer (after_take s a t n) × Gives a t n (after_take s a t n)
after_take-Good {outer} s a spaces n t l v d e h =
    elim (le-or-lt s.discard_remain_space_size (avail_space (b.trunks t))) [
      | inl k ↦ rw (le→ltb (avail_space (b.trunks t)) s.discard_remain_space_size k) (
        trunk_alloc_space-Valid a t l n v e h (still (omega (arith, d, k))),
        take-Gives a t n r h,
      )
      | inr k ↦ rw (lt→ltb (avail_space (b.trunks t)) s.discard_remain_space_size k) (
        subst
            (λ x.
              Valid outer
                (record (trunk_freelist_remove b) { avail = sub64 x (avail_space (b.trunks t)) }))
            (sym (remove-avail b t l e)) (trunk_freelist_remove-Valid a t l n v e h),
        Gives-avail a t n (trunk_freelist_remove b)
            (sub64 (trunk_freelist_remove b).avail (avail_space (b.trunks t)))
            (take_remove-Gives a t l n r e h),
      )
    ]
  where
    b : FsTrunkAllocator
    b = trunk_alloc_space a t n

    r : HasRoom a.trunks t
    r = (subst (All (HasRoom a.trunks)) e v.room).0

    still : 0 < avail_space (b.trunks t) → HasRoom b.trunks t
    still k = omega (arith, k)

pub alloc_from_head-Good :
    {outer : ℕ} (s : Setting) (a : FsTrunkAllocator) (spaces : List FsTrunkSpaceWithVersion) (n : ℕ)
    (l : List ℕ)
    → Valid outer a
    → 0 < s.discard_remain_space_size
    → a.freelist ≡ l
    → Good outer a spaces n (alloc_from_head s a spaces n l)
unfolding alloc_from_head
alloc_from_head-Good s a spaces n [] v d e = record {
  valid = v;
  gives = λ z. absurd (no-space s.continue_flag z);
}
alloc_from_head-Good s a spaces n (t ∷ l) v d e = elim (le-or-lt n (avail_space (a.trunks t))) [
  | inr h ↦
      rw (alloc_from_head, lt→ltb (avail_space (a.trunks t)) n h)
        (record { valid = v; gives = λ z. absurd (omega (arith, z)) })
  | inl h ↦
      let g = after_take-Good s a spaces n t l v d e h in
      rw (alloc_from_head, le→ltb (avail_space (a.trunks t)) n h)
        (record { valid = g.0; gives = λ z. (t, refl, g.1) })
]
