-- ===== src/Freelist/Granted.antt =====
-- The parts of a call put together: spaces in different trunks, that add up.
use faststore.Prelude.{
  ℕ, ◌+◌, ◌≤◌, ◌<◌, ◌≡◌, ◌≢◌, refl, sym, ap, ◌∙◌, subst, Bool, true, false, List, [], ◌∷◌, ◌++◌,
  arith, inl, inr, eq-or-ne, eq→eqb, ne→eqb,
}
use faststore.Trunk.{FsTrunkFileInfo}
use faststore.Freelist.{
  FsTrunkAllocator, FsTrunkSpaceWithVersion, avail_space, space_at, waiting_avail_trunk, Allocated,
  Setting, alloc_from_head, alloc_after_wait, alloc_when_ready,
}
use faststore.Freelist.Valid.{Apart, Distinct, HasRoom, Valid}
use faststore.Freelist.Alloc.{free_of, size_of, Gives, Good, alloc_from_head-Good}
use faststore.Freelist.Wait.{Ready, SameTrunks, wait_rounds-Valid}

Gives-Same :
    (a b : FsTrunkAllocator) (t n : ℕ) (c : FsTrunkAllocator)
    → b.trunks ≡ a.trunks
    → b.store ≡ a.store
    → Gives b t n c
    → Gives a t n c
Gives-Same a b t n c e st g = record {
  fits = subst (λ f. n ≤ avail_space (f t)) e g.fits;
  had_room = subst (λ f. HasRoom f t) e g.had_room;
  moved = subst (λ f. free_of c t ≡ (f t).free_start + n) e g.moved;
  others = λ u q. subst (λ f. free_of c u ≡ (f u).free_start) e (g.others u q);
  sizes = λ u. subst (λ f. size_of c u ≡ (f u).size) e (g.sizes u);
  ids = λ u. subst (λ f. (c.trunks u).id_info ≡ (f u).id_info) e (g.ids u);
  same_store = g.same_store ∙ st;
}

space_at-Same :
    (a b : FsTrunkAllocator) (t n : ℕ) → SameTrunks a b → space_at b t n ≡ space_at a t n
unfolding space_at
space_at-Same a b t n e = rw (e.0, e.1, e.2) refl

Good-Same :
    {outer : ℕ} (a b : FsTrunkAllocator) (spaces : List FsTrunkSpaceWithVersion) (n : ℕ)
    (r : Allocated)
    → SameTrunks a b
    → Good outer b spaces n r
    → Good outer a spaces n r
Good-Same a b spaces n r e g = record {
  valid = g.valid;
  gives = λ z.
      let (t, q, h) = g.gives z in
      (
        t,
        q ∙ ap (λ x. spaces ++ x ∷ []) (space_at-Same a b t n e),
        Gives-Same a b t n r.allocator e.0 e.1 h,
      );
}

pub alloc_when_ready-Good :
    {outer : ℕ} (s : Setting) (normal : Bool) (a : FsTrunkAllocator)
    (spaces : List FsTrunkSpaceWithVersion) (n : ℕ) (l : List ℕ)
    → Valid outer a
    → 0 < s.discard_remain_space_size
    → a.freelist ≡ l
    → (a.freelist ≡ [] → Ready a.trunks s.rounds)
    → Good outer a spaces n (alloc_when_ready s normal a spaces n l)
unfolding alloc_when_ready alloc_after_wait
alloc_when_ready-Good s normal a spaces n (t ∷ l) v d e r =
    alloc_from_head-Good s a spaces n (t ∷ l) v d e
alloc_when_ready-Good s false a spaces n [] v d e r = record {
  valid = v;
  gives = λ z. absurd (omega (arith, z));
}
alloc_when_ready-Good {outer} s true a spaces n [] v d e r = elim (eq-or-ne w.0 0) [
  | inl q ↦ rw (eq→eqb w.0 0 q) (
      Good-Same a w.1 spaces n (alloc_from_head s w.1 spaces n w.1.freelist) g.1
        (alloc_from_head-Good s w.1 spaces n w.1.freelist g.0 d refl))
  | inr q ↦ rw (ne→eqb w.0 0 q) (record { valid = g.0; gives = λ z. absurd (q z) })
]
  where
    w : ℕ × FsTrunkAllocator
    w = waiting_avail_trunk s.rounds a

    g : Valid outer w.1 × SameTrunks a w.1
    g = wait_rounds-Valid s.rounds 10 0 a v e (r e)

-- Where the spaces of a call lie: each in its own trunk, from where that trunk was free on to where
-- it is free now, and inside it.
abbrev pub Places :
    FsTrunkAllocator → (ℕ → FsTrunkFileInfo) → List FsTrunkSpaceWithVersion → List ℕ → Type 0
Places a f [] [] = Unit
Places a f (x ∷ xs) [] = ⊥
Places a f [] (t ∷ ts) = ⊥
Places a f (x ∷ xs) (t ∷ ts) =
    ((x.space.store ≡ a.store)
      × (x.space.id_info ≡ (a.trunks t).id_info)
      × (x.space.offset ≡ free_of a t)
      × (x.space.offset + x.space.size ≡ (f t).free_start)
      × ((f t).free_start ≤ size_of a t))
    × Places a f xs ts

abbrev pub sum_sizes : List FsTrunkSpaceWithVersion → ℕ
sum_sizes [] = 0
sum_sizes (x ∷ xs) = x.space.size + sum_sizes xs

-- The spaces add up to the size; they lie in different trunks, and in the room of these trunks;
-- nothing else is given away.
pub record Granted (a : FsTrunkAllocator) (n : ℕ) (r : Allocated) : Type 0 where
  pub owners : List ℕ
  pub distinct : Distinct owners
  pub places : Places a r.allocator.trunks r.spaces owners
  pub sum : sum_sizes r.spaces ≡ n
  pub others : (u : ℕ) → Apart u owners → free_of r.allocator u ≡ free_of a u

pub Granted-one :
    (a : FsTrunkAllocator) (n : ℕ) (r : Allocated) (t : ℕ)
    → r.spaces ≡ space_at a t n ∷ []
    → Gives a t n r.allocator
    → Granted a n r
unfolding space_at
Granted-one a n r t e g = record {
  owners = t ∷ [];
  distinct = (tt, tt);
  places = rw e ((refl, refl, refl, sym g.moved, omega (arith, g.moved, g.fits, g.had_room)), tt);
  sum = rw e (omega arith);
  others = λ u h. g.others u (λ q. h.0 (sym q));
}

pub Granted-two :
    (a b : FsTrunkAllocator) (k m n : ℕ) (r : Allocated) (t u : ℕ)
    → r.spaces ≡ space_at a t k ∷ space_at b u m ∷ []
    → k + m ≡ n
    → t ≢ u
    → Gives a t k b
    → Gives b u m r.allocator
    → Granted a n r
unfolding space_at
Granted-two a b k m n r t u e sum ne g h = record {
  owners = t ∷ u ∷ [];
  distinct = ((ne, tt), (tt, tt));
  places = rw e (
    (refl, refl, refl, sym (h.others t (λ z. ne (sym z)) ∙ g.moved), in_first),
    ((g.same_store, g.ids u, g.others u ne, sym h.moved, in_second), tt),
  );
  sum = rw e (omega arith);
  others = λ x q. h.others x (λ z. q.1.0 (sym z)) ∙ g.others x (λ z. q.0 (sym z));
}
  where
    in_first : free_of r.allocator t ≤ size_of a t
    in_first = omega (arith, h.others t (λ z. ne (sym z)), g.moved, g.fits, g.had_room)

    in_second : free_of r.allocator u ≤ size_of a u
    in_second = omega (arith, h.moved, h.fits, h.had_room, g.sizes u)
