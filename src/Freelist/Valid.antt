-- ===== src/Freelist/Valid.antt =====
-- What holds of a freelist between the calls: its trunks are different and have room, and the
-- statistics of the store path say how much room there is in it and outside of it.
use faststore.Prelude.{
  ℕ, suc, ◌+◌, ◌-◌, ◌%◌, ◌^◌, ◌≤◌, ◌<◌, ◌≡◌, ◌≢◌, refl, sym, ap, ap₂, ◌∙◌, subst, List, [], ◌∷◌,
  ◌++◌, arith, All, All-append, length, length-append, set_at, set_at-same, set_at-other,
}
use faststore.Trunk.{FsTrunkFileInfo, UtilEvent, add64, sub64}
use faststore.Freelist.{
  FsTrunkAllocator, avail_space, trunk_alloc_space, trunk_freelist_add, push_trunk_util_event_force,
  trunk_freelist_remove,
}

-- An address is not among others.
abbrev pub Apart : ℕ → List ℕ → Type 0
Apart t l = All (λ x. t ≢ x) l

abbrev pub Distinct : List ℕ → Type 0
Distinct [] = Unit
Distinct (x ∷ xs) = Apart x xs × Distinct xs

-- The trunk has room.
abbrev pub HasRoom : (ℕ → FsTrunkFileInfo) → ℕ → Type 0
HasRoom f t = (f t).free_start < (f t).size

-- The room of all trunks of a list.
abbrev pub total : (ℕ → FsTrunkFileInfo) → List ℕ → ℕ
total f [] = 0
total f (t ∷ l) = avail_space (f t) + total f l

-- All but the room of the trunks. `outer` is the room of the store path's trunks that are not in this
-- freelist: the path's statistics count it too.
pub record Kept (outer : ℕ) (a : FsTrunkAllocator) : Type 0 where
  pub distinct : Distinct a.freelist
  pub counted : a.count ≡ length a.freelist
  pub account : a.avail ≡ (outer + total a.trunks a.freelist) % 2 ^ 64

pub record Valid (outer : ℕ) (a : FsTrunkAllocator) : Type 0 where
  pub kept : Kept outer a
  pub room : All (HasRoom a.trunks) a.freelist

module _ (f : ℕ → FsTrunkFileInfo) (t : ℕ) (x : FsTrunkFileInfo) where
  pub total-set : (l : List ℕ) → Apart t l → total (set_at f t x) l ≡ total f l
  total-set [] h = refl
  total-set (u ∷ l) h = ap₂ ◌+◌ (ap avail_space (set_at-other f t x u h.0)) (total-set l h.1)

  pub HasRoom-set : (l : List ℕ) → Apart t l → All (HasRoom f) l → All (HasRoom (set_at f t x)) l
  HasRoom-set [] h r = tt
  HasRoom-set (u ∷ l) h r = (
    subst (λ y. y.free_start < y.size) (sym (set_at-other f t x u h.0)) r.0,
    HasRoom-set l h.1 r.1,
  )

total-append :
    (f : ℕ → FsTrunkFileInfo) (xs ys : List ℕ) → total f (xs ++ ys) ≡ total f xs + total f ys
total-append f [] ys = omega arith
total-append f (x ∷ xs) ys = omega (arith, total-append f xs ys)

Distinct-snoc : (l : List ℕ) (t : ℕ) → Distinct l → Apart t l → Distinct (l ++ t ∷ [])
Distinct-snoc [] t d h = (tt, tt)
Distinct-snoc (x ∷ l) t d h =
    (All-append (λ y. x ≢ y) l (t ∷ []) d.0 (λ e. h.0 (sym e), tt), Distinct-snoc l t d.1 h.1)

add64-total : (a t n : ℕ) → a ≡ t % 2 ^ 64 → add64 a n ≡ (t + n) % 2 ^ 64
add64-total a t n h = omega arith

sub64-total : (a t n : ℕ) → a ≡ (n + t) % 2 ^ 64 → sub64 a n ≡ t % 2 ^ 64
sub64-total a t n h = omega arith

-- Whatever room the store path has outside the freelist, a freelist in order, with that room and its
-- own in the path's statistics, is so after trunk_freelist_add of a trunk that has room and is not in
-- the list yet.
pub trunk_freelist_add-Valid :
    {outer : ℕ} (a : FsTrunkAllocator) (t : ℕ)
    → Valid outer a
    → Apart t a.freelist
    → HasRoom a.trunks t
    → Valid outer (trunk_freelist_add a t)
unfolding trunk_freelist_add
trunk_freelist_add-Valid {outer} a t v h r = record {
  kept = record {
    distinct = Distinct-snoc a.freelist t v.kept.distinct h;
    counted = omega (arith, v.kept.counted, length-append a.freelist (t ∷ []));
    account =
        add64-total a.avail (outer + total a.trunks a.freelist) (avail_space (a.trunks t))
          v.kept.account
        ∙ ap (λ n. n % 2 ^ 64) (omega (arith, total-append a.trunks a.freelist (t ∷ [])));
  };
  room = All-append (HasRoom a.trunks) a.freelist (t ∷ []) v.room (r, tt);
}

-- What stands at the head of a list that is kept in order.
module _ {outer : ℕ} (a : FsTrunkAllocator) (t : ℕ) (l : List ℕ) (k : Kept outer a)
    (e : a.freelist ≡ t ∷ l) where
  pub head-Apart : Apart t l
  head-Apart = (subst Distinct e k.distinct).0

  pub rest-Distinct : Distinct l
  rest-Distinct = (subst Distinct e k.distinct).1

  head-account : a.avail ≡ (outer + (avail_space (a.trunks t) + total a.trunks l)) % 2 ^ 64
  head-account = k.account ∙ ap (λ x. (outer + total a.trunks x) % 2 ^ 64) e

  head-count : a.count ≡ suc (length l)
  head-count = k.counted ∙ ap length e

-- Space taken from the head: the account goes down with its room.
pub trunk_alloc_space-Kept :
    {outer : ℕ} (a : FsTrunkAllocator) (t : ℕ) (l : List ℕ) (n : ℕ)
    → Kept outer a
    → a.freelist ≡ t ∷ l
    → n ≤ avail_space (a.trunks t)
    → Kept outer (trunk_alloc_space a t n)
trunk_alloc_space-Kept {outer} a t l n k e h = record {
  distinct = k.distinct;
  counted = k.counted;
  account =
      sub64-total a.avail (outer + total b.trunks a.freelist) n
        (head-account a t l k e ∙ ap (λ x. x % 2 ^ 64) (omega (arith, sum)));
}
  where
    b : FsTrunkAllocator
    b = trunk_alloc_space a t n

    split :
        (y z : ℕ)
        → y ≡ (a.trunks t).size - ((a.trunks t).free_start + n)
        → avail_space (a.trunks t) + z ≡ n + (y + z)
    split y z q = omega arith

    sum : avail_space (a.trunks t) + total a.trunks l ≡ n + total b.trunks a.freelist
    sum =
        rw
          (
            e,
            total-set a.trunks t (record (a.trunks t) { free_start = (a.trunks t).free_start + n })
                l (head-Apart a t l k e),
          )
          (split (avail_space (b.trunks t)) (total a.trunks l) (
            ap avail_space (
              set_at-same a.trunks t
                (record (a.trunks t) { free_start = (a.trunks t).free_start + n }))))

-- The head leaves, with its room.
pub trunk_freelist_remove-Kept :
    {outer : ℕ} (a : FsTrunkAllocator) (t : ℕ) (l : List ℕ)
    → Kept outer a
    → a.freelist ≡ t ∷ l
    → Kept outer
        (record (trunk_freelist_remove a) { avail = sub64 a.avail (avail_space (a.trunks t)) })
unfolding trunk_freelist_remove push_trunk_util_event_force
trunk_freelist_remove-Kept {outer} a t l k e =
    rw (trunk_freelist_remove, e)
      (record {
        distinct = rest-Distinct a t l k e;
        counted = omega (arith, head-count a t l k e);
        account =
            sub64-total a.avail (outer + total a.trunks l) (avail_space (a.trunks t))
              (head-account a t l k e ∙ ap (λ x. x % 2 ^ 64) (omega arith))
            ∙ ap (λ x. (outer + x) % 2 ^ 64)
                (sym (
                  total-set a.trunks t (record (a.trunks t) { event = UtilEvent.create }) l
                    (head-Apart a t l k e)));
      })

-- The trunk after space is taken from it.
abbrev pub taken : FsTrunkAllocator → ℕ → ℕ → FsTrunkFileInfo
taken a t n = record (a.trunks t) { free_start = (a.trunks t).free_start + n }

module _ {outer : ℕ} (a : FsTrunkAllocator) (t : ℕ) (l : List ℕ) (n : ℕ) (v : Valid outer a)
    (e : a.freelist ≡ t ∷ l) (h : n ≤ avail_space (a.trunks t)) where
  rest-HasRoom : All (HasRoom (trunk_alloc_space a t n).trunks) l
  rest-HasRoom =
      HasRoom-set a.trunks t (taken a t n) l (head-Apart a t l v.kept e)
        (subst (All (HasRoom a.trunks)) e v.room).1

  -- The head stays, where it has room left.
  pub trunk_alloc_space-Valid :
      HasRoom (trunk_alloc_space a t n).trunks t → Valid outer (trunk_alloc_space a t n)
  trunk_alloc_space-Valid r = record {
    kept = trunk_alloc_space-Kept a t l n v.kept e h;
    room = rw e (r, rest-HasRoom);
  }

  -- It leaves, and the room that it still has is no longer counted.
  pub trunk_freelist_remove-Valid :
      Valid outer (record (trunk_freelist_remove (trunk_alloc_space a t n)) {
        avail =
            sub64
              (trunk_alloc_space a t n).avail
              (avail_space ((trunk_alloc_space a t n).trunks t));
      })
  unfolding trunk_freelist_remove push_trunk_util_event_force
  trunk_freelist_remove-Valid = record {
    kept =
        trunk_freelist_remove-Kept (trunk_alloc_space a t n) t l
          (trunk_alloc_space-Kept a t l n v.kept e h) e;
    room =
        rw (trunk_freelist_remove, e)
          (HasRoom-set (trunk_alloc_space a t n).trunks t
            (record ((trunk_alloc_space a t n).trunks t) { event = UtilEvent.create }) l
            (head-Apart a t l v.kept e) rest-HasRoom);
  }
