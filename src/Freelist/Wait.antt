-- ===== src/Freelist/Wait.antt =====
-- Waiting for a trunk: what other threads add keeps the freelist in order.
use faststore.Prelude.{
  ℕ, zero, suc, ◌+◌, ◌≡◌, ◌≢◌, refl, sym, ◌∙◌, subst, Bool, true, false, not, ◌&&◌, ◌||◌, List, [],
  ◌∷◌, ◌++◌, All, All-append, Bool-cases, ◌==◌, inl, inr,
}
use faststore.Trunk.{FsTrunkFileInfo}
use faststore.Freelist.{
  FsTrunkAllocator, trunk_freelist_add, Round, add_all, is_empty, triggers, wait_rounds,
}
use faststore.Freelist.Valid.{Apart, Distinct, HasRoom, Valid, trunk_freelist_add-Valid}

-- Trunks that other threads may add: different ones, each with room.
abbrev pub Ready : (ℕ → FsTrunkFileInfo) → (ℕ → Round) → Type 0
Ready f rounds = (i : ℕ) → Distinct (rounds i).arrived × All (HasRoom f) (rounds i).arrived

-- An allocator with the same trunks, of which as much is given away.
abbrev pub SameTrunks : FsTrunkAllocator → FsTrunkAllocator → Type 0
SameTrunks a b =
    (b.trunks ≡ a.trunks) × (b.store ≡ a.store) × (b.current_version ≡ a.current_version)

Apart-snoc :
    (l fl : List ℕ) (t : ℕ)
    → All (λ u. Apart u fl) l
    → Apart t l
    → All (λ u. Apart u (fl ++ t ∷ [])) l
Apart-snoc [] fl t h d = tt
Apart-snoc (u ∷ l) fl t h d =
    (All-append (λ x. u ≢ x) fl (t ∷ []) h.0 (λ e. d.0 (sym e), tt), Apart-snoc l fl t h.1 d.1)

add_all-Valid :
    {outer : ℕ} (l : List ℕ) (a : FsTrunkAllocator)
    → Valid outer a
    → Distinct l
    → All (HasRoom a.trunks) l
    → All (λ t. Apart t a.freelist) l
    → Valid outer (add_all a l) × SameTrunks a (add_all a l)
unfolding add_all trunk_freelist_add
add_all-Valid [] a v d r h = (v, (refl, refl, refl))
add_all-Valid (t ∷ l) a v d r h =
    add_all-Valid l (trunk_freelist_add a t) (trunk_freelist_add-Valid a t v h.0 r.0) d.1 r.1
      (Apart-snoc l a.freelist t h.1 d.0)

Apart-empty : (l fl : List ℕ) → fl ≡ [] → All (λ t. Apart t fl) l
Apart-empty [] fl e = tt
Apart-empty (t ∷ l) fl e = (subst (Apart t) (sym e) tt, Apart-empty l fl e)

is_empty-true : (l : List ℕ) → is_empty l ≡ true → l ≡ []
is_empty-true [] h = refl
is_empty-true (x ∷ l) h = cc

stays-empty : (l : List ℕ) (b : Bool) → (not (is_empty l) || b) ≡ false → l ≡ []
stays-empty [] b h = refl
stays-empty (x ∷ l) b h = cc

pub wait_rounds-Valid :
    {outer : ℕ} (rounds : ℕ → Round) (left i : ℕ) (a : FsTrunkAllocator)
    → Valid outer a
    → a.freelist ≡ []
    → Ready a.trunks rounds
    → (let w = wait_rounds rounds left i a in Valid outer w.1 × SameTrunks a w.1)
unfolding wait_rounds
wait_rounds-Valid rounds zero i a v e r = (v, (refl, refl, refl))
wait_rounds-Valid rounds (suc left) i a v e r =
    elim (Bool-cases (triggers (rounds i) i && not ((rounds i).make_result == 0))) [
      | inl q ↦ rw (wait_rounds, q) (v, (refl, refl, refl))
      | inr q ↦
          let b = add_all a (rounds i).arrived in
          let s =
            add_all-Valid (rounds i).arrived a v (r i).0 (r i).1
              (Apart-empty (rounds i).arrived a.freelist e) in
          elim (Bool-cases (not (is_empty b.freelist) || not ((rounds i).last_errno == 0))) [
            | inl c ↦ rw (wait_rounds, q, c) s
            | inr c ↦
                let w =
                  wait_rounds-Valid rounds left (i + 1) b s.0
                    (stays-empty b.freelist (not ((rounds i).last_errno == 0)) c)
                    (subst (λ f. Ready f rounds) (sym s.1.0) r) in
                rw (wait_rounds, q, c) (w.0, (w.1.0 ∙ s.1.0, w.1.1 ∙ s.1.1, w.1.2 ∙ s.1.2))
          ]
    ]
