-- ===== src/Leader/Office/Term.antt =====
-- While there is a leader, its flag is set and no other (server/cluster_relationship.c).
use faststore.Prelude.{
  ℕ, zero, suc, ◌+◌, ◌<◌, ◌≡◌, ◌≢◌, refl, ap, ◌∙◌, subst, inl, inr, ◌==◌, eq-or-ne, eq→eqb, ne→eqb,
  Bool, true, false, Option, none, some, List, [], ◌∷◌, length, arith,
}
use faststore.Leader.Office.{
  Server, Relationship, modify_server, deactivate_others, clear_old_leader, set_flag, take_office,
  become_leader, change_leader,
}

-- From position `i` on, exactly the flag of server `k` is set.
abbrev pub FlagsOf : ℕ → ℕ → List Server → Type 0
FlagsOf k i [] = Unit
FlagsOf k i (s ∷ l) = (s.is_leader ≡ (i == k)) × FlagsOf k (suc i) l

-- The flag at a position of the list.
abbrev pub flag_at : List Server → ℕ → Bool
flag_at [] i = false
flag_at (s ∷ l) zero = s.is_leader
flag_at (s ∷ l) (suc i) = flag_at l i

-- After the old leaders are cleared, the flag of the new one is the only one that can be set.
clear_old_leader-FlagsOf :
    (k i : ℕ) (l : List Server)
    → ((j : ℕ) → k ≡ i + j → j < length l → flag_at l j ≡ true)
    → FlagsOf k i (clear_old_leader k i l)
unfolding clear_old_leader
clear_old_leader-FlagsOf k i [] h = tt
clear_old_leader-FlagsOf k i (s ∷ l) h = (
  elim (eq-or-ne i k) [
    | inl q ↦ rw (eq→eqb i k q) (h 0 (omega arith) (omega arith))
    | inr n ↦ rw (ne→eqb i k n) refl
  ],
  clear_old_leader-FlagsOf k (suc i) l (λ j q w. h (suc j) (omega arith) (omega arith)),
)

flag_at-modify :
    (f : Server → Server) (k : ℕ) (l : List Server) (j : ℕ)
    → ((s : Server) → (f s).is_leader ≡ s.is_leader)
    → flag_at (modify_server f k l) j ≡ flag_at l j
unfolding modify_server
flag_at-modify f k [] j h = refl
flag_at-modify f zero (s ∷ l) zero h = h s
flag_at-modify f zero (s ∷ l) (suc j) h = refl
flag_at-modify f (suc k) (s ∷ l) zero h = refl
flag_at-modify f (suc k) (s ∷ l) (suc j) h = flag_at-modify f k l j h

flag_at-set_flag :
    (b : Bool) (k : ℕ) (l : List Server)
    → k < length l
    → flag_at (modify_server (set_flag b) k l) k ≡ b
unfolding modify_server
flag_at-set_flag b k [] h = absurd (omega arith)
flag_at-set_flag b zero (s ∷ l) h = refl
flag_at-set_flag b (suc k) (s ∷ l) h = flag_at-set_flag b k l (omega arith)

pub flag_at-set_flag_other :
    (b : Bool) (k : ℕ) (l : List Server) (j : ℕ)
    → k ≢ j
    → flag_at (modify_server (set_flag b) k l) j ≡ flag_at l j
unfolding modify_server
flag_at-set_flag_other b k [] j n = refl
flag_at-set_flag_other b zero (s ∷ l) zero n = absurd (omega arith)
flag_at-set_flag_other b zero (s ∷ l) (suc j) n = refl
flag_at-set_flag_other b (suc k) (s ∷ l) zero n = refl
flag_at-set_flag_other b (suc k) (s ∷ l) (suc j) n = flag_at-set_flag_other b k l j (omega arith)

flag_at-deactivate_others :
    (now my i : ℕ) (l : List Server) (j : ℕ)
    → flag_at (deactivate_others now my i l) j ≡ flag_at l j
unfolding deactivate_others
flag_at-deactivate_others now my i [] j = refl
flag_at-deactivate_others now my i (s ∷ l) zero = ground arith
flag_at-deactivate_others now my i (s ∷ l) (suc j) = flag_at-deactivate_others now my (suc i) l j

pub FlagsOf-set_flag :
    (k i : ℕ) (l : List Server) (b : Bool) (p : ℕ)
    → b ≡ (i + p == k)
    → FlagsOf k i l
    → FlagsOf k i (modify_server (set_flag b) p l)
unfolding modify_server
FlagsOf-set_flag k i [] b p h f = tt
FlagsOf-set_flag k i (s ∷ l) b zero h f = (h ∙ ap (λ n. n == k) (add_zero i), f.1)
  where
    add_zero : (n : ℕ) → n + 0 ≡ n
    add_zero n = omega arith
FlagsOf-set_flag k i (s ∷ l) b (suc p) h f =
    (f.0, FlagsOf-set_flag k (suc i) l b p (h ∙ ap (λ n. n == k) (add_suc i p)) f.1)
  where
    add_suc : (n m : ℕ) → n + suc m ≡ suc n + m
    add_suc n m = omega arith

pub length-modify_server :
    (f : Server → Server) (i : ℕ) (l : List Server) → length (modify_server f i l) ≡ length l
unfolding modify_server
length-modify_server f i [] = refl
length-modify_server f zero (s ∷ l) = refl
length-modify_server f (suc i) (s ∷ l) = omega (arith, length-modify_server f i l)

pub length-deactivate_others :
    (now my i : ℕ) (l : List Server) → length (deactivate_others now my i l) ≡ length l
unfolding deactivate_others
length-deactivate_others now my i [] = refl
length-deactivate_others now my i (s ∷ l) = omega (arith, length-deactivate_others now my (suc i) l)

pub length-clear_old_leader :
    (k i : ℕ) (l : List Server) → length (clear_old_leader k i l) ≡ length l
unfolding clear_old_leader
length-clear_old_leader k i [] = refl
length-clear_old_leader k i (s ∷ l) = omega (arith, length-clear_old_leader k (suc i) l)

-- The servers as the new leader's branch, or the other branch, of set_leader leaves them.
module _ (now new : ℕ) (r : Relationship) (w : new < length r.servers) where
  abbrev pub flagged : Relationship
  flagged = record r { servers = modify_server (set_flag true) new r.servers }

  pub become_leader-flag_at :
      (j : ℕ) → flag_at (become_leader now flagged).servers j ≡ flag_at flagged.servers j
  unfolding become_leader
  become_leader-flag_at j =
      flag_at-modify (take_office now (r.current_version + 1)) r.myself
        (deactivate_others now r.myself 0 flagged.servers) j (λ s. ground arith)
      ∙ flag_at-deactivate_others now r.myself 0 flagged.servers j

  pub flag_at-flagged : flag_at flagged.servers new ≡ true
  flag_at-flagged = flag_at-set_flag true new r.servers w

  pub change_leader-FlagsOf :
      (s : Relationship)
      → flag_at s.servers new ≡ true
      → FlagsOf new 0 (change_leader new s).servers
  unfolding change_leader
  change_leader-FlagsOf s h =
      clear_old_leader-FlagsOf new 0 s.servers
        (λ j q j_within. subst (λ n. flag_at s.servers n ≡ true) (omega arith) h)

-- While there is a leader, it is one of the servers, and exactly its flag is set.
abbrev pub LedBy : Option ℕ → List Server → Type 0
LedBy none l = Unit
LedBy (some k) l = (k < length l) × FlagsOf k 0 l
