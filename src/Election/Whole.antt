-- ===== src/Election/Whole.antt =====
-- The pointers of a data group (server/server_group_info.c) and the lists of servers that
-- the election of server/master_election.c reads.
use faststore.Prelude.{
  ℕ, zero, suc, ◌+◌, ◌-◌, ◌≤◌, ◌<◌, ◌≡◌, inl, inr, true, leb, leb→le, and-cases, List, [], ◌∷◌,
  length, All, All-mono, Among, subst, sym, eq-or-ne, arith,
}
use faststore.Sort.{Among-sort, All-sort}
use faststore.Election.{
  DataServer, DataGroup, server_at, is_active, candidates, position_at, sort_ds_ptrs,
}

-- One pointer for every data server of the group, and none beside.
pub record IsWhole (g : DataGroup) : Type 0 where
  pub within : All (λ p. p < length g.data_servers) g.ds_ptrs
  pub covers : (i : ℕ) → i < length g.data_servers → Among i g.ds_ptrs

-- The pointers that init_ds_ptr_array makes, from a position on.
unfoldable pub pointers : ℕ → List DataServer → List ℕ
pointers i [] = []
pointers i (ds ∷ l) = i ∷ pointers (suc i) l

unfoldable pub init_ds_ptr_array : DataGroup → DataGroup
unfolding pointers
init_ds_ptr_array g = record g { ds_ptrs = pointers 0 g.data_servers }

pointers_within : (i : ℕ) (l : List DataServer) → All (λ p. p < i + length l) (pointers i l)
unfolding pointers
pointers_within i [] = tt
pointers_within i (ds ∷ l) = (
  omega arith,
  All-mono _ _ (λ p h. omega arith) (pointers (suc i) l) (pointers_within (suc i) l),
)

pointers_cover :
    (i : ℕ) (l : List DataServer) (p : ℕ) → i ≤ p → p < i + length l → Among p (pointers i l)
unfolding pointers
pointers_cover i [] p h q = absurd (omega arith)
pointers_cover i (ds ∷ l) p h q = elim (eq-or-ne p i) [
  | inl e ↦ inl e
  | inr n ↦ inr (pointers_cover (suc i) l p (omega arith) (omega arith))
]

pub init_ds_ptr_array-IsWhole : (g : DataGroup) → IsWhole (init_ds_ptr_array g)
unfolding init_ds_ptr_array
init_ds_ptr_array-IsWhole g = record {
  within =
      All-mono _ _ (λ p h. omega arith) (pointers 0 g.data_servers)
        (pointers_within 0 g.data_servers);
  covers = λ i h. pointers_cover 0 g.data_servers i (omega arith) (omega arith);
}

pub sort_ds_ptrs-IsWhole : (g : DataGroup) → IsWhole g → IsWhole (sort_ds_ptrs g)
unfolding sort_ds_ptrs
sort_ds_ptrs-IsWhole g w = record {
  within = All-sort _ _ g.ds_ptrs w.within;
  covers = λ i h. Among-sort _ g.ds_ptrs i (w.covers i h);
}

pub server_at-All :
    (P : DataServer → Type 0) (l : List DataServer) (i : ℕ)
    → All P l
    → i < length l
    → P (server_at l i)
unfolding server_at
server_at-All P [] i h q = absurd (omega arith)
server_at-All P (ds ∷ l) zero h q = h.0
server_at-All P (ds ∷ l) (suc i) h q = server_at-All P l i h.1 (omega arith)

pub All-server_at :
    (P : DataServer → Type 0) (l : List DataServer)
    → ((i : ℕ) → i < length l → P (server_at l i))
    → All P l
unfolding server_at
All-server_at P [] h = tt
All-server_at P (ds ∷ l) h = (h 0 (omega arith), All-server_at P l (λ i q. h (suc i) (omega arith)))

pub position_at-All :
    (P : ℕ → Type 0) (l : List ℕ) (n : ℕ) → All P l → n < length l → P (position_at l n)
unfolding position_at
position_at-All P [] n h q = absurd (omega arith)
position_at-All P (p ∷ l) zero h q = h.0
position_at-All P (p ∷ l) (suc n) h q = position_at-All P l n h.1 (omega arith)

-- A server that may be master with the data version asked for.
abbrev pub Qualified : ℕ → DataServer → Type 0
Qualified v ds = (is_active ds ≡ true) × (v ≤ ds.version)

length-candidates : (i v : ℕ) (l : List DataServer) → length (candidates i v l) ≤ length l
unfolding candidates
length-candidates i v [] = omega arith
length-candidates i v (ds ∷ l) = ground (arith, length-candidates (suc i) v l)

-- Where every server is a candidate, every server qualifies.
pub candidates-All :
    (i v : ℕ) (l : List DataServer) → length (candidates i v l) ≡ length l → All (Qualified v) l
unfolding candidates
candidates-All i v [] e = tt
candidates-All i v (ds ∷ l) e = elim (and-cases (is_active ds) (leb v ds.version)) [
  | inl q ↦ ((q.0, leb→le v ds.version q.1), candidates-All (suc i) v l (ground (arith, q)))
  | inr q ↦ absurd (ground (arith, q, length-candidates (suc i) v l))
]

-- A position `p` from `i` on is that of a server of the list that qualifies.
abbrev At : ℕ → ℕ → List DataServer → ℕ → Type 0
At i v l p = (i ≤ p) × (p - i < length l) × Qualified v (server_at l (p - i))

At-cons :
    (i v : ℕ) (ds : DataServer) (l : List DataServer) (p : ℕ) → At (suc i) v l p → At i v (ds ∷ l) p
unfolding server_at
At-cons i v ds l p h =
    (omega arith, omega arith, subst (λ k. Qualified v (server_at (ds ∷ l) k)) (sym farther) h.2)
  where
    farther : p - i ≡ suc (p - suc i)
    farther = omega (arith, h.0)

At-head : (i v : ℕ) (ds : DataServer) (l : List DataServer) → Qualified v ds → At i v (ds ∷ l) i
unfolding server_at
At-head i v ds l h =
    (omega arith, omega arith, subst (λ k. Qualified v (server_at (ds ∷ l) k)) (sym here) h)
  where
    here : i - i ≡ 0
    here = omega arith

-- The candidates are positions of servers that qualify.
pub candidates_each : (i v : ℕ) (l : List DataServer) → All (At i v l) (candidates i v l)
unfolding candidates
candidates_each i v [] = tt
candidates_each i v (ds ∷ l) =
    let later : All (At i v (ds ∷ l)) (candidates (suc i) v l) =
      All-mono _ _ (At-cons i v ds l) (candidates (suc i) v l) (candidates_each (suc i) v l) in
    elim (and-cases (is_active ds) (leb v ds.version)) [
      | inl q ↦ rw (q.0, q.1) (At-head i v ds l (q.0, leb→le v ds.version q.1), later)
      | inr q ↦ rw q later
    ]
