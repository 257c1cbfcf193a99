-- ===== src/RpcRing/Queue.antt =====
-- The queue of a data group stays sorted by data version; what adding and removing do to it.
use faststore.Prelude.{
  ℕ, ◌<◌, ◌≤◌, ◌≡◌, refl, List, [], ◌∷◌, ◌++◌, Option, none, some, arith, ◌==◌, if◌then◌else◌, All,
  All-mono, sym, inl, inr, le-or-lt, lt→ltb, le→ltb,
}
use faststore.RpcRing.{
  FsReplicaRpcResultEntry, insert_entry, queue_with, unlink_entry, queue_without, tail_of,
}

abbrev Below : ℕ → FsReplicaRpcResultEntry → Type 0
Below v e = v < e.data_version

-- Strictly ascending by data version.
abbrev pub Sorted : List FsReplicaRpcResultEntry → Type 0
Sorted [] = Unit
Sorted (x ∷ xs) = All (Below x.data_version) xs × Sorted xs

-- The first entry of a data version.
abbrev pub find : ℕ → List FsReplicaRpcResultEntry → Option FsReplicaRpcResultEntry
find v [] = none
find v (x ∷ xs) = if x.data_version == v then some x else find v xs

-- The list without a data version.
abbrev pub without : ℕ → List FsReplicaRpcResultEntry → List FsReplicaRpcResultEntry
without v [] = []
without v (x ∷ xs) = if x.data_version == v then xs else x ∷ without v xs

find-Below :
    (l : List FsReplicaRpcResultEntry) (a v : ℕ) → All (Below a) l → v ≤ a → find v l ≡ none
find-Below [] a v h k = refl
find-Below (x ∷ l) a v h k = ground (arith, find-Below l a v h.1 k)

All-Below : (l : List FsReplicaRpcResultEntry) (a b : ℕ) → a ≤ b → All (Below b) l → All (Below a) l
All-Below l a b h = All-mono (Below b) (Below a) (λ x k. omega arith) l

-- The last entry has the greatest version.
tail_of-greatest :
    (h : FsReplicaRpcResultEntry) (l : List FsReplicaRpcResultEntry)
    → Sorted (h ∷ l)
    → All (λ x. x.data_version ≤ (tail_of h l).data_version) (h ∷ l)
tail_of-greatest h [] s = (omega arith, tt)
tail_of-greatest h (x ∷ l) s = let r = tail_of-greatest x l s.1 in (grind arith, r)

insert_entry-last :
    (e : FsReplicaRpcResultEntry) (l : List FsReplicaRpcResultEntry)
    → All (λ x. x.data_version < e.data_version) l
    → insert_entry e l ≡ l ++ e ∷ []
unfolding insert_entry
insert_entry-last e [] h = refl
insert_entry-last e (x ∷ l) h = ground (arith, insert_entry-last e l h.1)

-- The shortcuts for the tail and the head lead to the same place as the walk.
pub queue_with-insert_entry :
    (e : FsReplicaRpcResultEntry) (l : List FsReplicaRpcResultEntry)
    → Sorted l
    → find e.data_version l ≡ none
    → queue_with e l ≡ insert_entry e l
unfolding insert_entry queue_with
queue_with-insert_entry e [] s n = refl
queue_with-insert_entry e (h ∷ l) s n = elim (le-or-lt e.data_version (tail_of h l).data_version) [
  | inl k ↦ ground arith
  | inr k ↦
      rw (lt→ltb (tail_of h l).data_version e.data_version k)
        (sym (insert_entry-last e (h ∷ l) (all k)))
]
  where
    all :
        (tail_of h l).data_version < e.data_version
        → All (λ x. x.data_version < e.data_version) (h ∷ l)
    all k =
        All-mono (λ x. x.data_version ≤ (tail_of h l).data_version)
          (λ x. x.data_version < e.data_version) (λ x b. omega arith) (h ∷ l)
          (tail_of-greatest h l s)

insert_entry-Below :
    (e : FsReplicaRpcResultEntry) (l : List FsReplicaRpcResultEntry) (a : ℕ)
    → a < e.data_version
    → All (Below a) l
    → All (Below a) (insert_entry e l)
unfolding insert_entry
insert_entry-Below e [] a k h = (k, tt)
insert_entry-Below e (x ∷ l) a k h = ground (arith, insert_entry-Below e l a k h.1)

pub insert_entry-Sorted :
    (e : FsReplicaRpcResultEntry) (l : List FsReplicaRpcResultEntry)
    → Sorted l
    → find e.data_version l ≡ none
    → Sorted (insert_entry e l)
unfolding insert_entry
insert_entry-Sorted e [] s n = (tt, tt)
insert_entry-Sorted e (x ∷ l) s n = elim (le-or-lt e.data_version x.data_version) [
  | inl k ↦
      rw (le→ltb x.data_version e.data_version k)
        ((strict k, All-Below l e.data_version x.data_version k s.0), (s.0, s.1))
  | inr k ↦
      rw (lt→ltb x.data_version e.data_version k)
        (insert_entry-Below e l x.data_version k s.0, insert_entry-Sorted e l s.1 (rest k))
]
  where
    strict : e.data_version ≤ x.data_version → e.data_version < x.data_version
    strict k = ground arith

    rest : x.data_version < e.data_version → find e.data_version l ≡ none
    rest k = ground arith

pub find-insert_entry :
    (e : FsReplicaRpcResultEntry) (l : List FsReplicaRpcResultEntry) (w : ℕ)
    → Sorted l
    → find e.data_version l ≡ none
    → find w (insert_entry e l) ≡ (if e.data_version == w then some e else find w l)
unfolding insert_entry
find-insert_entry e [] w s n = refl
find-insert_entry e (x ∷ l) w s n = ground (arith, find-insert_entry e l w s.1)

unlink_entry-find :
    (v : ℕ) (l : List FsReplicaRpcResultEntry)
    → Sorted l
    → unlink_entry v l ≡ elim (find v l) [ none ↦ none | some e ↦ some (e, without v l) ]
unfolding unlink_entry
unlink_entry-find v [] s = refl
unlink_entry-find v (x ∷ l) s =
    ground (arith, unlink_entry-find v l s.1, find-Below l x.data_version v s.0)

pub queue_without-find :
    (v : ℕ) (l : List FsReplicaRpcResultEntry)
    → Sorted l
    → queue_without v l ≡ elim (find v l) [ none ↦ none | some e ↦ some (e, without v l) ]
unfolding queue_without
queue_without-find v [] s = refl
queue_without-find v (x ∷ l) s = ground (arith, unlink_entry-find v l s.1)

without-Below :
    (v : ℕ) (l : List FsReplicaRpcResultEntry) (a : ℕ)
    → All (Below a) l
    → All (Below a) (without v l)
without-Below v [] a h = tt
without-Below v (x ∷ l) a h = ground (arith, without-Below v l a h.1)

pub without-Sorted : (v : ℕ) (l : List FsReplicaRpcResultEntry) → Sorted l → Sorted (without v l)
without-Sorted v [] s = tt
without-Sorted v (x ∷ l) s =
    ground (arith, without-Sorted v l s.1, without-Below v l x.data_version s.0)

pub find-without :
    (v : ℕ) (l : List FsReplicaRpcResultEntry) (w : ℕ)
    → Sorted l
    → find w (without v l) ≡ (if v == w then none else find w l)
find-without v [] w s = ground arith
find-without v (x ∷ l) w s =
    ground (arith, find-without v l w s.1, find-Below l x.data_version w s.0)
