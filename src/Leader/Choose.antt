-- ===== src/Leader/Choose.antt =====
-- Which server is the candidate for the leader (server/cluster_relationship.c).
use faststore.Prelude.{
  ℕ, ◌<◌, ◌≡◌, ◌≢◌, refl, ◌⊎◌, inl, inr, ltb, ◌||◌, Bool, Bool-cases, le-or-lt, Option, none, some,
  List, [], ◌∷◌, length, last?, last?-All, All, All-at, All-mono, Among, Among-All, arith,
}
use faststore.Sort.{
  Comparison, sign_of, or_else, greater, equal, sort, IsOrder, or_else-IsOrder, by_key-IsOrder,
  by_key_down-IsOrder, last-sort, sort-Among,
}
use faststore.Leader.{
  ServerStatus, align_time, flag, restart_interval, cluster_cmp_server_status, active_servers,
  last_error, answer_leader, cluster_get_leader,
}

cluster_cmp_server_status-IsOrder : IsOrder cluster_cmp_server_status
unfolding cluster_cmp_server_status
cluster_cmp_server_status-IsOrder = or_else-IsOrder _ _ (by_key-IsOrder (λ s. flag s.is_leader)) (
    or_else-IsOrder _ _ (by_key-IsOrder (λ s. s.version)) (
      or_else-IsOrder _ _ (by_key-IsOrder (λ s. flag s.leader_hint)) (
        or_else-IsOrder _ _ (by_key-IsOrder (λ s. flag s.force_election)) (
          or_else-IsOrder _ _ (by_key_down-IsOrder (λ s. align_time s.up_time)) (
            or_else-IsOrder _ _ (by_key_down-IsOrder restart_interval)
              (by_key-IsOrder (λ s. s.server_id)))))))

-- Of two lists of keys, given in pairs, the first comes before the second or is the same: the first
-- pair that differs decides.
abbrev pub Precedes : List (ℕ × ℕ) → Type 0
Precedes [] = Unit
Precedes ((x, y) ∷ l) = (x < y) ⊎ ((x ≡ y) × Precedes l)

-- A status does not speak more for its server than another: by being the leader, by a later version,
-- by the hint, by a forced election, by an earlier start, by a shorter restart, and at last by a
-- larger id.
abbrev pub YieldsTo : ServerStatus → ServerStatus → Type 0
YieldsTo s t = Precedes (
    (flag s.is_leader, flag t.is_leader)
    ∷ (s.version, t.version)
    ∷ (flag s.leader_hint, flag t.leader_hint)
    ∷ (flag s.force_election, flag t.force_election)
    ∷ (align_time t.up_time, align_time s.up_time)
    ∷ (restart_interval t, restart_interval s)
    ∷ (s.server_id, t.server_id)
    ∷ [])

first_key :
    {L : Type 0} (x y : ℕ) (d : Comparison)
    → (d ≢ greater → L)
    → or_else (sign_of x y) d ≢ greater
    → (x < y) ⊎ ((x ≡ y) × L)
first_key x y d later h = elim (le-or-lt y x) [
  | inr below ↦ inl below
  | inl above ↦ inr (ground (arith, h, above), later (λ q. h (ground (arith, h, q, above))))
]

last_key : (x y : ℕ) → sign_of x y ≢ greater → Precedes ((x, y) ∷ [])
last_key x y h = elim (le-or-lt y x) [
  | inr below ↦ inl below
  | inl above ↦ inr (ground (arith, h, above), tt)
]

cmp_YieldsTo : (s t : ServerStatus) → cluster_cmp_server_status s t ≢ greater → YieldsTo s t
unfolding cluster_cmp_server_status
cmp_YieldsTo s t = first_key _ _ _ (
    first_key _ _ _
      (first_key _ _ _ (first_key _ _ _ (first_key _ _ _ (first_key _ _ _ (last_key _ _))))))

equal_same_id :
    (s t : ServerStatus) → cluster_cmp_server_status s t ≡ equal → s.server_id ≡ t.server_id
unfolding cluster_cmp_server_status
equal_same_id s t h = ground arith

-- Statuses that do not come before one another are of the same server.
both_ways :
    (s t : ServerStatus)
    → cluster_cmp_server_status s t ≢ greater
    → cluster_cmp_server_status t s ≢ greater
    → cluster_cmp_server_status s t ≡ equal
both_ways s t h k = ground (arith, cluster_cmp_server_status-IsOrder.swap s t)

answer_candidate :
    (error count : ℕ) (o : Option ServerStatus) {m : ServerStatus}
    → (answer_leader error count o).candidate ≡ some m
    → (o ≡ some m) × ((answer_leader error count o).result ≡ 0)
unfolding answer_leader
answer_candidate error count none h = absurd (ground arith)
answer_candidate error count (some s) h = (h, refl)

-- A candidate is the last of the sorted statuses.
candidate_is_last :
    (alloc : Bool) (replies : List (ℕ × ServerStatus)) {m : ServerStatus}
    → (cluster_get_leader alloc replies).candidate ≡ some m
    → (last? (sort cluster_cmp_server_status (active_servers replies)) ≡ some m)
      × ((cluster_get_leader alloc replies).result ≡ 0)
unfolding cluster_get_leader answer_leader
candidate_is_last alloc replies {m} h = elim (Bool-cases (ltb (length replies) 8 || alloc)) [
  | inl q ↦
      rw (cluster_get_leader, q)
        (answer_candidate (last_error 0 replies) (length (active_servers replies))
          (last? (sort cluster_cmp_server_status (active_servers replies)))
          (rw (cluster_get_leader, q) at h))
  | inr q ↦ absurd (no_candidate (rw (cluster_get_leader, q) at h))
]
  where
    no_candidate : ◌≡◌ {A = Option ServerStatus} none (some m) → ⊥
    no_candidate e = ground arith

module _ (alloc : Bool) (replies : List (ℕ × ServerStatus)) where
  candidate-Among :
      (m : ServerStatus)
      → (cluster_get_leader alloc replies).candidate ≡ some m
      → Among m (active_servers replies)
  candidate-Among m h = sort-Among cluster_cmp_server_status (active_servers replies) m (
      last?-All (λ s. Among s sorted) sorted (Among-All _ sorted (λ s k. k))
        (candidate_is_last alloc replies h).0)
    where
      sorted : List ServerStatus
      sorted = sort cluster_cmp_server_status (active_servers replies)

  candidate-greatest :
      (m : ServerStatus)
      → (cluster_get_leader alloc replies).candidate ≡ some m
      → All (λ s. cluster_cmp_server_status s m ≢ greater) (active_servers replies)
  candidate-greatest m h =
      last-sort cluster_cmp_server_status cluster_cmp_server_status-IsOrder (active_servers replies)
        m (candidate_is_last alloc replies h).0

  -- A candidate for the leader is one of the servers that answered, the call succeeds, and every
  -- answer yields to that of the candidate by the first of the seven keys that differs.
  pub candidate-YieldsTo :
      (m : ServerStatus)
      → (cluster_get_leader alloc replies).candidate ≡ some m
      → ((cluster_get_leader alloc replies).result ≡ 0)
        × Among m (active_servers replies)
        × All (λ s. YieldsTo s m) (active_servers replies)
  candidate-YieldsTo m h = (
    (candidate_is_last alloc replies h).1,
    candidate-Among m h,
    All-mono _ _ (λ s q. cmp_YieldsTo s m q) (active_servers replies) (candidate-greatest m h),
  )

-- Two servers that have answers of the same servers, whatever their order, find the same candidate,
-- as long as no two of the answers have one server id.
pub same_candidate :
    (alloc1 alloc2 : Bool) (replies1 replies2 : List (ℕ × ServerStatus)) (m1 m2 : ServerStatus)
    → ((s : ServerStatus) → Among s (active_servers replies1) → Among s (active_servers replies2))
    → ((s : ServerStatus) → Among s (active_servers replies2) → Among s (active_servers replies1))
    → ((s t : ServerStatus)
        → Among s (active_servers replies1)
        → Among t (active_servers replies1)
        → s.server_id ≡ t.server_id
        → s ≡ t)
    → (cluster_get_leader alloc1 replies1).candidate ≡ some m1
    → (cluster_get_leader alloc2 replies2).candidate ≡ some m2
    → m1 ≡ m2
same_candidate alloc1 alloc2 replies1 replies2 m1 m2 to from unique h1 h2 =
    unique m1 m2 in1 (from m2 in2) (
      equal_same_id m1 m2 (
        both_ways m1 m2
          (All-at _ (active_servers replies2) m1 (candidate-greatest alloc2 replies2 m2 h2)
            (to m1 in1))
          (All-at _ (active_servers replies1) m2 (candidate-greatest alloc1 replies1 m1 h1)
            (from m2 in2))))
  where
    in1 : Among m1 (active_servers replies1)
    in1 = candidate-Among alloc1 replies1 m1 h1

    in2 : Among m2 (active_servers replies2)
    in2 = candidate-Among alloc2 replies2 m2 h2
