-- ===== src/Election/Unset.antt =====
-- master_election_unset_all_masters (server/master_election.c): a new leader takes the masters away
-- from all groups and asks for an election of each.
use faststore.Prelude.{
  ℕ, zero, suc, ◌+◌, ◌<◌, ◌≤◌, ◌≡◌, ◌≢◌, refl, ap, ◌∙◌, subst, ◌⊎◌, inl, inr, eq-or-ne, ◌==◌,
  if◌then◌else◌, Bool, true, false, ◌||◌, Bool-cases, Option, some, none, List, [], ◌∷◌, ◌++◌,
  length, set_at, set_at-same, set_at-other, arith,
}
use faststore.Election.{DataGroup}
use faststore.Election.Change.{Event, notify, modify, with_master, on_master_change}
use faststore.Election.Offline.{on_master_change-master}
use faststore.Election.Rounds.{Elections, queue_push, push_to_delay_queue}
use faststore.Election.Counted.{
  occurs, IsCounted, queue_push-IsCounted, push_to_delay_queue-IsCounted,
}

-- The master of one group, taken away.
unfoldable pub unset_group : Bool → Option ℕ → DataGroup → DataGroup × List Event
unfolding modify on_master_change
unset_group i_am_leader none g = (g, [])
unset_group i_am_leader (some m) g =
    let g' = record g {
      master = none;
      data_servers = modify (with_master false) m g.data_servers;
    } in
    let told = (on_master_change i_am_leader g' (some m) none).0 in
    (told.group, told.events ++ notify m ∷ [])

-- A group of one server is queued at once, any other after a delay.
unfoldable pub ask_election : ℕ → Elections → ℕ → Elections
unfolding queue_push push_to_delay_queue
ask_election pushed s k =
    if length (s.groups k).data_servers == 1
    then (queue_push pushed s k).0
    else (push_to_delay_queue pushed s k).0

unfoldable pub unset_one : ℕ → Bool → Elections → ℕ → Elections
unfolding unset_group ask_election
unset_one pushed i_am_leader s k =
    ask_election pushed
      (record s {
        groups = set_at s.groups k (unset_group i_am_leader (s.groups k).master (s.groups k)).0;
      })
      k

-- The loop, over `n` groups from index `k` on.
unfoldable pub unset_from : ℕ → Bool → ℕ → ℕ → Elections → Elections
unfolding unset_one
unset_from pushed i_am_leader zero k s = s
unset_from pushed i_am_leader (suc n) k s =
    unset_from pushed i_am_leader n (suc k) (unset_one pushed i_am_leader s k)

unfoldable pub unset_all_masters : ℕ → Bool → ℕ → Elections → Elections
unfolding unset_from
unset_all_masters pushed i_am_leader count s = unset_from pushed i_am_leader count 0 s

-- A group has no master, and its election is waited for.
abbrev pub AwaitsElection : Elections → ℕ → Type 0
AwaitsElection s k = ((s.groups k).master ≡ none) × ((s.in_queue k || s.in_delay_queue k) ≡ true)

unset_group-master :
    (i_am_leader : Bool) (m : Option ℕ) (g : DataGroup)
    → g.master ≡ m
    → (unset_group i_am_leader m g).0.master ≡ none
unfolding unset_group
unset_group-master i_am_leader none g e = e
unset_group-master i_am_leader (some m) g e =
    on_master_change-master i_am_leader
      (record g { master = none; data_servers = modify (with_master false) m g.data_servers })
      (some m) none

module _ (pushed : ℕ) (s : Elections) (k : ℕ) where
  ask_election-groups : (ask_election pushed s k).groups ≡ s.groups
  unfolding ask_election
  ask_election-groups = ground arith

  ask_election-flag :
      ((ask_election pushed s k).in_queue k || (ask_election pushed s k).in_delay_queue k) ≡ true
  unfolding ask_election
  ask_election-flag =
      ground (arith, set_at-same s.in_queue k true, set_at-same s.in_delay_queue k true)

  ask_election-other :
      (j : ℕ)
      → k ≢ j
      → ((ask_election pushed s k).in_queue j ≡ s.in_queue j)
        × ((ask_election pushed s k).in_delay_queue j ≡ s.in_delay_queue j)
  unfolding ask_election
  ask_election-other j n = (ground (arith, n), ground (arith, n))

module _ (pushed : ℕ) (i_am_leader : Bool) (s : Elections) (k : ℕ) where
  abbrev after : DataGroup
  after = (unset_group i_am_leader (s.groups k).master (s.groups k)).0

  abbrev without_master : Elections
  without_master = record s { groups = set_at s.groups k after }

  unset_one-Awaits : AwaitsElection (unset_one pushed i_am_leader s k) k
  unfolding unset_one
  unset_one-Awaits = (
    ap (λ f. (f k).master) (ask_election-groups pushed without_master k)
        ∙ ap (λ g. g.master) (set_at-same s.groups k after)
        ∙ unset_group-master i_am_leader (s.groups k).master (s.groups k) refl,
    ask_election-flag pushed without_master k,
  )

  unset_one-Awaits_other :
      (j : ℕ) → k ≢ j → AwaitsElection s j → AwaitsElection (unset_one pushed i_am_leader s k) j
  unfolding unset_one
  unset_one-Awaits_other j n w = (
    ap (λ f. (f j).master) (ask_election-groups pushed without_master k)
        ∙ ap (λ g. g.master) (set_at-other s.groups k after j n)
        ∙ w.0,
    rw
        (
          (ask_election-other pushed without_master k j n).0,
          (ask_election-other pushed without_master k j n).1,
        )
        w.1,
  )

unset_from-Awaits :
    (pushed : ℕ) (i_am_leader : Bool) (n k : ℕ) (s : Elections) (j : ℕ)
    → AwaitsElection s j ⊎ ((k ≤ j) × (j < k + n))
    → AwaitsElection (unset_from pushed i_am_leader n k s) j
unfolding unset_from
unset_from-Awaits pushed i_am_leader zero k s j (inl w) = w
unset_from-Awaits pushed i_am_leader zero k s j (inr h) = absurd (omega (arith, h))
unset_from-Awaits pushed i_am_leader (suc n) k s j h = elim (eq-or-ne k j) [
  | inl e ↦
      unset_from-Awaits pushed i_am_leader n (suc k) s' j
        (inl (subst (AwaitsElection s') e (unset_one-Awaits pushed i_am_leader s k)))
  | inr d ↦ unset_from-Awaits pushed i_am_leader n (suc k) s' j (further d h)
]
  where
    s' : Elections
    s' = unset_one pushed i_am_leader s k

    further :
        k ≢ j
        → AwaitsElection s j ⊎ ((k ≤ j) × (j < k + suc n))
        → AwaitsElection s' j ⊎ ((suc k ≤ j) × (j < suc k + n))
    further d (inl w) = inl (unset_one-Awaits_other pushed i_am_leader s k j d w)
    further d (inr q) = inr (omega (arith, q, d), omega (arith, q))

unset_one-IsCounted :
    (i_am_leader : Bool) (s : Elections) (k : ℕ)
    → IsCounted s
    → IsCounted (unset_one 0 i_am_leader s k)
unfolding unset_one ask_election
unset_one-IsCounted i_am_leader s k c =
    elim (Bool-cases (length ((without_master 0 i_am_leader s k).groups k).data_servers == 1)) [
      | inl q ↦ rw (unset_one, q) (queue_push-IsCounted (without_master 0 i_am_leader s k) k same)
      | inr q ↦
          rw (unset_one, q)
            (push_to_delay_queue-IsCounted (without_master 0 i_am_leader s k) k same)
    ]
  where
    same : IsCounted (without_master 0 i_am_leader s k)
    same = record { waiting = c.waiting; queued = c.queued; delayed = c.delayed }

unset_from-IsCounted :
    (i_am_leader : Bool) (n k : ℕ) (s : Elections)
    → IsCounted s
    → IsCounted (unset_from 0 i_am_leader n k s)
unfolding unset_from
unset_from-IsCounted i_am_leader zero k s c = c
unset_from-IsCounted i_am_leader (suc n) k s c =
    unset_from-IsCounted i_am_leader n (suc k) (unset_one 0 i_am_leader s k)
      (unset_one-IsCounted i_am_leader s k c)

-- After master_election_unset_all_masters, with pushes that succeed, every group has no master and
-- stands in the queue or in the delay queue, and the queues still agree with their flags and count.
pub unset_all_masters-Awaits :
    (i_am_leader : Bool) (count k : ℕ) (s : Elections)
    → IsCounted s
    → k < count
    → (((unset_all_masters 0 i_am_leader count s).groups k).master ≡ none)
      × (1
          ≤ occurs k (unset_all_masters 0 i_am_leader count s).queue
            + occurs k (unset_all_masters 0 i_am_leader count s).delay_queue)
      × IsCounted (unset_all_masters 0 i_am_leader count s)
unfolding unset_all_masters
unset_all_masters-Awaits i_am_leader count k s c h =
    (waits.0, ground (arith, counted.queued k, counted.delayed k, waits.1), counted)
  where
    counted : IsCounted (unset_from 0 i_am_leader count 0 s)
    counted = unset_from-IsCounted i_am_leader count 0 s c

    waits : AwaitsElection (unset_from 0 i_am_leader count 0 s) k
    waits = unset_from-Awaits 0 i_am_leader count 0 s k (inr (omega arith, omega arith))
