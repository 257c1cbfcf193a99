-- ===== src/Leader/Tests.antt =====
-- Three servers that choose a leader.
use faststore.Prelude.{
  ℕ, ◌<◌, ◌≡◌, refl, sym, ap, ◌∙◌, inl, inr, Bool, true, false, some, none, List, [], ◌∷◌, All,
  Among, length, arith,
}
use faststore.Errno.{enoent}
use faststore.Leader.{ServerStatus, active_servers, cluster_get_leader}
use faststore.Leader.Choose.{YieldsTo, candidate-YieldsTo, same_candidate}
use faststore.Leader.Office.{Server, Relationship, pre_set_leader, commit_leader}
use faststore.Leader.Office.Term.{LedBy}
use faststore.Leader.Office.Set.{
  Committed, commit_leader-Committed, Reach-LedBy, here, next, announces, commits,
}

abbrev answer_of : ℕ → ℕ → Bool → ServerStatus
answer_of id version hint = record {
  server = id;
  is_leader = false;
  leader_hint = hint;
  force_election = false;
  server_id = id;
  up_time = 5000;
  last_shutdown_time = 4000;
  version = version;
}

abbrev first_order : List (ℕ × ServerStatus)
first_order =
    (0, answer_of 1 7 false) ∷ (0, answer_of 2 7 true) ∷ (enoent, answer_of 3 9 false) ∷ []

abbrev other_order : List (ℕ × ServerStatus)
other_order = (0, answer_of 2 7 true) ∷ (0, answer_of 1 7 false) ∷ []

first_candidate : (cluster_get_leader true first_order).candidate ≡ some (answer_of 2 7 true)
unfolding cluster_get_leader
first_candidate = refl

other_candidate : (cluster_get_leader true other_order).candidate ≡ some (answer_of 2 7 true)
unfolding cluster_get_leader
other_candidate = refl

candidate-YieldsTo_example :
    ((cluster_get_leader true first_order).result ≡ 0)
    × Among (answer_of 2 7 true) (active_servers first_order)
    × All (λ s. YieldsTo s (answer_of 2 7 true)) (active_servers first_order)
candidate-YieldsTo_example =
    candidate-YieldsTo true first_order (answer_of 2 7 true) first_candidate

swapped :
    (s : ServerStatus) → Among s (active_servers first_order) → Among s (active_servers other_order)
unfolding active_servers
swapped s (inl e) = inr (inl e)
swapped s (inr (inl e)) = inl e
swapped s (inr (inr m)) = absurd m

swapped_back :
    (s : ServerStatus) → Among s (active_servers other_order) → Among s (active_servers first_order)
unfolding active_servers
swapped_back s (inl e) = inr (inl e)
swapped_back s (inr (inl e)) = inl e
swapped_back s (inr (inr m)) = absurd m

two_ids :
    (s t : ServerStatus)
    → Among s (active_servers first_order)
    → Among t (active_servers first_order)
    → s.server_id ≡ t.server_id
    → s ≡ t
unfolding active_servers
two_ids s t (inl e) (inl f) h = e ∙ sym f
two_ids s t (inl e) (inr (inl f)) h = absurd (ids_differ s t e f h)
  where
    ids_differ :
        (s t : ServerStatus)
        → s ≡ answer_of 1 7 false
        → t ≡ answer_of 2 7 true
        → s.server_id ≡ t.server_id
        → ⊥
    ids_differ s t e f h = ground (arith, ap (λ z. z.server_id) e, ap (λ z. z.server_id) f)
two_ids s t (inr (inl e)) (inl f) h = absurd (ids_differ s t e f h)
  where
    ids_differ :
        (s t : ServerStatus)
        → s ≡ answer_of 2 7 true
        → t ≡ answer_of 1 7 false
        → s.server_id ≡ t.server_id
        → ⊥
    ids_differ s t e f h = ground (arith, ap (λ z. z.server_id) e, ap (λ z. z.server_id) f)
two_ids s t (inr (inl e)) (inr (inl f)) h = e ∙ sym f
two_ids s t (inr (inr m)) n h = absurd m
two_ids s t m (inr (inr n)) h = absurd n

same_candidate_example : answer_of 2 7 true ≡ answer_of 2 7 true
same_candidate_example =
    same_candidate true true first_order other_order (answer_of 2 7 true) (answer_of 2 7 true)
      swapped swapped_back two_ids first_candidate other_candidate

abbrev idle_server : Bool → Server
idle_server leads = record {
  is_leader = leads;
  status = 0;
  status_changed_time = 0;
  last_ping_time = 0;
  leader_version = 0;
}

-- Server 2 was the leader before the restart; server 0 is this one.
abbrev started : Relationship
started = record {
  servers = idle_server false ∷ idle_server false ∷ idle_server true ∷ [];
  myself = 0;
  leader = none;
  next_leader = none;
  current_version = 6;
  retry_count = 2;
  start_time_ms = 900;
  duties = [];
}

abbrev announced : Relationship
announced = record started { next_leader = some 0 }

commit_leader-Committed_example :
    Committed 0 announced (commit_leader 1000 0 announced)
    × ((commit_leader 1000 0 announced).0.next_leader ≡ none)
commit_leader-Committed_example = commit_leader-Committed 1000 0 announced (omega arith) tt

abbrev told : Relationship
told = (pre_set_leader 0 started).0

told_has_servers : 0 < length told.servers
unfolding pre_set_leader
told_has_servers = omega arith

Reach-LedBy_example :
    LedBy (commit_leader 1000 0 told).0.leader (commit_leader 1000 0 told).0.servers
Reach-LedBy_example =
    Reach-LedBy started (commit_leader 1000 0 told).0 refl
      (next (next here (announces started 0)) (commits told 1000 0 told_has_servers))
