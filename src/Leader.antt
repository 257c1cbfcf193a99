-- ===== src/Leader.antt =====
-- The choice of the cluster's leader from the servers' answers (server/cluster_relationship.c).
--
-- The answers of the servers are an argument: one result and status for each server of the cluster, as
-- cluster_get_server_status gives it. A server has been up since after its last shutdown, so that the
-- difference of the two times is a natural number.
pub mod Choose
pub mod Inactive
pub mod Office
mod Tests
use faststore.Prelude.{
  ℕ, suc, ◌+◌, ◌-◌, ◌*◌, ◌/◌, ◌==◌, ltb, if◌then◌else◌, Bool, true, false, ◌||◌, Option, none, some,
  List, [], ◌∷◌, length, last?,
}
use faststore.Errno.{enoent, enomem}
pub use faststore.Groups.{flag}
use faststore.Sort.{Comparison, sign_of, or_else, sort}

pub record ServerStatus : Type 0 where
  pub server : ℕ
  pub is_leader : Bool
  pub leader_hint : Bool
  pub force_election : Bool
  pub server_id : ℕ
  pub up_time : ℕ
  pub last_shutdown_time : ℕ
  pub version : ℕ

-- ALIGN_TIME
abbrev pub align_time : ℕ → ℕ
align_time interval = interval / 60 * 60

abbrev pub restart_interval : ServerStatus → ℕ
restart_interval s = align_time (s.up_time - s.last_shutdown_time)

unfoldable pub cluster_cmp_server_status : ServerStatus → ServerStatus → Comparison
cluster_cmp_server_status a b = or_else (sign_of (flag a.is_leader) (flag b.is_leader)) (
    or_else (sign_of a.version b.version) (
      or_else (sign_of (flag a.leader_hint) (flag b.leader_hint)) (
        or_else (sign_of (flag a.force_election) (flag b.force_election)) (
          or_else (sign_of (align_time b.up_time) (align_time a.up_time)) (
            or_else (sign_of (restart_interval b) (restart_interval a))
              (sign_of a.server_id b.server_id))))))

-- The loop of cluster_get_leader: the statuses of the servers that answered.
unfoldable pub active_servers : List (ℕ × ServerStatus) → List ServerStatus
active_servers [] = []
active_servers ((r, s) ∷ l) = let rest = active_servers l in if r == 0 then s ∷ rest else rest

-- The loop's `result`: the last error that is not ENOENT.
unfoldable pub last_error : ℕ → List (ℕ × ServerStatus) → ℕ
last_error result [] = result
last_error result ((r, s) ∷ l) = last_error (if r == 0 || r == enoent then result else r) l

pub record LeaderAnswer : Type 0 where
  pub result : ℕ
  pub active_count : ℕ
  pub candidate : Option ServerStatus

-- The end of cluster_get_leader, for the sorted statuses.
unfoldable pub answer_leader : ℕ → ℕ → Option ServerStatus → LeaderAnswer
answer_leader error count none = record {
  result = if error == 0 then enoent else error;
  active_count = count;
  candidate = none;
}
answer_leader error count (some s) = record { result = 0; active_count = count; candidate = some s }

-- `alloc` is whether the array for eight or more servers can be allocated.
unfoldable pub cluster_get_leader : Bool → List (ℕ × ServerStatus) → LeaderAnswer
unfolding cluster_cmp_server_status active_servers last_error answer_leader sort
cluster_get_leader alloc replies =
    if ltb (length replies) 8 || alloc
    then answer_leader (last_error 0 replies) (length (active_servers replies))
        (last? (sort cluster_cmp_server_status (active_servers replies)))
    else record { result = enomem; active_count = 0; candidate = none }
