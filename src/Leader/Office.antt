-- ===== src/Leader/Office.antt =====
-- How a server becomes the leader, in two phases, and stops being it (server/cluster_relationship.c).
-- Servers are named by their positions in CLUSTER_SERVER_ARRAY.
pub mod Term
pub mod Set
use faststore.Prelude.{
  ℕ, zero, suc, ◌+◌, ◌==◌, if◌then◌else◌, Bool, true, false, Option, none, some, List, [], ◌∷◌,
  ◌++◌,
}
use faststore.Errno.{ebusy, eexist}
use faststore.Groups.{server_offline, server_active}

pub record Server : Type 0 where
  pub is_leader : Bool
  pub status : ℕ
  pub status_changed_time : ℕ
  pub last_ping_time : ℕ
  pub leader_version : ℕ

-- The calls of a new leader into cluster_topology.c and master_election.c.
pub data Duty : Type 0 where
  -- init_inactive_server_array
  watch_inactive : Duty
  -- cluster_topology_offline_all_data_servers
  offline_all : Duty
  -- master_election_unset_all_masters
  unset_all_masters : Duty

pub record Relationship : Type 0 where
  pub servers : List Server
  pub myself : ℕ
  pub leader : Option ℕ
  pub next_leader : Option ℕ
  pub current_version : ℕ
  pub retry_count : ℕ
  pub start_time_ms : ℕ
  pub duties : List Duty

unfoldable pub modify_server : (Server → Server) → ℕ → List Server → List Server
modify_server f i [] = []
modify_server f zero (s ∷ l) = f s ∷ l
modify_server f (suc i) (s ∷ l) = s ∷ modify_server f i l

-- cluster_relationship_set_server_status
abbrev pub set_server_status : ℕ → ℕ → Server → Server
set_server_status now status s =
    if status == s.status then s else record s { status = status; status_changed_time = now }

-- cluster_relationship_deactivate_all_servers, from position `i` on.
unfoldable pub deactivate_others : ℕ → ℕ → ℕ → List Server → List Server
deactivate_others now my i [] = []
deactivate_others now my i (s ∷ l) =
    (if i == my then s else set_server_status now server_offline s)
    ∷ deactivate_others now my (suc i) l

-- cluster_relationship_clear_old_leader, from position `i` on.
unfoldable pub clear_old_leader : ℕ → ℕ → List Server → List Server
clear_old_leader new i [] = []
clear_old_leader new i (s ∷ l) =
    (if i == new then s else record s { is_leader = false }) ∷ clear_old_leader new (suc i) l

abbrev pub set_flag : Bool → Server → Server
set_flag leads s = record s { is_leader = leads }

abbrev pub take_office : ℕ → ℕ → Server → Server
take_office now version s = record (set_server_status now server_active s) {
  last_ping_time = now + 1;
  leader_version = version;
}

unfoldable pub same_server : Option ℕ → ℕ → Bool
same_server none i = false
same_server (some k) i = k == i

-- This server is the new leader and was not the leader before.
unfoldable pub become_leader : ℕ → Relationship → Relationship
unfolding modify_server deactivate_others
become_leader now r = record r {
  servers =
      modify_server (take_office now (r.current_version + 1)) r.myself
        (deactivate_others now r.myself 0 r.servers);
  current_version = r.current_version + 1;
  duties = r.duties ++ watch_inactive ∷ offline_all ∷ [];
}

-- The leader changes: the pointer, and the flags of all other servers.
unfoldable pub change_leader : ℕ → Relationship → Relationship
unfolding clear_old_leader
change_leader new r = record r {
  leader = some new;
  servers = clear_old_leader new 0 r.servers;
  duties = if r.myself == new then r.duties ++ unset_all_masters ∷ [] else r.duties;
}

-- cluster_relationship_set_leader
unfoldable pub set_leader : ℕ → ℕ → Relationship → Relationship
unfolding modify_server same_server become_leader change_leader
set_leader now new r =
    let r1 = record r { servers = modify_server (set_flag true) new r.servers } in
    let r2 =
      if r.myself == new
      then (if same_server r.leader new then r1 else become_leader now r1)
      else record r1 { servers = modify_server (set_flag false) r1.myself r1.servers } in
    let r3 = if same_server r.leader new then r2 else change_leader new r2 in
    record r3 { start_time_ms = 0; retry_count = 0 }

unfoldable pub unset_of : Option ℕ → Relationship → Relationship
unfolding modify_server
unset_of none r = r
unset_of (some k) r = record r {
  servers = modify_server (set_flag false) k r.servers;
  leader = none;
}

-- cluster_unset_leader
unfoldable pub unset_leader : Relationship → Relationship
unfolding unset_of
unset_leader r = unset_of r.leader r

unfoldable pub pre_set_of : Option ℕ → ℕ → Relationship → Relationship × ℕ
pre_set_of none k r = (record r { next_leader = some k }, 0)
pre_set_of (some n) k r = if n == k then (r, 0) else (record r { next_leader = none }, eexist)

-- cluster_relationship_pre_set_leader
unfoldable pub pre_set_leader : ℕ → Relationship → Relationship × ℕ
unfolding pre_set_of
pre_set_leader k r = pre_set_of r.next_leader k r

unfoldable pub commit_of : Option ℕ → ℕ → ℕ → Relationship → Relationship × ℕ
unfolding set_leader
commit_of none now k r = (r, ebusy)
commit_of (some n) now k r =
    if n == k
    then (record (set_leader now k r) { next_leader = none }, 0)
    else (record r { next_leader = none }, ebusy)

-- cluster_relationship_commit_leader
unfoldable pub commit_leader : ℕ → ℕ → Relationship → Relationship × ℕ
unfolding commit_of
commit_leader now k r = commit_of r.next_leader now k r
