-- ===== src/Groups.antt =====
-- The servers of a data group as the leader's election and the changes of status read and write them
-- (FSClusterServerInfo, FSClusterDataServerInfo and FSClusterDataGroupInfo, server/server_types.h).
use faststore.Prelude.{ℕ, zero, suc, ◌==◌, if◌then◌else◌, Bool, false, Option, List, [], ◌∷◌}

-- FS_SERVER_STATUS_*.
abbrev pub server_offline : ℕ
server_offline = 0

abbrev pub server_online : ℕ
server_online = 1

abbrev pub server_active : ℕ
server_active = 2

pub record ClusterServer : Type 0 where
  pub id : ℕ
  pub status : ℕ
  pub status_changed_time : ℕ
  pub last_ping_time : ℕ

pub record DataServer : Type 0 where
  pub cs : ClusterServer
  pub status : ℕ
  pub version : ℕ
  pub is_preseted : Bool
  pub is_master : Bool

pub record DataGroup : Type 0 where
  pub hash_code : ℕ
  pub start_time_ms : ℕ
  pub retry_count : ℕ
  pub data_servers : List DataServer
  pub ds_ptrs : List ℕ
  pub myself : Option ℕ
  pub master : Option ℕ

-- The data server at a position; a pointer outside the array is not in a group that the server makes.
abbrev pub no_server : DataServer
no_server = record {
  cs = record { id = 0; status = 0; status_changed_time = 0; last_ping_time = 0 };
  status = 0;
  version = 0;
  is_preseted = false;
  is_master = false;
}

unfoldable pub server_at : List DataServer → ℕ → DataServer
server_at [] i = no_server
server_at (ds ∷ l) zero = ds
server_at (ds ∷ l) (suc i) = server_at l i

unfoldable pub is_active : DataServer → Bool
is_active ds = ds.cs.status == server_active

abbrev pub flag : Bool → ℕ
flag b = if b then 1 else 0
