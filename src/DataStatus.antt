-- ===== src/DataStatus.antt =====
-- The status of a data server (FS_DS_STATUS_*, common/fs_types.h) and how the server lowers it
-- (server/server_group_info.c, server/cluster_topology.c).
use faststore.Prelude.{ℕ, ◌≤◌, ◌≡◌, ◌⊎◌, Bool, leb, ◌==◌, ◌||◌, if◌then◌else◌, arith}
use faststore.Errno.{einval}

abbrev pub ds_init : ℕ
ds_init = 0

abbrev pub ds_rebuilding : ℕ
ds_rebuilding = 1

abbrev pub ds_offline : ℕ
ds_offline = 2

abbrev pub ds_recovering : ℕ
ds_recovering = 3

abbrev pub ds_online : ℕ
ds_online = 4

abbrev pub ds_active : ℕ
ds_active = 5

-- The result, and the status written to *new_status.
unfoldable pub fs_downgrade_data_server_status : ℕ → ℕ × ℕ
fs_downgrade_data_server_status old =
    if old == ds_init || old == ds_offline
    then (0, old)
    else if old == ds_rebuilding
    then (0, ds_init)
    else if old == ds_recovering || old == ds_online || old == ds_active
    then (0, ds_offline)
    else (einval, ds_init)

-- The status that downgrade_data_server_status asks for.
unfoldable pub downgraded : Bool → ℕ → ℕ
unfolding fs_downgrade_data_server_status
downgraded remove_recovery_flag old =
    if old == ds_active
    then ds_offline
    else if remove_recovery_flag
    then (fs_downgrade_data_server_status old).1
    else old

-- A status that a server can take up its work from after a start: nothing of it is still going on.
abbrev pub IsAtRest : ℕ → Type 0
IsAtRest status = (status ≡ ds_init) ⊎ (status ≡ ds_offline)

-- Whatever number is read from the file, the new status is INIT or OFFLINE and not above the old one,
-- lowering it again changes nothing and succeeds, and the call succeeds exactly for the known statuses.
pub downgrade-IsAtRest :
    (old : ℕ)
    → IsAtRest (fs_downgrade_data_server_status old).1
      × ((fs_downgrade_data_server_status old).1 ≤ old)
      × (fs_downgrade_data_server_status (fs_downgrade_data_server_status old).1
          ≡ (0, (fs_downgrade_data_server_status old).1))
      × (((fs_downgrade_data_server_status old).0 == 0) ≡ leb old ds_active)
unfolding fs_downgrade_data_server_status
downgrade-IsAtRest old = grind arith
