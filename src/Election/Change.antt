-- ===== src/Election/Change.antt =====
-- The changes of one data group on the leader and its followers: the status of a data server, the
-- group's master, and a server that goes offline (server/cluster_relationship.c,
-- server/cluster_topology.c). One thread runs each of these at a time here, so that a compare and
-- swap fails only where the value was not the expected one. A call that leaves the group, such as a
-- push to the queue of another thread, is an event of the outcome.
use faststore.Prelude.{
  ℕ, zero, suc, ◌==◌, if◌then◌else◌, Bool, true, false, not, ◌&&◌, ◌||◌, Option, some, none, List,
  [], ◌∷◌, ◌++◌, length,
}
use faststore.Errno.{einval}
use faststore.DataStatus.{ds_init, ds_offline, ds_active, downgraded}
use faststore.Election.{DataServer, DataGroup, server_at}

pub data Event : Type 0 where
  -- cluster_topology_data_server_chg_notify
  notify : ℕ → Event
  -- report_ds_status_to_leader
  report : ℕ → ℕ → Event
  -- cluster_relationship_trigger_report_ds_status
  trigger_report : ℕ → Event
  -- recovery_thread_push_to_queue and recovery_thread_check_push_to_queue
  recovery_push : ℕ → Event
  recovery_check : ℕ → Event
  -- master_election_queue_push, of this group
  election_push : Event

pub record Outcome : Type 0 where
  pub group : DataGroup
  pub events : List Event
  pub changed : Bool

unfoldable pub modify : (DataServer → DataServer) → ℕ → List DataServer → List DataServer
modify f i [] = []
modify f zero (ds ∷ l) = f ds ∷ l
modify f (suc i) (ds ∷ l) = ds ∷ modify f i l

abbrev pub with_status : ℕ → DataServer → DataServer
with_status status ds = record ds { status = status }

abbrev pub with_master : Bool → DataServer → DataServer
with_master master ds = record ds { is_master = master }

unfoldable pub same_server : Option ℕ → ℕ → Bool
same_server none i = false
same_server (some k) i = k == i

-- The data server is that of this process: ds->cs == CLUSTER_MYSELF_PTR.
unfoldable pub is_myself : DataGroup → ℕ → Bool
unfolding same_server
is_myself g i = same_server g.myself i

-- cluster_relationship_on_status_change.
unfoldable pub on_status_change : DataGroup → ℕ → ℕ → List Event
unfolding is_myself
on_status_change g i new = elim g.master [
  | none ↦ []
  | some m ↦
      if is_myself g i && ((new == ds_init || new == ds_offline) && not (is_myself g m))
      then recovery_push i ∷ []
      else []
]

unfoldable pub set_ds_status_ex : DataGroup → ℕ → ℕ → ℕ → Outcome
unfolding server_at modify on_status_change
set_ds_status_ex g i old new =
    if new == old
    then record { group = g; events = []; changed = false }
    else if (server_at g.data_servers i).status == old
    then record {
      group = record g { data_servers = modify (with_status new) i g.data_servers };
      events = on_status_change g i new;
      changed = true;
    }
    else record { group = g; events = []; changed = false }

-- cluster_relationship_report_ds_status after the status has changed: the swap of the leader's
-- branch then finds the new status and changes nothing.
unfoldable pub report_ds_status : Bool → DataGroup → ℕ → ℕ → List Event
unfolding is_myself
report_ds_status i_am_leader g i new =
    if i_am_leader
    then notify i ∷ []
    else report i new ∷ (if is_myself g i then trigger_report i ∷ [] else [])

unfoldable pub swap_report_ds_status : Bool → DataGroup → ℕ → ℕ → ℕ → Outcome
unfolding set_ds_status_ex report_ds_status
swap_report_ds_status i_am_leader g i old new =
    let o = set_ds_status_ex g i old new in
    if o.changed
    then record o { events = o.events ++ report_ds_status i_am_leader o.group i new }
    else o

unfoldable pub same_master : Option ℕ → Option ℕ → Bool
unfolding same_server
same_master none none = true
same_master none (some i) = false
same_master (some i) none = false
same_master (some i) (some k) = i == k

-- The status that my data server of the group takes on, if it changes.
unfoldable pub my_status_on_change : DataGroup → ℕ → Option ℕ → Option ℕ → Option ℕ
unfolding server_at same_server
my_status_on_change g my old_master new_master =
    if same_server new_master my
    then some ds_active
    else if same_server old_master my && ((server_at g.data_servers my).status == ds_active)
    then some ds_offline
    else none

-- cluster_relationship_on_master_change; `result` is its return value.
unfoldable pub change_my_status : Bool → DataGroup → ℕ → Option ℕ → Outcome
unfolding swap_report_ds_status server_at
change_my_status i_am_leader g my none = record { group = g; events = []; changed = false }
change_my_status i_am_leader g my (some new) =
    swap_report_ds_status i_am_leader g my (server_at g.data_servers my).status new

unfoldable pub recovery_on_change : ℕ → Option ℕ → List Event
recovery_on_change my none = []
recovery_on_change my (some m) = if m == my then [] else recovery_check my ∷ []

unfoldable pub on_master_change : Bool → DataGroup → Option ℕ → Option ℕ → Outcome × ℕ
unfolding same_master my_status_on_change change_my_status recovery_on_change
on_master_change i_am_leader g none none =
    (record { group = g; events = []; changed = false }, einval)
on_master_change i_am_leader g old_master new_master =
    if same_master new_master old_master
    then (record { group = g; events = []; changed = false }, 0)
    else elim g.myself [
      | none ↦ (record { group = g; events = []; changed = false }, 0)
      | some my ↦
          let o =
            change_my_status i_am_leader g my (my_status_on_change g my old_master new_master) in
          (record o { events = o.events ++ recovery_on_change my new_master }, 0)
    ]

-- downgrade_data_server_status
unfoldable pub downgrade_data_server : DataGroup → ℕ → Bool → Outcome
unfolding server_at downgraded set_ds_status_ex
downgrade_data_server g i remove_recovery_flag =
    let old = (server_at g.data_servers i).status in
    set_ds_status_ex g i old (downgraded remove_recovery_flag old)

-- One of the other servers of the group, in the loop of cluster_topology_offline_data_server.
unfoldable pub offline_other : ℕ → ℕ → DataGroup → Outcome
unfolding downgrade_data_server
offline_other i p g =
    if p == i
    then record { group = g; events = []; changed = false }
    else let o = downgrade_data_server g p false in
      record o { events = o.events ++ (if o.changed then notify p ∷ [] else []) }

-- The loop, over `k` servers from position `p` on.
unfoldable pub offline_others : ℕ → ℕ → ℕ → DataGroup → DataGroup × List Event
unfolding offline_other
offline_others i zero p g = (g, [])
offline_others i (suc k) p g =
    let o = offline_other i p g in
    let rest = offline_others i k (suc p) o.group in (rest.0, o.events ++ rest.1)

-- The master of the group goes: the rest of the group is told, and a new election is asked for.
unfoldable pub unset_master : Bool → DataGroup → ℕ → DataGroup × List Event
unfolding on_master_change offline_others
unset_master i_am_leader g i =
    let told = on_master_change i_am_leader (record g { master = none }) (some i) none in
    let rest = offline_others i (length g.data_servers) 0 told.0.group in
    (rest.0, told.0.events ++ rest.1 ++ election_push ∷ [])

-- cluster_topology_offline_data_server
unfoldable pub offline_data_server : Bool → DataGroup → ℕ → Bool → DataGroup × List Event
unfolding downgrade_data_server server_at same_server modify unset_master
offline_data_server i_am_leader g i unset =
    let o = downgrade_data_server g i unset in
    let cleared = record o.group {
      data_servers = modify (with_master false) i o.group.data_servers;
    } in
    let after =
      if same_server cleared.master i then unset_master i_am_leader cleared i else (cleared, []) in
    if unset && (server_at o.group.data_servers i).is_master
    then (after.0, o.events ++ after.1 ++ notify i ∷ [])
    else (o.group, o.events ++ (if o.changed then notify i ∷ [] else []))
