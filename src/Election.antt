-- ===== src/Election.antt =====
-- The choice of a data group's master by the leader of the cluster (server/master_election.c), on the
-- data servers of one group (FSClusterDataGroupInfo and below, server/server_types.h).
--
-- A data server is named by its position in the group's data_server_array, as the pointers of the
-- group's ds_ptr_array name it. Times are unix seconds as native numbers, and the differences of the
-- source are written as sums, so that no subtraction goes below 0. `now` is g_current_time and
-- `now_ms` is get_current_time_ms(), which the two reads of one election share.
pub mod Whole
pub mod Chosen
pub mod Newest
pub mod Master
pub mod Choice
pub mod Scan
pub mod Change
pub mod Offline
pub mod Idle
pub mod Rounds
pub mod Counted
pub mod Thread
pub mod Lost
pub mod Answers
pub mod Unset
mod Tests
use faststore.Prelude.{
  ℕ, zero, suc, ◌+◌, ◌*◌, ◌/◌, ◌%◌, min, ◌==◌, ltb, leb, if◌then◌else◌, Bool, true, false, ◌&&◌,
  ◌||◌, not, Option, some, none, List, [], ◌∷◌, length, last?,
}
use faststore.Errno.{enoent, eagain}
use faststore.Sort.{Comparison, sign_of, or_else, sort}
pub use faststore.Groups.{
  server_offline, server_online, server_active, ClusterServer, DataServer, DataGroup, no_server,
  flag,
}
unfoldable pub use faststore.Groups.{server_at, is_active}

-- The clocks, whether this server is the leader, and the settings of the election.
pub record Setting : Type 0 where
  pub now : ℕ
  pub now_ms : ℕ
  pub i_am_leader : Bool
  pub failover : Bool
  pub strict : Bool
  pub election_timeouts : ℕ

abbrev pub offline_wait_timeout : ℕ
offline_wait_timeout = 5

abbrev pub online_wait_timeout : ℕ
online_wait_timeout = 30

-- compare_ds_by_data_version, on two data servers. A data version is below 2^63, where the signed
-- comparison of the source is that of the numbers.
unfoldable pub compare_ds_by_data_version : DataServer → DataServer → Comparison
compare_ds_by_data_version a b = or_else (sign_of a.version b.version) (
    or_else (sign_of a.cs.status b.cs.status) (
      or_else (sign_of (flag a.is_preseted) (flag b.is_preseted))
        (sign_of (flag a.is_master) (flag b.is_master))))

-- IS_SERVER_TIMEDOUT.
unfoldable pub is_server_timedout : Setting → ClusterServer → ℕ → ℕ → Bool
is_server_timedout e cs start timeout =
    let since = if ltb 0 cs.status_changed_time then min cs.status_changed_time start else start in
    leb (since + timeout) e.now

-- The variables of the first loop of select_master; `timeout` keeps the value that the last server
-- which is not active gave it, and is read again after the loop.
pub record Counters : Type 0 where
  pub active : ℕ
  pub waiting_report : ℕ
  pub waiting_online : ℕ
  pub waiting_offline : ℕ
  pub timeout : ℕ

-- One data server of the first loop; `none` where an active server has not pinged for so long that
-- the election is given up.
unfoldable pub count_server : Setting → ℕ → ClusterServer → Counters → Option Counters
unfolding is_server_timedout
count_server e start cs c =
    if cs.status == server_active
    then if leb start cs.last_ping_time
      then some (record c { active = c.active + 1 })
      else if leb e.now (cs.last_ping_time + (online_wait_timeout + 5))
      then some (record c { waiting_report = c.waiting_report + 1 })
      else none
    else if cs.status == server_online
    then if is_server_timedout e cs start online_wait_timeout
      then some (record c { timeout = online_wait_timeout })
      else some (record c { waiting_online = c.waiting_online + 1; timeout = online_wait_timeout })
    else if is_server_timedout e cs start offline_wait_timeout
    then some (record c { timeout = offline_wait_timeout })
    else some (record c { waiting_offline = c.waiting_offline + 1; timeout = offline_wait_timeout })

unfoldable pub count_servers : Setting → ℕ → List DataServer → Counters → Option Counters
unfolding count_server
count_servers e start [] c = some c
count_servers e start (ds ∷ l) c = elim (count_server e start ds.cs c) [
  | none ↦ none
  | some c' ↦ count_servers e start l c'
]

-- The data version of the first active server found from a position down to the head of the
-- array; `none` is the -1 that max_data_version keeps where there is no such server.
unfoldable pub active_version_down : List DataServer → ℕ → Option ℕ
unfolding server_at is_active
active_version_down l zero =
    if is_active (server_at l 0) then some (server_at l 0).version else none
active_version_down l (suc i) =
    let below = active_version_down l i in
    if is_active (server_at l (suc i)) then some (server_at l (suc i)).version else below

-- The active servers of data version `least` or later, as positions from `i` on.
unfoldable pub candidates : ℕ → ℕ → List DataServer → List ℕ
unfolding is_active
candidates i least [] = []
candidates i least (ds ∷ l) =
    let rest = candidates (suc i) least l in
    if is_active ds && leb least ds.version then i ∷ rest else rest

unfoldable pub position_at : List ℕ → ℕ → ℕ
position_at [] n = 0
position_at (p ∷ l) zero = p
position_at (p ∷ l) (suc n) = position_at l n

-- CLUSTER_MYSELF_PTR->last_ping_time = ..., where the group has a data server of this server.
unfoldable pub set_ping_time : Option ℕ → ℕ → List DataServer → List DataServer
set_ping_time none t l = l
set_ping_time (some i) t [] = []
set_ping_time (some zero) t (ds ∷ l) = record ds { cs = record ds.cs { last_ping_time = t } } ∷ l
set_ping_time (some (suc i)) t (ds ∷ l) = ds ∷ set_ping_time (some i) t l

-- get_preseted_master: the preseted server, else the first of the array.
unfoldable pub preseted_from : ℕ → List DataServer → ℕ
preseted_from i [] = 0
preseted_from i (ds ∷ l) =
    let later = preseted_from (suc i) l in if ds.is_preseted then i else later

unfoldable pub get_preseted_master : DataGroup → ℕ
unfolding preseted_from
get_preseted_master g = preseted_from 0 g.data_servers

-- What select_master returns: its *result, and the server or NULL.
abbrev pub Answer : Type 0
Answer = ℕ × Option ℕ

-- An election begins, or is tried once more.
unfoldable pub begin_election : Setting → DataGroup → DataGroup
unfolding set_ping_time
begin_election e g =
    if g.start_time_ms == 0
    then record g {
      start_time_ms = e.now_ms;
      retry_count = 1;
      data_servers =
          if e.i_am_leader
          then set_ping_time g.myself (e.now + 1) g.data_servers
          else g.data_servers;
    }
    else record g { retry_count = g.retry_count + 1 }

-- One of the servers that may be master, by the group's hash code.
unfoldable pub choose_candidate : DataGroup → ℕ → List ℕ → Answer
unfolding server_at is_active position_at
choose_candidate g last [] = (enoent, none)
choose_candidate g last (p ∷ l) =
    let i = position_at (p ∷ l) (g.hash_code % length (p ∷ l)) in
    if length (p ∷ l) == length g.data_servers
    then (0, some last)
    else if is_active (server_at g.data_servers i)
    then (0, some i)
    else (eagain, none)

-- The wait for the newest server is over: the active servers are considered.
unfoldable pub choose_active : Setting → DataGroup → ℕ → ℕ → Answer
unfolding server_at is_server_timedout active_version_down candidates choose_candidate
choose_active e g start last =
    let newest = server_at g.data_servers last in
    elim (active_version_down g.data_servers last) [
      | none ↦ (enoent, none)
      | some v ↦
          if ltb v newest.version
            && (e.strict || not (is_server_timedout e newest.cs start e.election_timeouts))
          then (eagain, none)
          else choose_candidate g last (candidates 0 v g.data_servers)
    ]

-- How long the newest server is waited for; `left` is what the loop left in `timeout`.
unfoldable pub newest_timeout : ℕ → ℕ → ℕ
newest_timeout status left =
    if status == server_active
    then left
    else if status == server_online
    then online_wait_timeout * 3
    else offline_wait_timeout * 3

-- The newest server is master if it is active and nothing speaks against it; `last` is its position.
unfoldable pub choose_newest : Setting → DataGroup → ℕ → Counters → ℕ → Answer
unfolding server_at is_active newest_timeout is_server_timedout choose_active
choose_newest e g start c last =
    let newest = server_at g.data_servers last in
    if is_active newest && (newest.is_preseted || c.active == length g.ds_ptrs)
    then (0, some last)
    else if is_server_timedout e newest.cs start (newest_timeout newest.cs.status c.timeout)
    then choose_active e g start last
    else (eagain, none)

-- The pointers of the group by data version, as qsort leaves them.
unfoldable pub sort_ds_ptrs : DataGroup → DataGroup
unfolding server_at compare_ds_by_data_version sort
sort_ds_ptrs g = record g {
  ds_ptrs =
      sort
        (λ i j.
          compare_ds_by_data_version (server_at g.data_servers i) (server_at g.data_servers j))
        g.ds_ptrs;
}

-- The last pointer of an array; position 0 where it is empty, which the caller never passes.
unfoldable pub last_ptr : List ℕ → ℕ
last_ptr l = elim (last? l) [ none ↦ 0 | some i ↦ i ]

-- `timeout` is not set before the loop; a server that is not active sets it before it is read.
abbrev pub no_counters : Counters
no_counters = record {
  active = 0;
  waiting_report = 0;
  waiting_online = 0;
  waiting_offline = 0;
  timeout = 0;
}

-- The choice with failover, after the election has begun.
unfoldable pub elect : Setting → DataGroup → ℕ → DataGroup × Answer
unfolding count_servers sort_ds_ptrs last_ptr choose_newest
elect e g start = elim (count_servers e start g.data_servers no_counters) [
  | none ↦ (record g { start_time_ms = 0; retry_count = 0 }, (eagain, none))
  | some c ↦
      if c.active == 0 || ltb 0 (c.waiting_report + c.waiting_online + c.waiting_offline)
      then (g, (eagain, none))
      else (
        sort_ds_ptrs g,
        choose_newest e (sort_ds_ptrs g) start c (last_ptr (sort_ds_ptrs g).ds_ptrs),
      )
]

unfoldable pub select_master : Setting → DataGroup → DataGroup × Answer
unfolding begin_election get_preseted_master server_at is_active elect
select_master e g =
    let g' = begin_election e g in
    let i = get_preseted_master g' in
    if e.failover
    then elect e g' (g'.start_time_ms / 1000)
    else if is_active (server_at g'.data_servers i)
    then (g', (0, some i))
    else (g', (eagain, none))
