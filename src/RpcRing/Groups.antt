-- ===== src/RpcRing/Groups.antt =====
-- The functions that rpc_result_ring.c offers: each finds the instance of a data group, or goes
-- over all of them.
pub mod Behaviour
pub mod Clearing
pub mod ClearAll
use faststore.Prelude.{
  ℕ, zero, suc, ◌+◌, ◌-◌, Bool, Option, none, some, List, [], set_at, ltb, ◌==◌, if◌then◌else◌,
}
use faststore.Errno.{enomem}
use faststore.RpcRing.{
  FsReplicaRpcResultEntry, Ring, FsReplicaRpcResultInstance, FsReplicaRpcResultContext, Outside,
  Outcome, instance_add, instance_remove, instance_clear_all, instance_clear_timeouts,
}

abbrev pub zero_entry : FsReplicaRpcResultEntry
zero_entry = record { data_version = 0; expires = 0; waiting_task = none }

-- `memory` is what fc_malloc returns, read as entries from its address on, also behind the end of
-- what was asked for: memset sets the first `alloc_size` of them to zero, and no more.
unfoldable pub init_rpc_result_instance :
    ℕ → Option (ℕ → FsReplicaRpcResultEntry) → ℕ × Option FsReplicaRpcResultInstance
init_rpc_result_instance alloc_size none = (enomem, none)
init_rpc_result_instance alloc_size (some memory) = (
  0,
  some (record {
    ring = record {
      entries = λ i. if ltb i alloc_size then zero_entry else memory i;
      start = 0;
      end = 0;
      size = alloc_size;
    };
    queue = [];
  }),
)

-- A result code or a count, with what was changed.
pub record Reply : Type 0 where
  pub result : ℕ
  pub ctx : FsReplicaRpcResultContext
  pub outside : Outside

abbrev pub instance_of : FsReplicaRpcResultContext → ℕ → FsReplicaRpcResultInstance
instance_of ctx data_group_id = ctx.instances (data_group_id - ctx.dg_base_id)

abbrev pub reply : FsReplicaRpcResultContext → ℕ → Outcome → Reply
reply ctx data_group_id r = record {
  result = r.result;
  ctx = record ctx { instances = set_at ctx.instances (data_group_id - ctx.dg_base_id) r.inst };
  outside = r.outside;
}

-- `now` is `g_current_time`, `network_timeout` SF_G_NETWORK_TIMEOUT.
abbrev pub new_entry : ℕ → Option ℕ → ℕ → ℕ → FsReplicaRpcResultEntry
new_entry data_version waiting_task now network_timeout = record {
  data_version = data_version;
  expires = now + network_timeout;
  waiting_task = waiting_task;
}

unfoldable pub rpc_result_ring_add :
    FsReplicaRpcResultContext → ℕ → ℕ → Option ℕ → ℕ → ℕ → Outside → Reply
rpc_result_ring_add ctx data_group_id data_version waiting_task now network_timeout o =
    reply ctx data_group_id (
      instance_add (instance_of ctx data_group_id)
        (new_entry data_version waiting_task now network_timeout) o)

unfoldable pub rpc_result_ring_remove : FsReplicaRpcResultContext → ℕ → ℕ → Outside → Reply
rpc_result_ring_remove ctx data_group_id data_version o =
    reply ctx data_group_id (instance_remove (instance_of ctx data_group_id) data_version o)

-- The loop over the instances, for what is done to each.
unfoldable pub for_instances :
    (FsReplicaRpcResultInstance → Outside → Outcome)
    → ℕ
    → ℕ
    → FsReplicaRpcResultContext
    → Outside
    → Reply
for_instances act zero index ctx o = record { result = 0; ctx = ctx; outside = o }
for_instances act (suc n) index ctx o =
    let r = act (ctx.instances index) o in
    let rest =
      for_instances act n (index + 1) (record ctx { instances = set_at ctx.instances index r.inst })
        r.outside in
    record rest { result = r.result + rest.result }

unfoldable pub rpc_result_ring_clear_all : FsReplicaRpcResultContext → Outside → Reply
rpc_result_ring_clear_all ctx o = for_instances instance_clear_all ctx.dg_count 0 ctx o

-- At most once for each value of `g_current_time`.
unfoldable pub rpc_result_ring_clear_timeouts : ℕ → FsReplicaRpcResultContext → Outside → Reply
rpc_result_ring_clear_timeouts now ctx o =
    if ctx.last_check_timeout_time == now
    then record { result = 0; ctx = ctx; outside = o }
    else for_instances (instance_clear_timeouts now) ctx.dg_count 0
        (record ctx { last_check_timeout_time = now }) o
