-- ===== src/RpcRing/Tests.antt =====
-- Runs of the ring on small contexts, and the theorems applied to them.
use faststore.Prelude.{
  ℕ, ◌<◌, ◌≡◌, ◌≢◌, refl, Option, none, some, List, [], ◌∷◌, arith, map, ◌%◌, ltb, if◌then◌else◌,
  ◌==◌,
}
use faststore.Errno.{enoent}
use faststore.RpcRing.{
  FsReplicaRpcResultEntry, FsReplicaRpcResultInstance, FsReplicaRpcResultContext, Outside,
  instance_add, instance_remove, add_to_queue, queue_with, insert_entry, ring_match,
  remove_from_queue, queue_without, unlink_entry, skip_removed, ring_without, clear_ring,
  clear_queue, instance_clear, desc_task_waiting_rpc_count,
}
use faststore.RpcRing.Valid.{Valid, Slots, Single, pending}
use faststore.RpcRing.Queue.{find}
use faststore.RpcRing.Remove.{told}
use faststore.RpcRing.Clear.{tell_all, ring_list}
use faststore.RpcRing.Groups.{
  new_entry, init_rpc_result_instance, rpc_result_ring_add, rpc_result_ring_remove, for_instances,
  rpc_result_ring_clear_all, rpc_result_ring_clear_timeouts,
}
use faststore.RpcRing.Groups.Behaviour.{
  ValidContext, awaits, Changed, remove_result, tell_removed, rpc_result_ring_add_lem,
  rpc_result_ring_remove_lem,
}
use faststore.RpcRing.Groups.Clearing.{Clears, rpc_result_ring_clear_timeouts_lem}
use faststore.RpcRing.Groups.ClearAll.{
  entries_of, all_entries, rpc_result_ring_clear_all_lem, init_rpc_result_instance_lem,
}

-- Two data groups, numbered from 5, with rings of four entries.
abbrev idle : FsReplicaRpcResultEntry
idle = record { data_version = 0; expires = 0; waiting_task = none }

abbrev waiting : ℕ → ℕ → FsReplicaRpcResultEntry
waiting v task = record { data_version = v; expires = 40; waiting_task = some task }

-- Versions 7 and 8 in the ring, from slot 3 on into slot 0, and version 11 in the queue.
abbrev slots : ℕ → FsReplicaRpcResultEntry
slots i = if i == 3 then waiting 7 1 else if i == 0 then waiting 8 2 else idle

abbrev group : FsReplicaRpcResultInstance
group = record {
  ring = record { entries = slots; start = 3; end = 1; size = 4 };
  queue = waiting 11 3 ∷ [];
}

abbrev context : FsReplicaRpcResultContext
context = record {
  last_check_timeout_time = 0;
  dg_base_id = 5;
  dg_count = 2;
  instances = λ i. group;
}

abbrev world : Outside
world = record { waiting_rpc_count = λ t. 1; notified = []; rentries = 3 }

group-Valid : Valid group
group-Valid = ((omega arith, omega arith, omega arith, slot), (tt, tt), single)
  where
    slot : Slots slots 3 1 4
    slot i h n = ground arith

    other : (i v : ℕ) → (slots i).data_version ≡ v → find v group.queue ≡ none
    other i v e = ground arith

    single : Single group
    single v n e = other (v % 4) v e

context-Valid : ValidContext context
context-Valid k b = group-Valid

group_awaits : ℕ → Option FsReplicaRpcResultEntry
unfolding pending
group_awaits v = awaits context 6 v

reply_of_add : ℕ → ℕ × List ℕ
unfolding rpc_result_ring_add instance_add ring_match add_to_queue queue_with insert_entry
reply_of_add v =
    let r = (rpc_result_ring_add context 6 v (some 4) 9 30 world) in
    (r.result, map (λ e. e.data_version) (entries_of (r.ctx.instances 1)))

-- The next version goes into the ring; one that skips goes into the queue.
add_next : reply_of_add 9 ≡ (0, 7 ∷ 8 ∷ 9 ∷ 11 ∷ [])
unfolding reply_of_add
add_next = refl

add_later : reply_of_add 10 ≡ (0, 7 ∷ 8 ∷ 10 ∷ 11 ∷ [])
unfolding reply_of_add
add_later = refl

reply_of_remove : ℕ → ℕ × List ℕ × List ℕ
unfolding rpc_result_ring_remove instance_remove remove_from_queue queue_without unlink_entry
    ring_without skip_removed desc_task_waiting_rpc_count
reply_of_remove v =
    let r = (rpc_result_ring_remove context 6 v world) in
    (r.result, map (λ e. e.data_version) (entries_of (r.ctx.instances 1)), r.outside.notified)

remove_first : reply_of_remove 7 ≡ (0, 8 ∷ 11 ∷ [], 1 ∷ [])
unfolding reply_of_remove
remove_first = refl

remove_queued : reply_of_remove 11 ≡ (0, 7 ∷ 8 ∷ [], 3 ∷ [])
unfolding reply_of_remove
remove_queued = refl

remove_missing : reply_of_remove 9 ≡ (enoent, 7 ∷ 8 ∷ 11 ∷ [], [])
unfolding reply_of_remove
remove_missing = refl

reply_of_timeouts : ℕ → ℕ × List ℕ
unfolding rpc_result_ring_clear_timeouts for_instances instance_clear clear_ring clear_queue
    desc_task_waiting_rpc_count
reply_of_timeouts now =
    let r = (rpc_result_ring_clear_timeouts now context world) in (r.result, r.outside.notified)

timeouts_early : reply_of_timeouts 40 ≡ (0, [])
unfolding reply_of_timeouts
timeouts_early = refl

timeouts_late : reply_of_timeouts 41 ≡ (6, 1 ∷ 2 ∷ 3 ∷ [])
unfolding reply_of_timeouts
timeouts_late = refl

rpc_result_ring_add_example :
    let r = rpc_result_ring_add context 6 9 (some 4) 9 30 world in
    (r.result ≡ 0)
    × ValidContext r.ctx
    × Changed context 6 9 (some (new_entry 9 (some 4) 9 30)) r.ctx
unfolding pending
rpc_result_ring_add_example =
    rpc_result_ring_add_lem context 6 9 (some 4) 9 30 world context-Valid (omega arith, omega arith)
      refl (omega arith)

rpc_result_ring_remove_example :
    let r = rpc_result_ring_remove context 6 11 world in
    (r.result ≡ remove_result (awaits context 6 11))
    × ValidContext r.ctx
    × Changed context 6 11 none r.ctx
    × (told r.outside ≡ told (tell_removed (awaits context 6 11) world))
rpc_result_ring_remove_example =
    rpc_result_ring_remove_lem context 6 11 world context-Valid (omega arith, omega arith)
      (λ e. omega (arith, e))

rpc_result_ring_clear_timeouts_example :
    Clears (λ e. ltb e.expires 41) context world (rpc_result_ring_clear_timeouts 41 context world)
rpc_result_ring_clear_timeouts_example =
    rpc_result_ring_clear_timeouts_lem 41 context world context-Valid (λ e. omega (arith, e))

rpc_result_ring_clear_all_example :
    let r = rpc_result_ring_clear_all context world in
    ((k w : ℕ) → k < 2 → w ≢ 0 → Valid (r.ctx.instances k) × (pending (r.ctx.instances k) w ≡ none))
    × (told r.outside ≡ told (tell_all (all_entries 2 0 context.instances) world))
rpc_result_ring_clear_all_example = rpc_result_ring_clear_all_lem context world context-Valid

init_rpc_result_instance_example :
    (i : FsReplicaRpcResultInstance) × (init_rpc_result_instance 64 (some slots) ≡ (0, some i))
    × Valid i
    × (i.ring.size ≡ 64)
    × (ring_list i.ring ≡ [])
    × (i.queue ≡ [])
    × ((w : ℕ) → w ≢ 0 → pending i w ≡ none)
init_rpc_result_instance_example = init_rpc_result_instance_lem 64 slots (omega arith)
