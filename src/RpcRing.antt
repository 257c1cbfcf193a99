-- ===== src/RpcRing.antt =====
-- server/replication/rpc_result_ring.c: the results of pushed updates that a replication channel
-- waits for, per data group: a ring of entries by data version, and a sorted list for the entries
-- that do not fit it.
pub mod Window
pub mod Queue
pub mod Valid
pub mod Add
pub mod Skip
pub mod Remove
pub mod Clear
pub mod Timeouts
pub mod Groups
mod Tests
use faststore.Prelude.{
  ℕ, zero, suc, ◌+◌, ◌-◌, ◌%◌, Bool, true, not, ◌&&◌, List, [], ◌∷◌, ◌++◌, Option, none, some, ltb,
  set_at, ◌==◌, if◌then◌else◌,
}
use faststore.Errno.{enoent, enomem}
use faststore.Trunk.{add64, sub32}

-- FSReplicaRPCResultEntry, its link left to the list that it stands in.
pub record FsReplicaRpcResultEntry : Type 0 where
  pub data_version : ℕ
  pub expires : ℕ
  pub waiting_task : Option ℕ

-- The pointers `start` and `end` are indexes into the entries.
pub record Ring : Type 0 where
  pub entries : ℕ → FsReplicaRpcResultEntry
  pub start : ℕ
  pub end : ℕ
  pub size : ℕ

pub record FsReplicaRpcResultInstance : Type 0 where
  pub ring : Ring
  pub queue : List FsReplicaRpcResultEntry

-- What the code changes outside an instance: `waiting_rpc_count` of each task, the tasks whose
-- data thread was notified, and the number of entries that `rentry_allocator` can still give.
pub record Outside : Type 0 where
  pub waiting_rpc_count : ℕ → ℕ
  pub notified : List ℕ
  pub rentries : ℕ

pub record FsReplicaRpcResultContext : Type 0 where
  pub last_check_timeout_time : ℕ
  pub dg_base_id : ℕ
  pub dg_count : ℕ
  pub instances : ℕ → FsReplicaRpcResultInstance

-- A result code or a count, with what was changed.
pub record Outcome : Type 0 where
  pub result : ℕ
  pub inst : FsReplicaRpcResultInstance
  pub outside : Outside

unfoldable pub desc_task_waiting_rpc_count : FsReplicaRpcResultEntry → Outside → Outside
desc_task_waiting_rpc_count entry o = elim entry.waiting_task [
  | none ↦ o
  | some task ↦
      let count = sub32 (o.waiting_rpc_count task) 1 in
      record o {
        waiting_rpc_count = set_at o.waiting_rpc_count task count;
        notified = if count == 0 then o.notified ++ task ∷ [] else o.notified;
      }
]

abbrev pub free_entry : Outside → Outside
free_entry o = record o { rentries = o.rentries + 1 }

-- The two fields that are reset in the ring.
abbrev pub reset : FsReplicaRpcResultEntry → FsReplicaRpcResultEntry
reset e = record e { data_version = 0; waiting_task = none }

abbrev pub tail_of :
    FsReplicaRpcResultEntry → List FsReplicaRpcResultEntry → FsReplicaRpcResultEntry
tail_of h [] = h
tail_of h (x ∷ xs) = tail_of x xs

-- The walk over the queue, and the entry put in front of the first one that is not smaller.
unfoldable pub insert_entry :
    FsReplicaRpcResultEntry → List FsReplicaRpcResultEntry → List FsReplicaRpcResultEntry
insert_entry entry [] = entry ∷ []
insert_entry entry (c ∷ rest) =
    if ltb c.data_version entry.data_version then c ∷ insert_entry entry rest else entry ∷ c ∷ rest

unfoldable pub queue_with :
    FsReplicaRpcResultEntry → List FsReplicaRpcResultEntry → List FsReplicaRpcResultEntry
queue_with entry [] = entry ∷ []
queue_with entry (h ∷ rest) =
    if ltb (tail_of h rest).data_version entry.data_version
    then (h ∷ rest) ++ entry ∷ []
    else if ltb entry.data_version h.data_version
    then entry ∷ h ∷ rest
    else h ∷ insert_entry entry rest

unfoldable pub add_to_queue :
    FsReplicaRpcResultInstance → FsReplicaRpcResultEntry → Outside → Outcome
add_to_queue i entry o = elim o.rentries [
  | zero ↦ record { result = enomem; inst = i; outside = o }
  | suc n ↦ record {
    result = 0;
    inst = record i { queue = queue_with entry i.queue };
    outside = record o { rentries = n };
  }
]

-- The ring with room made for a data version, where it has that room.
unfoldable pub ring_match : Ring → ℕ → Option Ring
ring_match r data_version =
    let index = data_version % r.size in
    let next = (index + 1) % r.size in
    if r.end == r.start
    then some (record r { start = index; end = next })
    else if (index == r.end)
        && (not (next == r.start)
            && (data_version == add64 (r.entries ((index + r.size - 1) % r.size)).data_version 1))
    then some (record r { end = next })
    else none

-- rpc_result_ring_add, for the instance of a data group; `expires` is the time computed there.
unfoldable pub instance_add :
    FsReplicaRpcResultInstance → FsReplicaRpcResultEntry → Outside → Outcome
instance_add i entry o = elim (ring_match i.ring entry.data_version) [
  | none ↦ add_to_queue i entry o
  | some r ↦ record {
    result = 0;
    inst = record i {
      ring = record r { entries = set_at r.entries (entry.data_version % r.size) entry };
    };
    outside = o;
  }
]

-- The entry of a data version, and the list without it.
unfoldable pub unlink_entry :
    ℕ
    → List FsReplicaRpcResultEntry
    → Option (FsReplicaRpcResultEntry × List FsReplicaRpcResultEntry)
unlink_entry v [] = none
unlink_entry v (c ∷ rest) = elim (ltb c.data_version v) [
  | true ↦ elim (unlink_entry v rest) [ none ↦ none | some (e, l) ↦ some (e, c ∷ l) ]
  | _ ↦ if v == c.data_version then some (c, rest) else none
]

unfoldable pub queue_without :
    ℕ
    → List FsReplicaRpcResultEntry
    → Option (FsReplicaRpcResultEntry × List FsReplicaRpcResultEntry)
queue_without v [] = none
queue_without v (h ∷ rest) =
    if v == h.data_version
    then some (h, rest)
    else elim (unlink_entry v rest) [ none ↦ none | some (e, l) ↦ some (e, h ∷ l) ]

unfoldable pub remove_from_queue : FsReplicaRpcResultInstance → ℕ → Outside → Outcome
remove_from_queue i v o = elim (queue_without v i.queue) [
  | none ↦ record { result = enoent; inst = i; outside = o }
  | some (entry, l) ↦ record {
    result = 0;
    inst = record i { queue = l };
    outside = free_entry (desc_task_waiting_rpc_count entry o);
  }
]

-- The while loop past the entries that were removed out of order; `index` grows as in the code.
unfoldable pub skip_removed : ℕ → ℕ → Ring → Ring
skip_removed zero index r = r
skip_removed (suc fuel) index r =
    if not (r.start == r.end) && ((r.entries r.start).data_version == 0)
    then skip_removed fuel (index + 1) (record r { start = (index + 1) % r.size })
    else r

unfoldable pub ring_without : Ring → ℕ → Ring
ring_without r index =
    let r' =
      (if r.start == index
        then skip_removed r.size (index + 1) (record r { start = (index + 1) % r.size })
        else r) in
    record r' { entries = set_at r'.entries index (reset (r'.entries index)) }

unfoldable pub instance_remove : FsReplicaRpcResultInstance → ℕ → Outside → Outcome
instance_remove i v o =
    let index = v % i.ring.size in
    if not (i.ring.end == i.ring.start) && ((i.ring.entries index).data_version == v)
    then record {
      result = 0;
      inst = record i { ring = ring_without i.ring index };
      outside = desc_task_waiting_rpc_count (i.ring.entries index) o;
    }
    else remove_from_queue i v o

-- The loops of clear_all and clear_timeouts over the ring, while the first entry has to go.
unfoldable pub clear_ring :
    (FsReplicaRpcResultEntry → Bool) → ℕ → ℕ → Ring → Outside → ℕ × Ring × Outside
clear_ring dead zero index r o = (0, r, o)
clear_ring dead (suc fuel) index r o = elim (not (r.start == r.end) && dead (r.entries r.start)) [
  | true ↦
      let (n, r', o') =
        clear_ring dead fuel (index + 1)
          (record r {
            entries = set_at r.entries r.start (reset (r.entries r.start));
            start = (index + 1) % r.size;
          })
          (desc_task_waiting_rpc_count (r.entries r.start) o) in
      (n + 1, r', o')
  | _ ↦ (0, r, o)
]

-- The loops over the queue, likewise.
unfoldable pub clear_queue :
    (FsReplicaRpcResultEntry → Bool)
    → List FsReplicaRpcResultEntry
    → Outside
    → ℕ × List FsReplicaRpcResultEntry × Outside
clear_queue dead [] o = (0, [], o)
clear_queue dead (c ∷ rest) o = elim (dead c) [
  | true ↦
      let (n, l, o') = clear_queue dead rest (free_entry (desc_task_waiting_rpc_count c o)) in
      (n + 1, l, o')
  | _ ↦ (0, c ∷ rest, o)
]

-- rpc_result_instance_clear_all is the case where all entries have to go.
unfoldable pub instance_clear :
    (FsReplicaRpcResultEntry → Bool) → FsReplicaRpcResultInstance → Outside → Outcome
instance_clear dead i o =
    let (n, r, o') = clear_ring dead i.ring.size i.ring.start i.ring o in
    let (k, l, o'') = clear_queue dead i.queue o' in
    record { result = n + k; inst = record { ring = r; queue = l }; outside = o'' }

abbrev pub instance_clear_all : FsReplicaRpcResultInstance → Outside → Outcome
instance_clear_all = instance_clear (λ e. true)

abbrev pub instance_clear_timeouts : ℕ → FsReplicaRpcResultInstance → Outside → Outcome
instance_clear_timeouts now = instance_clear (λ e. ltb e.expires now)
