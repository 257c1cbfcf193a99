-- ===== src/RpcRing/Groups/ClearAll.antt =====
-- After clear_all, and at the start, nothing is awaited.
use faststore.Prelude.{
  ℕ, zero, suc, ◌+◌, ◌%◌, ◌<◌, ◌≡◌, ◌≢◌, refl, sym, ap, ap₂, ◌∙◌, subst, true, none, some, List, [],
  ◌∷◌, ◌++◌, arith, ne→eqb, ltb, lt→ltb, if◌then◌else◌,
}
use faststore.RpcRing.{
  FsReplicaRpcResultEntry, FsReplicaRpcResultInstance, FsReplicaRpcResultContext, Outside,
  instance_clear,
}
use faststore.RpcRing.Window.{Within, dist}
use faststore.RpcRing.Valid.{version_at, Valid, pending, slot-empty}
use faststore.RpcRing.Remove.{told}
use faststore.RpcRing.Clear.{take_while, drop_while, window, ring_list, tell_all}
use faststore.RpcRing.Groups.{
  for_instances, rpc_result_ring_clear_all, zero_entry, init_rpc_result_instance,
}
use faststore.RpcRing.Groups.Behaviour.{ValidContext}
use faststore.RpcRing.Groups.Clearing.{all_gone, GroupsCleared, for_instances-Cleared}

module _ {ℓ} {A : Type ℓ} where
  take_while-all : (l : List A) → take_while (λ x. true) l ≡ l
  take_while-all [] = refl
  take_while-all (x ∷ l) = ap (◌∷◌ x) (take_while-all l)

  drop_while-all : (l : List A) → drop_while (λ x. true) l ≡ []
  drop_while-all [] = refl
  drop_while-all (x ∷ l) = drop_while-all l

-- All entries of an instance, and of the instances from an index on.
abbrev pub entries_of : FsReplicaRpcResultInstance → List FsReplicaRpcResultEntry
entries_of i = ring_list i.ring ++ i.queue

abbrev pub all_entries : ℕ → ℕ → (ℕ → FsReplicaRpcResultInstance) → List FsReplicaRpcResultEntry
all_entries zero index f = []
all_entries (suc n) index f = entries_of (f index) ++ all_entries n (index + 1) f

all_gone-entries :
    (n index : ℕ) (f : ℕ → FsReplicaRpcResultInstance)
    → all_gone (λ e. true) n index f ≡ all_entries n index f
all_gone-entries zero index f = refl
all_gone-entries (suc n) index f =
    ap₂ ◌++◌ (ap₂ ◌++◌ (take_while-all (ring_list (f index).ring)) (take_while-all (f index).queue))
      (all_gone-entries n (index + 1) f)

window-empty : (f : ℕ → FsReplicaRpcResultEntry) (size n s : ℕ) → window f size n s ≡ [] → n ≡ 0
window-empty f size zero s h = refl
window-empty f size (suc n) s h = cc

-- An instance without entries awaits nothing.
pending-empty :
    (i : FsReplicaRpcResultInstance) (w : ℕ)
    → Valid i
    → w ≢ 0
    → ring_list i.ring ≡ []
    → i.queue ≡ []
    → pending i w ≡ none
unfolding pending
pending-empty i w v n r q =
    rw (q, ne→eqb (version_at i.ring (w % i.ring.size)) w (λ e. n (sym e ∙ zero_there))) refl
  where
    gap : dist i.ring.size i.ring.start i.ring.end ≡ 0
    gap =
        window-empty i.ring.entries i.ring.size (dist i.ring.size i.ring.start i.ring.end)
          i.ring.start r

    nothing : (j : ℕ) → ¬ Within i.ring.size i.ring.start i.ring.end j
    nothing j w = no (subst (λ d. dist i.ring.size i.ring.start j < d) gap w)
      where
        no : {a : ℕ} → a < 0 → ⊥
        no h = omega arith

    zero_there : version_at i.ring (w % i.ring.size) ≡ 0
    zero_there =
        slot-empty i.ring (w % i.ring.size) v.0 (omega (arith, v.0.0)) (nothing (w % i.ring.size))

-- Where every data group is in order, after rpc_result_ring_clear_all no group awaits any version,
-- every group is in order, and the tasks of all entries were told, once for each entry, group by
-- group, the ring from its start on before the queue.
pub rpc_result_ring_clear_all_lem :
    (ctx : FsReplicaRpcResultContext) (o : Outside)
    → ValidContext ctx
    → (let r = rpc_result_ring_clear_all ctx o in
        ((k w : ℕ)
          → k < ctx.dg_count
          → w ≢ 0
          → Valid (r.ctx.instances k) × (pending (r.ctx.instances k) w ≡ none))
        × (told r.outside ≡ told (tell_all (all_entries ctx.dg_count 0 ctx.instances) o)))
unfolding rpc_result_ring_clear_all
rpc_result_ring_clear_all_lem ctx o v = (
  (λ k w b n.
      let l = g.lost k (omega arith) (omega arith) in
      (
        l.0,
        pending-empty _ w l.0 n (l.1 ∙ drop_while-all (ring_list (ctx.instances k).ring))
            (l.2 ∙ drop_while-all (ctx.instances k).queue),
      )),
  g.tells ∙ ap (λ l. told (tell_all l o)) (all_gone-entries ctx.dg_count 0 ctx.instances),
)
  where
    g :
        GroupsCleared
          (λ e. true)
          ctx.dg_count
          0
          ctx
          o
          (for_instances (instance_clear (λ e. true)) ctx.dg_count 0 ctx o)
    g = for_instances-Cleared (λ e. true) ctx.dg_count 0 ctx o (λ k h b. v k (omega arith))

-- Where the ring has room for more than one entry and memory is there, whatever stands in it and
-- behind it, init_rpc_result_instance returns 0 and an instance that is in order and awaits nothing,
-- with an empty ring of all the entries that were allocated, and an empty queue.
pub init_rpc_result_instance_lem :
    (alloc_size : ℕ) (memory : ℕ → FsReplicaRpcResultEntry)
    → 1 < alloc_size
    → (i : FsReplicaRpcResultInstance) × (init_rpc_result_instance alloc_size (some memory)
        ≡ (0, some i))
      × Valid i
      × (i.ring.size ≡ alloc_size)
      × (ring_list i.ring ≡ [])
      × (i.queue ≡ [])
      × ((w : ℕ) → w ≢ 0 → pending i w ≡ none)
unfolding init_rpc_result_instance
init_rpc_result_instance_lem alloc_size memory h =
    (i, refl, valid, refl, refl, refl, λ w n. pending-empty i w valid n refl refl)
  where
    i : FsReplicaRpcResultInstance
    i = record {
      ring = record {
        entries = λ j. if ltb j alloc_size then zero_entry else memory j;
        start = 0;
        end = 0;
        size = alloc_size;
      };
      queue = [];
    }

    zero_slot : (j : ℕ) → j < alloc_size → version_at i.ring j ≡ 0
    zero_slot j b = rw (version_at, lt→ltb j alloc_size b) refl

    valid : Valid i
    valid =
        ((h, omega arith, omega arith, λ j k n. absurd (n (zero_slot j k))), tt, (λ w n e. refl))
