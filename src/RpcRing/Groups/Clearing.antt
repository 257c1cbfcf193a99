-- ===== src/RpcRing/Groups/Clearing.antt =====
-- What clear_all and clear_timeouts do to all the data groups.
use faststore.Prelude.{
  ℕ, zero, suc, ◌+◌, ◌≤◌, ◌<◌, ◌≡◌, ◌≢◌, refl, sym, ap, ap₂, ◌∙◌, subst, Bool, List, [], ◌++◌,
  length, length-append, arith, set_at, set_at-same, set_at-other, ltb, inl, inr, eq-or-ne, ne→eqb,
}
use faststore.RpcRing.{
  FsReplicaRpcResultEntry, FsReplicaRpcResultInstance, FsReplicaRpcResultContext, Outside, Outcome,
  instance_clear,
}
use faststore.RpcRing.Valid.{Valid}
use faststore.RpcRing.Remove.{told}
use faststore.RpcRing.Clear.{take_while, drop_while, ring_list, tell_all}
use faststore.RpcRing.Timeouts.{InstanceCleared, instance_clear-Cleared, told-all, tell_all-append}
use faststore.RpcRing.Groups.{Reply, for_instances, rpc_result_ring_clear_timeouts}
use faststore.RpcRing.Groups.Behaviour.{ValidContext}

module _ (dead : FsReplicaRpcResultEntry → Bool) where
  -- The entries of an instance that have to go, in the order of their clearing.
  abbrev pub gone : FsReplicaRpcResultInstance → List FsReplicaRpcResultEntry
  gone i = take_while dead (ring_list i.ring) ++ take_while dead i.queue

  -- Those of the instances from an index on.
  abbrev pub all_gone : ℕ → ℕ → (ℕ → FsReplicaRpcResultInstance) → List FsReplicaRpcResultEntry
  all_gone zero index f = []
  all_gone (suc n) index f = gone (f index) ++ all_gone n (index + 1) f

  -- An instance is in order, and has lost these entries.
  abbrev pub Lost : FsReplicaRpcResultInstance → FsReplicaRpcResultInstance → Type 0
  Lost i i' =
      Valid i'
      × (ring_list i'.ring ≡ drop_while dead (ring_list i.ring))
      × (i'.queue ≡ drop_while dead i.queue)

  all_gone-set :
      (n index j : ℕ) (f : ℕ → FsReplicaRpcResultInstance) (x : FsReplicaRpcResultInstance)
      → j < index
      → all_gone n index (set_at f j x) ≡ all_gone n index f
  all_gone-set zero index j f x h = refl
  all_gone-set (suc n) index j f x h =
      ap₂ ◌++◌ (ap gone (set_at-other f j x index (λ e. omega arith)))
        (all_gone-set n (index + 1) j f x (omega arith))

  -- The loop over the instances from an index on.
  pub record GroupsCleared (n index : ℕ) (ctx : FsReplicaRpcResultContext) (o : Outside) (r : Reply)
      : Type 0 where
    pub before : (k : ℕ) → k < index → r.ctx.instances k ≡ ctx.instances k
    pub lost : (k : ℕ) → index ≤ k → k < index + n → Lost (ctx.instances k) (r.ctx.instances k)
    pub count : r.result ≡ length (all_gone n index ctx.instances)
    pub tells : told r.outside ≡ told (tell_all (all_gone n index ctx.instances) o)

  GroupsCleared-step :
      (n index : ℕ) (ctx : FsReplicaRpcResultContext) (o : Outside) (c : Outcome) (r : Reply)
      → InstanceCleared dead (ctx.instances index) o c
      → GroupsCleared n
          (index + 1)
          (record ctx { instances = set_at ctx.instances index c.inst })
          c.outside
          r
      → GroupsCleared (suc n) index ctx o (record r { result = c.result + r.result })
  GroupsCleared-step n index ctx o c r i g = record {
    before = λ k h.
        g.before k (omega arith) ∙ set_at-other ctx.instances index c.inst k (λ e. omega arith);
    lost = λ k h b. elim (eq-or-ne index k) [
      | inl q ↦
          subst (λ z. Lost (ctx.instances z) (r.ctx.instances z)) q
            (rw (g.before index (omega arith) ∙ set_at-same ctx.instances index c.inst)
              (i.valid, i.ring_rest, i.queue_rest))
      | inr q ↦
          subst (λ z. Lost z (r.ctx.instances k)) (set_at-other ctx.instances index c.inst k q)
            (g.lost k (omega arith) (omega arith))
    ];
    count =
        ap₂ ◌+◌
          (i.count
            ∙ sym (
                length-append (take_while dead (ring_list (ctx.instances index).ring))
                  (take_while dead (ctx.instances index).queue)))
          (g.count ∙ ap length same)
        ∙ sym (length-append here rest);
    tells =
        g.tells
        ∙ (ap (λ l. told (tell_all l c.outside)) same
            ∙ (told-all rest c.outside (tell_all here o) i.tells
                ∙ sym (ap told (tell_all-append here rest o))));
  }
    where
      here : List FsReplicaRpcResultEntry
      here = gone (ctx.instances index)

      rest : List FsReplicaRpcResultEntry
      rest = all_gone n (index + 1) ctx.instances

      same : all_gone n (index + 1) (set_at ctx.instances index c.inst) ≡ rest
      same = all_gone-set n (index + 1) index ctx.instances c.inst (omega arith)

  pub for_instances-Cleared :
      (n index : ℕ) (ctx : FsReplicaRpcResultContext) (o : Outside)
      → ((k : ℕ) → index ≤ k → k < index + n → Valid (ctx.instances k))
      → GroupsCleared n index ctx o (for_instances (instance_clear dead) n index ctx o)
  unfolding for_instances
  for_instances-Cleared zero index ctx o v = record {
    before = λ k h. refl;
    lost = λ k h b. absurd (lt-irrefl k (omega arith));
    count = refl;
    tells = refl;
  }
    where
      lt-irrefl : (k : ℕ) → k < k → ⊥
      lt-irrefl k h = omega arith
  for_instances-Cleared (suc n) index ctx o v =
      let c = instance_clear dead (ctx.instances index) o in
      let ctx' = record ctx { instances = set_at ctx.instances index c.inst } in
      GroupsCleared-step n index ctx o c
        (for_instances (instance_clear dead) n (index + 1) ctx' c.outside)
        (instance_clear-Cleared dead (ctx.instances index) o (v index (omega arith) (omega arith)))
        (for_instances-Cleared n (index + 1) ctx' c.outside (λ k h b.
          subst Valid (sym (set_at-other ctx.instances index c.inst k (λ e. omega arith)))
            (v k (omega arith) (omega arith))))

-- All data groups after a clearing of the entries that have to go.
abbrev pub Clears :
    (FsReplicaRpcResultEntry → Bool) → FsReplicaRpcResultContext → Outside → Reply → Type 0
Clears dead ctx o r =
    ((k : ℕ) → k < ctx.dg_count → Lost dead (ctx.instances k) (r.ctx.instances k))
    × (r.result ≡ length (all_gone dead ctx.dg_count 0 ctx.instances))
    × (told r.outside ≡ told (tell_all (all_gone dead ctx.dg_count 0 ctx.instances) o))

-- Where every data group is in order and the time is not that of the last check,
-- rpc_result_ring_clear_timeouts takes from each group's ring and queue exactly the expired entries
-- in front, tells the tasks of these entries, group by group, and returns their number; every group
-- is in order again.
pub rpc_result_ring_clear_timeouts_lem :
    (now : ℕ) (ctx : FsReplicaRpcResultContext) (o : Outside)
    → ValidContext ctx
    → ctx.last_check_timeout_time ≢ now
    → Clears (λ e. ltb e.expires now) ctx o (rpc_result_ring_clear_timeouts now ctx o)
unfolding rpc_result_ring_clear_timeouts
rpc_result_ring_clear_timeouts_lem now ctx o v ne =
    rw (rpc_result_ring_clear_timeouts, ne→eqb ctx.last_check_timeout_time now ne)
      ((λ k b. g.lost k (omega arith) (omega arith)), g.count, g.tells)
  where
    g :
        GroupsCleared
          (λ e. ltb e.expires now)
          ctx.dg_count
          0
          (record ctx { last_check_timeout_time = now })
          o
          (for_instances
            (instance_clear (λ e. ltb e.expires now))
            ctx.dg_count
            0
            (record ctx { last_check_timeout_time = now })
            o)
    g =
        for_instances-Cleared (λ e. ltb e.expires now) ctx.dg_count 0
          (record ctx { last_check_timeout_time = now }) o (λ k h b. v k (omega arith))
