-- ===== src/RpcRing/Groups/Behaviour.antt =====
-- What is awaited in each data group, and how the functions of rpc_result_ring.c change it.
use faststore.Prelude.{
  ℕ, ◌-◌, ◌≤◌, ◌<◌, ◌≡◌, ◌≢◌, refl, ap, subst, ◌&&◌, Option, none, some, arith, ◌==◌, if◌then◌else◌,
  inl, inr, eq-or-ne, eq→eqb, ne→eqb, Option-cases,
}
use faststore.Errno.{enoent}
use faststore.RpcRing.{
  FsReplicaRpcResultEntry, FsReplicaRpcResultContext, Outside, Outcome, desc_task_waiting_rpc_count,
  instance_add, instance_remove,
}
use faststore.RpcRing.Valid.{Valid, pending}
use faststore.RpcRing.Add.{instance_add-Added}
use faststore.RpcRing.Remove.{told, instance_remove-some, instance_remove-none}
use faststore.RpcRing.Groups.{
  instance_of, reply, new_entry, rpc_result_ring_add, rpc_result_ring_remove,
}

-- Every data group's instance is in order.
abbrev pub ValidContext : FsReplicaRpcResultContext → Type 0
ValidContext ctx = (k : ℕ) → k < ctx.dg_count → Valid (ctx.instances k)

-- The data group is one of the server's own.
abbrev pub MyGroup : FsReplicaRpcResultContext → ℕ → Type 0
MyGroup ctx g = (ctx.dg_base_id ≤ g) × (g - ctx.dg_base_id < ctx.dg_count)

-- The entry that a data group awaits for a data version.
abbrev pub awaits : FsReplicaRpcResultContext → ℕ → ℕ → Option FsReplicaRpcResultEntry
awaits ctx g v = pending (instance_of ctx g) v

-- The entries awaited after a change at one group and version.
abbrev pub Changed :
    FsReplicaRpcResultContext
    → ℕ
    → ℕ
    → Option FsReplicaRpcResultEntry
    → FsReplicaRpcResultContext
    → Type 0
Changed ctx g v new ctx' =
    (h w : ℕ)
    → MyGroup ctx h
    → w ≢ 0
    → awaits ctx' h w ≡ (if (g == h) && (v == w) then new else awaits ctx h w)

reply-Valid :
    (ctx : FsReplicaRpcResultContext) (g : ℕ) (r : Outcome)
    → ValidContext ctx
    → Valid r.inst
    → ValidContext (reply ctx g r).ctx
reply-Valid ctx g r v h k b = elim (eq-or-ne (g - ctx.dg_base_id) k) [
  | inl q ↦ rw (eq→eqb (g - ctx.dg_base_id) k q) h
  | inr q ↦ rw (ne→eqb (g - ctx.dg_base_id) k q) (v k b)
]

reply-Changed :
    (ctx : FsReplicaRpcResultContext) (g v : ℕ) (new : Option FsReplicaRpcResultEntry) (r : Outcome)
    → MyGroup ctx g
    → ((w : ℕ) → w ≢ 0 → pending r.inst w ≡ (if v == w then new else awaits ctx g w))
    → Changed ctx g v new (reply ctx g r).ctx
reply-Changed ctx g v new r mine p h w other n = elim (eq-or-ne g h) [
  | inl q ↦
      rw
        (
          eq→eqb g h q,
          eq→eqb (g - ctx.dg_base_id) (h - ctx.dg_base_id) (ap (λ z. z - ctx.dg_base_id) q),
        )
        (subst (λ z. pending r.inst w ≡ (if v == w then new else awaits ctx z w)) q (p w n))
  | inr q ↦ rw (ne→eqb g h q, ne→eqb (g - ctx.dg_base_id) (h - ctx.dg_base_id) (apart q)) refl
]
  where
    apart : g ≢ h → g - ctx.dg_base_id ≢ h - ctx.dg_base_id
    apart q e = q (omega (arith, mine.0, other.0, e))

-- Where every data group is in order, the version is not zero and not awaited in the group, and
-- an entry can be allocated, rpc_result_ring_add returns 0; then the group awaits the new entry
-- for the version, every other version of every group is awaited as before, and every group is in
-- order.
pub rpc_result_ring_add_lem :
    (ctx : FsReplicaRpcResultContext) (g v : ℕ) (task : Option ℕ) (now network_timeout : ℕ)
    (o : Outside)
    → ValidContext ctx
    → MyGroup ctx g
    → awaits ctx g v ≡ none
    → 0 < o.rentries
    → (let r = rpc_result_ring_add ctx g v task now network_timeout o in
        (r.result ≡ 0)
        × ValidContext r.ctx
        × Changed ctx g v (some (new_entry v task now network_timeout)) r.ctx)
unfolding rpc_result_ring_add
rpc_result_ring_add_lem ctx g v task now network_timeout o valid mine free m =
    let entry = new_entry v task now network_timeout in
    let r = instance_add (instance_of ctx g) entry o in
    let a =
      instance_add-Added (instance_of ctx g) entry o (valid (g - ctx.dg_base_id) mine.1) free m in
    (a.0, reply-Valid ctx g r valid a.1, reply-Changed ctx g v (some entry) r mine a.2)

-- What rpc_result_ring_remove returns, and whom it tells, for what the group awaits.
abbrev pub remove_result : Option FsReplicaRpcResultEntry → ℕ
remove_result none = enoent
remove_result (some e) = 0

abbrev pub tell_removed : Option FsReplicaRpcResultEntry → Outside → Outside
tell_removed none o = o
tell_removed (some e) o = desc_task_waiting_rpc_count e o

-- Where every data group is in order and the version is not zero, rpc_result_ring_remove returns 0
-- where the group awaits the version, and ENOENT where it does not. Afterwards the group does
-- not await it, every other version of every group is awaited as before, the task of the removed
-- entry is told, no other, and every group is in order.
pub rpc_result_ring_remove_lem :
    (ctx : FsReplicaRpcResultContext) (g v : ℕ) (o : Outside)
    → ValidContext ctx
    → MyGroup ctx g
    → v ≢ 0
    → (let r = rpc_result_ring_remove ctx g v o in
        (r.result ≡ remove_result (awaits ctx g v))
        × ValidContext r.ctx
        × Changed ctx g v none r.ctx
        × (told r.outside ≡ told (tell_removed (awaits ctx g v) o)))
unfolding rpc_result_ring_remove
rpc_result_ring_remove_lem ctx g v o valid mine nz = elim (Option-cases (awaits ctx g v)) [
  | inl q ↦
      let r = instance_remove-none (instance_of ctx g) v o here q in
      let kept : Outcome = record { result = enoent; inst = instance_of ctx g; outside = o } in
      rw (r, q)
        (
          refl,
          reply-Valid ctx g kept valid here,
          reply-Changed ctx g v none kept mine (unchanged q),
          refl,
        )
  | inr (e, q) ↦
      let a = instance_remove-some (instance_of ctx g) v e o here nz q in
      rw q (
        a.0,
        reply-Valid ctx g (instance_remove (instance_of ctx g) v o) valid a.1,
        reply-Changed ctx g v none (instance_remove (instance_of ctx g) v o) mine a.2,
        a.3,
      )
]
  where
    here : Valid (instance_of ctx g)
    here = valid (g - ctx.dg_base_id) mine.1

    unchanged :
        awaits ctx g v ≡ none
        → (w : ℕ) → w ≢ 0
        → awaits ctx g w ≡ (if v == w then none else awaits ctx g w)
    unchanged q w n = elim (eq-or-ne v w) [
      | inl z ↦ rw (eq→eqb v w z) (subst (λ u. awaits ctx g u ≡ none) z q)
      | inr z ↦ rw (ne→eqb v w z) refl
    ]
