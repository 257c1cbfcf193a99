-- ===== src/RpcRing/Timeouts.antt =====
-- Clearing a data group: the ring, then the queue.
use faststore.Prelude.{
  ℕ, suc, ◌+◌, ◌%◌, ◌≡◌, refl, sym, ap, ap₂, ◌∙◌, subst, List, [], ◌∷◌, ◌++◌, length, none, arith,
  Bool, inl, inr, Bool-cases, Option-cases,
}
use native.Mathlib.Nat.{mod-eq_of_lt}
use faststore.RpcRing.{
  FsReplicaRpcResultEntry, Ring, FsReplicaRpcResultInstance, Outside, Outcome, clear_ring,
  clear_queue, instance_clear, desc_task_waiting_rpc_count, free_entry,
}
use faststore.RpcRing.Window.{dist-le}
use faststore.RpcRing.Queue.{Sorted, find}
use faststore.RpcRing.Remove.{told}
use faststore.RpcRing.Clear.{
  take_while, drop_while, ring_list, tell_all, RingCleared, clear_ring-Cleared,
}
use faststore.RpcRing.Valid.{version_at, Valid, Single}

drop_while-Sorted :
    (dead : FsReplicaRpcResultEntry → Bool) (l : List FsReplicaRpcResultEntry)
    → Sorted l
    → Sorted (drop_while dead l)
drop_while-Sorted dead [] s = tt
drop_while-Sorted dead (x ∷ l) s = elim (Bool-cases (dead x)) [
  | inl q ↦ rw q (drop_while-Sorted dead l s.1)
  | inr q ↦ rw q s
]

find-rest :
    (x : FsReplicaRpcResultEntry) (l : List FsReplicaRpcResultEntry) (v : ℕ)
    → find v (x ∷ l) ≡ none
    → find v l ≡ none
find-rest x l v h = ground arith

find-drop_while :
    (dead : FsReplicaRpcResultEntry → Bool) (l : List FsReplicaRpcResultEntry) (v : ℕ)
    → find v l ≡ none
    → find v (drop_while dead l) ≡ none
find-drop_while dead [] v h = refl
find-drop_while dead (x ∷ l) v h = elim (Bool-cases (dead x)) [
  | inl q ↦ rw q (find-drop_while dead l v (find-rest x l v h))
  | inr q ↦ rw q h
]

-- What is told depends on what was told before only.
told-desc :
    (e : FsReplicaRpcResultEntry) (o p : Outside)
    → told o ≡ told p
    → told (desc_task_waiting_rpc_count e o) ≡ told (desc_task_waiting_rpc_count e p)
unfolding desc_task_waiting_rpc_count
told-desc e o p h = elim (Option-cases e.waiting_task) [
  | inl q ↦ rw (desc_task_waiting_rpc_count, q) h
  | inr (t, q) ↦ rw (desc_task_waiting_rpc_count, q, ap (λ x. x.0) h, ap (λ x. x.1) h) refl
]

pub told-all :
    (l : List FsReplicaRpcResultEntry) (o p : Outside)
    → told o ≡ told p
    → told (tell_all l o) ≡ told (tell_all l p)
told-all [] o p h = h
told-all (x ∷ l) o p h = told-all l _ _ (told-desc x o p h)

pub tell_all-append :
    (xs ys : List FsReplicaRpcResultEntry) (o : Outside)
    → tell_all (xs ++ ys) o ≡ tell_all ys (tell_all xs o)
tell_all-append [] ys o = refl
tell_all-append (x ∷ xs) ys o = tell_all-append xs ys (desc_task_waiting_rpc_count x o)

abbrev QueueCleared :
    (FsReplicaRpcResultEntry → Bool)
    → List FsReplicaRpcResultEntry
    → Outside
    → ℕ × List FsReplicaRpcResultEntry × Outside
    → Type 0
QueueCleared dead l o x =
    (x.0 ≡ length (take_while dead l))
    × (x.1 ≡ drop_while dead l)
    × (told x.2 ≡ told (tell_all (take_while dead l) o))

clear_queue-Cleared :
    (dead : FsReplicaRpcResultEntry → Bool) (l : List FsReplicaRpcResultEntry) (o : Outside)
    → QueueCleared dead l o (clear_queue dead l o)
unfolding clear_queue
clear_queue-Cleared dead [] o = (refl, refl, refl)
clear_queue-Cleared dead (x ∷ l) o = elim (Bool-cases (dead x)) [
  | inr q ↦ rw (clear_queue, q) (refl, refl, refl)
  | inl q ↦
      let r = clear_queue-Cleared dead l (free_entry (desc_task_waiting_rpc_count x o)) in
      rw (clear_queue, q)
        (
          plus_one r.0,
          r.1,
          r.2
              ∙ told-all (take_while dead l) (free_entry (desc_task_waiting_rpc_count x o))
                  (desc_task_waiting_rpc_count x o) refl,
        )
]
  where
    plus_one : {a b : ℕ} → a ≡ b → a + 1 ≡ suc b
    plus_one h = omega arith

-- What clearing does to a data group: the ring and the queue lose the entries in front that have to
-- go, whose tasks are told in this order; the result counts them.
pub record InstanceCleared (dead : FsReplicaRpcResultEntry → Bool) (i : FsReplicaRpcResultInstance)
    (o : Outside) (r : Outcome) : Type 0 where
  pub valid : Valid r.inst
  pub ring_rest : ring_list r.inst.ring ≡ drop_while dead (ring_list i.ring)
  pub queue_rest : r.inst.queue ≡ drop_while dead i.queue
  pub count :
      r.result ≡ length (take_while dead (ring_list i.ring)) + length (take_while dead i.queue)
  pub tells :
      told r.outside
      ≡ told (tell_all (take_while dead (ring_list i.ring) ++ take_while dead i.queue) o)

InstanceCleared-parts :
    (dead : FsReplicaRpcResultEntry → Bool) (i : FsReplicaRpcResultInstance) (o : Outside)
    (x : ℕ × Ring × Outside) (y : ℕ × List FsReplicaRpcResultEntry × Outside)
    → Valid i
    → RingCleared dead i.ring o x.0 x.1 x.2
    → QueueCleared dead i.queue x.2 y
    → InstanceCleared dead i o
        (record { result = x.0 + y.0; inst = record { ring = x.1; queue = y.1 }; outside = y.2 })
InstanceCleared-parts dead i o x y v c d = record {
  valid = (c.valid, rw d.1 (drop_while-Sorted dead i.queue v.1), single);
  ring_rest = c.rest;
  queue_rest = d.1;
  count = ap₂ ◌+◌ c.count d.0;
  tells =
      d.2
      ∙ (ap (λ o'. told (tell_all (take_while dead i.queue) o')) c.tells
          ∙ sym (
              ap told (
                tell_all-append (take_while dead (ring_list i.ring)) (take_while dead i.queue) o)));
}
  where
    single : Single (record { ring = x.1; queue = y.1 })
    single w n e = rw d.1 (
        find-drop_while dead i.queue w (
          v.2 w n (
            subst (λ z. version_at i.ring (w % z) ≡ w) c.same_size
              (sym (c.slots (w % x.1.size) (λ z. n (sym e ∙ z))) ∙ e))))

pub instance_clear-Cleared :
    (dead : FsReplicaRpcResultEntry → Bool) (i : FsReplicaRpcResultInstance) (o : Outside)
    → Valid i
    → InstanceCleared dead i o (instance_clear dead i o)
unfolding instance_clear
instance_clear-Cleared dead i o v =
    let x = clear_ring dead i.ring.size i.ring.start i.ring o in
    InstanceCleared-parts dead i o x (clear_queue dead i.queue x.2) v
      (clear_ring-Cleared dead i.ring.size i.ring.start i.ring o v.0 (sym (mod-eq_of_lt v.0.1))
        (dist-le i.ring.size i.ring.start i.ring.end v.0.1 v.0.2))
      (clear_queue-Cleared dead i.queue x.2)
