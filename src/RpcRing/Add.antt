-- ===== src/RpcRing/Add.antt =====
-- What adding an entry does to the entries that are awaited.
use faststore.Prelude.{
  ℕ, suc, ◌%◌, ◌-◌, ◌<◌, ◌≡◌, ◌≢◌, refl, sym, ap, subst, Option, none, some, arith, ◌==◌,
  if◌then◌else◌, inl, inr, eq-or-ne, eq→eqb, ne→eqb, set_at, set_at-other,
}
use faststore.RpcRing.{
  FsReplicaRpcResultEntry, FsReplicaRpcResultInstance, Outside, Outcome, queue_with, add_to_queue,
  instance_add,
}
use faststore.RpcRing.Queue.{
  Sorted, find, queue_with-insert_entry, insert_entry-Sorted, find-insert_entry,
}
use faststore.RpcRing.Valid.{
  version_at, Valid, Single, slot_or, slot_or-none, pending, ring_match-Room, store-Valid,
}

slot_or-queued :
    (slot entry : FsReplicaRpcResultEntry) (queued : Option FsReplicaRpcResultEntry) (v w : ℕ)
    → slot.data_version ≢ v
    → slot_or slot (if v == w then some entry else queued) w
      ≡ (if v == w then some entry else slot_or slot queued w)
slot_or-queued slot entry queued v w h = ground arith

slot_or-stored :
    (slot entry : FsReplicaRpcResultEntry) (queued : Option FsReplicaRpcResultEntry) (w : ℕ)
    → slot.data_version ≡ 0
    → w ≢ 0
    → slot_or entry queued w
      ≡ (if entry.data_version == w then some entry else slot_or slot queued w)
slot_or-stored slot entry queued w z h = ground arith

pending-none :
    (i : FsReplicaRpcResultInstance) (v : ℕ)
    → pending i v ≡ none
    → (version_at i.ring (v % i.ring.size) ≢ v) × (find v i.queue ≡ none)
unfolding pending
pending-none i v h = slot_or-none (i.ring.entries (v % i.ring.size)) (find v i.queue) v h

queue-pending :
    (i : FsReplicaRpcResultInstance) (entry : FsReplicaRpcResultEntry) (w : ℕ)
    → Valid i
    → pending i entry.data_version ≡ none
    → pending (record i { queue = queue_with entry i.queue }) w
      ≡ (if entry.data_version == w then some entry else pending i w)
unfolding pending
queue-pending i entry w v h =
    let free = pending-none i entry.data_version h in
    rw
      (
        queue_with-insert_entry entry i.queue v.1 free.1,
        find-insert_entry entry i.queue w v.1 free.1,
      )
      (elim (eq-or-ne entry.data_version w) [
        | inl q ↦
            slot_or-queued (i.ring.entries (w % i.ring.size)) entry (find w i.queue)
              entry.data_version w
              (subst (λ u. version_at i.ring (u % i.ring.size) ≢ entry.data_version) q free.0)
        | inr n ↦ rw (ne→eqb entry.data_version w n) refl
      ])

ring-pending :
    (i : FsReplicaRpcResultInstance) (entry : FsReplicaRpcResultEntry) (s e w : ℕ)
    → w ≢ 0
    → version_at i.ring (entry.data_version % i.ring.size) ≡ 0
    → pending
        (record i {
          ring = record i.ring {
            entries = set_at i.ring.entries (entry.data_version % i.ring.size) entry;
            start = s;
            end = e;
          };
        })
        w
      ≡ (if entry.data_version == w then some entry else pending i w)
unfolding pending
ring-pending i entry s e w nz free =
    elim (eq-or-ne (entry.data_version % i.ring.size) (w % i.ring.size)) [
      | inl q ↦ rw (eq→eqb (entry.data_version % i.ring.size) (w % i.ring.size) q) (
          slot_or-stored (i.ring.entries (w % i.ring.size)) entry (find w i.queue) w
            (subst (λ u. version_at i.ring u ≡ 0) q free) nz)
      | inr q ↦
          rw
            (
              set_at-other i.ring.entries (entry.data_version % i.ring.size) entry (w % i.ring.size)
                  q,
              ne→eqb entry.data_version w (λ z. q (ap (λ u. u % i.ring.size) z)),
            )
            refl
    ]

queue-Single :
    (i : FsReplicaRpcResultInstance) (entry : FsReplicaRpcResultEntry)
    → Valid i
    → pending i entry.data_version ≡ none
    → Single (record i { queue = queue_with entry i.queue })
queue-Single i entry v h w nz e =
    let free = pending-none i entry.data_version h in
    rw
      (
        queue_with-insert_entry entry i.queue v.1 free.1,
        find-insert_entry entry i.queue w v.1 free.1,
        ne→eqb entry.data_version w
            (λ q. free.0 (subst (λ u. version_at i.ring (u % i.ring.size) ≡ u) (sym q) e)),
      )
      (v.2 w nz e)

ring-Single :
    (i : FsReplicaRpcResultInstance) (entry : FsReplicaRpcResultEntry) (s e : ℕ)
    → Valid i
    → pending i entry.data_version ≡ none
    → Single (record i {
      ring = record i.ring {
        entries = set_at i.ring.entries (entry.data_version % i.ring.size) entry;
        start = s;
        end = e;
      };
    })
ring-Single i entry s e v h w nz =
    elim (eq-or-ne (entry.data_version % i.ring.size) (w % i.ring.size)) [
      | inl q ↦
          rw (version_at, eq→eqb (entry.data_version % i.ring.size) (w % i.ring.size) q)
            (λ z. subst (λ u. find u i.queue ≡ none) z (pending-none i entry.data_version h).1)
      | inr q ↦
          rw
            (
              version_at,
              set_at-other i.ring.entries (entry.data_version % i.ring.size) entry (w % i.ring.size)
                  q,
            )
            (v.2 w nz)
    ]

-- The result, and what is awaited afterwards.
abbrev pub Added : FsReplicaRpcResultInstance → FsReplicaRpcResultEntry → Outcome → Type 0
Added i entry r =
    (r.result ≡ 0)
    × Valid r.inst
    × ((w : ℕ)
        → w ≢ 0
        → pending r.inst w ≡ (if entry.data_version == w then some entry else pending i w))

pub instance_add-Added :
    (i : FsReplicaRpcResultInstance) (entry : FsReplicaRpcResultEntry) (o : Outside)
    → Valid i
    → pending i entry.data_version ≡ none
    → 0 < o.rentries
    → Added i entry (instance_add i entry o)
unfolding instance_add add_to_queue pending
instance_add-Added i entry o v h m = elim (ring_match-Room i.ring entry.data_version v.0) [
  | inl q ↦
      rw (instance_add, q, add_to_queue, left)
        (refl, (v.0, sorted, queue-Single i entry v h), λ w n. queue-pending i entry w v h)
  | inr (s, e, q, room) ↦
      rw (instance_add, q)
        (
          refl,
          (store-Valid i.ring entry s e v.0 room, v.1, ring-Single i entry s e v h),
          λ w n. ring-pending i entry s e w n room.free,
        )
]
  where
    left : o.rentries ≡ suc (o.rentries - 1)
    left = omega arith

    sorted : Sorted (queue_with entry i.queue)
    sorted =
        let free = (pending-none i entry.data_version h).1 in
        rw (queue_with-insert_entry entry i.queue v.1 free)
          (insert_entry-Sorted entry i.queue v.1 free)
