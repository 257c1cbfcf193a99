-- ===== src/RpcRing/Remove.antt =====
-- What removing a data version does to the entries that are awaited.
use faststore.Prelude.{
  ℕ, ◌%◌, ◌≡◌, ◌≢◌, refl, sym, ap, ◌∙◌, subst, List, Option, none, some, arith, ◌==◌, if◌then◌else◌,
  inl, inr, eq-or-ne, eq→eqb, ne→eqb, Bool-cases, set_at, set_at-other,
}
use faststore.Errno.{enoent}
use faststore.RpcRing.{
  FsReplicaRpcResultEntry, Ring, FsReplicaRpcResultInstance, Outside, Outcome, reset, ring_without,
  desc_task_waiting_rpc_count, remove_from_queue, instance_remove,
}
use faststore.RpcRing.Window.{Within}
use faststore.RpcRing.Queue.{find, without, queue_without-find, without-Sorted, find-without}
use faststore.RpcRing.Skip.{ring_without-Emptied}
use faststore.RpcRing.Valid.{version_at, Valid, ValidRing, Single, slot_or, slot_or-none, pending}

slot_or-reset :
    (slot : FsReplicaRpcResultEntry) (queued : Option FsReplicaRpcResultEntry) (w : ℕ)
    → w ≢ 0
    → queued ≡ none
    → slot_or (reset slot) queued w ≡ none
slot_or-reset slot queued w n q = ground arith

slot_or-absent :
    (slot : FsReplicaRpcResultEntry) (w : ℕ) → slot.data_version ≢ w → slot_or slot none w ≡ none
slot_or-absent slot w n = ground arith

-- The slot of a removed version no longer answers for it; the others do as before.
slot_or-removed :
    (slot : FsReplicaRpcResultEntry) (queued : Option FsReplicaRpcResultEntry) (v w : ℕ)
    → slot.data_version ≡ v
    → w ≢ 0
    → v ≢ w
    → slot_or (reset slot) queued w ≡ slot_or slot queued w
slot_or-removed slot queued v w e n k = ground arith

ring-pending :
    (i : FsReplicaRpcResultInstance) (v s w : ℕ)
    → Single i
    → version_at i.ring (v % i.ring.size) ≡ v
    → v ≢ 0
    → w ≢ 0
    → pending
        (record i {
          ring = record i.ring {
            entries =
                set_at i.ring.entries (v % i.ring.size) (reset (i.ring.entries (v % i.ring.size)));
            start = s;
          };
        })
        w
      ≡ (if v == w then none else pending i w)
unfolding pending
ring-pending i v s w one e nv nw = elim (eq-or-ne (v % i.ring.size) (w % i.ring.size)) [
  | inl q ↦ rw (eq→eqb (v % i.ring.size) (w % i.ring.size) q) (elim (eq-or-ne v w) [
    | inl z ↦ rw (eq→eqb v w z) (
        slot_or-reset (i.ring.entries (v % i.ring.size)) (find w i.queue) w nw
          (subst (λ u. find u i.queue ≡ none) z (one v nv e)))
    | inr z ↦ rw (ne→eqb v w z) (
        subst
          (λ u.
            slot_or (reset (i.ring.entries (v % i.ring.size))) (find w i.queue) w
            ≡ slot_or (i.ring.entries u) (find w i.queue) w)
          q (slot_or-removed (i.ring.entries (v % i.ring.size)) (find w i.queue) v w e nw z))
  ])
  | inr q ↦
      rw
        (
          set_at-other i.ring.entries (v % i.ring.size) (reset (i.ring.entries (v % i.ring.size)))
              (w % i.ring.size) q,
          ne→eqb v w (λ z. q (ap (λ u. u % i.ring.size) z)),
        )
        refl
]

queue-pending :
    (i : FsReplicaRpcResultInstance) (v w : ℕ)
    → Valid i
    → version_at i.ring (v % i.ring.size) ≢ v
    → pending (record i { queue = without v i.queue }) w ≡ (if v == w then none else pending i w)
unfolding pending
queue-pending i v w valid n = rw (find-without v i.queue w valid.1) (elim (eq-or-ne v w) [
  | inl z ↦ rw (eq→eqb v w z) (
      slot_or-absent (i.ring.entries (w % i.ring.size)) w
        (subst (λ u. version_at i.ring (u % i.ring.size) ≢ u) z n))
  | inr z ↦ rw (ne→eqb v w z) refl
])

ring-Single :
    (i : FsReplicaRpcResultInstance) (v s : ℕ)
    → Single i
    → Single (record i {
      ring = record i.ring {
        entries =
            set_at i.ring.entries (v % i.ring.size) (reset (i.ring.entries (v % i.ring.size)));
        start = s;
      };
    })
ring-Single i v s one w nz = elim (eq-or-ne (v % i.ring.size) (w % i.ring.size)) [
  | inl q ↦ rw (version_at, eq→eqb (v % i.ring.size) (w % i.ring.size) q) (λ z. absurd (nz (sym z)))
  | inr q ↦
      rw
        (
          version_at,
          set_at-other i.ring.entries (v % i.ring.size) (reset (i.ring.entries (v % i.ring.size)))
              (w % i.ring.size) q,
        )
        (one w nz)
]

queue-Single :
    (i : FsReplicaRpcResultInstance) (v : ℕ)
    → Valid i
    → Single (record i { queue = without v i.queue })
queue-Single i v valid w nz e =
    rw (find-without v i.queue w valid.1, valid.2 w nz e)
      (elim (eq-or-ne v w) [ inl z ↦ rw (eq→eqb v w z) refl | inr z ↦ rw (ne→eqb v w z) refl ])

-- What a task learns: the counts of all tasks, and the notified ones.
abbrev pub told : Outside → (ℕ → ℕ) × List ℕ
told o = (o.waiting_rpc_count, o.notified)

-- The version is no longer awaited, and its task is told.
abbrev pub Removed :
    FsReplicaRpcResultInstance → ℕ → FsReplicaRpcResultEntry → Outside → Outcome → Type 0
Removed i v entry o r =
    (r.result ≡ 0)
    × Valid r.inst
    × ((w : ℕ) → w ≢ 0 → pending r.inst w ≡ (if v == w then none else pending i w))
    × (told r.outside ≡ told (desc_task_waiting_rpc_count entry o))

-- A slot that holds a version shows that the ring is not empty.
in_use : (r : Ring) (v : ℕ) → ValidRing r → v ≢ 0 → version_at r (v % r.size) ≡ v → r.end ≢ r.start
in_use r v h nz e q =
    let within = (h.3 (v % r.size) (omega arith) (λ z. nz (sym e ∙ z))).1 in empty-Within within q
  where
    empty-Within : Within r.size r.start r.end (v % r.size) → r.end ≡ r.start → ⊥
    empty-Within w q = ground arith

slot_or-held :
    (slot entry : FsReplicaRpcResultEntry) (queued : Option FsReplicaRpcResultEntry) (v : ℕ)
    → slot.data_version ≡ v
    → slot_or slot queued v ≡ some entry
    → slot ≡ entry
slot_or-held slot entry queued v e h = ground arith

slot_or-behind :
    (slot : FsReplicaRpcResultEntry) (queued found : Option FsReplicaRpcResultEntry) (v : ℕ)
    → slot.data_version ≢ v
    → slot_or slot queued v ≡ found
    → queued ≡ found
slot_or-behind slot queued found v e h = ground arith

remove-by_ring :
    (i : FsReplicaRpcResultInstance) (v : ℕ) (o : Outside)
    → ValidRing i.ring
    → v ≢ 0
    → version_at i.ring (v % i.ring.size) ≡ v
    → instance_remove i v o ≡ record {
      result = 0;
      inst = record i { ring = ring_without i.ring (v % i.ring.size) };
      outside = desc_task_waiting_rpc_count (i.ring.entries (v % i.ring.size)) o;
    }
unfolding instance_remove
remove-by_ring i v o valid nz e =
    rw
      (
        instance_remove,
        ne→eqb i.ring.end i.ring.start (in_use i.ring v valid nz e),
        eq→eqb (version_at i.ring (v % i.ring.size)) v e,
      )
      refl

remove-by_queue :
    (i : FsReplicaRpcResultInstance) (v : ℕ) (o : Outside)
    → version_at i.ring (v % i.ring.size) ≢ v
    → instance_remove i v o ≡ remove_from_queue i v o
unfolding instance_remove
remove-by_queue i v o e = elim (Bool-cases (i.ring.end == i.ring.start)) [
  | inl b ↦ rw (instance_remove, b) refl
  | inr b ↦ rw (instance_remove, b, ne→eqb (version_at i.ring (v % i.ring.size)) v e) refl
]

pub instance_remove-some :
    (i : FsReplicaRpcResultInstance) (v : ℕ) (entry : FsReplicaRpcResultEntry) (o : Outside)
    → Valid i
    → v ≢ 0
    → pending i v ≡ some entry
    → Removed i v entry o (instance_remove i v o)
unfolding pending remove_from_queue
instance_remove-some i v entry o valid nz h =
    elim (eq-or-ne (version_at i.ring (v % i.ring.size)) v) [
      | inl e ↦
          let r =
            ring_without-Emptied i.ring (v % i.ring.size) valid.0 (omega (arith, valid.0.0))
              (λ z. in_use i.ring v valid.0 nz e (sym z)) in
          let held = slot_or-held (i.ring.entries (v % i.ring.size)) entry (find v i.queue) v e h in
          rw (remove-by_ring i v o valid.0 nz e) (
            refl,
            (
              r.valid,
              valid.1,
              subst (λ x. Single (record i { ring = x })) (sym r.is)
                  (ring-Single i v r.from valid.2),
            ),
            (λ w n.
                subst
                  (λ x. pending (record i { ring = x }) w ≡ (if v == w then none else pending i w))
                  (sym r.is) (ring-pending i v r.from w valid.2 e nz n)),
            ap (λ x. told (desc_task_waiting_rpc_count x o)) held,
          )
      | inr e ↦
          let found =
            slot_or-behind (i.ring.entries (v % i.ring.size)) (find v i.queue) (some entry) v e h in
          rw
            (
              remove-by_queue i v o e,
              remove_from_queue,
              queue_without-find v i.queue valid.1,
              found,
            )
            (
              refl,
              (valid.0, without-Sorted v i.queue valid.1, queue-Single i v valid),
              (λ w n. queue-pending i v w valid e),
              refl,
            )
    ]

pub instance_remove-none :
    (i : FsReplicaRpcResultInstance) (v : ℕ) (o : Outside)
    → Valid i
    → pending i v ≡ none
    → instance_remove i v o ≡ record { result = enoent; inst = i; outside = o }
unfolding pending remove_from_queue
instance_remove-none i v o valid h =
    rw
      (
        remove-by_queue i v o free.0,
        remove_from_queue,
        queue_without-find v i.queue valid.1,
        free.1,
      )
      refl
  where
    free : (version_at i.ring (v % i.ring.size) ≢ v) × (find v i.queue ≡ none)
    free = slot_or-none (i.ring.entries (v % i.ring.size)) (find v i.queue) v h
