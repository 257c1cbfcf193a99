-- ===== src/RpcRing/Valid.antt =====
-- What holds of a data group's ring between the calls, and the entries that are awaited there.
use faststore.Prelude.{
  ℕ, ◌+◌, ◌-◌, ◌%◌, ◌<◌, ◌≡◌, ◌≢◌, refl, sym, ap, ◌∙◌, subst, true, false, not, ◌&&◌, Option, none,
  some, arith, ◌==◌, if◌then◌else◌, ◌⊎◌, inl, inr, eq-or-ne, eq→eqb, ne→eqb, eqb→eq, and-cases,
  set_at, set_at-same, set_at-other,
}
use faststore.Trunk.{add64}
use faststore.RpcRing.{FsReplicaRpcResultEntry, Ring, FsReplicaRpcResultInstance, ring_match, reset}
use faststore.RpcRing.Window.{Within, next-lt, next-ne, Within-grow, Within-end}
use faststore.RpcRing.Queue.{Sorted, find}

abbrev pub version_at : Ring → ℕ → ℕ
version_at r i = (r.entries i).data_version

-- A slot that holds an entry is the one for its version, and lies between start and end.
abbrev pub Slots : (ℕ → FsReplicaRpcResultEntry) → ℕ → ℕ → ℕ → Type 0
Slots entries s e size =
    (i : ℕ)
    → i < size
    → (entries i).data_version ≢ 0
    → ((entries i).data_version % size ≡ i) × Within size s e i

abbrev pub ValidRing : Ring → Type 0
ValidRing r =
    (1 < r.size) × (r.start < r.size) × (r.end < r.size) × Slots r.entries r.start r.end r.size

-- A version has one place: in the ring or in the queue.
abbrev pub Single : FsReplicaRpcResultInstance → Type 0
Single i = (v : ℕ) → v ≢ 0 → version_at i.ring (v % i.ring.size) ≡ v → find v i.queue ≡ none

abbrev pub Valid : FsReplicaRpcResultInstance → Type 0
Valid i = ValidRing i.ring × Sorted i.queue × Single i

-- The entry of a data version: the one in its slot, or else in the queue.
abbrev pub slot_or :
    FsReplicaRpcResultEntry → Option FsReplicaRpcResultEntry → ℕ → Option FsReplicaRpcResultEntry
slot_or slot queued v = if slot.data_version == v then some slot else queued

unfoldable pub pending : FsReplicaRpcResultInstance → ℕ → Option FsReplicaRpcResultEntry
pending i v = slot_or (i.ring.entries (v % i.ring.size)) (find v i.queue) v

-- A version that is not awaited is in neither place.
pub slot_or-none :
    (slot : FsReplicaRpcResultEntry) (queued : Option FsReplicaRpcResultEntry) (v : ℕ)
    → slot_or slot queued v ≡ none
    → (slot.data_version ≢ v) × (queued ≡ none)
slot_or-none slot queued v h = ground arith

pub slot-empty :
    (r : Ring) (i : ℕ)
    → ValidRing r
    → i < r.size
    → ¬ Within r.size r.start r.end i
    → version_at r i ≡ 0
slot-empty r i v h n = elim (eq-or-ne (version_at r i) 0) [
  | inl e ↦ e
  | inr e ↦ absurd (n (v.3 i h e).1)
]

-- Room for a version: its slot is free, and the new bounds take it in beside the old ones.
pub record Room (r : Ring) (index s e : ℕ) : Type 0 where
  pub free : version_at r index ≡ 0
  pub start_in : s < r.size
  pub end_in : e < r.size
  pub holds : Within r.size s e index
  pub keeps : (i : ℕ) → i < r.size → Within r.size r.start r.end i → Within r.size s e i

pub Room-first :
    (r : Ring) (index : ℕ)
    → ValidRing r
    → index < r.size
    → r.end ≡ r.start
    → Room r index index ((index + 1) % r.size)
Room-first r index v h e = record {
  free = slot-empty r index v h (nothing index);
  start_in = h;
  end_in = next-lt r.size index h;
  holds = Within-end r.size index index h h (next-ne r.size index h v.0);
  keeps = λ i k w. absurd (nothing i w);
}
  where
    nothing : (i : ℕ) → ¬ Within r.size r.start r.end i
    nothing i w = ground arith

pub Room-next :
    (r : Ring)
    → ValidRing r
    → (r.end + 1) % r.size ≢ r.start
    → Room r r.end r.start ((r.end + 1) % r.size)
Room-next r v n = record {
  free = slot-empty r r.end v v.2 (λ w. omega arith);
  start_in = v.1;
  end_in = next-lt r.size r.end v.2;
  holds = Within-end r.size r.start r.end v.1 v.2 n;
  keeps = λ i k w. Within-grow r.size r.start r.end i v.1 v.2 k n w;
}

true-ne-false : true ≢ false
true-ne-false q = cc

-- Where the ring takes a version, there is room for it.
pub ring_match-Room :
    (r : Ring) (v : ℕ)
    → ValidRing r
    → (ring_match r v ≡ none)
      ⊎ ((s : ℕ) × (e : ℕ) × (ring_match r v ≡ some (record r { start = s; end = e }))
          × Room r (v % r.size) s e)
unfolding ring_match
ring_match-Room r v h = elim (eq-or-ne r.end r.start) [
  | inl e ↦ inr (
    v % r.size,
    (v % r.size + 1) % r.size,
    rw (eq→eqb r.end r.start e) refl,
    Room-first r (v % r.size) h (omega arith) e,
  )
  | inr n ↦
      elim (and-cases (v % r.size == r.end) (
        not ((v % r.size + 1) % r.size == r.start)
        && (v == add64 (r.entries ((v % r.size + r.size - 1) % r.size)).data_version 1))) [
          | inr b ↦ inl (rw (ne→eqb r.end r.start n, b) refl)
          | inl (a, b) ↦ inr (
            r.start,
            (v % r.size + 1) % r.size,
            rw (ne→eqb r.end r.start n, a, b) refl,
            rw (eqb→eq (v % r.size) r.end a) (Room-next r h (apart a b)),
          )
        ]
]
  where
    apart :
        (v % r.size == r.end) ≡ true
        → (not ((v % r.size + 1) % r.size == r.start)
            && (v == add64 (r.entries ((v % r.size + r.size - 1) % r.size)).data_version 1))
          ≡ true
        → (r.end + 1) % r.size ≢ r.start
    apart a b q =
        true-ne-false
          (sym b ∙ rw (eqb→eq (v % r.size) r.end a, eq→eqb ((r.end + 1) % r.size) r.start q) refl)

-- An entry stored in its slot, where there is room.
pub store-Valid :
    (r : Ring) (entry : FsReplicaRpcResultEntry) (s e : ℕ)
    → ValidRing r
    → Room r (entry.data_version % r.size) s e
    → ValidRing (record r {
      entries = set_at r.entries (entry.data_version % r.size) entry;
      start = s;
      end = e;
    })
store-Valid r entry s e v m = (v.0, m.start_in, m.end_in, slots)
  where
    slots : Slots (set_at r.entries (entry.data_version % r.size) entry) s e r.size
    slots i h n = elim (eq-or-ne (entry.data_version % r.size) i) [
      | inl q ↦
          rw (eq→eqb (entry.data_version % r.size) i q) (q, subst (Within r.size s e) q m.holds)
      | inr q ↦
          let old = set_at-other r.entries (entry.data_version % r.size) entry i q in
          let slot = v.3 i h (λ z. n (ap (λ x. x.data_version) old ∙ z)) in
          (ap (λ x. x.data_version % r.size) old ∙ slot.0, m.keeps i h slot.1)
    ]

-- A slot emptied, and the start moved to where all that is left lies behind it.
pub empty-Valid :
    (r : Ring) (index : ℕ) (s : ℕ)
    → ValidRing r
    → s < r.size
    → ((i : ℕ) → i < r.size → i ≢ index → version_at r i ≢ 0 → Within r.size s r.end i)
    → ValidRing (record r { entries = set_at r.entries index (reset (r.entries index)); start = s })
empty-Valid r index s v h k = (v.0, h, v.2, slots)
  where
    slots : Slots (set_at r.entries index (reset (r.entries index))) s r.end r.size
    slots i hi n = elim (eq-or-ne index i) [
      | inl q ↦ absurd (
          n (
            ap (λ j. (set_at r.entries index (reset (r.entries index)) j).data_version) (sym q)
            ∙ ap (λ x. x.data_version) (set_at-same r.entries index (reset (r.entries index)))))
      | inr q ↦
          let old = set_at-other r.entries index (reset (r.entries index)) i q in
          let m : (version_at r i ≢ 0) = (λ z. n (ap (λ x. x.data_version) old ∙ z)) in
          (ap (λ x. x.data_version % r.size) old ∙ (v.3 i hi m).0, k i hi (λ z. q (sym z)) m)
    ]
