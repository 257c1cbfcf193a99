-- ===== src/RpcRing/Clear.antt =====
-- Clearing from the front, as a change of the list of awaited entries.
use faststore.Prelude.{
  ℕ, zero, suc, ◌+◌, ◌%◌, ◌<◌, ◌≤◌, ◌≡◌, ◌≢◌, refl, sym, ap, ◌∙◌, subst, List, [], ◌∷◌, length,
  arith, ◌==◌, not, ◌&&◌, Bool, true, false, if◌then◌else◌, ◌⊎◌, inl, inr, eq-or-ne, eq→eqb,
  Bool-cases, set_at, set_at-same, set_at-other,
}
use faststore.RpcRing.{
  FsReplicaRpcResultEntry, Ring, Outside, reset, clear_ring, desc_task_waiting_rpc_count,
}
use faststore.RpcRing.Window.{
  Within, dist, dist-next, dist-zero, Within-next, Within-passed, Within-ahead, dist-same,
  dist-suc-ne, dist-suc-next, dist-suc-Within,
}
use faststore.RpcRing.Skip.{next-start}
use faststore.RpcRing.Valid.{version_at, ValidRing, empty-Valid}

abbrev pub take_while {ℓ} : {A : Type ℓ} → (A → Bool) → List A → List A
take_while p [] = []
take_while p (x ∷ xs) = if p x then x ∷ take_while p xs else []

abbrev pub drop_while {ℓ} : {A : Type ℓ} → (A → Bool) → List A → List A
drop_while p [] = []
drop_while p (x ∷ xs) = if p x then drop_while p xs else x ∷ xs

-- The entries of the slots from one index on.
abbrev pub window : (ℕ → FsReplicaRpcResultEntry) → ℕ → ℕ → ℕ → List FsReplicaRpcResultEntry
window f size zero s = []
window f size (suc n) s = f s ∷ window f size n ((s + 1) % size)

-- The ring as a list, from start to end.
abbrev pub ring_list : Ring → List FsReplicaRpcResultEntry
ring_list r = window r.entries r.size (dist r.size r.start r.end) r.start

-- The tasks of these entries are told, one after the other.
abbrev pub tell_all : List FsReplicaRpcResultEntry → Outside → Outside
tell_all [] o = o
tell_all (x ∷ xs) o = tell_all xs (desc_task_waiting_rpc_count x o)

-- A slot outside the window does not show in it.
window-set :
    (f : ℕ → FsReplicaRpcResultEntry) (size e j : ℕ) (x : FsReplicaRpcResultEntry) (n s : ℕ)
    → s < size
    → e < size
    → j < size
    → dist size s e ≡ n
    → ¬ Within size s e j
    → window (set_at f j x) size n s ≡ window f size n s
window-set f size e j x zero s hs he hj d w = refl
window-set f size e j x (suc n) s hs he hj d w =
    rw
      (set_at-other f j x s
        (λ q. w (subst (Within size s e) (sym q) (dist-suc-Within size s e n hs he d))))
      (ap (◌∷◌ (f s)) (
        window-set f size e j x n ((s + 1) % size) (omega arith) he hj
          (dist-suc-next size s e n hs he d)
          (λ v. w (Within-ahead size s e j hs he hj (dist-suc-ne size s e n hs he d) v))))

-- The ring after the first entry is cleared.
abbrev cleared_first : Ring → ℕ → Ring
cleared_first r next = record r {
  entries = set_at r.entries r.start (reset (r.entries r.start));
  start = next;
}

ring_list-first :
    (r : Ring)
    → ValidRing r
    → r.start ≢ r.end
    → ring_list r ≡ r.entries r.start ∷ ring_list (cleared_first r ((r.start + 1) % r.size))
ring_list-first r v ne =
    rw
      (
        sym (dist-next r.size r.start r.end v.1 v.2 ne),
        window-set r.entries r.size r.end r.start (reset (r.entries r.start))
            (dist r.size ((r.start + 1) % r.size) r.end) ((r.start + 1) % r.size) (omega arith) v.2
            v.1 refl (Within-passed r.size r.start r.end v.1 v.2),
      )
      refl

cleared_first-Valid :
    (r : Ring) → ValidRing r → ValidRing (cleared_first r ((r.start + 1) % r.size))
cleared_first-Valid r v =
    empty-Valid r r.start ((r.start + 1) % r.size) v (omega arith)
      (λ i k n z. Within-next r.size r.start r.end i v.1 v.2 k (λ e. n (sym e)) (v.3 i k z).1)

-- What the loop over the ring does: it takes the entries in front that have to go, tells their
-- tasks, and leaves the rest.
pub record RingCleared (dead : FsReplicaRpcResultEntry → Bool) (r : Ring) (o : Outside) (n : ℕ)
    (r' : Ring) (o' : Outside) : Type 0 where
  pub count : n ≡ length (take_while dead (ring_list r))
  pub rest : ring_list r' ≡ drop_while dead (ring_list r)
  pub tells : o' ≡ tell_all (take_while dead (ring_list r)) o
  pub valid : ValidRing r'
  pub same_size : r'.size ≡ r.size
  pub slots : (i : ℕ) → version_at r' i ≢ 0 → version_at r' i ≡ version_at r i

abbrev CRing : (FsReplicaRpcResultEntry → Bool) → Ring → Outside → ℕ × Ring × Outside → Type 0
CRing dead r o x = RingCleared dead r o x.0 x.1 x.2

ring_list-empty : (r : Ring) → r.start ≡ r.end → ring_list r ≡ []
ring_list-empty r e = rw (dist-same r.size r.start r.end e) refl

abbrev has_dead : (FsReplicaRpcResultEntry → Bool) → Ring → Bool
has_dead dead r = not (r.start == r.end) && dead (r.entries r.start)

clear_ring-stop :
    (dead : FsReplicaRpcResultEntry → Bool) (fuel index : ℕ) (r : Ring) (o : Outside)
    → has_dead dead r ≡ false
    → clear_ring dead fuel index r o ≡ (0, r, o)
unfolding clear_ring
clear_ring-stop dead zero index r o q = refl
clear_ring-stop dead (suc fuel) index r o q = rw (clear_ring, q) refl

clear_ring-step :
    (dead : FsReplicaRpcResultEntry → Bool) (fuel index : ℕ) (r : Ring) (o : Outside)
    → has_dead dead r ≡ true
    → clear_ring dead (suc fuel) index r o ≡ (
        let x =
          clear_ring dead fuel
            (index + 1)
            (cleared_first r ((index + 1) % r.size))
            (desc_task_waiting_rpc_count (r.entries r.start) o) in
        (x.0 + 1, x.1, x.2))
unfolding clear_ring
clear_ring-step dead fuel index r o q = rw (clear_ring, q) refl

not_eq-and-false : (a b : ℕ) (d : Bool) → (not (a == b) && d) ≡ false → (a ≡ b) ⊎ (d ≡ false)
not_eq-and-false a b d q = ground arith

not_eq-and-true : (a b : ℕ) (d : Bool) → (not (a == b) && d) ≡ true → (a ≢ b) × (d ≡ true)
not_eq-and-true a b d q = ground arith

-- The list begins with nothing that has to go, where the loop stops.
front-stays :
    (dead : FsReplicaRpcResultEntry → Bool) (r : Ring)
    → ValidRing r
    → has_dead dead r ≡ false
    → (take_while dead (ring_list r) ≡ []) × (drop_while dead (ring_list r) ≡ ring_list r)
front-stays dead r v q = elim (eq-or-ne r.start r.end) [
  | inl e ↦ rw (ring_list-empty r e) (refl, refl)
  | inr ne ↦ elim (not_eq-and-false r.start r.end (dead (r.entries r.start)) q) [
    | inl e ↦ absurd (ne e)
    | inr d ↦ rw (ring_list-first r v ne, d) (refl, refl)
  ]
]

RingCleared-stop :
    (dead : FsReplicaRpcResultEntry → Bool) (fuel index : ℕ) (r : Ring) (o : Outside)
    → ValidRing r
    → has_dead dead r ≡ false
    → CRing dead r o (clear_ring dead fuel index r o)
RingCleared-stop dead fuel index r o v q =
    let front = front-stays dead r v q in
    rw (clear_ring-stop dead fuel index r o q) (record {
      count = sym (ap length front.0);
      rest = sym front.1;
      tells = sym (ap (λ l. tell_all l o) front.0);
      valid = v;
      same_size = refl;
      slots = λ i n. refl;
    })

cleared_first-slots :
    (r : Ring) (next i : ℕ)
    → version_at (cleared_first r next) i ≢ 0
    → version_at (cleared_first r next) i ≡ version_at r i
cleared_first-slots r next i n = elim (eq-or-ne r.start i) [
  | inl q ↦ absurd (
      n (
        ap (λ j. version_at (cleared_first r next) j) (sym q)
        ∙ ap (λ x. x.data_version) (set_at-same r.entries r.start (reset (r.entries r.start)))))
  | inr q ↦
      ap (λ x. x.data_version) (set_at-other r.entries r.start (reset (r.entries r.start)) i q)
]

-- One round, put before the rounds that follow.
RingCleared-step :
    (dead : FsReplicaRpcResultEntry → Bool) (r : Ring) (next : ℕ) (o : Outside) {n : ℕ} {r' : Ring}
    {o' : Outside}
    → ValidRing r
    → next ≡ (r.start + 1) % r.size
    → (r.start ≢ r.end) × (dead (r.entries r.start) ≡ true)
    → RingCleared dead
        (cleared_first r next)
        (desc_task_waiting_rpc_count (r.entries r.start) o)
        n
        r'
        o'
    → RingCleared dead r o (n + 1) r' o'
RingCleared-step dead r next o v q on c =
    let first =
      subst (λ m. ring_list r ≡ r.entries r.start ∷ ring_list (cleared_first r m)) (sym q)
        (ring_list-first r v on.0) in
    record {
      count = rw (first, on.1, c.count) (omega arith);
      rest = rw (first, on.1) c.rest;
      tells = rw (first, on.1) c.tells;
      valid = c.valid;
      same_size = c.same_size;
      slots = λ i m. let s = c.slots i m in s ∙ cleared_first-slots r next i (λ z. m (s ∙ z));
    }

pub clear_ring-Cleared :
    (dead : FsReplicaRpcResultEntry → Bool) (fuel index : ℕ) (r : Ring) (o : Outside)
    → ValidRing r
    → r.start ≡ index % r.size
    → dist r.size r.start r.end ≤ fuel
    → CRing dead r o (clear_ring dead fuel index r o)
clear_ring-Cleared dead zero index r o v q d =
    RingCleared-stop dead zero index r o v
      (rw (eq→eqb r.start r.end (dist-zero r.size r.start r.end v.1 v.2 d)) refl)
clear_ring-Cleared dead (suc fuel) index r o v q d = elim (Bool-cases (has_dead dead r)) [
  | inr c ↦ RingCleared-stop dead (suc fuel) index r o v c
  | inl c ↦
      let on = not_eq-and-true r.start r.end (dead (r.entries r.start)) c in
      let next = next-start r.size index r.start q in
      let r1 = cleared_first r ((index + 1) % r.size) in
      let v1 = subst (λ n. ValidRing (cleared_first r n)) next (cleared_first-Valid r v) in
      let d1 =
        subst (λ n. dist r.size n r.end ≤ fuel) next
          (one_less (dist-next r.size r.start r.end v.1 v.2 on.0) d) in
      rw (clear_ring-step dead fuel index r o c) (
        RingCleared-step dead r ((index + 1) % r.size) o v (sym next) on (
          clear_ring-Cleared dead fuel (index + 1) r1
            (desc_task_waiting_rpc_count (r.entries r.start) o) v1 refl d1))
]
  where
    one_less : {x y : ℕ} → suc x ≡ y → y ≤ suc fuel → x ≤ fuel
    one_less p b = omega arith
