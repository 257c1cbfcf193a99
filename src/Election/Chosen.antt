-- ===== src/Election/Chosen.antt =====
-- The last stages of select_master (server/master_election.c): whom they choose among the servers
-- of the group.
use faststore.Prelude.{
  ℕ, zero, suc, ◌-◌, ◌%◌, ◌≤◌, ◌<◌, ◌≡◌, ◌⊎◌, inl, inr, true, false, ◌&&◌, ◌||◌, ◌==◌, eqb→eq,
  le-or-lt, lt→ltb, le→ltb, Bool-cases, Option-cases, some, none, List, [], ◌∷◌, length, All,
  All-mono, subst, arith,
}
use faststore.Errno.{enoent, eagain}
use faststore.Election.{
  DataServer, DataGroup, Setting, Counters, Answer, server_at, is_active, candidates,
  is_server_timedout, choose_candidate, choose_active, choose_newest, newest_timeout,
  active_version_down, position_at,
}
use faststore.Election.Whole.{
  Qualified, candidates-All, candidates_each, server_at-All, position_at-All,
}

active_within : (l : List DataServer) (i : ℕ) → is_active (server_at l i) ≡ true → i < length l
unfolding server_at is_active
active_within [] i h = cc
active_within (ds ∷ l) zero h = omega arith
active_within (ds ∷ l) (suc i) h = omega (arith, active_within l i h)

-- The server at position `i` may be master of the group, with data version `v` or later.
abbrev Fit : DataGroup → ℕ → ℕ → Type 0
Fit g v i = Qualified v (server_at g.data_servers i)

answered :
    {r i : ℕ} (P : ℕ → Type 0) (k : ℕ)
    → ◌≡◌ {A = Answer} (0, some k) (r, some i)
    → P k
    → (r ≡ 0) × P i
answered {r} {i} P k e h = (ground arith, subst P k-is-i h)
  where
    k-is-i : k ≡ i
    k-is-i = ground arith

choose_candidate-Fit :
    (g : DataGroup) (last v : ℕ) (found : List ℕ) {r i : ℕ}
    → All (Fit g v) found
    → (length found ≡ length g.data_servers → Fit g v last)
    → choose_candidate g last found ≡ (r, some i)
    → (r ≡ 0) × Fit g v i
unfolding choose_candidate
choose_candidate-Fit g last v [] fit all h = absurd (ground arith)
choose_candidate-Fit g last v (p ∷ l) {r} {i} fit all h =
    elim (Bool-cases (length (p ∷ l) == length g.data_servers)) [
      | inl q ↦ answered (Fit g v) last (rw q at h) (all (eqb→eq _ _ q))
      | inr q ↦ elim (Bool-cases (is_active (server_at g.data_servers k))) [
        | inl act ↦ answered (Fit g v) k (rw (q, act) at h) k_fit
        | inr no_more ↦ absurd (no_answer (rw (q, no_more) at h))
      ]
    ]
  where
    k : ℕ
    k = position_at (p ∷ l) (g.hash_code % length (p ∷ l))

    k_fit : Fit g v k
    k_fit = position_at-All (Fit g v) (p ∷ l) _ fit (grind arith)

    no_answer : ◌≡◌ {A = Answer} (eagain, none) (r, some i) → ⊥
    no_answer e = ground arith

-- The newest of the sorted servers is not newer than the master, or its data may be given up: the
-- policy is not the strict one, and the newest server has been waited for until the timeouts.
abbrev pub NewestKept : Setting → DataGroup → ℕ → ℕ → ℕ → Type 0
NewestKept e g start last i =
    ((server_at g.data_servers last).version ≤ (server_at g.data_servers i).version)
    ⊎ ((e.strict ≡ false)
        × (is_server_timedout e (server_at g.data_servers last).cs start e.election_timeouts
            ≡ true))

abbrev pub Chosen : Setting → DataGroup → ℕ → ℕ → ℕ → Type 0
Chosen e g start last i =
    (is_active (server_at g.data_servers i) ≡ true) × NewestKept e g start last i

candidates-Fit : (g : DataGroup) (v : ℕ) → All (Fit g v) (candidates 0 v g.data_servers)
candidates-Fit g v =
    All-mono _ _ (λ p h. subst (Fit g v) (sub_zero p) h.2) (candidates 0 v g.data_servers)
      (candidates_each 0 v g.data_servers)
  where
    sub_zero : (p : ℕ) → p - 0 ≡ p
    sub_zero p = omega arith

choose_active-Chosen :
    (e : Setting) (g : DataGroup) (start last : ℕ) {r i : ℕ}
    → last < length g.data_servers
    → choose_active e g start last ≡ (r, some i)
    → (r ≡ 0) × Chosen e g start last i
unfolding choose_active
choose_active-Chosen e g start last {r} {i} w h =
    elim (Option-cases (active_version_down g.data_servers last)) [
      | inl q ↦ absurd (no_answer enoent (rw (choose_active, q) at h))
      | inr (v, q) ↦ elim (le-or-lt (server_at g.data_servers last).version v) [
        | inl old ↦
            let c = chosen v (rw (choose_active, q, le→ltb v _ old) at h) in
            (c.0, (c.1.0, inl (omega (arith, old, c))))
        | inr newer ↦ elim (Bool-cases e.strict) [
          | inl strict ↦
              absurd (no_answer eagain (rw (choose_active, q, lt→ltb v _ newer, strict) at h))
          | inr loose ↦
              elim (Bool-cases (
                is_server_timedout e (server_at g.data_servers last).cs start
                  e.election_timeouts)) [
                    | inl late ↦
                        let c =
                          chosen v (rw (choose_active, q, lt→ltb v _ newer, loose, late) at h) in
                        (c.0, (c.1.0, inr (loose, late)))
                    | inr early ↦ absurd (
                        no_answer eagain
                          (rw (choose_active, q, lt→ltb v _ newer, loose, early) at h))
                  ]
        ]
      ]
    ]
  where
    no_answer : (k : ℕ) → ◌≡◌ {A = Answer} (k, none) (r, some i) → ⊥
    no_answer k e = ground arith

    chosen :
        (v : ℕ)
        → choose_candidate g last (candidates 0 v g.data_servers) ≡ (r, some i)
        → (r ≡ 0) × Fit g v i
    chosen v = choose_candidate-Fit g last v _ (candidates-Fit g v) (λ all.
        server_at-All (Qualified v) g.data_servers last (candidates-All 0 v g.data_servers all) w)

pub choose_newest-Chosen :
    (e : Setting) (g : DataGroup) (start : ℕ) (c : Counters) (last : ℕ) {r i : ℕ}
    → last < length g.data_servers
    → choose_newest e g start c last ≡ (r, some i)
    → (r ≡ 0) × Chosen e g start last i
unfolding choose_newest
choose_newest-Chosen e g start c last {r} {i} w h =
    elim (Bool-cases (is_active newest && (newest.is_preseted || c.active == length g.ds_ptrs))) [
      | inl q ↦
          answered (Chosen e g start last) last (rw (choose_newest, q) at h)
            (ground (arith, q), inl (omega arith))
      | inr q ↦
          elim (Bool-cases
            (is_server_timedout e newest.cs start (newest_timeout newest.cs.status c.timeout))) [
              | inl late ↦ choose_active-Chosen e g start last w (rw (choose_newest, q, late) at h)
              | inr early ↦ absurd (no_answer (rw (choose_newest, q, early) at h))
            ]
    ]
  where
    newest : DataServer
    newest = server_at g.data_servers last

    no_answer : ◌≡◌ {A = Answer} (eagain, none) (r, some i) → ⊥
    no_answer e = ground arith
