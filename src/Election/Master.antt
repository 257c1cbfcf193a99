-- ===== src/Election/Master.antt =====
-- The master that the election of server/master_election.c chooses: it is active, and its data is
-- the newest of the group, but where the settings let the election go on without the newest.
use faststore.Prelude.{
  ℕ, ◌+◌, ◌<◌, ◌≡◌, ◌⊎◌, inl, inr, true, false, ◌||◌, ◌==◌, ltb, Bool-cases, Option-cases, some,
  none, List, length, All-mono, arith,
}
use faststore.Errno.{eagain}
use faststore.Election.{
  DataServer, DataGroup, Setting, no_counters, Answer, server_at, is_active, is_server_timedout,
  sort_ds_ptrs, elect, count_servers,
}
use faststore.Election.Whole.{IsWhole}
use faststore.Election.Chosen.{Chosen, choose_newest-Chosen}
use faststore.Election.Newest.{IsNewest, last_ptr-IsNewest, count_servers-nonempty}

-- The master at position `i` has the newest data of all servers of the group, or the policy is not
-- the strict one and the server with the newest data has been waited for until the timeouts.
abbrev pub KeepsNewest : Setting → ℕ → List DataServer → ℕ → Type 0
KeepsNewest e start l i =
    IsNewest l i
    ⊎ ((e.strict ≡ false)
        × ((n : ℕ) × (n < length l)
            × IsNewest l n
            × (is_server_timedout e (server_at l n).cs start e.election_timeouts ≡ true)))

abbrev pub Elected : Setting → ℕ → List DataServer → ℕ → Type 0
Elected e start l i = (is_active (server_at l i) ≡ true) × KeepsNewest e start l i

Chosen-Elected :
    (e : Setting) (g : DataGroup) (start n i : ℕ)
    → n < length g.data_servers
    → IsNewest g.data_servers n
    → Chosen e g start n i
    → Elected e start g.data_servers i
Chosen-Elected e g start n i w newest (act, inl up) =
    (act, inl (All-mono _ _ (λ d h. omega (arith, h, up)) g.data_servers newest))
Chosen-Elected e g start n i w newest (act, inr (loose, late)) =
    (act, inr (loose, (n, w, newest, late)))

-- The data servers of the group stay as they are.
pub elect-data_servers :
    (e : Setting) (g : DataGroup) (start : ℕ) → (elect e g start).0.data_servers ≡ g.data_servers
unfolding elect sort_ds_ptrs
elect-data_servers e g start = ground arith

pub elect-Elected :
    (e : Setting) (g : DataGroup) (start : ℕ) {r i : ℕ}
    → IsWhole g
    → (elect e g start).1 ≡ (r, some i)
    → (r ≡ 0) × Elected e start g.data_servers i
unfolding elect
elect-Elected e g start {r} {i} w h =
    elim (Option-cases (count_servers e start g.data_servers no_counters)) [
      | inl q ↦ absurd (no_answer (rw (elect, q) at h))
      | inr (c, q) ↦
          elim (Bool-cases
            (c.active == 0 || ltb 0 (c.waiting_report + c.waiting_online + c.waiting_offline))) [
              | inl waits ↦ absurd (no_answer (rw (elect, q, waits) at h))
              | inr ready ↦
                  let last =
                    last_ptr-IsNewest g w
                      (count_servers-nonempty e start g.data_servers q (ground (arith, ready))) in
                  let chosen =
                    choose_newest-Chosen e (sort_ds_ptrs g) start c _ last.0
                      (rw (elect, q, ready) at h) in
                  (chosen.0, Chosen-Elected e g start _ i last.0 last.1 chosen.1)
            ]
    ]
  where
    no_answer : ◌≡◌ {A = Answer} (eagain, none) (r, some i) → ⊥
    no_answer e = ground arith
