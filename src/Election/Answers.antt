-- ===== src/Election/Answers.antt =====
-- The error numbers of an election, and what master_election_select_master leaves in the group on
-- each of them (server/master_election.c).
use faststore.Prelude.{
  ℕ, ◌/◌, ◌≡◌, refl, ap, sym, ◌∙◌, subst, ◌⊎◌, inl, inr, Bool, true, ◌==◌, ◌||◌, Bool-cases,
  Option-cases, eqb→eq, some, none, List, [], ◌∷◌, arith,
}
use faststore.Errno.{enoent, eagain}
use faststore.Election.{
  DataGroup, Setting, Counters, no_counters, Answer, begin_election, select_master, elect,
  count_servers, choose_active, choose_newest, choose_candidate, sort_ds_ptrs, active_version_down,
  candidates, last_ptr,
}
use faststore.Election.Change.{modify, with_master}
use faststore.Election.Offline.{on_master_change-master}
use faststore.Election.Rounds.{
  set_master, take_answer, elect_if_none, master_election_select_master,
}

-- A server with 0, or no server with EAGAIN or ENOENT.
abbrev pub known : Answer → Bool
known (r, some i) = r == 0
known (r, none) = r == eagain || r == enoent

known-choose_candidate :
    (g : DataGroup) (last : ℕ) (found : List ℕ) → known (choose_candidate g last found) ≡ true
unfolding choose_candidate
known-choose_candidate g last [] = refl
known-choose_candidate g last (p ∷ l) = ground arith

known-choose_active :
    (e : Setting) (g : DataGroup) (start last : ℕ) → known (choose_active e g start last) ≡ true
unfolding choose_active
known-choose_active e g start last = elim (Option-cases (active_version_down g.data_servers last)) [
  | inl q ↦ rw (choose_active, q)
  | inr (v, q) ↦
      rw (choose_active, q)
        (ground (arith, known-choose_candidate g last (candidates 0 v g.data_servers)))
]

known-choose_newest :
    (e : Setting) (g : DataGroup) (start : ℕ) (c : Counters) (last : ℕ)
    → known (choose_newest e g start c last) ≡ true
unfolding choose_newest
known-choose_newest e g start c last = ground (arith, known-choose_active e g start last)

known-elect : (e : Setting) (g : DataGroup) (start : ℕ) → known (elect e g start).1 ≡ true
unfolding elect
known-elect e g start = elim (Option-cases (count_servers e start g.data_servers no_counters)) [
  | inl q ↦ rw (elect, q)
  | inr (c, q) ↦
      rw (elect, q)
        (ground (
          arith,
          known-choose_newest e (sort_ds_ptrs g) start c (last_ptr (sort_ds_ptrs g).ds_ptrs),
        ))
]

pub known-select_master : (e : Setting) (g : DataGroup) → known (select_master e g).1 ≡ true
unfolding select_master
known-select_master e g =
    ground (arith, known-elect e (begin_election e g) ((begin_election e g).start_time_ms / 1000))

select_master-master : (e : Setting) (g : DataGroup) → (select_master e g).0.master ≡ g.master
unfolding select_master elect begin_election sort_ds_ptrs
select_master-master e g = ground arith

set_master-master : (e : Setting) (g : DataGroup) (i : ℕ) → (set_master e g i).group.master ≡ some i
unfolding set_master
set_master-master e g i =
    on_master_change-master e.i_am_leader
      (record g { master = some i; data_servers = modify (with_master true) i g.data_servers }) none
      (some i)

-- An election has made a master, whose election is over, or has failed and left the group without one.
abbrev pub IsSettled : DataGroup → ℕ → Type 0
IsSettled g result =
    ((result ≡ 0) × (g.start_time_ms ≡ 0) × ((i : ℕ) × (g.master ≡ some i)))
    ⊎ (((result ≡ eagain) ⊎ (result ≡ enoent)) × (g.master ≡ none))

take_answer-IsSettled :
    (e : Setting) (g : DataGroup) (a : Answer)
    → g.master ≡ none
    → known a ≡ true
    → IsSettled (take_answer e g a).0.group (take_answer e g a).1
unfolding take_answer
take_answer-IsSettled e g (r, some i) m k = inl (refl, refl, (i, set_master-master e g i))
take_answer-IsSettled e g (r, none) m k = elim (Bool-cases (r == eagain)) [
  | inl q ↦ inr (inl (eqb→eq r eagain q), m)
  | inr q ↦ inr (inr (ground (arith, k, q)), m)
]

-- The election of a group without a master either returns 0, and the group has a master and its
-- election is over, or it returns EAGAIN or ENOENT, and the group has no master.
pub master_election-IsSettled :
    (e : Setting) (g : DataGroup)
    → g.master ≡ none
    → IsSettled (master_election_select_master e g).0.group (master_election_select_master e g).1
unfolding master_election_select_master elect_if_none
master_election-IsSettled e g m =
    subst (λ o. IsSettled o.0.group o.1) (sym (ap (elect_if_none e g) m))
      (take_answer-IsSettled e (select_master e g).0 (select_master e g).1
        (select_master-master e g ∙ m) (known-select_master e g))
