-- ===== src/Election/Choice.antt =====
-- What select_master of server/master_election.c answers, from its first line to its last.
use faststore.Prelude.{
  ℕ, zero, suc, ◌+◌, ◌/◌, ◌<◌, ◌≡◌, refl, sym, subst, true, Option, some, none, List, [], ◌∷◌,
  length, All, All-mono, Among, ap, ◌∙◌, arith,
}
use faststore.Election.{
  DataServer, DataGroup, Setting, server_at, is_active, set_ping_time, begin_election,
  select_master, elect, sort_ds_ptrs,
}
use faststore.Election.Whole.{IsWhole}
use faststore.Election.Master.{KeepsNewest, Elected, elect-Elected, elect-data_servers}

length-set_ping_time :
    (m : Option ℕ) (t : ℕ) (l : List DataServer) → length (set_ping_time m t l) ≡ length l
unfolding set_ping_time
length-set_ping_time none t l = refl
length-set_ping_time (some i) t [] = refl
length-set_ping_time (some zero) t (ds ∷ l) = refl
length-set_ping_time (some (suc i)) t (ds ∷ l) = omega (arith, length-set_ping_time (some i) t l)

begin_election-ds_ptrs : (e : Setting) (g : DataGroup) → (begin_election e g).ds_ptrs ≡ g.ds_ptrs
unfolding begin_election
begin_election-ds_ptrs e g = ground arith

length-begin_election :
    (e : Setting) (g : DataGroup) → length (begin_election e g).data_servers ≡ length g.data_servers
unfolding begin_election
length-begin_election e g = ground (arith, length-set_ping_time g.myself (e.now + 1) g.data_servers)

begin_election-IsWhole : (e : Setting) (g : DataGroup) → IsWhole g → IsWhole (begin_election e g)
begin_election-IsWhole e g w = record {
  within =
      subst (All (λ p. p < length b.data_servers)) (sym (begin_election-ds_ptrs e g))
        (All-mono _ _ (λ p h. omega (arith, length-begin_election e g, h)) g.ds_ptrs w.within);
  covers = λ i h.
      subst (Among i) (sym (begin_election-ds_ptrs e g))
        (w.covers i (omega (arith, length-begin_election e g, h)));
}
  where
    b : DataGroup
    b = begin_election e g

-- An answered election keeps its start time.
elect-start_time_ms :
    (e : Setting) (g : DataGroup) (start : ℕ) {r i : ℕ}
    → (elect e g start).1 ≡ (r, some i)
    → (elect e g start).0.start_time_ms ≡ g.start_time_ms
unfolding elect sort_ds_ptrs
elect-start_time_ms e g start h = ground arith

select_master-failover :
    (e : Setting) (g : DataGroup)
    → e.failover ≡ true
    → select_master e g ≡ elect e (begin_election e g) ((begin_election e g).start_time_ms / 1000)
unfolding select_master
select_master-failover e g h = ground arith

-- With failover, the master that select_master answers is active, and no other server of the group
-- has a later data version, or the policy is not the strict one and a server with the latest data
-- version of all has been waited for until the election timeouts.
pub select_master-Elected :
    (e : Setting) (g g' : DataGroup) (r i : ℕ)
    → IsWhole g
    → e.failover ≡ true
    → select_master e g ≡ (g', (r, some i))
    → (r ≡ 0)
      × (is_active (server_at g'.data_servers i) ≡ true)
      × KeepsNewest e (g'.start_time_ms / 1000) g'.data_servers i
select_master-Elected e g g' r i w f h =
    let elected =
      elect-Elected e b (b.start_time_ms / 1000) (begin_election-IsWhole e g w) answer in
    let moved = subst (λ t. Elected e (t / 1000) b.data_servers i) started elected.1 in
    let moved = subst (λ l. Elected e (g'.start_time_ms / 1000) l i) servers moved in
    (elected.0, moved.0, moved.1)
  where
    b : DataGroup
    b = begin_election e g

    run : elect e b (b.start_time_ms / 1000) ≡ (g', (r, some i))
    run = sym (select_master-failover e g f) ∙ h

    answer : (elect e b (b.start_time_ms / 1000)).1 ≡ (r, some i)
    answer = ap (λ x. x.1) run

    started : b.start_time_ms ≡ g'.start_time_ms
    started =
        sym (elect-start_time_ms e b (b.start_time_ms / 1000) answer)
        ∙ ap (λ x. x.0.start_time_ms) run

    servers : b.data_servers ≡ g'.data_servers
    servers = sym (elect-data_servers e b (b.start_time_ms / 1000)) ∙ ap (λ x. x.0.data_servers) run
