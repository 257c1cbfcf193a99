-- ===== src/Election/Tests.antt =====
-- Runs of the election on small groups.
use faststore.Prelude.{
  ◌+◌, ℕ, zero, suc, ◌/◌, ◌≤◌, ◌≡◌, refl, ap, true, false, some, none, List, [], ◌∷◌, ◌++◌, arith,
  set_at,
}
use faststore.Errno.{enoent, enomem}
use faststore.DataStatus.{ds_active, ds_online}
use faststore.Election.{
  DataServer, DataGroup, Setting, Counters, server_at, is_active, server_active, server_offline,
  select_master, elect, count_servers, no_counters, offline_wait_timeout, is_server_timedout,
  newest_timeout,
}
use faststore.Election.Whole.{init_ds_ptr_array, init_ds_ptr_array-IsWhole}
use faststore.Election.Master.{KeepsNewest}
use faststore.Election.Choice.{select_master-Elected}
use faststore.Election.Scan.{
  settled, data_server, three, older_elected, elect-enoent, newest_position,
}
use faststore.Election.Change.{Event, election_push, notify, offline_data_server}
use faststore.Election.Offline.{IsIdle}
use faststore.Election.Idle.{offline_master-IsIdle}
use faststore.Election.Rounds.{
  Elections, queue_push, run_round, thread_run, master_election_select_master,
}
use faststore.Election.Counted.{occurs, IsCounted}
use faststore.Election.Thread.{thread_run-IsDone, IsDone}
use faststore.Election.Lost.{
  init_elections, Reach-IsCounted, queue_push-lost, run_round-enoent, here, next, pushes,
}
use faststore.Election.Unset.{unset_all_masters, unset_all_masters-Awaits}
use faststore.Election.Answers.{master_election-IsSettled, IsSettled}

-- Two active servers, of which the second has later data and the first is the preseted one.
abbrev two : DataGroup
two = init_ds_ptr_array (record {
  hash_code = 4;
  start_time_ms = 1000000;
  retry_count = 1;
  data_servers = data_server 1 5 server_active true ∷ data_server 2 7 server_active false ∷ [];
  ds_ptrs = [];
  myself = some 0;
  master = none;
})

two_answer : (select_master (settled 1110) two).1 ≡ (0, some 1)
unfolding select_master init_ds_ptr_array
two_answer = refl

select_master-Elected_example :
    (◌≡◌ {A = ℕ} 0 0)
    × (is_active (server_at (select_master (settled 1110) two).0.data_servers 1) ≡ true)
    × KeepsNewest
        (settled 1110)
        ((select_master (settled 1110) two).0.start_time_ms / 1000)
        (select_master (settled 1110) two).0.data_servers
        1
select_master-Elected_example =
    select_master-Elected (settled 1110) two (select_master (settled 1110) two).0 0 1
      (init_ds_ptr_array-IsWhole _) refl
      (ap (λ a. ((select_master (settled 1110) two).0, a)) two_answer)

older_elected_example : (select_master (settled 1110) (three 3 5 9 5)).1 ≡ (0, some 1)
older_elected_example = older_elected 3 5 9 5 (omega arith) (omega arith) refl

-- The newest server stands first and is offline; the two behind it are active.
abbrev newest_first : DataGroup
newest_first = record {
  hash_code = 3;
  start_time_ms = 1000000;
  retry_count = 1;
  data_servers =
      data_server 1 10 server_offline true
      ∷ data_server 2 9 server_active false
      ∷ data_server 3 8 server_active false
      ∷ [];
  ds_ptrs = 0 ∷ 1 ∷ 2 ∷ [];
  myself = some 1;
  master = none;
}

abbrev first_waited : Counters
first_waited = record no_counters { active = 2; timeout = offline_wait_timeout }

newest_first_counted :
    count_servers (settled 1110) 1000 newest_first.data_servers no_counters ≡ some first_waited
unfolding count_servers
newest_first_counted = refl

newest_first_position : newest_position newest_first ≡ 0
unfolding elect
newest_first_position = refl

head_is_inactive : (i : ℕ) → i ≤ 0 → is_active (server_at newest_first.data_servers i) ≡ false
unfolding is_active server_at
head_is_inactive zero h = refl
head_is_inactive (suc i) h = absurd (omega arith)

newest_first_late :
    is_server_timedout
      (settled 1110)
      (server_at newest_first.data_servers (newest_position newest_first)).cs
      1000
      (newest_timeout
        (server_at newest_first.data_servers (newest_position newest_first)).cs.status
        first_waited.timeout)
    ≡ true
unfolding elect
newest_first_late = refl

elect-enoent_example : (elect (settled 1110) newest_first 1000).1 ≡ (enoent, none)
elect-enoent_example =
    elect-enoent (settled 1110) newest_first 1000 first_waited newest_first_counted (omega arith)
      refl (λ i h. head_is_inactive i (omega (arith, h, newest_first_position))) newest_first_late

abbrev serving : DataServer → DataServer
serving ds = record ds { status = ds_active }

-- A group whose first server is master, on the leader that runs its second one.
abbrev served : DataGroup
served = record (three 3 5 5 4) {
  data_servers =
      record (serving (data_server 1 5 server_active true)) { is_master = true }
      ∷ serving (data_server 2 5 server_active false)
      ∷ record (data_server 3 4 server_active false) { status = ds_online }
      ∷ [];
  myself = some 1;
  master = some 0;
}

offline_master-IsIdle_example :
    IsIdle (offline_data_server true served 0 true).0
    × ((before : List Event) × ((offline_data_server true served 0 true).1
          ≡ before ++ election_push ∷ notify 0 ∷ []))
unfolding server_at
offline_master-IsIdle_example = offline_master-IsIdle true served 0 refl refl

abbrev groups : ℕ → DataGroup
groups k = newest_first

abbrev one_queued : Elections
one_queued = record (init_elections groups) {
  queue = 4 ∷ [];
  in_queue = set_at (λ k. false) 4 true;
  waiting_count = 1;
  is_running = true;
}

one_queued-IsCounted : IsCounted one_queued
one_queued-IsCounted = record { waiting = refl; queued = λ k. ground arith; delayed = λ k. refl }

abbrev leading : Setting
leading = record (settled 1110) { i_am_leader = true }

thread_run-IsDone_example : IsDone (thread_run 0 (leading ∷ leading ∷ []) (4 ∷ []) one_queued)
thread_run-IsDone_example =
    thread_run-IsDone (leading ∷ leading ∷ []) (4 ∷ []) one_queued refl one_queued-IsCounted
      (refl, (refl, tt)) (omega arith)

Reach-IsCounted_example : IsCounted (queue_push 0 (init_elections groups) 4).0
Reach-IsCounted_example =
    Reach-IsCounted groups (queue_push 0 (init_elections groups) 4).0
      (next here (pushes (init_elections groups) 4))

queue_push-lost_example :
    ((queue_push enomem one_queued 5).1 ≡ enomem)
    × (occurs 5 (queue_push enomem one_queued 5).0.queue ≡ 0)
    × (queue_push 0 (queue_push enomem one_queued 5).0 5 ≡ ((queue_push enomem one_queued 5).0, 0))
queue_push-lost_example =
    queue_push-lost enomem 0 5 one_queued (λ q. ground arith) one_queued-IsCounted refl

newest_first_answer : (master_election_select_master leading newest_first).1 ≡ enoent
unfolding master_election_select_master
newest_first_answer = refl

run_round-enoent_example :
    (occurs 4 (run_round 0 leading 4 [] one_queued).queue ≡ 0)
    × ((run_round 0 leading 4 [] one_queued).delay_queue ≡ one_queued.delay_queue)
    × ((run_round 0 leading 4 [] one_queued).in_delay_queue ≡ one_queued.in_delay_queue)
run_round-enoent_example =
    run_round-enoent 0 leading 4 [] one_queued refl one_queued-IsCounted newest_first_answer

master_election-IsSettled_example :
    IsSettled
      (master_election_select_master leading two).0.group
      (master_election_select_master leading two).1
unfolding init_ds_ptr_array
master_election-IsSettled_example = master_election-IsSettled leading two refl

unset_all_masters-Awaits_example :
    (((unset_all_masters 0 true 9 one_queued).groups 5).master ≡ none)
    × (1
        ≤ occurs 5 (unset_all_masters 0 true 9 one_queued).queue
          + occurs 5 (unset_all_masters 0 true 9 one_queued).delay_queue)
    × IsCounted (unset_all_masters 0 true 9 one_queued)
unset_all_masters-Awaits_example =
    unset_all_masters-Awaits true 9 5 one_queued one_queued-IsCounted (omega arith)
