-- ===== src/Election/Rounds.antt =====
-- The rounds of the election thread and its two queues (server/master_election.c). A data group is
-- named by its index. The queues are common_blocked_queue, of another library: first in, first out,
-- and a push returns an error number, which is an argument here; a pop that waits for 60 seconds
-- returns nothing when the queue is empty. The events of a group's changes are in their outcome
-- and are not collected over the rounds.
use faststore.Prelude.{
  ℕ, ◌+◌, ◌-◌, ◌==◌, ltb, if◌then◌else◌, Bool, true, false, not, ◌&&◌, Option, some, none, List, [],
  ◌∷◌, ◌++◌, set_at,
}
use faststore.Errno.{eagain}
use faststore.Election.{DataGroup, Setting, Answer, select_master}
use faststore.Election.Change.{notify, Outcome, modify, with_master, on_master_change}

pub record Elections : Type 0 where
  pub groups : ℕ → DataGroup
  pub queue : List ℕ
  pub delay_queue : List ℕ
  pub in_queue : ℕ → Bool
  pub in_delay_queue : ℕ → Bool
  pub waiting_count : ℕ
  pub is_running : Bool

-- The server at position `i` becomes the master of a group that has none.
unfoldable pub set_master : Setting → DataGroup → ℕ → Outcome
unfolding modify on_master_change
set_master e g i =
    let g' = record g {
      master = some i;
      data_servers = modify (with_master true) i g.data_servers;
    } in
    let told = (on_master_change e.i_am_leader g' none (some i)).0 in
    record {
      group = record told.group { start_time_ms = 0; retry_count = 0 };
      events = told.events ++ notify i ∷ [];
      changed = true;
    }

-- What master_election_select_master does with the answer of select_master.
unfoldable pub take_answer : Setting → DataGroup → Answer → Outcome × ℕ
unfolding set_master
take_answer e g (result, none) = (record { group = g; events = []; changed = false }, result)
take_answer e g (result, some i) = (set_master e g i, 0)

unfoldable pub elect_if_none : Setting → DataGroup → Option ℕ → Outcome × ℕ
unfolding select_master take_answer
elect_if_none e g (some m) = (record { group = g; events = []; changed = false }, 0)
elect_if_none e g none = let chosen = select_master e g in take_answer e chosen.0 chosen.1

unfoldable pub master_election_select_master : Setting → DataGroup → Outcome × ℕ
unfolding elect_if_none
master_election_select_master e g = elect_if_none e g g.master

-- master_election_thread_start: whether the thread could be started is not looked at.
unfoldable pub thread_start : Elections → Elections
thread_start s = record s { is_running = true }

-- master_election_queue_push; `pushed` is what the push to the queue returns.
unfoldable pub queue_push : ℕ → Elections → ℕ → Elections × ℕ
unfolding thread_start
queue_push pushed s k =
    let s' = thread_start s in
    if s.in_queue k
    then (s', 0)
    else if pushed == 0
    then (
      record s' {
        in_queue = set_at s.in_queue k true;
        queue = s.queue ++ k ∷ [];
        waiting_count = s.waiting_count + 1;
      },
      0,
    )
    else (record s' { in_queue = set_at s.in_queue k true }, pushed)

unfoldable pub push_to_delay_queue : ℕ → Elections → ℕ → Elections × ℕ
push_to_delay_queue pushed s k =
    if s.in_delay_queue k
    then (s, 0)
    else if pushed == 0
    then (
      record s {
        in_delay_queue = set_at s.in_delay_queue k true;
        delay_queue = s.delay_queue ++ k ∷ [];
      },
      0,
    )
    else (record s { in_delay_queue = set_at s.in_delay_queue k true }, pushed)

-- One round of select_master_thread_run with the group `k`, which heads the queue `rest` follows.
unfoldable pub run_round : ℕ → Setting → ℕ → List ℕ → Elections → Elections
unfolding master_election_select_master push_to_delay_queue
run_round pushed e k rest s =
    let popped = record s {
      queue = rest;
      waiting_count = s.waiting_count - 1;
      in_queue = set_at s.in_queue k false;
    } in
    let tried = master_election_select_master e (s.groups k) in
    let after = record popped { groups = set_at s.groups k tried.0.group } in
    if tried.1 == eagain then (push_to_delay_queue pushed after k).0 else after

-- select_master_thread_run, with the settings that each of its rounds meets. It ends when the queue
-- stays empty or this server is no more the leader.
unfoldable pub thread_run : ℕ → List Setting → List ℕ → Elections → Elections
unfolding run_round
thread_run pushed [] queue s = s
thread_run pushed (e ∷ es) [] s = record s { is_running = false }
thread_run pushed (e ∷ es) (k ∷ rest) s =
    let later = thread_run pushed es rest (run_round pushed e k rest s) in
    if e.i_am_leader then later else record s { is_running = false }

unfoldable pub has_no_master : Option ℕ → Bool
has_no_master none = true
has_no_master (some m) = false

-- One node of the loop of master_election_deal_delay_queue.
unfoldable pub deal_node : ℕ → ℕ → Elections → Elections
unfolding has_no_master queue_push
deal_node pushed k s =
    let s' = if has_no_master (s.groups k).master then (queue_push pushed s k).0 else s in
    record s' { in_delay_queue = set_at s'.in_delay_queue k false }

unfoldable pub deal_nodes : ℕ → List ℕ → Elections → Elections
unfolding deal_node
deal_nodes pushed [] s = s
deal_nodes pushed (k ∷ l) s = deal_nodes pushed l (deal_node pushed k s)

unfoldable pub deal_delay_queue : ℕ → Elections → Elections
unfolding deal_nodes thread_start
deal_delay_queue pushed s =
    let s' = deal_nodes pushed s.delay_queue (record s { delay_queue = [] }) in
    if ltb 0 s'.waiting_count && not s'.is_running then thread_start s' else s'
