-- ===== src/Election/Lost.antt =====
-- The steps of the election queues in any order, and the two ways in which a group without a master
-- gets out of them (server/master_election.c).
use faststore.Prelude.{
  ℕ, ◌≡◌, ◌≢◌, refl, subst, ne→eqb, true, false, List, [], ◌∷◌, set_at, set_at-same, arith,
}
use faststore.Errno.{enoent}
use faststore.Election.{Setting, DataGroup}
use faststore.Election.Rounds.{
  Elections, queue_push, push_to_delay_queue, run_round, deal_delay_queue,
  master_election_select_master,
}
use faststore.Election.Counted.{
  occurs, IsFlagged, IsFlagged-pop, IsCounted, queue_push-IsCounted, push_to_delay_queue-IsCounted,
  run_round-IsCounted,
}
use faststore.Election.Thread.{deal_delay_queue-IsCounted}

-- One step of the leader's threads on the queues, where every push succeeds.
pub data Step : Elections → Elections → Type 0 where
  pushes : (s : Elections) (k : ℕ) → Step s (queue_push 0 s k).0
  delays : (s : Elections) (k : ℕ) → Step s (push_to_delay_queue 0 s k).0
  elects :
      (s : Elections) (e : Setting) (k : ℕ) (rest : List ℕ)
      → s.queue ≡ k ∷ rest
      → Step s (run_round 0 e k rest s)
  deals : (s : Elections) → Step s (deal_delay_queue 0 s)

pub data Reach (s : Elections) : Elections → Type 0 where
  here : Reach s s
  next : {t u : Elections} → Reach s t → Step t u → Reach s u

Step-IsCounted : {s t : Elections} → Step s t → IsCounted s → IsCounted t
Step-IsCounted (pushes s k) c = queue_push-IsCounted s k c
Step-IsCounted (delays s k) c = push_to_delay_queue-IsCounted s k c
Step-IsCounted (elects s e k rest head) c = run_round-IsCounted e k rest s head c
Step-IsCounted (deals s) c = deal_delay_queue-IsCounted s c

-- The queues of master_election_init, and groups in none of them.
abbrev pub init_elections : (ℕ → DataGroup) → Elections
init_elections groups = record {
  groups = groups;
  queue = [];
  delay_queue = [];
  in_queue = λ k. false;
  in_delay_queue = λ k. false;
  waiting_count = 0;
  is_running = false;
}

-- From the empty queues on, whatever the order of the steps, as long as every push to a queue
-- succeeds, each group stands in the queue and in the delay queue once if its flag is set and not at
-- all otherwise, and waiting_count is the length of the queue.
pub Reach-IsCounted :
    (groups : ℕ → DataGroup) (s : Elections) → Reach (init_elections groups) s → IsCounted s
Reach-IsCounted groups s here = record { waiting = refl; queued = λ k. refl; delayed = λ k. refl }
Reach-IsCounted groups s (next r st) = Step-IsCounted st (Reach-IsCounted groups _ r)

-- After a push that failed the group's flag stays set: the group is not in the queue, and no later
-- push, whatever it would return, puts it there.
pub queue_push-lost :
    (failed later k : ℕ) (s : Elections)
    → failed ≢ 0
    → IsCounted s
    → s.in_queue k ≡ false
    → ((queue_push failed s k).1 ≡ failed)
      × (occurs k (queue_push failed s k).0.queue ≡ 0)
      × (queue_push later (queue_push failed s k).0 k ≡ ((queue_push failed s k).0, 0))
unfolding queue_push
queue_push-lost failed later k s h c free =
    rw (queue_push, free, ne→eqb failed 0 h)
      (refl, ground (arith, c.queued k, free), rw (set_at-same s.in_queue k true))

-- A group whose election ends with ENOENT is no more in the queue, and the delay queue and its flags
-- are left as they were, whatever a push would return; before the round the queues agree with their
-- flags and count, and the group heads the queue.
pub run_round-enoent :
    (pushed : ℕ) (e : Setting) (k : ℕ) (rest : List ℕ) (s : Elections)
    → s.queue ≡ k ∷ rest
    → IsCounted s
    → (master_election_select_master e (s.groups k)).1 ≡ enoent
    → (occurs k (run_round pushed e k rest s).queue ≡ 0)
      × ((run_round pushed e k rest s).delay_queue ≡ s.delay_queue)
      × ((run_round pushed e k rest s).in_delay_queue ≡ s.in_delay_queue)
unfolding run_round
run_round-enoent pushed e k rest s head c tried =
    rw (run_round, tried) (ground (arith, popped k, set_at-same s.in_queue k false), refl, refl)
  where
    popped : IsFlagged rest (set_at s.in_queue k false)
    popped = IsFlagged-pop rest s.in_queue k (subst (λ l. IsFlagged l s.in_queue) head c.queued)
