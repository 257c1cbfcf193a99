-- ===== src/Election/Counted.antt =====
-- The two queues of elections agree with the flags of the groups (server/master_election.c).
use faststore.Prelude.{
  ℕ, ◌+◌, ◌-◌, ◌≡◌, ◌==◌, if◌then◌else◌, Bool, true, false, Bool-cases, inl, inr, List, [], ◌∷◌,
  ◌++◌, length, length-append, set_at, ap, sym, subst, arith,
}
use faststore.Errno.{eagain}
use faststore.Election.{Setting, DataGroup}
use faststore.Election.Rounds.{
  Elections, queue_push, push_to_delay_queue, run_round, master_election_select_master,
}

-- How often a group stands in a queue.
abbrev pub occurs : ℕ → List ℕ → ℕ
occurs k [] = 0
occurs k (x ∷ xs) = (if x == k then 1 else 0) + occurs k xs

occurs-append : (k : ℕ) (xs ys : List ℕ) → occurs k (xs ++ ys) ≡ occurs k xs + occurs k ys
occurs-append k [] ys = omega arith
occurs-append k (x ∷ xs) ys = omega (arith, occurs-append k xs ys)

-- A list holds each group once whose flag is set, and no other.
abbrev pub IsFlagged : List ℕ → (ℕ → Bool) → Type 0
IsFlagged l flags = (k : ℕ) → occurs k l ≡ (if flags k then 1 else 0)

IsFlagged-push :
    (l : List ℕ) (flags : ℕ → Bool) (k : ℕ)
    → IsFlagged l flags
    → flags k ≡ false
    → IsFlagged (l ++ k ∷ []) (set_at flags k true)
IsFlagged-push l flags k h free j = ground (arith, h j, h k, occurs-append j l (k ∷ []))

pub IsFlagged-pop :
    (l : List ℕ) (flags : ℕ → Bool) (k : ℕ)
    → IsFlagged (k ∷ l) flags
    → IsFlagged l (set_at flags k false)
IsFlagged-pop l flags k h j = ground (arith, h j, h k)

-- The counter and the flags are those of the queue, and those of the groups that are delayed.
pub record IsCountedBy (delayed_groups : List ℕ) (s : Elections) : Type 0 where
  pub waiting : s.waiting_count ≡ length s.queue
  pub queued : IsFlagged s.queue s.in_queue
  pub delayed : IsFlagged delayed_groups s.in_delay_queue

abbrev pub IsCounted : Elections → Type 0
IsCounted s = IsCountedBy s.delay_queue s

module _ (l : List ℕ) (s : Elections) (k : ℕ) (c : IsCountedBy l s) where
  pub queue_push-IsCountedBy : IsCountedBy l (queue_push 0 s k).0
  unfolding queue_push
  queue_push-IsCountedBy = elim (Bool-cases (s.in_queue k)) [
    | inl q ↦
        rw (queue_push, q) (record { waiting = c.waiting; queued = c.queued; delayed = c.delayed })
    | inr q ↦
        rw (queue_push, q)
          (record {
            waiting = omega (arith, c.waiting, length-append s.queue (k ∷ []));
            queued = IsFlagged-push s.queue s.in_queue k c.queued q;
            delayed = c.delayed;
          })
  ]

pub queue_push-delay_queue :
    (pushed : ℕ) (s : Elections) (k : ℕ) → (queue_push pushed s k).0.delay_queue ≡ s.delay_queue
unfolding queue_push
queue_push-delay_queue pushed s k = ground arith

pub queue_push-IsCounted : (s : Elections) (k : ℕ) → IsCounted s → IsCounted (queue_push 0 s k).0
queue_push-IsCounted s k c =
    subst (λ l. IsCountedBy l (queue_push 0 s k).0) (sym (queue_push-delay_queue 0 s k))
      (queue_push-IsCountedBy s.delay_queue s k c)

module _ (s : Elections) (k : ℕ) (c : IsCounted s) where
  pub push_to_delay_queue-IsCounted : IsCounted (push_to_delay_queue 0 s k).0
  unfolding push_to_delay_queue
  push_to_delay_queue-IsCounted = elim (Bool-cases (s.in_delay_queue k)) [
    | inl q ↦ rw (push_to_delay_queue, q) c
    | inr q ↦
        rw (push_to_delay_queue, q)
          (record {
            waiting = c.waiting;
            queued = c.queued;
            delayed = IsFlagged-push s.delay_queue s.in_delay_queue k c.delayed q;
          })
  ]

popped_IsCounted :
    (s : Elections) (k : ℕ) (rest : List ℕ) (groups : ℕ → DataGroup)
    → s.queue ≡ k ∷ rest
    → IsCounted s
    → IsCounted (record s {
      groups = groups;
      queue = rest;
      waiting_count = s.waiting_count - 1;
      in_queue = set_at s.in_queue k false;
    })
popped_IsCounted s k rest groups head c = record {
  waiting = omega (arith, c.waiting, ap length head);
  queued = IsFlagged-pop rest s.in_queue k (subst (λ l. IsFlagged l s.in_queue) head c.queued);
  delayed = c.delayed;
}

module _ (e : Setting) (k : ℕ) (rest : List ℕ) (s : Elections) (head : s.queue ≡ k ∷ rest) where
  pub run_round-IsCounted : IsCounted s → IsCounted (run_round 0 e k rest s)
  unfolding run_round
  run_round-IsCounted c =
      elim (Bool-cases ((master_election_select_master e (s.groups k)).1 == eagain)) [
        | inl q ↦
            rw (run_round, q)
              (push_to_delay_queue-IsCounted _ k (popped_IsCounted s k rest _ head c))
        | inr q ↦ rw (run_round, q) (popped_IsCounted s k rest _ head c)
      ]

  pub run_round-queue : (run_round 0 e k rest s).queue ≡ rest
  unfolding run_round push_to_delay_queue
  run_round-queue = ground arith
