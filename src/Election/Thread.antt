-- ===== src/Election/Thread.antt =====
-- The election thread comes to an end, and what the delay queue and a failed push do to the groups
-- (server/master_election.c).
use faststore.Prelude.{
  ℕ, ◌<◌, ◌≡◌, refl, sym, ap, ◌∙◌, subst, inl, inr, ltb, not, ◌&&◌, true, false, Bool-cases, List,
  [], ◌∷◌, length, All, set_at, arith,
}
use faststore.Election.{Setting}
use faststore.Election.Rounds.{
  Elections, run_round, thread_run, deal_node, deal_nodes, deal_delay_queue, has_no_master,
}
use faststore.Election.Counted.{
  IsFlagged-pop, IsCounted, IsCountedBy, queue_push-IsCountedBy, queue_push-delay_queue,
  run_round-IsCounted, run_round-queue,
}

-- This server stays the leader in every round.
abbrev pub LeadsAll : List Setting → Type 0
LeadsAll es = All (λ e. e.i_am_leader ≡ true) es

thread_run-cons :
    (e : Setting) (es : List Setting) (k : ℕ) (rest : List ℕ) (s : Elections)
    → e.i_am_leader ≡ true
    → thread_run 0 (e ∷ es) (k ∷ rest) s ≡ thread_run 0 es rest (run_round 0 e k rest s)
unfolding thread_run
thread_run-cons e es k rest s leads = ground arith

-- A stopped thread with an empty queue, and the counts and flags as they belong.
abbrev pub IsDone : Elections → Type 0
IsDone s = IsCounted s × (s.queue ≡ []) × (s.waiting_count ≡ 0) × (s.is_running ≡ false)

-- Elections are not put back into the queue that the thread reads: on a queue whose counts and
-- flags agree, as long as this server leads, every push to the delay queue succeeds and no other
-- thread pushes a group during the run, one round more than there are groups in the queue ends the
-- thread, with the queue empty and its counts and flags in agreement.
pub thread_run-IsDone :
    (es : List Setting) (queue : List ℕ) (s : Elections)
    → s.queue ≡ queue
    → IsCounted s
    → LeadsAll es
    → length queue < length es
    → IsDone (thread_run 0 es queue s)
unfolding thread_run
thread_run-IsDone [] queue s head c leads enough = absurd (omega arith)
thread_run-IsDone (e ∷ es) [] s head c leads enough = (
  record { waiting = c.waiting; queued = c.queued; delayed = c.delayed },
  head,
  omega (arith, c.waiting, ap length head),
  refl,
)
thread_run-IsDone (e ∷ es) (k ∷ rest) s head c leads enough =
    subst IsDone (sym (thread_run-cons e es k rest s leads.0)) (
      thread_run-IsDone es rest (run_round 0 e k rest s) (run_round-queue e k rest s head)
        (run_round-IsCounted e k rest s head c) leads.1 (omega arith))

unflag-IsCountedBy :
    (k : ℕ) (l : List ℕ) (s : Elections)
    → IsCountedBy (k ∷ l) s
    → IsCountedBy l (record s { in_delay_queue = set_at s.in_delay_queue k false })
unflag-IsCountedBy k l s c = record {
  waiting = c.waiting;
  queued = c.queued;
  delayed = IsFlagged-pop l s.in_delay_queue k c.delayed;
}

deal_node-IsCountedBy :
    (k : ℕ) (l : List ℕ) (s : Elections) → IsCountedBy (k ∷ l) s → IsCountedBy l (deal_node 0 k s)
unfolding deal_node
deal_node-IsCountedBy k l s c = elim (Bool-cases (has_no_master (s.groups k).master)) [
  | inl q ↦ rw (deal_node, q) (unflag-IsCountedBy k l _ (queue_push-IsCountedBy (k ∷ l) s k c))
  | inr q ↦ rw (deal_node, q) (unflag-IsCountedBy k l s c)
]

deal_node-delay_queue :
    (pushed k : ℕ) (s : Elections) → (deal_node pushed k s).delay_queue ≡ s.delay_queue
unfolding deal_node
deal_node-delay_queue pushed k s = ground (arith, queue_push-delay_queue pushed s k)

deal_nodes-IsCounted :
    (l : List ℕ) (s : Elections)
    → IsCountedBy l s
    → s.delay_queue ≡ []
    → IsCounted (deal_nodes 0 l s)
unfolding deal_nodes
deal_nodes-IsCounted [] s c taken = subst (λ l. IsCountedBy l s) (sym taken) c
deal_nodes-IsCounted (k ∷ l) s c taken =
    deal_nodes-IsCounted l (deal_node 0 k s) (deal_node-IsCountedBy k l s c)
      (deal_node-delay_queue 0 k s ∙ taken)

pub deal_delay_queue-IsCounted : (s : Elections) → IsCounted s → IsCounted (deal_delay_queue 0 s)
unfolding deal_delay_queue
deal_delay_queue-IsCounted s c =
    elim (Bool-cases (ltb 0 dealt.waiting_count && not dealt.is_running)) [
      | inl q ↦
          rw (deal_delay_queue, q)
            (record {
              waiting = counted.waiting;
              queued = counted.queued;
              delayed = counted.delayed;
            })
      | inr q ↦ rw (deal_delay_queue, q) counted
    ]
  where
    dealt : Elections
    dealt = deal_nodes 0 s.delay_queue (record s { delay_queue = [] })

    counted : IsCounted dealt
    counted =
        deal_nodes-IsCounted s.delay_queue (record s { delay_queue = [] })
          (record { waiting = c.waiting; queued = c.queued; delayed = c.delayed }) refl
