-- ===== src/Task/Steps.antt =====
-- The calls of RTX/src/kernel/k_task.c and k_msg.c that dispatch, as steps of the scheduler.
mod Tests
use preemptive_multi_tasked.Prelude.{
  ℕ, ◌≤◌, ◌<◌, ◌≡◌, ◌≢◌, refl, ap, sym, ◌∙◌, List, [], ◌∷◌, true, false, arith, subst, dec_lt,
}
use preemptive_multi_tasked.Mem.{Rtx}
use preemptive_multi_tasked.Task.{
  TaskState, ready, running, blk_msg, Sched, stopped, gives_way, set_state, insert_into_tasks,
  k_tsk_run_new, k_tsk_yield,
}
use preemptive_multi_tasked.Task.Ready.{
  Queues, append_task, insert_into_tasks-highest_priority, insert_into_tasks-prio,
  insert_into_tasks-state, insert_into_tasks-current,
}
use preemptive_multi_tasked.Task.Retrieve.{pop_task}
use preemptive_multi_tasked.Task.Schedule.{IsScheduled, Switched, k_tsk_run_new-stopped}
use preemptive_multi_tasked.Task.Steady.{
  insert_into_tasks-Exact, set_state-IsScheduled, k_tsk_run_new-stopped-IsScheduled,
}
use preemptive_multi_tasked.Task.Keep.{k_tsk_run_new-same}
use preemptive_multi_tasked.Task.Yield.{yielding, yielding-IsScheduled, k_tsk_yield-Switched}
use preemptive_multi_tasked.Task.Rounds.{Turn, k_tsk_yield-Turn}
use preemptive_multi_tasked.Task.Wake.{
  r-ne-current, insert_into_tasks-IsScheduled, wake-Switched, wake-IsScheduled,
}

-- One call, with the queues of ready tasks before and after it.
pub data Step (s : Sched) (qs : Queues) : Sched → Queues → Type 0 where
  -- The running task exits or waits for a message.
  stops :
      (st : TaskState) (t : ℕ) (ts : List ℕ)
      → stopped st ≡ true
      → qs s.highest_priority ≡ t ∷ ts
      → Step s qs (k_tsk_run_new (set_state s.current st s)).1 (pop_task s ts qs)
  -- The running task yields to one of its priority.
  yields :
      (t : ℕ) (ts : List ℕ)
      → qs s.highest_priority ≡ t ∷ ts
      → (s.tcbs s.current).prio ≡ s.highest_priority
      → Step s qs (k_tsk_yield s).1 (append_task s s.current (pop_task s ts qs))
  -- It yields while `highest_priority` is a lower priority than its own.
  goes_on : (s.tcbs s.current).prio < s.highest_priority → Step s qs (k_tsk_yield s).1 qs
  -- A task that waits for a message is woken and runs, with another one ready.
  preempts :
      (r p : ℕ)
      → (s.tcbs r).state ≡ blk_msg
      → (s.tcbs r).prio < s.highest_priority
      → (s.tcbs r).prio < (s.tcbs s.current).prio
      → qs p ≢ []
      → Step s qs (k_tsk_run_new (insert_into_tasks r s)).1 (append_task s s.current qs)
  -- It is woken and has to wait for its turn.
  queues_up :
      (r : ℕ)
      → (s.tcbs r).state ≡ blk_msg
      → (s.tcbs s.current).prio ≤ (s.tcbs r).prio
      → (s.tcbs r).prio ≤ 255
      → s.yield_flag ≡ false
      → qs s.highest_priority ≢ []
      → Step s qs (k_tsk_run_new (insert_into_tasks r s)).1 (append_task s r qs)

pub data Steps : Sched → Queues → Sched → Queues → Type 0 where
  done : {s : Sched} {qs : Queues} → Steps s qs s qs
  next :
      {s s1 s2 : Sched} {qs qs1 qs2 : Queues}
      → Step s qs s1 qs1
      → Steps s1 qs1 s2 qs2
      → Steps s qs s2 qs2

-- The kernel is in order, the current task runs, and no ready task has a higher priority.
pub record IsRunning (s : Sched) (qs : Queues) : Type 0 where
  pub ordered : IsScheduled s qs
  pub state : (s.tcbs s.current).state ≡ running
  pub top : (p : ℕ) → p < (s.tcbs s.current).prio → qs p ≡ []

-- After a switch.
switched :
    (s : Sched) (t : ℕ) (qs : Queues) (r : Rtx × Sched)
    → Switched s t qs r
    → IsScheduled r.1 qs
    → IsRunning r.1 qs
switched s t qs r w v = record {
  ordered = v;
  state = rw w.current w.state;
  top = λ p lt. w.above p (subst (λ a. p < (r.1.tcbs a).prio) w.current lt);
}

module _ (s : Sched) (qs : Queues) (v : IsRunning s qs) where
  no_higher : qs s.highest_priority ≢ [] → (s.tcbs s.current).prio ≤ s.highest_priority
  no_higher busy = elim (dec_lt s.highest_priority (s.tcbs s.current).prio) [
    | yes lt ↦ absurd (busy (v.top s.highest_priority lt))
    | no ge ↦ omega arith
  ]

  stops-IsRunning :
      (st : TaskState) (t : ℕ) (ts : List ℕ)
      → stopped st ≡ true
      → qs s.highest_priority ≡ t ∷ ts
      → IsRunning (k_tsk_run_new (set_state s.current st s)).1 (pop_task s ts qs)
  stops-IsRunning st t ts e first =
      let s1 = set_state s.current st s in
      let w = set_state-IsScheduled s qs st (ground (arith, e)) v.ordered in
      let here : stopped (s1.tcbs s1.current).state ≡ true = ground (arith, e) in
      switched s1 t _ _ (k_tsk_run_new-stopped s1 qs t ts w first here)
        (k_tsk_run_new-stopped-IsScheduled s1 qs t ts w first here)

  yields-IsRunning :
      (t : ℕ) (ts : List ℕ)
      → qs s.highest_priority ≡ t ∷ ts
      → (s.tcbs s.current).prio ≡ s.highest_priority
      → IsRunning (k_tsk_yield s).1 (append_task s s.current (pop_task s ts qs))
  yields-IsRunning t ts first equal =
      let here = k_tsk_yield-Turn s qs s.highest_priority s.current t ts (record {
        ordered = v.ordered;
        current = refl;
        state = v.state;
        prio = equal;
        highest = refl;
        queue = first;
      }) in
      switched s t _ _
        (k_tsk_yield-Switched s qs t ts v.ordered first (ground (arith, v.state)) equal).0
        here.ordered

  goes_on-IsRunning : (s.tcbs s.current).prio < s.highest_priority → IsRunning (k_tsk_yield s).1 qs
  unfolding k_tsk_yield
  goes_on-IsRunning low =
      let y = yielding s qs v.ordered in
      let w = yielding-IsScheduled s qs v.ordered in
      let same : (k_tsk_run_new y).1 ≡ y =
        ap (λ (r : Rtx × Sched). r.1)
          (k_tsk_run_new-same y v.ordered.started (ground (arith, v.state))
            (ground (arith, low))) in
      subst (λ (f : Sched). IsRunning f qs) (sym same)
        (record { ordered = w; state = v.state; top = v.top })

  preempts-IsRunning :
      (r p : ℕ)
      → (s.tcbs r).state ≡ blk_msg
      → (s.tcbs r).prio < s.highest_priority
      → (s.tcbs r).prio < (s.tcbs s.current).prio
      → qs p ≢ []
      → IsRunning (k_tsk_run_new (insert_into_tasks r s)).1 (append_task s s.current qs)
  preempts-IsRunning r p waits higher urgent busy =
      switched _ r _ _ (wake-Switched s qs r v.ordered waits v.state higher urgent)
        (wake-IsScheduled s qs r v.ordered waits v.state higher urgent p busy)

  queues_up-IsRunning :
      (r : ℕ)
      → (s.tcbs r).state ≡ blk_msg
      → (s.tcbs s.current).prio ≤ (s.tcbs r).prio
      → (s.tcbs r).prio ≤ 255
      → s.yield_flag ≡ false
      → qs s.highest_priority ≢ []
      → IsRunning (k_tsk_run_new (insert_into_tasks r s)).1 (append_task s r qs)
  queues_up-IsRunning r waits low small calm busy =
      let s1 = insert_into_tasks r s in
      let w =
        insert_into_tasks-IsScheduled s qs r v.ordered waits v.state
          (insert_into_tasks-Exact s qs r v.ordered.exact small busy) in
      let (cur, st, flag) = insert_into_tasks-current s r in
      let now : (s1.tcbs s1.current).prio ≡ (s.tcbs s.current).prio =
        ap (λ a. (s1.tcbs a).prio) cur ∙ insert_into_tasks-prio s r s.current in
      let state : (s1.tcbs s1.current).state ≡ running = ground (
        arith,
        insert_into_tasks-state s r s.current,
        r-ne-current s qs r v.ordered waits v.state,
        ap (λ a. (s1.tcbs a).state) cur,
        v.state,
      ) in
      let behind : (s.tcbs s.current).prio ≤ s.highest_priority = no_higher busy in
      let keeps : gives_way s1 ≡ false =
        ground (arith, flag, calm, now, insert_into_tasks-highest_priority s r, behind) in
      let same =
        ap (λ (r : Rtx × Sched). r.1)
          (k_tsk_run_new-same s1 w.started (ground (arith, state)) keeps) in
      subst (λ (f : Sched). IsRunning f (append_task s r qs)) (sym same)
        (record { ordered = w; state = state; top = λ p lt. ground (arith, now, v.top p) })

-- From a kernel in order whose running task has a priority no lower than all ready ones every
-- sequence of the following calls leads to such a kernel again: the queues are as the calls say, the
-- current task runs, and no ready task has a higher priority. The running task exits or waits while
-- another is ready in the queue of `highest_priority`; it yields to one there of its own priority; it
-- yields while `highest_priority` is a lower priority than its own; or it wakes a task that waits for
-- a message. A task wakes one of higher priority than itself and all ready ones while some task is
-- ready, and any other, of a priority of at most 255 and no higher than its own, while one is ready
-- and no yield is left over. A yield with no task ready and its own priority in `highest_priority` is
-- not among them.
pub Steps-IsRunning :
    (s s' : Sched) (qs qs' : Queues) → Steps s qs s' qs' → IsRunning s qs → IsRunning s' qs'
Steps-IsRunning s s' qs qs' done v = v
Steps-IsRunning s s' qs qs' (next a b) v =
    Steps-IsRunning _ s' _ qs' b (Step-IsRunning s _ qs _ a v)
  where
    Step-IsRunning :
        (s s' : Sched) (qs qs' : Queues) → Step s qs s' qs' → IsRunning s qs → IsRunning s' qs'
    Step-IsRunning s s' qs qs' (stops st t ts e first) v = stops-IsRunning s qs v st t ts e first
    Step-IsRunning s s' qs qs' (yields t ts first equal) v =
        yields-IsRunning s qs v t ts first equal
    Step-IsRunning s s' qs qs' (goes_on low) v = goes_on-IsRunning s qs v low
    Step-IsRunning s s' qs qs' (preempts r p waits higher urgent busy) v =
        preempts-IsRunning s qs v r p waits higher urgent busy
    Step-IsRunning s s' qs qs' (queues_up r waits low small calm busy) v =
        queues_up-IsRunning s qs v r waits low small calm busy
