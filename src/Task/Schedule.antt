-- ===== src/Task/Schedule.antt =====
-- `scheduler` and `k_tsk_run_new` against the queues of ready tasks.
use preemptive_multi_tasked.Prelude.{
  ℕ, ◌≤◌, ◌<◌, ◌≡◌, ◌≢◌, inl, inr, refl, ap, sym, subst, ◌∙◌, List, [], ◌∷◌, ◌++◌, arith, ◌==◌,
  update, some, true, false, Bool-cases,
}
use preemptive_multi_tasked.Mem.{Rtx, rtx_ok}
use preemptive_multi_tasked.Fifo.{dequeue}
use preemptive_multi_tasked.Fifo.Queue.{All, IsQueue, dequeue-cons, All-map, All-map₂}
use preemptive_multi_tasked.Task.{
  Sched, Tcb, ready, running, stopped, gives_way, switch_to, insert_into_tasks, retrieve_from_tasks,
  scheduler, k_tsk_run_new,
}
use preemptive_multi_tasked.Task.Ready.{
  Queues, IsReady, Outside, Outside-of_state, Fresh-of_prio, append_task, append_task-All,
  insert_into_tasks-IsReady, insert_into_tasks-prio,
}
use preemptive_multi_tasked.Task.Retrieve.{
  Exact, pop_task, retrieve_from_tasks-IsReady, retrieve_from_tasks-Exact, retrieve_from_tasks-same,
  retrieve_from_tasks-chosen,
}

-- The kernel between two calls: the queues of ready tasks are `qs`, `highest_priority` is exact,
-- and the current task is not among them.
pub record IsScheduled (s : Sched) (qs : Queues) : Type 0 where
  pub started : s.started ≡ true
  pub queues : IsReady s qs
  pub exact : Exact s qs
  pub apart : (s.tcbs s.current).state ≢ ready
  pub small : (s.tcbs s.current).prio ≤ 255

module _ (s : Sched) (qs : Queues) (t : ℕ) (ts : List ℕ) (v : IsScheduled s qs)
    (first : qs s.highest_priority ≡ t ∷ ts) where
  pub first-IsQueue : IsQueue s.next (s.tasks s.highest_priority) (t ∷ ts)
  first-IsQueue =
      subst (IsQueue s.next (s.tasks s.highest_priority)) first (v.queues.queue s.highest_priority)

  first-prio : All (λ a. (s.tcbs a).prio ≡ s.highest_priority) (t ∷ ts)
  first-prio = subst (All _) first (v.queues.prio s.highest_priority)

  first-state : All (λ a. (s.tcbs a).state ≡ ready) (t ∷ ts)
  first-state = subst (All _) first (v.queues.state s.highest_priority)

  popped : (dequeue (s.tasks s.highest_priority) s.next).0 ≡ some t
  popped = (dequeue-cons s.next (s.tasks s.highest_priority) t ts first-IsQueue).0

  pub popped-IsReady : IsReady (retrieve_from_tasks s).1 (pop_task s ts qs)
  popped-IsReady =
      retrieve_from_tasks-IsReady s qs v.queues ts
        (dequeue-cons s.next (s.tasks s.highest_priority) t ts first-IsQueue).1 first-prio.1
        first-state.1

  pub popped-Exact : Exact (retrieve_from_tasks s).1 (pop_task s ts qs)
  popped-Exact =
      retrieve_from_tasks-Exact s qs v.queues ts
        (dequeue-cons s.next (s.tasks s.highest_priority) t ts first-IsQueue).1 v.exact

  -- The chosen task waits in no queue any more.
  pub popped-Outside : Outside t (pop_task s ts qs)
  popped-Outside p = elim (Bool-cases (p == s.highest_priority)) [
    | inl same ↦ rw same first-IsQueue.distinct.0
    | inr other ↦ rw other (Fresh-of_prio s qs t p v.queues (λ e. ground (arith, first-prio.0)))
  ]

-- A switch leaves the queues alone, as long as the new task is in none.
switch_to-IsReady :
    (s : Sched) (qs : Queues) (old new : ℕ)
    → IsReady s qs
    → Outside new qs
    → IsReady (switch_to old new s) qs
unfolding switch_to
switch_to-IsReady s qs old new r out = record {
  queue = λ p. ground (arith, r.queue p);
  prio = λ p. All-map _ _ (qs p) (λ a e. ground arith) (r.prio p);
  state = λ p. All-map₂ _ _ _ (qs p) (λ a e n. ground arith) (r.state p) (out p);
}

pub switch_to-new :
    (s : Sched) (old new : ℕ)
    → new ≢ old
    → let s' = switch_to old new s in
      (s'.current ≡ new)
      × ((s'.tcbs new).state ≡ running)
      × ((s'.tcbs new).prio ≡ (s.tcbs new).prio)
      × (s'.highest_priority ≡ s.highest_priority)
      × (s'.started ≡ s.started)
unfolding switch_to
switch_to-new s old new n = ground arith

pub k_tsk_run_new-switch :
    (s : Sched) (new : ℕ) (s1 : Sched)
    → s.started ≡ true
    → scheduler s ≡ (some new, s1)
    → k_tsk_run_new s ≡ (rtx_ok, switch_to s.current new s1)
unfolding k_tsk_run_new
k_tsk_run_new-switch s new s1 st e = ground arith

-- What `k_tsk_run_new` leaves behind where it switches to the task `t`.
pub record Switched (s : Sched) (t : ℕ) (qs : Queues) (r : Rtx × Sched) : Type 0 where
  pub result : r.0 ≡ rtx_ok
  pub current : r.1.current ≡ t
  pub state : (r.1.tcbs t).state ≡ running
  pub queues : IsReady r.1 qs
  pub above : (p : ℕ) → p < (r.1.tcbs t).prio → qs p ≡ []

module _ (s : Sched) (qs : Queues) (t : ℕ) (ts : List ℕ) (v : IsScheduled s qs)
    (first : qs s.highest_priority ≡ t ∷ ts) where
  pub t-ne-current : t ≢ s.current
  t-ne-current e =
      v.apart (subst (λ k. (s.tcbs k).state ≡ ready) e (first-state s qs t ts v first).0)

  pub scheduler-stopped :
      stopped (s.tcbs s.current).state ≡ true → scheduler s ≡ (some t, (retrieve_from_tasks s).1)
  unfolding scheduler
  scheduler-stopped e = ground (arith, retrieve_from_tasks-chosen s, popped s qs t ts v first)

  pub scheduler-gives_way :
      stopped (s.tcbs s.current).state ≡ false
      → gives_way s ≡ true
      → let s1 = (retrieve_from_tasks (record s { yield_flag = false })).1 in
        scheduler s ≡ (some t, insert_into_tasks s.current s1)
  unfolding scheduler
  scheduler-gives_way e g =
      let s0 = record s { yield_flag = false } in
      ground (
        arith,
        retrieve_from_tasks-chosen s0,
        popped s qs t ts v first,
        retrieve_from_tasks-same s0,
      )

  pub t-prio : (s.tcbs t).prio ≡ s.highest_priority
  t-prio = (first-prio s qs t ts v first).0

  -- What the scheduler has prepared, the switch completes.
  run_new-Switched :
      (s1 : Sched) (qs1 : Queues)
      → scheduler s ≡ (some t, s1)
      → IsReady s1 qs1
      → Outside t qs1
      → (s1.tcbs t).prio ≡ s.highest_priority
      → ((p : ℕ) → p < s.highest_priority → qs1 p ≡ [])
      → Switched s t qs1 (k_tsk_run_new s)
  run_new-Switched s1 qs1 e r out pr above =
      let new = switch_to-new s1 s.current t t-ne-current in
      rw (k_tsk_run_new-switch s t s1 v.started e) record {
        result = refl;
        current = new.0;
        state = new.1;
        queues = switch_to-IsReady s1 qs1 s.current t r out;
        above = λ p lt. above p (omega (arith, new.2));
      }

  -- In a kernel in order, with the tasks `t` and `ts` in the queue of the highest priority, a task
  -- that has exited or waits for a message hands over to `t`: `t` becomes current and running and
  -- leaves its queue, all other queues stay as they are, the caller is in none, and no ready task
  -- has a higher priority than `t`.
  pub k_tsk_run_new-stopped :
      stopped (s.tcbs s.current).state ≡ true → Switched s t (pop_task s ts qs) (k_tsk_run_new s)
  k_tsk_run_new-stopped e =
      let same = retrieve_from_tasks-same s in
      run_new-Switched (retrieve_from_tasks s).1 _ (scheduler-stopped e)
        (popped-IsReady s qs t ts v first) (popped-Outside s qs t ts v first)
        (ap (λ (f : ℕ → Tcb). (f t).prio) same.0 ∙ t-prio) (λ p lt. ground (arith, v.exact.above p))

  abbrev pub unyielding : Sched
  unyielding = record s { yield_flag = false }

  pub unyielding-IsScheduled : IsScheduled unyielding qs
  unyielding-IsScheduled = record {
    started = v.started;
    queues = record { queue = v.queues.queue; prio = v.queues.prio; state = v.queues.state };
    exact = record {
      above = v.exact.above;
      top = v.exact.top;
      bound = v.exact.bound;
      range = v.exact.range;
    };
    apart = v.apart;
    small = v.small;
  }

  -- The caller is put at the end of its queue.
  pub yielder-IsReady :
      IsReady
        (insert_into_tasks s.current (retrieve_from_tasks unyielding).1)
        (append_task s s.current (pop_task s ts qs))
  yielder-IsReady =
      let s1 = (retrieve_from_tasks unyielding).1 in
      let same = (retrieve_from_tasks-same unyielding).0 in
      let r1 = popped-IsReady unyielding qs t ts unyielding-IsScheduled first in
      let out =
        Outside-of_state s1 _ s.current r1
          (λ k. v.apart (ap (λ (f : ℕ → Tcb). (f s.current).state) (sym same) ∙ k)) in
      subst
        (λ (f : ℕ → Tcb). IsReady (insert_into_tasks s.current s1) (
          let p = (f s.current).prio in
          update (pop_task s ts qs) p (pop_task s ts qs p ++ s.current ∷ [])))
        same (insert_into_tasks-IsReady s1 (pop_task s ts qs) s.current r1 out)

  -- In a kernel in order, with the tasks `t` and `ts` in the queue of the highest priority, a task
  -- that has not stopped but yields to its equals or has less priority hands over to `t`: `t`
  -- becomes current and running and leaves its queue, the caller goes to the end of the queue of
  -- its own priority, the other queues stay as they are, and no ready task has a higher priority
  -- than `t`.
  pub k_tsk_run_new-gives_way :
      stopped (s.tcbs s.current).state ≡ false
      → gives_way s ≡ true
      → Switched s t (append_task s s.current (pop_task s ts qs)) (k_tsk_run_new s)
  k_tsk_run_new-gives_way e g =
      let same = retrieve_from_tasks-same unyielding in
      let cur = s.current in
      let s1 = (retrieve_from_tasks unyielding).1 in
      run_new-Switched (insert_into_tasks cur s1) _ (scheduler-gives_way e g) yielder-IsReady
        (λ p.
          append_task-All s cur (pop_task s ts qs) (λ a. a ≢ t) p (λ _ k. t-ne-current (sym k))
            (popped-Outside s qs t ts v first p))
        (insert_into_tasks-prio s1 cur t ∙ ap (λ (f : ℕ → Tcb). (f t).prio) same.0 ∙ t-prio)
        (λ p lt. ground (arith, v.exact.above p))
