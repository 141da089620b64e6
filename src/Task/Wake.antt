-- ===== src/Task/Wake.antt =====
-- A task that waits for a message is woken by a task of lower priority.
use preemptive_multi_tasked.Prelude.{
  ℕ, ◌<◌, ◌≡◌, ◌≢◌, refl, ap, sym, subst, true, false, ◌∙◌, fun_ext, [], ◌∷◌, arith,
}
use preemptive_multi_tasked.Task.{
  Sched, running, blk_msg, stopped, gives_way, insert_into_tasks, k_tsk_run_new,
}
use preemptive_multi_tasked.Task.Ready.{
  Queues, Outside-of_state, append_task, insert_into_tasks-highest_priority, insert_into_tasks-prio,
  insert_into_tasks-state, insert_into_tasks-current, insert_into_tasks-IsReady,
}
use preemptive_multi_tasked.Task.Retrieve.{Exact, pop_task}
use preemptive_multi_tasked.Task.Schedule.{IsScheduled, Switched, k_tsk_run_new-gives_way}
use preemptive_multi_tasked.Task.Steady.{k_tsk_run_new-gives_way-IsScheduled}

module _ (s : Sched) (qs : Queues) (r : ℕ) (v : IsScheduled s qs)
    (waits : (s.tcbs r).state ≡ blk_msg) (runs : (s.tcbs s.current).state ≡ running) where
  pub r-ne-current : r ≢ s.current
  r-ne-current e = ground (arith, ap (λ a. (s.tcbs a).state) e)

  -- A task that waited for a message is made ready.
  pub insert_into_tasks-IsScheduled :
      Exact (insert_into_tasks r s) (append_task s r qs)
      → IsScheduled (insert_into_tasks r s) (append_task s r qs)
  insert_into_tasks-IsScheduled x =
      let s1 = insert_into_tasks r s in
      let (cur, st, flag) = insert_into_tasks-current s r in
      record {
        started = st ∙ v.started;
        queues =
            insert_into_tasks-IsReady s qs r v.queues
              (Outside-of_state s qs r v.queues (λ e. ground arith));
        exact = x;
        apart = λ e. ground (
          arith,
          cur,
          insert_into_tasks-state s r s.current,
          r-ne-current,
          ap (λ a. (s1.tcbs a).state) cur,
        );
        small =
            omega (
              arith,
              ap (λ a. (s1.tcbs a).prio) cur,
              insert_into_tasks-prio s r s.current,
              v.small,
            );
      }

module _ (s : Sched) (qs : Queues) (r : ℕ) (v : IsScheduled s qs)
    (waits : (s.tcbs r).state ≡ blk_msg) (runs : (s.tcbs s.current).state ≡ running)
    (higher : (s.tcbs r).prio < s.highest_priority)
    (urgent : (s.tcbs r).prio < (s.tcbs s.current).prio) where
  abbrev s1 : Sched
  s1 = insert_into_tasks r s

  raised : s1.highest_priority ≡ (s.tcbs r).prio
  raised = omega (arith, insert_into_tasks-highest_priority s r)

  appended : append_task s r qs (s.tcbs r).prio ≡ r ∷ []
  appended = ground (arith, v.exact.above (s.tcbs r).prio)

  inserted-Exact : Exact s1 (append_task s r qs)
  inserted-Exact = record {
    above = λ p lt. ground (arith, raised, v.exact.above p);
    top = λ p nil. absurd (ground (arith, appended, raised, ap (append_task s r qs) raised));
    bound = omega (arith, raised, v.exact.bound);
    range = λ p out. ground (arith, v.exact.range p out, v.exact.bound);
  }

  inserted-IsScheduled : IsScheduled s1 (append_task s r qs)
  inserted-IsScheduled = insert_into_tasks-IsScheduled s qs r v waits runs inserted-Exact

  popped : pop_task s1 [] (append_task s r qs) ≡ qs
  popped = fun_ext (λ p. ground (arith, raised, v.exact.above p, appended))

  behind :
      append_task s1 s1.current (pop_task s1 [] (append_task s r qs)) ≡ append_task s s.current qs
  behind =
      let cur = (insert_into_tasks-current s r).0 in
      let prio : (s1.tcbs s1.current).prio ≡ (s.tcbs s.current).prio =
        ap (λ a. (s1.tcbs a).prio) cur ∙ insert_into_tasks-prio s r s.current in
      ap (append_task s1 s1.current) popped ∙ (rw (prio, cur) refl)

  to_woken : append_task s r qs s1.highest_priority ≡ r ∷ []
  to_woken = ap (append_task s r qs) raised ∙ appended

  current_busy : stopped (s1.tcbs s1.current).state ≡ false
  current_busy = ground (
    arith,
    insert_into_tasks-state s r s.current,
    r-ne-current s qs r v waits runs,
    ap (λ a. (s1.tcbs a).state) (insert_into_tasks-current s r).0,
  )

  current_gives_way : gives_way s1 ≡ true
  current_gives_way = ground (
    arith,
    raised,
    insert_into_tasks-prio s r s.current,
    ap (λ a. (s1.tcbs a).prio) (insert_into_tasks-current s r).0,
  )

  -- In a kernel in order a task `r` that waits for a message and has a higher priority than the
  -- running task and all ready ones is made ready and runs at once; the caller goes to the end of the
  -- queue of its priority, and the other queues are as they were.
  pub wake-Switched :
      Switched
        (insert_into_tasks r s)
        r
        (append_task s s.current qs)
        (k_tsk_run_new (insert_into_tasks r s))
  wake-Switched =
      subst (λ (q : Queues). Switched s1 r q (k_tsk_run_new s1)) behind
        (k_tsk_run_new-gives_way s1 (append_task s r qs) r [] inserted-IsScheduled to_woken
          current_busy current_gives_way)

  -- If another task was ready, too, the kernel is in order again.
  pub wake-IsScheduled :
      (p : ℕ)
      → qs p ≢ []
      → IsScheduled (k_tsk_run_new (insert_into_tasks r s)).1 (append_task s s.current qs)
  wake-IsScheduled p busy = subst (IsScheduled (k_tsk_run_new s1).1) behind (
      k_tsk_run_new-gives_way-IsScheduled s1 (append_task s r qs) r [] inserted-IsScheduled to_woken
        p current_busy current_gives_way
        (λ nil. busy (sym (ap (λ (q : Queues). q p) popped) ∙ nil)))
