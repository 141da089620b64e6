-- ===== src/Task/Keep.antt =====
-- When `k_tsk_run_new` does not switch, as it should and as it should not.
use preemptive_multi_tasked.Prelude.{
  ℕ, ◌<◌, ◌≡◌, ◌≢◌, refl, ap, sym, subst, ◌∙◌, [], ◌∷◌, arith, none, true, false,
}
use preemptive_multi_tasked.Mem.{Rtx, rtx_ok, rtx_err}
use preemptive_multi_tasked.Fifo.{dequeue}
use preemptive_multi_tasked.Fifo.Queue.{dequeue-cons}
use preemptive_multi_tasked.Task.{
  Sched, Tcb, blk_msg, stopped, gives_way, set_state, switch_to, insert_into_tasks,
  retrieve_from_tasks, scheduler, k_tsk_run_new,
}
use preemptive_multi_tasked.Task.Ready.{
  Queues, insert_into_tasks-highest_priority, insert_into_tasks-tasks, insert_into_tasks-current,
}
use preemptive_multi_tasked.Task.Retrieve.{retrieve_from_tasks-same, retrieve_from_tasks-lone}
use preemptive_multi_tasked.Task.Schedule.{
  IsScheduled, unyielding, unyielding-IsScheduled, scheduler-gives_way, k_tsk_run_new-switch,
  first-IsQueue, k_tsk_run_new-gives_way,
}

-- A task that goes on leaves the kernel as it is.
pub k_tsk_run_new-same :
    (s : Sched)
    → s.started ≡ true
    → stopped (s.tcbs s.current).state ≡ false
    → gives_way s ≡ false
    → k_tsk_run_new s ≡ (rtx_ok, s)
unfolding k_tsk_run_new scheduler switch_to
k_tsk_run_new-same s st e g = ground (arith, st)

module _ (s : Sched) (qs : Queues) (v : IsScheduled s qs) where
  -- In a kernel in order a task that has neither stopped nor anyone to give way to goes on with the
  -- state as it was, and no ready task has a higher priority.
  pub k_tsk_run_new-keeps :
      (p : ℕ)
      → stopped (s.tcbs s.current).state ≡ false
      → gives_way s ≡ false
      → p < (s.tcbs s.current).prio
      → (k_tsk_run_new s ≡ (rtx_ok, s)) × (qs p ≡ [])
  k_tsk_run_new-keeps p e g lt =
      (k_tsk_run_new-same s v.started e g, ground (arith, v.exact.above p))

-- The queue at `highest_priority` is empty.
abbrev pub IsStale : Sched → Type 0
IsStale s = (s.tasks s.highest_priority).head ≡ none

-- When the queue at `highest_priority` is empty and the current task has stopped, `k_tsk_run_new`
-- fails, whatever tasks are ready elsewhere: the stopped task stays current and no TCB changes.
pub k_tsk_run_new-stuck :
    (s : Sched)
    → s.started ≡ true
    → stopped (s.tcbs s.current).state ≡ true
    → IsStale s
    → ((k_tsk_run_new s).0 ≡ rtx_err)
      × ((k_tsk_run_new s).1.current ≡ s.current)
      × ((k_tsk_run_new s).1.tcbs ≡ s.tcbs)
unfolding k_tsk_run_new scheduler retrieve_from_tasks dequeue
k_tsk_run_new-stuck s st e stale = ground arith

switch_to-tasks :
    (s : Sched) (old new : ℕ)
    → ((switch_to old new s).tasks ≡ s.tasks)
      × ((switch_to old new s).highest_priority ≡ s.highest_priority)
      × ((switch_to old new s).started ≡ s.started)
unfolding switch_to
switch_to-tasks s old new = ground arith

module _ (s : Sched) (qs : Queues) (t : ℕ) (v : IsScheduled s qs)
    (first : qs s.highest_priority ≡ t ∷ []) (others : (p : ℕ) → p ≢ s.highest_priority → qs p ≡ [])
    (busy : stopped (s.tcbs s.current).state ≡ false)
    (lower : s.highest_priority < (s.tcbs s.current).prio) where
  left : Sched
  left = (retrieve_from_tasks (unyielding s qs t [] v first)).1

  lone_left :
      (left.highest_priority ≡ s.highest_priority)
      × ((left.tasks s.highest_priority).head ≡ none)
      × (left.tcbs ≡ s.tcbs)
      × (left.started ≡ true)
  unfolding left
  lone_left =
      let s0 = unyielding s qs t [] v first in
      let same = retrieve_from_tasks-same s0 in
      let lone =
        retrieve_from_tasks-lone s0 qs (unyielding-IsScheduled s qs t [] v first).queues []
          (dequeue-cons s.next (s.tasks s.highest_priority) t []
            (first-IsQueue s qs t [] v first)).1
          refl others in
      (lone.0, lone.1, same.0, same.4 ∙ v.started)

  lone_insert :
      let s2 = insert_into_tasks s.current left in
      (s2.highest_priority ≡ s.highest_priority)
      × ((s2.tasks s.highest_priority).head ≡ none)
      × (s2.started ≡ true)
  lone_insert =
      let (high, empty, same, started) = lone_left in
      let prio = ap (λ (f : ℕ → Tcb). (f s.current).prio) same in
      (
        omega (arith, insert_into_tasks-highest_priority left s.current, high, prio),
        ground (arith, insert_into_tasks-tasks left s.current s.highest_priority, prio, empty),
        (insert_into_tasks-current left s.current).1 ∙ started,
      )

  lone_run_new :
      k_tsk_run_new s ≡ (rtx_ok, switch_to s.current t (insert_into_tasks s.current left))
  unfolding left
  lone_run_new =
      k_tsk_run_new-switch s t _ v.started
        (scheduler-gives_way s qs t [] v first busy (ground arith))

  lone_after :
      ((k_tsk_run_new s).1.current ≡ t)
      × IsStale (k_tsk_run_new s).1
      × ((k_tsk_run_new s).1.started ≡ true)
  lone_after =
      let s2 = insert_into_tasks s.current left in
      let (high, empty, started) = lone_insert in
      let (tasks, highest, still) = switch_to-tasks s2 s.current t in
      let result = ap (λ (r : Rtx × Sched). r.1) lone_run_new in
      let stale : IsStale (switch_to s.current t s2) = rw (tasks, highest, high) empty in
      (
        (k_tsk_run_new-gives_way s qs t [] v first busy (ground arith)).current,
        subst IsStale (sym result) stale,
        ap (λ (f : Sched). f.started) result ∙ still ∙ started,
      )

  -- In a kernel in order a task gives way to the only ready task `t`, which has a higher priority,
  -- and goes into its own queue. `highest_priority` then names an empty queue: when `t` stops to
  -- wait for a message, `k_tsk_run_new` fails, and `t` stays the current task although it is
  -- blocked.
  pub lone_task-stuck :
      let s' = (k_tsk_run_new s).1 in
      let waiting = set_state t blk_msg s' in
      (s'.current ≡ t)
      × IsStale s'
      × ((k_tsk_run_new waiting).0 ≡ rtx_err)
      × ((k_tsk_run_new waiting).1.current ≡ t)
      × (((k_tsk_run_new waiting).1.tcbs t).state ≡ blk_msg)
  lone_task-stuck =
      let (current, stale, started) = lone_after in
      let waiting = set_state t blk_msg (k_tsk_run_new s).1 in
      let stuck = k_tsk_run_new-stuck waiting started (ground arith) stale in
      (
        current,
        stale,
        stuck.0,
        stuck.1 ∙ current,
        ground (arith, ap (λ (f : ℕ → Tcb). (f t).state) stuck.2),
      )
