-- ===== src/Task/Tests.antt =====
-- Runs of the scheduler of RTX/src/kernel/k_task.c on a few tasks.
use preemptive_multi_tasked.Prelude.{
  ◌≡◌, inl, inr, refl, [], ◌∷◌, ◌++◌, ◌==◌, if◌then◌else◌, none, some, arith, update, Bool-cases,
}
use preemptive_multi_tasked.Mem.{rtx_err}
use preemptive_multi_tasked.Fifo.{LinkedList, Next, no_nodes, remove_node}
use preemptive_multi_tasked.Fifo.Queue.{IsQueue}
use preemptive_multi_tasked.Fifo.Remove.{Removed, remove_node-Removed}
use preemptive_multi_tasked.Task.{
  Sched, running, dormant, blk_msg, k_tsk_run_new, insert_into_tasks, k_tsk_set_prio, returns,
  null_deref, requeue, set_state, set_prio,
}
use preemptive_multi_tasked.Task.Tids.{TidQueue}
use preemptive_multi_tasked.Task.Ready.{Queues, IsReady, insert_into_tasks-IsReady, append_task}
use preemptive_multi_tasked.Task.Retrieve.{pop_task}
use preemptive_multi_tasked.Task.Schedule.{
  IsScheduled, Switched, k_tsk_run_new-stopped, k_tsk_run_new-gives_way,
}
use preemptive_multi_tasked.Task.Keep.{lone_task-stuck, IsStale}
use preemptive_multi_tasked.Samples.{
  two_waiting, two_queues, two_waiting-IsReady, two_waiting-IsScheduled,
}
use preemptive_multi_tasked.Task.Prio.{without, requeue-IsReady, k_tsk_set_prio-null_deref}

-- Only task 2 waits.
abbrev one_waiting : Sched
one_waiting = record (two_waiting running) {
  next = λ _. none;
  tasks = λ p. if p == 2 then record { head = some 2; tail = some 2 } else no_nodes;
}

abbrev one_queue : Queues
one_queue p = if p == 2 then 2 ∷ [] else []

one_waiting-IsScheduled : IsScheduled one_waiting one_queue
one_waiting-IsScheduled = record {
  started = refl;
  queues = record {
    queue = λ p. elim (Bool-cases (p == 2)) [
      | inl e ↦ rw e record { links = (refl, refl); tail = refl; distinct = ground arith }
      | inr e ↦ rw e record { links = refl; tail = refl; distinct = tt }
    ];
    prio = λ p. ground arith;
    state = λ p. ground arith;
  };
  exact = record {
    above = λ p lt. ground arith;
    top = λ p nil. ground arith;
    bound = omega arith;
    range = λ p out. ground arith;
  };
  apart = ground arith;
  small = omega arith;
}

pair_next : Next
pair_next = update (λ _. none) 2 (some 3)

pair_list : LinkedList
pair_list = record { head = some 2; tail = some 3 }

pair-IsQueue : IsQueue pair_next pair_list (2 ∷ 3 ∷ [])
unfolding pair_next pair_list
pair-IsQueue = record { links = (refl, (refl, refl)); tail = refl; distinct = ground arith }

insert_into_tasks-IsReady_example :
    IsReady
      (insert_into_tasks 4 (two_waiting running))
      (append_task (two_waiting running) 4 two_queues)
insert_into_tasks-IsReady_example =
    insert_into_tasks-IsReady (two_waiting running) two_queues 4 (two_waiting-IsReady running)
      (λ p. ground arith)

remove_node-Removed_example :
    (next' : Next) × (list' : LinkedList) × (remove_node (λ t. t) 160 3 pair_list pair_next
      ≡ some (some 3, next', list'))
    × Removed pair_next (2 ∷ 3 ∷ []) (2 ∷ []) next' list'
remove_node-Removed_example =
    remove_node-Removed (λ t. t) 160 3 pair_next pair_list (2 ∷ 3 ∷ []) (omega arith) pair-IsQueue

k_tsk_run_new-stopped_example :
    Switched
      (two_waiting dormant)
      2
      (pop_task (two_waiting dormant) (3 ∷ []) two_queues)
      (k_tsk_run_new (two_waiting dormant))
k_tsk_run_new-stopped_example =
    k_tsk_run_new-stopped (two_waiting dormant) two_queues 2 (3 ∷ [])
      (two_waiting-IsScheduled dormant (ground arith)) refl refl

k_tsk_run_new-gives_way_example :
    Switched
      (two_waiting running)
      2
      (append_task (two_waiting running) 1 (pop_task (two_waiting running) (3 ∷ []) two_queues))
      (k_tsk_run_new (two_waiting running))
k_tsk_run_new-gives_way_example =
    k_tsk_run_new-gives_way (two_waiting running) two_queues 2 (3 ∷ [])
      (two_waiting-IsScheduled running (ground arith)) refl refl refl

-- Task 1 runs with priority 1.
abbrev first_running : Sched
first_running = set_prio 1 1 (two_waiting running)

lone_task-stuck_example :
    let s' = (k_tsk_run_new one_waiting).1 in
    let waiting = set_state 2 blk_msg s' in
    (s'.current ≡ 2)
    × IsStale s'
    × ((k_tsk_run_new waiting).0 ≡ rtx_err)
    × ((k_tsk_run_new waiting).1.current ≡ 2)
    × (((k_tsk_run_new waiting).1.tcbs 2).state ≡ blk_msg)
lone_task-stuck_example =
    lone_task-stuck one_waiting one_queue 2 one_waiting-IsScheduled refl (λ p n. ground arith) refl
      (omega arith)

requeue-IsReady_example :
    let s = two_waiting running in
    (s' : Sched) × (requeue 2 5 s ≡ returns s')
    × IsReady s' (update (without s 2 two_queues) 5 (without s 2 two_queues 5 ++ 2 ∷ []))
requeue-IsReady_example =
    requeue-IsReady (two_waiting running) two_queues 2 5 2 (two_waiting-IsReady running)
      (omega arith) refl

four_running : IsReady (record (two_waiting dormant) { current = 4 }) two_queues
four_running = record {
  queue = (two_waiting-IsReady dormant).queue;
  prio = (two_waiting-IsReady dormant).prio;
  state = (two_waiting-IsReady dormant).state;
}

k_tsk_set_prio-null_deref_example :
    k_tsk_set_prio 1 5 (record (two_waiting dormant) { current = 4 }) ≡ null_deref
k_tsk_set_prio-null_deref_example =
    k_tsk_set_prio-null_deref (record (two_waiting dormant) { current = 4 }) two_queues 1 5
      four_running (omega arith) (λ a e. e) (ground arith) refl refl (ground arith)

-- The ring holds one id, in its last slot.
abbrev one_tid : TidQueue
one_tid = record { slots = λ _. 9; head = 158; tail = 0; size = 1 }
