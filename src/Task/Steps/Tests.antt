-- ===== src/Task/Steps/Tests.antt =====
-- Two steps of the sample tasks.
use preemptive_multi_tasked.Prelude.{refl, [], ◌∷◌, arith}
use preemptive_multi_tasked.Task.{Sched, blk_msg, set_state, k_tsk_run_new, k_tsk_yield}
use preemptive_multi_tasked.Task.Ready.{Queues, append_task}
use preemptive_multi_tasked.Task.Retrieve.{pop_task}
use preemptive_multi_tasked.Task.Rounds.{Turn, k_tsk_yield-Turn}
use preemptive_multi_tasked.Task.Steps.{
  stops, yields, Steps, done, next, IsRunning, Steps-IsRunning,
}
use preemptive_multi_tasked.Samples.{two_queues, equal_running, equal_running-IsScheduled}

abbrev yielded : Sched
yielded = (k_tsk_yield equal_running).1

abbrev yielded_queues : Queues
yielded_queues = append_task equal_running 1 (pop_task equal_running (3 ∷ []) two_queues)

abbrev waiting : Sched
waiting = (k_tsk_run_new (set_state yielded.current blk_msg yielded)).1

abbrev waiting_queues : Queues
waiting_queues = pop_task yielded (1 ∷ []) yielded_queues

yielded-Turn : Turn yielded yielded_queues 2 2 (3 ∷ 1 ∷ [])
yielded-Turn = k_tsk_yield-Turn equal_running two_queues 2 1 2 (3 ∷ []) (record {
  ordered = equal_running-IsScheduled;
  current = refl;
  state = refl;
  prio = refl;
  highest = refl;
  queue = refl;
})

-- Task 1 yields to task 2, which waits for a message.
equal_running-Steps : Steps equal_running two_queues waiting waiting_queues
equal_running-Steps =
    next (yields 2 (3 ∷ []) refl refl)
      (next (stops blk_msg 3 (1 ∷ []) refl (rw yielded-Turn.highest yielded-Turn.queue)) done)

Steps-IsRunning_example : IsRunning waiting waiting_queues
Steps-IsRunning_example =
    Steps-IsRunning equal_running waiting two_queues waiting_queues equal_running-Steps
      (record { ordered = equal_running-IsScheduled; state = refl; top = λ p lt. ground arith })
