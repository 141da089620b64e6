-- ===== src/Task/Rounds/Tests.antt =====
-- Turns of the sample tasks.
use preemptive_multi_tasked.Prelude.{refl, [], ◌∷◌}
use preemptive_multi_tasked.Task.Rounds.{Turn, Turns, k_tsk_yields, k_tsk_yields-Turns}
use preemptive_multi_tasked.Samples.{two_queues, equal_running, equal_running-IsScheduled}

equal_running-Turn : Turn equal_running two_queues 2 1 (2 ∷ 3 ∷ [])
equal_running-Turn = record {
  ordered = equal_running-IsScheduled;
  current = refl;
  state = refl;
  prio = refl;
  highest = refl;
  queue = refl;
}

-- The second of the waiting tasks runs after two calls, before the first caller.
k_tsk_yields-Turns_example : Turns (k_tsk_yields 2 equal_running) two_queues 2 3 (1 ∷ 2 ∷ [])
k_tsk_yields-Turns_example =
    k_tsk_yields-Turns equal_running two_queues 2 1 3 (2 ∷ []) [] equal_running-Turn
