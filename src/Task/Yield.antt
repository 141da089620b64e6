-- ===== src/Task/Yield.antt =====
-- `k_tsk_yield` among tasks of the same priority.
use preemptive_multi_tasked.Prelude.{ℕ, ◌≡◌, List, [], ◌∷◌, ◌++◌, true, false, arith}
use preemptive_multi_tasked.Task.{Sched, stopped, k_tsk_yield}
use preemptive_multi_tasked.Task.Ready.{Queues, append_task}
use preemptive_multi_tasked.Task.Retrieve.{pop_task}
use preemptive_multi_tasked.Task.Schedule.{IsScheduled, Switched, k_tsk_run_new-gives_way}

module _ (s : Sched) (qs : Queues) (v : IsScheduled s qs) where
  abbrev pub yielding : Sched
  yielding = record s { yield_flag = true }

  pub yielding-IsScheduled : IsScheduled yielding qs
  yielding-IsScheduled = record {
    started = v.started;
    queues = record { queue = v.queues.queue; prio = v.queues.prio; state = v.queues.state };
    exact = record {
      above = v.exact.above;
      top = v.exact.top;
      bound = v.exact.bound;
      range = v.exact.range;
    };
    apart = v.apart;
    small = v.small;
  }

module _ (s : Sched) (qs : Queues) (t : ℕ) (ts : List ℕ) (v : IsScheduled s qs)
    (first : qs s.highest_priority ≡ t ∷ ts) where
  -- In a kernel in order, with the tasks `t` and `ts` in the queue of the highest priority, a
  -- running task of that priority that yields hands over to `t` and waits behind `ts`: `t` becomes
  -- current and running, the other queues stay as they are, and no ready task has a higher
  -- priority.
  pub k_tsk_yield-Switched :
      stopped (s.tcbs s.current).state ≡ false
      → (s.tcbs s.current).prio ≡ s.highest_priority
      → let qs' = append_task s s.current (pop_task s ts qs) in
        Switched s t qs' (k_tsk_yield s) × (qs' s.highest_priority ≡ ts ++ s.current ∷ [])
  unfolding k_tsk_yield
  k_tsk_yield-Switched busy equal =
      let r =
        k_tsk_run_new-gives_way (yielding s qs v) qs t ts (yielding-IsScheduled s qs v) first busy
          (ground arith) in
      (
        record {
          result = r.result;
          current = r.current;
          state = r.state;
          queues = r.queues;
          above = r.above;
        },
        ground arith,
      )
