-- ===== src/Trials/Tasks/Tests.antt =====
-- Runs of the tests of the task calls on the sample kernel.
use preemptive_multi_tasked.Prelude.{◌≡◌, refl, Bool, true, false, some, List, arith, length}
use preemptive_multi_tasked.Mem.{
  Mem, rtx_err, k_mem_alloc, k_mem_dealloc, alloc_loop, claim, split, relink, max_blocks,
}
use preemptive_multi_tasked.Task.{returns}
use preemptive_multi_tasked.Kernel.{Kernel, TaskInfo, k_tsk_get_info}
use preemptive_multi_tasked.Trials.Tasks.{
  all_pass, k_tsk_get_info_tester, k_tsk_get_info_tester-passes,
}
use preemptive_multi_tasked.Samples.{two_free, booted}

-- As many tasks as there can be.
abbrev crowded : Kernel
crowded = record booted { num_active_tasks = 160 }

abbrev buffer : (m : Mem) × (k_mem_alloc 1 32 two_free ≡ some (4112, m))
unfolding k_mem_alloc alloc_loop max_blocks claim split relink
buffer = (_, refl)

given_back : k_mem_dealloc false 1 500 buffer.0 ≡ some (rtx_err, buffer.0)
unfolding k_mem_dealloc buffer
given_back = refl

k_tsk_get_info_tester-passes_example :
    (checks : List Bool) × (k_tsk_get_info_tester 500 booted
      ≡ returns (checks, record booted { mem = buffer.0 }))
    × (length checks ≡ 18)
    × (all_pass checks ≡ true)
    × ((info : TaskInfo) × (k_tsk_get_info false 1 booted.sched ≡ some info)
        × (info.u_stack_hi ≡ 2048))
k_tsk_get_info_tester-passes_example =
    k_tsk_get_info_tester-passes 500 4112 booted buffer.0 buffer.0 rtx_err buffer.1 (omega arith)
      given_back
