-- ===== src/Kernel/Create.antt =====
-- What `k_tsk_create` and `k_tsk_get_info` answer.
use preemptive_multi_tasked.Prelude.{
  ℕ, ◌+◌, ◌*◌, ◌^◌, ◌<◌, ◌≡◌, refl, Bool, true, false, Option, some, arith,
}
use preemptive_multi_tasked.Mem.{Rtx, rtx_err}
use preemptive_multi_tasked.Task.{Sched}
use preemptive_multi_tasked.Kernel.{
  Image, Kernel, TaskInfo, create_refused, k_tsk_create, k_tsk_get_info,
}

abbrev pub is_error : Option (Rtx × Option ℕ × Kernel) → Bool
is_error (some (rtx_err, tid, k)) = true
is_error _ = false

-- `k_tsk_create` reports an error exactly when the priority is that of the null task or of
-- real-time tasks, a pointer is NULL, there are `max_tasks` active tasks, or the stack asked for is
-- smaller than 512 bytes.
pub k_tsk_create-refuses :
    (image : Image) (null_task : Bool) (task_entry prio stack : ℕ) (k : Kernel)
    → is_error (k_tsk_create image null_task task_entry prio stack k)
      ≡ create_refused null_task task_entry prio stack k
unfolding k_tsk_create
k_tsk_create-refuses image null_task task_entry prio stack k = ground arith

-- `k_tsk_get_info` reports an end of the user stack behind the real one for every task with a user
-- stack, if four times its size does not reach past the address space: the size in bytes is added
-- to a pointer to words.
pub k_tsk_get_info-u_stack_hi :
    (task_id : ℕ) (s : Sched)
    → (s.tcbs task_id).u_stack_start + 4 * (s.tcbs task_id).u_stack_size < 2 ^ 32
    → 0 < (s.tcbs task_id).u_stack_size
    → (info : TaskInfo) × (k_tsk_get_info false task_id s ≡ some info)
      × ((s.tcbs task_id).u_stack_start + (s.tcbs task_id).u_stack_size < info.u_stack_hi)
unfolding k_tsk_get_info
k_tsk_get_info-u_stack_hi task_id s fits pos = (_, refl, omega arith)
