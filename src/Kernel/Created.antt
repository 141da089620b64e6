-- ===== src/Kernel/Created.antt =====
-- What `k_tsk_create_new` leaves of the scheduler, for a user task.
use preemptive_multi_tasked.Prelude.{
  ℕ, ◌+◌, ◌*◌, ◌%◌, ◌^◌, ◌<◌, ◌≡◌, ◌≢◌, refl, arith, some, ◌==◌, true, false,
}
use preemptive_multi_tasked.Mem.{rtx_ok, Mem, k_mem_alloc}
use preemptive_multi_tasked.Task.{Sched, ready}
use preemptive_multi_tasked.Kernel.{Image, Kernel, TaskInfo, kernel_context, k_tsk_create_new}
use preemptive_multi_tasked.Kernel.Stack.{create_user, user_sp, backed}

-- Only the TCB of the task has changed: it is ready, with the priority of its description.
pub record Created (tid prio : ℕ) (s s' : Sched) : Type 0 where
  pub next : s'.next ≡ s.next
  pub tasks : s'.tasks ≡ s.tasks
  pub highest : s'.highest_priority ≡ s.highest_priority
  pub current : s'.current ≡ s.current
  pub started : s'.started ≡ s.started
  pub others : (a : ℕ) → a ≢ tid → s'.tcbs a ≡ s.tcbs a
  pub prio_eq : (s'.tcbs tid).prio ≡ prio
  pub state_eq : (s'.tcbs tid).state ≡ ready

module _ (image : Image) (info : TaskInfo) (tid : ℕ) (k : Kernel)
    (aligned : image.g_k_stacks % 8 ≡ 0) (within : image.g_k_stacks + (tid + 1) * 512 < 2 ^ 32)
    (user : info.priv ≡ 0) (p : ℕ) (m : Mem) (other : tid ≢ k.sched.current)
    (given : k_mem_alloc (k.sched.tcbs k.sched.current).tid info.u_stack_size k.mem
      ≡ some (p, m)) where
  pub k_tsk_create_new-Created :
      (k' : Kernel) × (k_tsk_create_new image (some info) (some tid) tid k ≡ some (rtx_ok, k'))
      × Created tid info.prio k.sched k'.sched
      × (k'.mem ≡ m)
      × (k'.tids ≡ k.tids)
  unfolding kernel_context
  k_tsk_create_new-Created =
      let hit : (tid == tid) ≡ true = ground arith in
      let sp = (user_sp image info tid k aligned within user p m other given).0 in
      let k1 = backed image info tid k aligned within user p m other given in
      (
        kernel_context image info tid sp k1,
        create_user image info tid k aligned within user p m other given,
        record {
          next = refl;
          tasks = refl;
          highest = refl;
          current = refl;
          started = refl;
          others = λ a n. let miss : (a == tid) ≡ false = ground (arith, n) in rw miss refl;
          prio_eq = rw hit refl;
          state_eq = rw hit refl;
        },
        refl,
        refl,
      )
