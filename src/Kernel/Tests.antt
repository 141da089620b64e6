-- ===== src/Kernel/Tests.antt =====
-- Runs of the task calls of RTX/src/kernel/k_task.c.
use preemptive_multi_tasked.Prelude.{◌≡◌, inl, refl, [], ◌∷◌, some, arith, ◌+◌}
use preemptive_multi_tasked.Mem.{rtx_ok, Mem, k_mem_alloc}
use preemptive_multi_tasked.Mem.Blocks.{block}
use preemptive_multi_tasked.Mem.Chain.{Holds}
use preemptive_multi_tasked.Mem.FirstFit.{k_mem_alloc-Allocates}
use preemptive_multi_tasked.Task.{running, dormant}
use preemptive_multi_tasked.Task.Tids.{IsRing}
use preemptive_multi_tasked.Samples.{
  two_free, two_blocks, two_free-Holds, two_queues, two_waiting-IsScheduled, image, booted,
}
use preemptive_multi_tasked.Kernel.{Kernel, TaskInfo, release, k_tsk_create_new, k_tsk_exit}
use preemptive_multi_tasked.Kernel.Stack.{Prepared, user_words, k_tsk_create_new-unprivileged}
use preemptive_multi_tasked.Kernel.Exit.{Left, k_tsk_exit-Left}

abbrev user_info : TaskInfo
user_info = record {
  ptask = 0xa000;
  k_stack_hi = 0;
  u_stack_hi = 0;
  k_stack_size = 0;
  u_stack_size = 100;
  tid = 0;
  prio = 5;
  state = dormant;
  priv = 0;
}

user_stack :
    (m' : Mem) × (k_mem_alloc 1 100 two_free ≡ some (8192 + 16, m'))
    × Holds m' (block 4096 64 ∷ block 8312 8 ∷ [])
    × ((m'.cell 8192).tid ≡ 1)
    × ((m'.cell 8192).size ≡ 104)
user_stack =
    k_mem_alloc-Allocates 1 100 two_free two_blocks two_free-Holds (omega arith) (omega arith)

k_tsk_create_new-unprivileged_example :
    (k' : Kernel) × (k_tsk_create_new image (some user_info) (some 4) 4 booted ≡ some (rtx_ok, k'))
    × Prepared image user_info 4 (user_words image user_info 8208) k'
k_tsk_create_new-unprivileged_example =
    k_tsk_create_new-unprivileged image user_info 4 booted refl (omega arith) refl 8208 user_stack.0
      (ground arith) user_stack.1

booted-IsRing : IsRing booted.tids
booted-IsRing = record {
  head_in = omega arith;
  tail_in = omega arith;
  size_in = omega arith;
  spread = inl refl;
}

nothing_to_release : release booted ≡ some two_free
unfolding release
nothing_to_release = refl

k_tsk_exit-Left_example :
    (k' : Kernel) × (k_tsk_exit booted ≡ some k') × Left booted two_queues 2 (3 ∷ []) k'
k_tsk_exit-Left_example =
    k_tsk_exit-Left booted two_queues 2 (3 ∷ []) two_free
      (two_waiting-IsScheduled running (ground arith)) refl booted-IsRing (omega arith)
      (ground arith) nothing_to_release
