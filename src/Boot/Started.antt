-- ===== src/Boot/Started.antt =====
-- The kernel once it has booted with user tasks.
use preemptive_multi_tasked.Prelude.{
  ℕ, ◌+◌, ◌%◌, ◌≤◌, ◌<◌, ◌≡◌, ◌≢◌, inr, refl, List, [], ◌∷◌, some, arith, false, ltb, dec_lt, ◌==◌,
}
use preemptive_multi_tasked.Mem.{rtx_ok, k_mem_init, align}
use preemptive_multi_tasked.Mem.Walks.{k_mem_init-Holds}
use preemptive_multi_tasked.Fifo.{no_nodes}
use preemptive_multi_tasked.Fifo.Queue.{All, Distinct, All-map}
use preemptive_multi_tasked.Task.{max_tasks, ready, running, initialize_priority_array, k_tsk_yield}
use preemptive_multi_tasked.Task.Ready.{Queues}
use preemptive_multi_tasked.Task.Schedule.{k_tsk_run_new-gives_way}
use preemptive_multi_tasked.Task.Yield.{yielding, yielding-IsScheduled}
use preemptive_multi_tasked.Kernel.{
  Image, Kernel, TaskInfo, k_tsk_init, init_tasks, first_task, add_tids,
}
use preemptive_multi_tasked.Boot.{Machine, k_rtx_init, init_drivers}
use preemptive_multi_tasked.Boot.Order.{no_queues, null_runs, null_runs-IsScheduled}
use preemptive_multi_tasked.Boot.Tasks.{
  Booting, IsUnused, Each, HasStack, given_tids, add_tasks, init_tasks-Booting,
}

init_tasks-made :
    (image : Image) (n : ℕ) (infos : List TaskInfo) (k : Kernel)
    → n ≤ max_tasks
    → (k' : Kernel)
    → init_tasks image infos (
        first_task (record k {
          tids = add_tids 159 1 k.tids;
          sched = initialize_priority_array k.sched;
          num_active_tasks = 0;
        }))
      ≡ some k'
    → k_tsk_init image n infos k ≡ some (rtx_ok, k')
unfolding k_tsk_init
init_tasks-made image n infos k few k' made =
    let enough : ltb max_tasks n ≡ false = ground (arith, few) in rw (k_tsk_init, enough, made) refl

module _ (image : Image) (end_addr n : ℕ) (infos : List TaskInfo) (b : Machine)
    (high : b.kernel.sched.highest_priority ≡ 255)
    (outside : (p : ℕ) → 255 < p → b.kernel.sched.tasks p ≡ no_nodes)
    (idle : (a : ℕ) → (b.kernel.sched.tcbs a).state ≢ ready) (pos : 0 < end_addr)
    (room : align end_addr + 24 ≤ 0x3fff_ffff) (le : end_addr ≤ 0x3fff_ffff)
    (aligned : image.g_k_stacks % 8 ≡ 0) (few : n ≤ max_tasks) (each : Each infos) where
  -- The ids of the boot tasks.
  abbrev pub boot_tids : List ℕ
  boot_tids = given_tids image infos (add_tids 159 1 b.kernel.tids)

  abbrev started : Kernel
  started = null_runs (record b.kernel { mem = (k_mem_init end_addr b.kernel.mem).1 }) high outside

  started-Booting : Booting started no_queues
  unfolding initialize_priority_array
  started-Booting = record {
    sched =
        null_runs-IsScheduled (record b.kernel { mem = (k_mem_init end_addr b.kernel.mem).1 }) high
          outside;
    runs = refl;
    lowest = refl;
    alive = refl;
    high = inr high;
    blocks = _;
    held = (k_mem_init-Holds end_addr b.kernel.mem pos room le).1;
  }

  started-IsUnused : (a : ℕ) → a ≢ 0 → IsUnused started a
  unfolding initialize_priority_array
  started-IsUnused a other =
      let miss : (a == 0) ≡ false = ground (arith, other) in (rw miss (idle a), other)

  -- Where all tasks are dormant but for the null task, `highest_priority` is as the source initialises
  -- it, no list is beyond the array of 256, and the image leaves room for a control block and eight
  -- bytes, `k_rtx_init` with at most `max_tasks` user tasks succeeds, if their kernel stacks are inside
  -- the address space and their ids differ and are not 0: the null task runs, the tasks are ready, each
  -- behind those of its priority that come before it, and the memory is well formed.
  pub k_rtx_init-Booting :
      Distinct boot_tids
      → All (HasStack image) boot_tids
      → All (λ t. t ≢ 0) boot_tids
      → (b' : Machine) × (k_rtx_init image end_addr n infos b ≡ some (rtx_ok, b'))
        × Booting b'.kernel (add_tasks infos boot_tids no_queues)
        × (b'.kernel.sched.current ≡ 0)
  unfolding k_rtx_init init_drivers k_tsk_init
  k_rtx_init-Booting distinct within other =
      let (ok, held) = k_mem_init-Holds end_addr b.kernel.mem pos room le in
      let (k', made, booted) =
        init_tasks-Booting image aligned infos started no_queues each started-Booting distinct
          within (All-map _ _ boot_tids started-IsUnused other) in
      let b2 = record b.kernel { mem = (k_mem_init end_addr b.kernel.mem).1 } in
      (
        record (init_drivers b) { kernel = k' },
        rw (ok, k_rtx_init, init_tasks-made image n infos b2 few k' made) refl,
        booted,
        booted.runs,
      )

-- The first yield of the null task hands over to the first task of the highest priority.
pub k_tsk_yield-first :
    (k : Kernel) (qs : Queues) (t : ℕ) (ts : List ℕ)
    → Booting k qs
    → qs k.sched.highest_priority ≡ t ∷ ts
    → k.sched.highest_priority < 255
    → ((k_tsk_yield k.sched).1.current ≡ t) × (((k_tsk_yield k.sched).1.tcbs t).state ≡ running)
unfolding k_tsk_yield
k_tsk_yield-first k qs t ts b first low =
    let r =
      k_tsk_run_new-gives_way (yielding k.sched qs b.sched) qs t ts
        (yielding-IsScheduled k.sched qs b.sched) first (rw b.alive refl)
        (ground (arith, b.lowest, low)) in
    (r.current, r.state)

-- `highest_priority` is that of the first queue that is not empty.
pub highest-first :
    (k : Kernel) (qs : Queues) (p : ℕ)
    → Booting k qs
    → qs p ≢ []
    → ((q : ℕ) → q < p → qs q ≡ [])
    → k.sched.highest_priority ≡ p
highest-first k qs p b busy empty =
    let h = k.sched.highest_priority in
    elim (dec_lt h p) [
      | yes lt ↦ absurd (busy (b.sched.exact.top p (empty h lt)))
      | no ge ↦ elim (dec_lt p h) [
        | yes lt ↦ absurd (busy (b.sched.exact.above p lt))
        | no le ↦ omega (arith, ge, le)
      ]
    ]
