-- ===== src/Boot/Order.antt =====
-- The kernel once it has booted.
use preemptive_multi_tasked.Prelude.{
  ℕ, ◌+◌, ◌-◌, ◌≤◌, ◌<◌, ◌≡◌, refl, [], ◌∷◌, some, arith, leb, Bool-cases, inl, inr,
}
use preemptive_multi_tasked.Mem.{rtx_ok, k_mem_init, align}
use preemptive_multi_tasked.Mem.Blocks.{block}
use preemptive_multi_tasked.Mem.Chain.{Holds}
use preemptive_multi_tasked.Mem.Walks.{k_mem_init-Holds}
use preemptive_multi_tasked.Fifo.{no_nodes}
use preemptive_multi_tasked.Task.{initialize_priority_array}
use preemptive_multi_tasked.Task.Ready.{Queues}
use preemptive_multi_tasked.Task.Schedule.{IsScheduled}
use preemptive_multi_tasked.Kernel.{Image, Kernel, k_tsk_init, init_tasks, first_task, add_tids}
use preemptive_multi_tasked.Boot.{Machine, k_rtx_init, init_drivers}

abbrev pub no_queues : Queues
no_queues p = []

module _ (k : Kernel) (high : k.sched.highest_priority ≡ 255)
    (outside : (p : ℕ) → 255 < p → k.sched.tasks p ≡ no_nodes) where
  empty_tasks : (p : ℕ) → (initialize_priority_array k.sched).tasks p ≡ no_nodes
  unfolding initialize_priority_array
  empty_tasks p = elim (Bool-cases (leb p 255)) [
    | inl low ↦ rw low refl
    | inr up ↦ rw up (outside p (ground arith))
  ]

  -- The state in which the null task is about to create the others.
  abbrev pub null_runs : Kernel
  null_runs = first_task (record k {
    tids = add_tids 159 1 k.tids;
    sched = initialize_priority_array k.sched;
    num_active_tasks = 0;
  })

  pub high_same : null_runs.sched.highest_priority ≤ 255
  unfolding initialize_priority_array
  high_same = omega (arith, high)

  pub null_runs-IsScheduled : IsScheduled null_runs.sched no_queues
  null_runs-IsScheduled = record {
    started = refl;
    queues = record {
      queue = λ p. rw (empty_tasks p) record { links = refl; tail = refl; distinct = tt };
      prio = λ p. tt;
      state = λ p. tt;
    };
    exact = record {
      above = λ p lt. refl;
      top = λ p nil. refl;
      bound = high_same;
      range = λ p out. refl;
    };
    apart = ground arith;
    small = ground arith;
  }

-- With an image that leaves room for a control block and eight bytes below `ram_end`, no boot
-- tasks, `highest_priority` as the source initialises it and no list beyond the array of 256,
-- `k_rtx_init` succeeds and the kernel is in order: the null task runs, no task is ready, and the
-- memory holds one free block from the end of the image, rounded up, to `ram_end`.
pub k_rtx_init-IsScheduled :
    (image : Image) (end_addr : ℕ) (b : Machine)
    → b.kernel.sched.highest_priority ≡ 255
    → ((p : ℕ) → 255 < p → b.kernel.sched.tasks p ≡ no_nodes)
    → 0 < end_addr
    → align end_addr + 24 ≤ 0x3fff_ffff
    → end_addr ≤ 0x3fff_ffff
    → (b' : Machine) × (k_rtx_init image end_addr 0 [] b ≡ some (rtx_ok, b'))
      × IsScheduled b'.kernel.sched no_queues
      × (b'.kernel.sched.current ≡ 0)
      × Holds b'.kernel.mem (block (align end_addr) (0x3fff_ffff - align end_addr - 16) ∷ [])
unfolding k_rtx_init init_drivers k_tsk_init init_tasks
k_rtx_init-IsScheduled image end_addr b high outside pos room le =
    let (ok, held) = k_mem_init-Holds end_addr b.kernel.mem pos room le in
    let k = record b.kernel { mem = (k_mem_init end_addr b.kernel.mem).1 } in
    (
      record (init_drivers b) { kernel = null_runs k high outside },
      rw (ok, k_rtx_init) refl,
      null_runs-IsScheduled k high outside,
      refl,
      held,
    )
