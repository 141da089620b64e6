-- ===== src/App/Config.antt =====
-- The boot of the tasks of TEST == 2, the value that RTX/src/app/ae.h sets.
use preemptive_multi_tasked.Prelude.{
  ℕ, ◌+◌, ◌*◌, ◌%◌, ◌^◌, ◌≤◌, ◌<◌, ◌≡◌, ◌≢◌, refl, ap, sym, subst, ◌∙◌, List, [], ◌∷◌, some, arith,
  true, false, update, ◌==◌,
}
use preemptive_multi_tasked.Mem.{rtx_ok, align}
use preemptive_multi_tasked.Task.Ready.{Queues}
use preemptive_multi_tasked.Task.Schedule.{IsScheduled}
use preemptive_multi_tasked.Fifo.{no_nodes}
use preemptive_multi_tasked.Task.{ready, running, k_tsk_yield}
use preemptive_multi_tasked.Task.Tids.{TidQueue, add_tid, get_next_tid}
use preemptive_multi_tasked.Kernel.{Image, TaskInfo, add_tids}
use preemptive_multi_tasked.Boot.{Machine, k_rtx_init}
use preemptive_multi_tasked.Boot.Order.{no_queues}
use preemptive_multi_tasked.Boot.Tasks.{given_tids, Each, HasStack, Booting, add_tasks}
use preemptive_multi_tasked.Fifo.Queue.{All, Distinct}
use preemptive_multi_tasked.Boot.Started.{k_rtx_init-Booting, k_tsk_yield-first, highest-first}
use preemptive_multi_tasked.App.{
  Entries, test2, main, elements, zero_info, set_tasks, ae_init, ae_set_sys_info, ae_set_task_info,
}

-- What the static variables of the kernel hold at reset.
pub record IsReset (slots : ℕ → ℕ) (b : Machine) : Type 0 where
  pub high : b.kernel.sched.highest_priority ≡ 255
  pub outside : (p : ℕ) → 255 < p → b.kernel.sched.tasks p ≡ no_nodes
  pub idle : (a : ℕ) → (b.kernel.sched.tcbs a).state ≢ ready
  pub ring : b.kernel.tids ≡ record { slots = slots; head = 0; tail = 0; size = 0 }

-- The kernel stacks and the heap fit, and no other task has the address of the decoder.
pub record IsPlaced (image : Image) (e : Entries) (end_addr : ℕ) : Type 0 where
  pub aligned : image.g_k_stacks % 8 ≡ 0
  pub stacks : image.g_k_stacks + 160 * 512 < 2 ^ 32
  pub pos : 0 < end_addr
  pub room : align end_addr + 24 ≤ 0x3fff_ffff
  pub le : end_addr ≤ 0x3fff_ffff
  pub others :
      (e.utask1 ≢ image.kcd_task) × (e.utask2 ≢ image.kcd_task) × (e.utask3 ≢ image.kcd_task)

-- The first ids of the ring at boot.
first_ids :
    (slots : ℕ → ℕ)
    → let (t1, q1) =
        get_next_tid (add_tids 159 1 (record { slots = slots; head = 0; tail = 0; size = 0 })) in
      let (t2, q2) = get_next_tid q1 in (t1 ≡ 1) × (t2 ≡ 2) × ((get_next_tid q2).0 ≡ 3)
unfolding add_tid get_next_tid
first_ids slots = (refl, refl, refl)

same_ids :
    (t1 t2 t3 : ℕ) → (t1 ≡ 1) × (t2 ≡ 2) × (t3 ≡ 3) → t1 ∷ t2 ∷ 159 ∷ t3 ∷ [] ≡ 1 ∷ 2 ∷ 159 ∷ 3 ∷ []
same_ids t1 t2 t3 (one, two, three) = rw (one, two, three) refl

module _ (image : Image) (e : Entries) (end_addr : ℕ) (slots : ℕ → ℕ) (b : Machine)
    (reset : IsReset slots b) (placed : IsPlaced image e end_addr) where
  abbrev infos : List TaskInfo
  infos = elements test2 image e 4 0 (set_tasks test2 image e test2 (zero_info test2 image e))

  -- The decoder does not take an id from the ring.
  test2-ring :
      (q : TidQueue)
      → let (t1, q1) = get_next_tid q in
        let (t2, q2) = get_next_tid q1 in
        given_tids image infos q ≡ t1 ∷ t2 ∷ 159 ∷ (get_next_tid q2).0 ∷ []
  test2-ring q =
      let (other1, other2, other3) = placed.others in
      let miss1 : (e.utask1 == image.kcd_task) ≡ false = ground (arith, other1) in
      let miss2 : (e.utask2 == image.kcd_task) ≡ false = ground (arith, other2) in
      let miss3 : (e.utask3 == image.kcd_task) ≡ false = ground (arith, other3) in
      let hit : (image.kcd_task == image.kcd_task) ≡ true = ground arith in
      rw (miss1, miss2, miss3, hit) refl

  test2-tids : given_tids image infos (add_tids 159 1 b.kernel.tids) ≡ 1 ∷ 2 ∷ 159 ∷ 3 ∷ []
  test2-tids =
      ap (λ q. given_tids image infos (add_tids 159 1 q)) reset.ring
      ∙ test2-ring (add_tids 159 1 (record { slots = slots; head = 0; tail = 0; size = 0 }))
      ∙ same_ids _ _ _ (first_ids slots)

  test2-Each : Each infos
  test2-Each = (
    (refl, omega arith, omega arith, omega arith),
    (
      (refl, omega arith, omega arith, omega arith),
      (
        (refl, omega arith, omega arith, omega arith),
        ((refl, omega arith, omega arith, omega arith), tt),
      ),
    ),
  )

  abbrev four : List ℕ
  four = 1 ∷ 2 ∷ 159 ∷ 3 ∷ []

  four-Distinct : Distinct four
  four-Distinct = ground arith

  four-HasStack : All (HasStack image) four
  four-HasStack = (
    omega (arith, placed.stacks),
    (
      omega (arith, placed.stacks),
      (omega (arith, placed.stacks), (omega (arith, placed.stacks), tt)),
    ),
  )

  four-positive : All (λ t. t ≢ 0) four
  four-positive = ground arith

  abbrev unset : Machine
  unset = record b {
    kernel = record b.kernel { sched = record b.kernel.sched { started = false } };
  }

  booted :
      (b' : Machine) × (k_rtx_init image end_addr 4 infos unset ≡ some (rtx_ok, b'))
      × Booting b'.kernel (add_tasks infos four no_queues)
  booted =
      let (b', ok, order, null) =
        k_rtx_init-Booting image end_addr 4 infos unset reset.high reset.outside reset.idle
          placed.pos placed.room placed.le placed.aligned (omega arith) test2-Each
          (subst Distinct (sym test2-tids) four-Distinct)
          (subst (All (HasStack image)) (sym test2-tids) four-HasStack)
          (subst (All (λ t. t ≢ 0)) (sym test2-tids) four-positive) in
      (b', ok, subst (λ ts. Booting b'.kernel (add_tasks infos ts no_queues)) test2-tids order)

  main-booted :
      (b' : Machine)
      → k_rtx_init image end_addr 4 infos unset ≡ some (rtx_ok, b')
      → main test2 image e end_addr 0x13 b ≡ some (some b')
  unfolding main ae_init ae_set_sys_info ae_set_task_info
  main-booted b' ok = rw ok refl

-- One task per priority.
abbrev pub boot_queues : Queues
boot_queues =
    update (update (update (update no_queues 150 (1 ∷ [])) 175 (2 ∷ [])) 100 (159 ∷ [])) 200
      (3 ∷ [])

-- Built with TEST == 2 and started in supervisor mode on a machine at reset, where the stacks and the
-- heap fit, the kernel stacks are aligned and no other task has the address of the decoder, `main` boots:
-- tasks 1, 2 and 3 are ready with the priorities 150, 175 and 200 and the decoder, task 159, with 100,
-- each alone in its queue, the null task runs, and its first yield hands over to the decoder.
pub main-decoder_first :
    (image : Image) (e : Entries) (end_addr : ℕ) (slots : ℕ → ℕ) (b : Machine)
    → IsReset slots b
    → IsPlaced image e end_addr
    → (b' : Machine) × (main test2 image e end_addr 0x13 b ≡ some (some b'))
      × IsScheduled b'.kernel.sched boot_queues
      × (b'.kernel.sched.current ≡ 0)
      × ((k_tsk_yield b'.kernel.sched).1.current ≡ 159)
      × (((k_tsk_yield b'.kernel.sched).1.tcbs 159).state ≡ running)
main-decoder_first image e end_addr slots b reset placed =
    let (b', ok, order) = booted image e end_addr slots b reset placed in
    let highest =
      highest-first b'.kernel boot_queues 100 order (λ nil. ground (arith, nil))
        (λ q lt. ground (arith, lt)) in
    let (current, state) =
      k_tsk_yield-first b'.kernel boot_queues 159 [] order (rw highest refl)
        (omega (arith, highest)) in
    (
      b',
      main-booted image e end_addr slots b reset placed b' ok,
      order.sched,
      order.runs,
      current,
      state,
    )
