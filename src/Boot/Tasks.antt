-- ===== src/Boot/Tasks.antt =====
-- The boot tasks of RTX/src/kernel/k_task.c (`k_tsk_init`), created one after the other.
use preemptive_multi_tasked.Prelude.{
  ℕ, ◌+◌, ◌*◌, ◌%◌, ◌^◌, ◌≤◌, ◌<◌, ◌≡◌, ◌≢◌, ◌⊎◌, inl, inr, Bool-cases, refl, ap, sym, ◌∙◌, subst,
  Option, some, none, ◌==◌, List, [], ◌∷◌, ◌++◌, update, add32, if◌then◌else◌,
}
use preemptive_multi_tasked.Mem.{rtx_ok, Mem, k_mem_alloc, align}
use preemptive_multi_tasked.Mem.Blocks.{Block, first_fit}
use preemptive_multi_tasked.Mem.Chain.{Holds}
use preemptive_multi_tasked.Mem.FirstFit.{Allocates, k_mem_alloc-Allocates}
use preemptive_multi_tasked.Fifo.Queue.{All, Distinct, All-map₂}
use preemptive_multi_tasked.Task.{ready, running, insert_into_tasks, tid_kcd}
use preemptive_multi_tasked.Task.Tids.{TidQueue, get_next_tid}
use preemptive_multi_tasked.Task.Ready.{
  Queues, Outside-of_state, insert_into_tasks-prio, insert_into_tasks-current,
}
use preemptive_multi_tasked.Task.Schedule.{IsScheduled}
use preemptive_multi_tasked.Kernel.{
  Image, Kernel, TaskInfo, init_tasks, choose_tid, k_tsk_create_new,
}
use preemptive_multi_tasked.Kernel.Created.{k_tsk_create_new-Created}
use preemptive_multi_tasked.Boot.Insert.{
  Created-IsScheduled, insert-state, insert-IsScheduled, insert-busy,
}

-- The kernel between two boot tasks, with the null task running.
pub record Booting (k : Kernel) (qs : Queues) : Type 0 where
  pub sched : IsScheduled k.sched qs
  pub runs : k.sched.current ≡ 0
  pub lowest : (k.sched.tcbs k.sched.current).prio ≡ 255
  pub alive : (k.sched.tcbs k.sched.current).state ≡ running
  pub high : (qs k.sched.highest_priority ≢ []) ⊎ (k.sched.highest_priority ≡ 255)
  pub blocks : List Block
  pub held : Holds k.mem blocks

-- Neither ready nor running.
abbrev pub IsUnused : Kernel → ℕ → Type 0
IsUnused k t = ((k.sched.tcbs t).state ≢ ready) × (t ≢ k.sched.current)

-- A user task that `k_tsk_create_new` can make.
abbrev pub IsUserTask : TaskInfo → Type 0
IsUserTask info =
    (info.priv ≡ 0) × (info.prio ≤ 255) × (0 < info.u_stack_size) × (info.u_stack_size + 8 ≤ 2 ^ 32)

-- `k_mem_alloc` returns, and the memory stays well formed.
alloc-Holds :
    (tid size : ℕ) (m : Mem) (bs : List Block)
    → Holds m bs
    → 0 < size
    → size + 8 ≤ 2 ^ 32
    → (p : ℕ) × (m' : Mem) × (left : List Block) × (k_mem_alloc tid size m ≡ some (p, m'))
      × Holds m' left
alloc-Holds tid size m bs held pos fits =
    by_outcome (first_fit (align size) bs) (k_mem_alloc-Allocates tid size m bs held pos fits)
  where
    by_outcome :
        (o : Option (Block × List Block))
        → Allocates tid m o (k_mem_alloc tid size m)
        → (p : ℕ) × (m' : Mem) × (left : List Block) × (k_mem_alloc tid size m ≡ some (p, m'))
          × Holds m' left
    by_outcome none e = (0, m, bs, e, held)
    by_outcome (some (taken, left)) (m', e, holds, owner, size) =
        (taken.addr + 16, m', left, e, holds)

abbrev pub add_task : (prio t : ℕ) → Queues → Queues
add_task prio t qs = update qs prio (qs prio ++ t ∷ [])

-- `k_tsk_init` once a task has been created.
abbrev pub entered : ℕ → Kernel → Kernel
entered t k = record k {
  num_active_tasks = add32 k.num_active_tasks 1;
  sched = insert_into_tasks t k.sched;
}

-- Each task comes behind the others of its priority.
abbrev pub add_tasks : List TaskInfo → List ℕ → Queues → Queues
add_tasks (info ∷ infos) (t ∷ ts) qs = add_tasks infos ts (add_task info.prio t qs)
add_tasks infos ts qs = qs

abbrev pub Each : List TaskInfo → Type 0
Each [] = Unit {0}
Each (info ∷ infos) = IsUserTask info × Each infos

module _ (image : Image) where
  -- The kernel stack of the task is inside the address space.
  abbrev pub HasStack : ℕ → Type 0
  HasStack t = image.g_k_stacks + (t + 1) * 512 < 2 ^ 32

  abbrev pub next_tid : (ptask : ℕ) → TidQueue → ℕ × TidQueue
  next_tid ptask q = if ptask == image.kcd_task then (tid_kcd, q) else get_next_tid q

  choose_tid-next_tid :
      (ptask : ℕ) (k : Kernel)
      → choose_tid image ptask k
        ≡ ((next_tid ptask k.tids).0, record k { tids = (next_tid ptask k.tids).1 })
  unfolding choose_tid
  choose_tid-next_tid ptask k = elim (Bool-cases (ptask == image.kcd_task)) [
    | inl kcd ↦ rw kcd refl
    | inr user ↦ rw user refl
  ]

  -- The ids that the tasks get.
  abbrev pub given_tids : List TaskInfo → TidQueue → List ℕ
  given_tids [] q = []
  given_tids (info ∷ infos) q =
      (next_tid info.ptask q).0 ∷ given_tids infos (next_tid info.ptask q).1

  init_tasks-step :
      (info : TaskInfo) (infos : List TaskInfo) (k k1 k2 : Kernel) (t : ℕ)
      → choose_tid image info.ptask k ≡ (t, k1)
      → k_tsk_create_new image (some info) (some t) t k1 ≡ some (rtx_ok, k2)
      → init_tasks image (info ∷ infos) k ≡ init_tasks image infos (entered t k2)
  unfolding init_tasks
  init_tasks-step info infos k k1 k2 t chosen made =
      rw (init_tasks, chosen, made)
        (ap (λ (c : ℕ × Kernel). init_tasks image infos (entered c.0 k2)) chosen)

module _ (image : Image) (aligned : image.g_k_stacks % 8 ≡ 0) where
  create-Booting :
      (info : TaskInfo) (t : ℕ) (k : Kernel) (qs : Queues)
      → HasStack image t
      → IsUserTask info
      → Booting k qs
      → IsUnused k t
      → (k' : Kernel) × (k_tsk_create_new image (some info) (some t) t k ≡ some (rtx_ok, k'))
        × Booting (entered t k') (add_task info.prio t qs)
        × (k'.tids ≡ k.tids)
        × ((a : ℕ) → a ≢ t → IsUnused k a → IsUnused (entered t k') a)
  create-Booting info t k qs within (user, small, pos, fits) b (idle, apart) =
      let (p, m, left, given, holds) =
        alloc-Holds (k.sched.tcbs k.sched.current).tid info.u_stack_size k.mem b.blocks b.held pos
          fits in
      let (k', made, c, mem, tids) =
        k_tsk_create_new-Created image info t k aligned within user p m apart given in
      let out = Outside-of_state k.sched qs t b.sched.queues idle in
      let steady =
        Created-IsScheduled k.sched k'.sched qs t info.prio b.sched c out (λ e. apart (sym e)) in
      let high : (qs k'.sched.highest_priority ≢ []) ⊎ (k'.sched.highest_priority ≡ 255) =
        rw c.highest b.high in
      let low : (k'.sched.tcbs t).prio ≤ 255 = rw c.prio_eq small in
      let away : k'.sched.current ≢ t = rw c.current (λ e. apart (sym e)) in
      (
        k',
        made,
        record {
          sched =
              subst (λ p. IsScheduled (insert_into_tasks t k'.sched) (add_task p t qs)) c.prio_eq
                (insert-IsScheduled k'.sched qs t steady out away low high);
          high = inl (
              subst (λ p. add_task p t qs (insert_into_tasks t k'.sched).highest_priority ≢ [])
                c.prio_eq (insert-busy k'.sched qs t low high));
          runs = rw ((insert_into_tasks-current k'.sched t).0, c.current) b.runs;
          lowest =
              rw ((insert_into_tasks-current k'.sched t).0, c.current)
                (insert_into_tasks-prio k'.sched t k.sched.current
                  ∙ ap (λ x. x.prio) (c.others k.sched.current (λ e. apart (sym e)))
                  ∙ b.lowest);
          alive =
              rw ((insert_into_tasks-current k'.sched t).0, c.current)
                (insert-state k'.sched t k.sched.current (λ e. apart (sym e))
                  ∙ ap (λ x. x.state) (c.others k.sched.current (λ e. apart (sym e)))
                  ∙ b.alive);
          blocks = left;
          held = rw mem holds;
        },
        tids,
        λ a other (unready, elsewhere). (
          (λ e.
              unready
                (sym (insert-state k'.sched t a other ∙ ap (λ x. x.state) (c.others a other)) ∙ e)),
          rw ((insert_into_tasks-current k'.sched t).0, c.current) elsewhere,
        ),
      )

  pub init_tasks-Booting :
      (infos : List TaskInfo) (k : Kernel) (qs : Queues)
      → Each infos
      → Booting k qs
      → Distinct (given_tids image infos k.tids)
      → All (HasStack image) (given_tids image infos k.tids)
      → All (IsUnused k) (given_tids image infos k.tids)
      → (k' : Kernel) × (init_tasks image infos k ≡ some k')
        × Booting k' (add_tasks infos (given_tids image infos k.tids) qs)
  unfolding init_tasks
  init_tasks-Booting [] k qs each b distinct within unused = (k, refl, b)
  init_tasks-Booting (info ∷ infos) k qs each b distinct within unused =
      let (t, q) = next_tid image info.ptask k.tids in
      let k1 = record k { tids = q } in
      let b1 : Booting k1 qs = record {
        sched = b.sched;
        runs = b.runs;
        lowest = b.lowest;
        alive = b.alive;
        high = b.high;
        blocks = b.blocks;
        held = b.held;
      } in
      let (k2, made, b2, same, keep) = create-Booting info t k1 qs within.0 each.0 b1 unused.0 in
      let (k', others, b') =
        init_tasks-Booting infos (entered t k2) (add_task info.prio t qs) each.1 b2
          (subst (λ q. Distinct (given_tids image infos q)) (sym same) distinct.1)
          (subst (λ q. All (HasStack image) (given_tids image infos q)) (sym same) within.1)
          (subst (λ q. All (IsUnused (entered t k2)) (given_tids image infos q)) (sym same)
            (All-map₂ _ _ _ (given_tids image infos q) (λ a idle other. keep a other idle) unused.1
              distinct.0)) in
      (
        k',
        init_tasks-step image info infos k k1 k2 t (choose_tid-next_tid image info.ptask k) made
            ∙ others,
        subst
            (λ q. Booting k' (add_tasks infos (given_tids image infos q) (add_task info.prio t qs)))
            same b',
      )
