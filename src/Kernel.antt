-- ===== src/Kernel.antt =====
-- The life of a task in RTX/src/kernel/k_task.c: `k_tsk_init`, `k_tsk_create`, `k_tsk_exit` and
-- `k_tsk_get_info`, on the scheduler, the memory manager and the ring of ids together. The kernel
-- stacks are words by address. What the linker places is an argument, `Image`; the boot task and
-- the KCD are told apart by the address of their code.
pub mod Stack
pub mod Create
pub mod Exit
pub mod Created
mod Tests
use preemptive_multi_tasked.Prelude.{
  ℕ, zero, suc, ◌+◌, ◌-◌, ◌*◌, ◌/◌, ◌%◌, Bool, true, false, not, ◌&&◌, ◌||◌, Option, none, some,
  List, [], ◌∷◌, ltb, leb, ◌==◌, if◌then◌else◌, update, add32, sub32,
}
use preemptive_multi_tasked.Mem.{Rtx, rtx_ok, rtx_err, Mem, k_mem_alloc, k_mem_dealloc}
use preemptive_multi_tasked.Task.{
  Tcb, TaskState, dormant, ready, running, Sched, set_state, insert_into_tasks,
  initialize_priority_array, k_tsk_run_new, max_tasks, tid_null, tid_kcd, prio_null,
}
use preemptive_multi_tasked.Msg.{Store, free_mailbox}
use preemptive_multi_tasked.Task.Tids.{TidQueue, add_tid, get_next_tid}

-- Addresses that the linker chooses.
pub record Image : Type 0 where
  pub g_k_stacks : ℕ
  pub svc_restore : ℕ
  pub kcd_task : ℕ

pub record Kernel : Type 0 where
  pub sched : Sched
  pub mem : Mem
  pub store : Store
  pub tids : TidQueue
  pub num_active_tasks : ℕ
  -- The words of the kernel stacks.
  pub stack : ℕ → ℕ

pub record TaskInfo : Type 0 where
  pub ptask : ℕ
  pub k_stack_hi : ℕ
  pub u_stack_hi : ℕ
  pub k_stack_size : ℕ
  pub u_stack_size : ℕ
  pub tid : ℕ
  pub prio : ℕ
  pub state : TaskState
  pub priv : ℕ

abbrev pub stack_size : ℕ
stack_size = 0x200

abbrev pub init_cpsr_user : ℕ
init_cpsr_user = 0x4000_0010

abbrev pub init_cpsr_svc : ℕ
init_cpsr_svc = 0x4000_0013

abbrev pub set_tcb : ℕ → Tcb → Kernel → Kernel
set_tcb t v k = record k { sched = record k.sched { tcbs = update k.sched.tcbs t v } }

abbrev pub k_alloc_k_stack : Image → (tid : ℕ) → ℕ
k_alloc_k_stack image tid = add32 image.g_k_stacks ((tid + 1) * stack_size)

-- The id of the current task owns the stack.
unfoldable pub k_alloc_p_stack : (tid : ℕ) → Kernel → Option (ℕ × Kernel)
k_alloc_p_stack tid k =
    elim (k_mem_alloc (k.sched.tcbs k.sched.current).tid (k.sched.tcbs tid).u_stack_size k.mem) [
      | none ↦ none
      | some (p, m) ↦
          some (
            p,
            set_tcb tid (record (k.sched.tcbs tid) { u_stack_start = p }) (record k { mem = m }),
          )
    ]

-- `*(--sp) = w` for each of the words.
abbrev pub push_all : List ℕ → (sp : ℕ) → (ℕ → ℕ) → ℕ × (ℕ → ℕ)
push_all [] sp stack = (sp, stack)
push_all (w ∷ ws) sp stack = push_all ws (sub32 sp 4) (update stack (sub32 sp 4) w)

abbrev pub zeros : ℕ → List ℕ
zeros zero = []
zeros (suc n) = 0 ∷ zeros n

-- `if ((U32)sp & 0x04) sp--`.
abbrev pub align_sp : ℕ → ℕ
align_sp sp = if (sp / 4) % 2 == 1 then sub32 sp 4 else sp

-- The context that the task enters with in user mode: `sp` once it is stacked.
unfoldable pub user_context : TaskInfo → (tcb tid sp : ℕ) → Kernel → Option (ℕ × Kernel)
user_context info tcb tid sp k =
    let (sp1, stack1) = push_all (init_cpsr_user ∷ info.ptask ∷ []) sp k.stack in
    let k1 =
      set_tcb tcb (record (k.sched.tcbs tcb) { u_stack_size = info.u_stack_size })
        (record k { stack = stack1 }) in
    elim (k_alloc_p_stack tid k1) [
      | none ↦ none
      | some (p, k2) ↦
          let (sp2, stack2) = push_all (p ∷ zeros 13) sp1 k2.stack in
          some (sp2, record k2 { stack = stack2 })
    ]

-- Where the task goes on when it leaves the kernel for the first time.
unfoldable pub link : Image → TaskInfo → ℕ
link image info = if info.priv == 0 then image.svc_restore else info.ptask

-- The context in the kernel, and the fields of the TCB that are set last.
unfoldable pub kernel_context : Image → TaskInfo → (tcb sp : ℕ) → Kernel → Kernel
kernel_context image info tcb sp k =
    let (sp1, stack1) = push_all (link image info ∷ zeros 13) sp k.stack in
    let (sp2, stack2) = push_all (init_cpsr_svc ∷ []) sp1 stack1 in
    set_tcb tcb
      (record (k.sched.tcbs tcb) { ksp = sp2; prio = info.prio; priv = info.priv; mailbox = 0 })
      (record k { stack = stack2 })

-- NULL arguments are `none`.
unfoldable pub k_tsk_create_new :
    Image
    → (p_taskinfo : Option TaskInfo) (p_tcb : Option ℕ) (tid : ℕ) → Kernel
    → Option (Rtx × Kernel)
k_tsk_create_new image none p_tcb tid k = some (rtx_err, k)
k_tsk_create_new image (some info) none tid k = some (rtx_err, k)
k_tsk_create_new image (some info) (some tcb) tid k =
    let k1 = set_tcb tcb (record (k.sched.tcbs tcb) { tid = tid; state = ready }) k in
    let sp = align_sp (k_alloc_k_stack image tid) in
    if info.priv == 0
    then (elim (user_context info tcb tid sp k1) [
      | none ↦ none
      | some (sp1, k2) ↦ some (rtx_ok, kernel_context image info tcb sp1 k2)
    ])
    else some (rtx_ok, kernel_context image info tcb sp k1)

-- The id for a task: the KCD has its own.
unfoldable pub choose_tid : Image → (task_entry : ℕ) → Kernel → ℕ × Kernel
choose_tid image task_entry k =
    if task_entry == image.kcd_task
    then (tid_kcd, k)
    else (let (tid, q) = get_next_tid k.tids in (tid, record k { tids = q }))

-- The tests of `k_tsk_create`, where `null_task` says that there is no place for the id.
abbrev pub create_refused : (null_task : Bool) (task_entry prio stack : ℕ) → Kernel → Bool
create_refused null_task task_entry prio stack k =
    prio == prio_null
    || prio == 0
    || null_task
    || task_entry == 0
    || leb max_tasks k.num_active_tasks
    || ltb stack stack_size

-- The task description that `k_tsk_create` passes on; the fields it leaves unset are not read.
abbrev pub create_info : (task_entry prio stack tid : ℕ) → TaskInfo
create_info task_entry prio stack tid = record {
  ptask = task_entry;
  k_stack_hi = 0;
  u_stack_hi = 0;
  k_stack_size = 0;
  u_stack_size = stack;
  tid = tid;
  prio = prio;
  state = dormant;
  priv = 0;
}

-- The TCB as it is before the task is made ready.
unfoldable pub create_task : Image → (task_entry prio stack : ℕ) → Kernel → Option (ℕ × Kernel)
create_task image task_entry prio stack k =
    let (tid, k1) = choose_tid image task_entry k in
    elim (k_tsk_create_new image (some (create_info task_entry prio stack tid)) (some tid) tid k1) [
      | none ↦ none
      | some (r, k2) ↦ some (
        tid,
        set_tcb tid (record (k2.sched.tcbs tid) { u_stack_size = stack; task_entry = task_entry })
            k2,
      )
    ]

-- The id is what is written through `task`.
unfoldable pub k_tsk_create :
    Image
    → (null_task : Bool) (task_entry prio stack : ℕ) → Kernel
    → Option (Rtx × Option ℕ × Kernel)
k_tsk_create image null_task task_entry prio stack k =
    if create_refused null_task task_entry prio stack k
    then some (rtx_err, none, k)
    else (elim (create_task image task_entry prio stack k) [
      | none ↦ none
      | some (tid, k1) ↦ some (
        rtx_ok,
        some tid,
        record k1 { sched = (k_tsk_run_new (insert_into_tasks tid k1.sched)).1 },
      )
    ])

-- The last part of `k_tsk_exit`, once the memory of the task has been given back.
unfoldable pub leave : Kernel → Kernel
leave k =
    let s = set_state k.sched.current dormant k.sched in
    let tid = (s.tcbs s.current).tid in
    record k {
      sched = (k_tsk_run_new s).1;
      tids = if tid == tid_kcd then k.tids else add_tid tid k.tids;
      num_active_tasks = sub32 k.num_active_tasks 1;
    }

-- What an exiting task gives back: its mailbox, with the messages, and the stack of a user task.
unfoldable pub release : Kernel → Option Mem
release k =
    let t = k.sched.tcbs k.sched.current in
    let freed = if t.mailbox == 0 then some k.mem else free_mailbox t.mailbox k.store k.mem in
    elim freed [
      | none ↦ none
      | some m ↦
          if t.priv == 0
          then (elim (k_mem_dealloc true t.tid t.u_stack_start m) [
            | none ↦ none
            | some (r, m') ↦ some m'
          ])
          else some m
    ]

unfoldable pub k_tsk_exit : Kernel → Option Kernel
k_tsk_exit k = elim (release k) [ none ↦ none | some m ↦ some (leave (record k { mem = m })) ]

-- A NULL buffer is refused; `none` stands for RTX_ERR.
unfoldable pub k_tsk_get_info : (null_buffer : Bool) (task_id : ℕ) → Sched → Option TaskInfo
k_tsk_get_info null_buffer task_id s =
    let t = s.tcbs task_id in
    if null_buffer
    then none
    else some record {
      ptask = t.task_entry;
      k_stack_hi = t.ksp;
      u_stack_hi = add32 t.u_stack_start (4 * t.u_stack_size);
      k_stack_size = stack_size;
      u_stack_size = t.u_stack_size;
      tid = t.tid;
      prio = t.prio;
      state = t.state;
      priv = t.priv;
    }

-- The ids that are free at boot: all but those of the null task and the KCD.
abbrev pub add_tids : (rounds i : ℕ) → TidQueue → TidQueue
add_tids zero i q = q
add_tids (suc rounds) i q = add_tids rounds (i + 1) (if i == tid_kcd then q else add_tid i q)

-- The null task.
abbrev pub first_task : Kernel → Kernel
first_task k =
    let s = k.sched in
    record k {
      sched = record s {
        tcbs =
            update s.tcbs 0
              (record (s.tcbs 0) { prio = prio_null; priv = 1; tid = tid_null; state = running });
        started = true;
        current = 0;
      };
      num_active_tasks = 1;
    }

unfoldable pub init_tasks : Image → List TaskInfo → Kernel → Option Kernel
init_tasks image [] k = some k
init_tasks image (info ∷ infos) k =
    let (tid, k1) = choose_tid image info.ptask k in
    elim (k_tsk_create_new image (some info) (some tid) tid k1) [
      | none ↦ none
      | some (rtx_ok, k2) ↦ init_tasks image infos (record k2 {
        num_active_tasks = add32 k2.num_active_tasks 1;
        sched = insert_into_tasks tid k2.sched;
      })
      | some (rtx_err, k2) ↦ init_tasks image infos k2
    ]

-- `num_tasks` is the length of the list.
unfoldable pub k_tsk_init : Image → (num_tasks : ℕ) → List TaskInfo → Kernel → Option (Rtx × Kernel)
k_tsk_init image num_tasks infos k =
    let k1 = record k {
      tids = add_tids 159 1 k.tids;
      sched = initialize_priority_array k.sched;
      num_active_tasks = 0;
    } in
    if ltb max_tasks num_tasks
    then some (rtx_err, k1)
    else (elim (init_tasks image infos (first_task k1)) [
      | none ↦ none
      | some k2 ↦ some (rtx_ok, k2)
    ])
