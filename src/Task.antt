-- ===== src/Task.antt =====
-- RTX/src/kernel/k_task.c: the pool of task ids, the ready queues and the scheduler. A pointer into
-- `g_tcbs` is its index, and the `next` fields of all TCBs are one function. The stacks, which
-- `k_tsk_switch` exchanges, are not part of the state: `current` is the task that runs.
pub mod Tids
pub mod Ready
pub mod Retrieve
pub mod Schedule
pub mod Steady
pub mod Keep
pub mod Prio
pub mod Yield
pub mod Rounds
pub mod Wake
pub mod Blocked
pub mod Steps
mod Tests
use preemptive_multi_tasked.Prelude.{
  ℕ, zero, suc, ◌+◌, ◌-◌, Bool, true, false, not, ◌&&◌, ◌||◌, Option, none, some, ltb, leb, ◌==◌,
  if◌then◌else◌, update,
}
use preemptive_multi_tasked.Mem.{Rtx, rtx_ok, rtx_err}
use preemptive_multi_tasked.Fifo.{LinkedList, Next, no_nodes, enqueue, dequeue, remove_node}

abbrev pub max_tasks : ℕ
max_tasks = 160

abbrev pub tid_null : ℕ
tid_null = 0

abbrev pub tid_kcd : ℕ
tid_kcd = 159

abbrev pub prio_null : ℕ
prio_null = 255

pub data TaskState : Type 0 where
  dormant ready running blk_msg suspended : TaskState

pub record Tcb : Type 0 where
  pub ksp : ℕ
  pub u_stack_size : ℕ
  pub task_entry : ℕ
  pub u_stack_start : ℕ
  pub tid : ℕ
  pub prio : ℕ
  pub state : TaskState
  pub priv : ℕ
  pub mailbox : ℕ

-- `started` says that `gp_current_task` is not NULL; it is then the TCB at `current`.
pub record Sched : Type 0 where
  pub tcbs : ℕ → Tcb
  pub next : Next
  pub tasks : ℕ → LinkedList
  pub highest_priority : ℕ
  pub yield_flag : Bool
  pub started : Bool
  pub current : ℕ

-- What becomes of a call: it returns, or it follows a NULL pointer, or a loop has not ended.
pub data Run {ℓ} (A : Type ℓ) : Type ℓ where
  returns : A → Run A
  null_deref : Run A
  runs_on : Run A

abbrev pub set_state : ℕ → TaskState → Sched → Sched
set_state t v s = record s { tcbs = update s.tcbs t (record (s.tcbs t) { state = v }) }

abbrev pub set_prio : ℕ → ℕ → Sched → Sched
set_prio t v s = record s { tcbs = update s.tcbs t (record (s.tcbs t) { prio = v }) }

unfoldable pub update_highest_priority : (new_priority : ℕ) → Sched → Sched
update_highest_priority new_priority s =
    if ltb new_priority s.highest_priority then record s { highest_priority = new_priority } else s

unfoldable pub insert_into_tasks : (tcb : ℕ) → Sched → Sched
unfolding update_highest_priority
insert_into_tasks tcb s =
    let priority = (s.tcbs tcb).prio in
    let s1 = set_state tcb ready (update_highest_priority priority s) in
    let s2 = record s1 { next = update s1.next tcb none } in
    let (next', list) = enqueue (s2.tasks priority) tcb s2.next in
    record s2 { next = next'; tasks = update s2.tasks priority list }

unfoldable pub initialize_priority_array : Sched → Sched
initialize_priority_array s = record s {
  tasks = λ i. if leb i prio_null then no_nodes else s.tasks i;
}

abbrev pub has_head : LinkedList → Bool
has_head list = elim list.head [ none ↦ false | some _ ↦ true ]

-- The search of `retrieve_from_tasks` for the next list with a task, in the `rounds` lists from
-- `iter` on.
unfoldable pub next_priority : (rounds iter : ℕ) → (ℕ → LinkedList) → Option ℕ
next_priority zero iter tasks = none
next_priority (suc rounds) iter tasks =
    let later = next_priority rounds (iter + 1) tasks in
    if has_head (tasks iter) then some iter else later

unfoldable pub retrieve_from_tasks : Sched → Option ℕ × Sched
retrieve_from_tasks s =
    let (tcb, list) = dequeue (s.tasks s.highest_priority) s.next in
    let s1 = record s { tasks = update s.tasks s.highest_priority list } in
    if has_head list
    then (tcb, s1)
    else elim (next_priority (255 - s.highest_priority) (s.highest_priority + 1) s1.tasks) [
      | none ↦ (tcb, s1)
      | some iter ↦ (tcb, record s1 { highest_priority = iter })
    ]

-- `state == DORMANT || state == BLK_MSG`.
abbrev pub stopped : TaskState → Bool
stopped dormant = true
stopped blk_msg = true
stopped _ = false

-- The running task yields to its equals, or has less priority than a ready one.
abbrev pub gives_way : Sched → Bool
gives_way s =
    let prio = (s.tcbs s.current).prio in
    (s.yield_flag && prio == s.highest_priority) || ltb s.highest_priority prio

unfoldable pub scheduler : Sched → Option ℕ × Sched
scheduler s =
    if stopped (s.tcbs s.current).state
    then retrieve_from_tasks s
    else if gives_way s
    then (let (new_tcb, s1) = retrieve_from_tasks (record s { yield_flag = false }) in
        (new_tcb, insert_into_tasks s1.current s1))
    else (some s.current, s)

-- The states that a switch from `old` to `new` leaves behind.
unfoldable pub switch_to : (old new : ℕ) → Sched → Sched
switch_to old new s =
    let s1 = record s { current = new } in
    if new == old
    then s1
    else (let s2 = set_state new running s1 in
        if stopped (s2.tcbs old).state then s2 else set_state old ready s2)

-- Where the scheduler has no task to offer the caller goes on.
unfoldable pub k_tsk_run_new : Sched → Rtx × Sched
k_tsk_run_new s =
    if s.started
    then (let (chosen, s1) = scheduler s in
        elim chosen [
          | none ↦ (rtx_err, record s1 { current = s.current })
          | some new ↦ (rtx_ok, switch_to s.current new s1)
        ])
    else (rtx_err, record s { yield_flag = false })

unfoldable pub k_tsk_yield : Sched → Rtx × Sched
k_tsk_yield s = k_tsk_run_new (record s { yield_flag = true })

unfoldable pub k_tsk_get_tid : Sched → ℕ
k_tsk_get_tid s = (s.tcbs s.current).tid

-- The task leaves the queue of its priority and goes to the end of that of `prio`. It is looked up
-- by its id in the queue; where it is not there the code writes through a NULL pointer.
unfoldable pub requeue : (task_id prio : ℕ) → Sched → Run Sched
requeue task_id prio s =
    let old = (s.tcbs task_id).prio in
    elim (remove_node (λ t. (s.tcbs t).tid) max_tasks task_id (s.tasks old) s.next) [
      | none ↦ runs_on
      | some (none, next', list) ↦ null_deref
      | some (some task, next', list) ↦
          let s1 = record s { next = next'; tasks = update s.tasks old list } in
          returns (insert_into_tasks task (set_prio task prio s1))
    ]

-- The last part of `k_tsk_set_prio`, for a task that is not blocked and not the caller.
abbrev pub move_task : (task_id prio : ℕ) → Sched → Run (Rtx × Sched)
move_task task_id prio s = elim (requeue task_id prio s) [
  | returns s' ↦ returns (rtx_ok, (k_tsk_run_new s').1)
  | null_deref ↦ null_deref
  | runs_on ↦ runs_on
]

abbrev pub is_blocked : TaskState → Bool
is_blocked blk_msg = true
is_blocked _ = false

unfoldable pub k_tsk_set_prio : (task_id prio : ℕ) → Sched → Run (Rtx × Sched)
k_tsk_set_prio task_id prio s =
    let caller = s.tcbs s.current in
    let changed = s.tcbs task_id in
    if caller.priv == 0 && not (changed.priv == 0)
    then returns (rtx_err, s)
    else if task_id == tid_null
    then returns (rtx_err, s)
    else if not (ltb 0 prio && ltb prio 255)
    then returns (rtx_err, s)
    else if is_blocked changed.state
    then returns (rtx_ok, set_prio task_id prio s)
    else if caller.tid == task_id
    then (let s1 = set_prio s.current prio s in
        if leb s1.highest_priority prio
        then returns (rtx_ok, (k_tsk_yield s1).1)
        else returns (rtx_ok, update_highest_priority prio s1))
    else move_task task_id prio s
