-- ===== src/Trials/Tasks.antt =====
-- The tests of the task calls in RTX/src/app/ae_priv_tasks.c that judge what they see. What a test
-- prints of its checks is a list, `true` where it prints that it passes.
mod Tests
use preemptive_multi_tasked.Prelude.{
  ℕ, ◌*◌, ◌%◌, ◌^◌, ◌≡◌, ◌≢◌, refl, Bool, true, false, not, ◌&&◌, Option, none, some, List, [], ◌∷◌,
  ◌++◌, ◌==◌, arith, add32, length,
}
use preemptive_multi_tasked.Mem.{Rtx, rtx_ok, rtx_err, Mem, k_mem_alloc, k_mem_dealloc}
use preemptive_multi_tasked.Task.{
  Tcb, TaskState, dormant, ready, running, blk_msg, suspended, Sched, Run, returns, null_deref,
  runs_on, k_tsk_get_tid,
}
use preemptive_multi_tasked.Kernel.{
  Image, Kernel, TaskInfo, stack_size, create_refused, k_tsk_create, k_tsk_get_info,
}

abbrev failed : Rtx → Bool
failed rtx_ok = false
failed rtx_err = true

-- `others` is what the other tasks do until the tester runs again after the first call. A priority is
-- cut to eight bits.
unfoldable pub k_tsk_create_tester :
    Image → (utask1 : ℕ) (others : Kernel → Kernel) → Kernel → Option (List Bool × Kernel)
k_tsk_create_tester image utask1 others k = elim (k_tsk_create image false utask1 5 65535 k) [
  | none ↦ none
  | some (r1, tid1, k1) ↦ elim (k_tsk_create image false utask1 (256 % 2 ^ 8) 0x200 (others k1)) [
    | none ↦ none
    | some (r2, tid2, k2) ↦ elim (k_tsk_create image false 0 5 0x200 k2) [
      | none ↦ none
      | some (r3, tid3, k3) ↦ some (not (failed r1) ∷ failed r2 ∷ failed r3 ∷ [], k3)
    ]
  ]
]

-- The value of a state in the source.
abbrev state_code : TaskState → ℕ
state_code dormant = 0
state_code ready = 1
state_code running = 2
state_code blk_msg = 4
state_code suspended = 5

-- The checks of the buffer against a TCB.
unfoldable pub check_info : TaskInfo → Tcb → List Bool
check_info buf tcb =
    (buf.ptask == tcb.task_entry)
    ∷ (buf.k_stack_hi == tcb.ksp)
    ∷ (buf.u_stack_hi == add32 tcb.u_stack_start (4 * tcb.u_stack_size))
    ∷ (buf.k_stack_size == stack_size)
    ∷ (buf.u_stack_size == tcb.u_stack_size)
    ∷ (buf.tid == tcb.tid)
    ∷ (buf.prio == tcb.prio)
    ∷ (state_code buf.state == state_code tcb.state)
    ∷ (buf.priv == tcb.priv)
    ∷ []

abbrev pub info_size : ℕ
info_size = 32

-- The pointer to the buffer is itself at `address`, which is what the test gives back.
unfoldable pub k_tsk_get_info_tester : (address : ℕ) → Kernel → Run (List Bool × Kernel)
k_tsk_get_info_tester address k =
    let s = k.sched in
    let tid = (s.tcbs s.current).tid in
    elim (k_mem_alloc tid info_size k.mem) [
      | none ↦ runs_on
      | some (buf, m) ↦ elim (k_tsk_get_info (buf == 0) 1 s) [
        | none ↦ null_deref
        | some info1 ↦ elim (k_tsk_get_info (buf == 0) 2 s) [
          | none ↦ null_deref
          | some info2 ↦ elim (k_mem_dealloc false tid address m) [
            | none ↦ runs_on
            | some (r, m1) ↦
                returns (
                  check_info info1 (s.tcbs 1) ++ check_info info2 (s.tcbs 2),
                  record k { mem = m1 },
                )
          ]
        ]
      ]
    ]

unfoldable pub k_tsk_get_tid_tester : Sched → Bool
k_tsk_get_tid_tester s = (s.tcbs s.current).tid == k_tsk_get_tid s

abbrev pub all_pass : List Bool → Bool
all_pass [] = true
all_pass (b ∷ bs) = b && all_pass bs

k_tsk_create-refused :
    (image : Image) (task_entry prio stack : ℕ) (k : Kernel)
    → create_refused false task_entry prio stack k ≡ true
    → k_tsk_create image false task_entry prio stack k ≡ some (rtx_err, none, k)
unfolding k_tsk_create
k_tsk_create-refused image task_entry prio stack k e = rw e refl

-- Whatever the kernel and the result of its first call, if that returns, `k_tsk_create_tester` passes
-- its second and its third check: a priority of 256 is cut to that of real-time tasks and refused,
-- and so is a task without code, and the two calls change nothing.
pub k_tsk_create_tester-passes :
    (image : Image) (utask1 : ℕ) (others : Kernel → Kernel) (k k1 : Kernel) (r : Rtx)
    (tid : Option ℕ)
    → k_tsk_create image false utask1 5 65535 k ≡ some (r, tid, k1)
    → k_tsk_create_tester image utask1 others k
      ≡ some (not (failed r) ∷ true ∷ true ∷ [], others k1)
unfolding k_tsk_create_tester
k_tsk_create_tester-passes image utask1 others k k1 r tid e =
    let second = k_tsk_create-refused image utask1 0 0x200 (others k1) (ground arith) in
    let third = k_tsk_create-refused image 0 5 0x200 (others k1) (ground arith) in
    rw (k_tsk_create_tester, e, second, third) refl

check_info-passes :
    (task_id : ℕ) (s : Sched)
    → (info : TaskInfo) × (k_tsk_get_info false task_id s ≡ some info)
      × (all_pass (check_info info (s.tcbs task_id)) ≡ true)
unfolding k_tsk_get_info check_info
check_info-passes task_id s = (_, refl, ground arith)

all_pass-append :
    (bs cs : List Bool) → all_pass bs ≡ true → all_pass cs ≡ true → all_pass (bs ++ cs) ≡ true
all_pass-append [] cs h h1 = h1
all_pass-append (b ∷ bs) cs h h1 = ground (arith, all_pass-append bs cs, h, h1)

length-check_info : (i j : TaskInfo) (t u : Tcb) → length (check_info i t ++ check_info j u) ≡ 18
unfolding check_info
length-check_info i j t u = refl

k_tsk_get_info-task_1 :
    (s : Sched)
    → (info : TaskInfo) × (k_tsk_get_info false 1 s ≡ some info)
      × (info.u_stack_hi ≡ add32 (s.tcbs 1).u_stack_start (4 * (s.tcbs 1).u_stack_size))
unfolding k_tsk_get_info
k_tsk_get_info-task_1 s = (_, refl, refl)

-- If its buffer is allocated and its last call returns, `k_tsk_get_info_tester` makes eighteen checks
-- and passes all of them on every kernel, with the end of the user stack that it reads for task 1
-- taken, in 32 bits, to be four times the size of the stack in bytes behind its start.
pub k_tsk_get_info_tester-passes :
    (address buf : ℕ) (k : Kernel) (m m1 : Mem) (r : Rtx)
    → k_mem_alloc (k.sched.tcbs k.sched.current).tid 32 k.mem ≡ some (buf, m)
    → buf ≢ 0
    → k_mem_dealloc false (k.sched.tcbs k.sched.current).tid address m ≡ some (r, m1)
    → (checks : List Bool) × (k_tsk_get_info_tester address k
        ≡ returns (checks, record k { mem = m1 }))
      × (length checks ≡ 18)
      × (all_pass checks ≡ true)
      × ((info : TaskInfo) × (k_tsk_get_info false 1 k.sched ≡ some info)
          × (info.u_stack_hi
              ≡ add32 (k.sched.tcbs 1).u_stack_start (4 * (k.sched.tcbs 1).u_stack_size)))
unfolding k_tsk_get_info_tester
k_tsk_get_info_tester-passes address buf k m m1 r first n last =
    let (info1, e1, pass1) = check_info-passes 1 k.sched in
    let (info2, e2, pass2) = check_info-passes 2 k.sched in
    let some_buf : (buf == 0) ≡ false = ground arith in
    (
      check_info info1 (k.sched.tcbs 1) ++ check_info info2 (k.sched.tcbs 2),
      rw (k_tsk_get_info_tester, first, some_buf, e1, some_buf, e2, last) refl,
      length-check_info info1 info2 (k.sched.tcbs 1) (k.sched.tcbs 2),
      all_pass-append (check_info info1 (k.sched.tcbs 1)) _ pass1 pass2,
      k_tsk_get_info-task_1 k.sched,
    )
