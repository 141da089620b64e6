-- ===== src/App.antt =====
-- RTX/src/app/ae.c, which describes the tasks to boot for each TEST, and `main` of
-- RTX/src/kernel/main_svc_cw.c, which boots them.
pub mod Config
mod Tests
use preemptive_multi_tasked.Prelude.{
  ℕ, zero, suc, ◌+◌, Bool, true, false, ◌==◌, if◌then◌else◌, List, [], ◌∷◌, Option, none, some,
  update,
}
use preemptive_multi_tasked.Mem.{Rtx, rtx_ok, rtx_err}
use preemptive_multi_tasked.Task.{dormant}
use preemptive_multi_tasked.Kernel.{Image, TaskInfo}
use preemptive_multi_tasked.Boot.{Machine, k_rtx_init}

-- The value of TEST that the program is built with.
pub data Test : Type 0 where
  test0 test1 test2 test3 : Test

-- The addresses of the tasks other than the decoder.
pub record Entries : Type 0 where
  pub ktask1 : ℕ
  pub ktask2 : ℕ
  pub utask1 : ℕ
  pub utask2 : ℕ
  pub utask3 : ℕ
  pub msg_tsk1 : ℕ

abbrev pub boot_tasks : Test → ℕ
boot_tasks test0 = 3
boot_tasks test1 = 1
boot_tasks test2 = 4
boot_tasks test3 = 2

abbrev pub high_prio : ℕ
high_prio = 100

-- The fields that a task of the kernel and one of the user are given; the others stay.
abbrev pub kernel_task : (i ptask prio : ℕ) → (ℕ → TaskInfo) → ℕ → TaskInfo
kernel_task i ptask prio tasks =
    update tasks i (record (tasks i) { ptask = ptask; priv = 1; prio = prio; k_stack_size = 0x200 })

abbrev pub user_task : (i ptask prio : ℕ) → (ℕ → TaskInfo) → ℕ → TaskInfo
user_task i ptask prio tasks = update tasks i (record (tasks i) {
  ptask = ptask;
  priv = 0;
  prio = prio;
  k_stack_size = 0x200;
  u_stack_size = 0x200;
})

module _ (test : Test) (image : Image) (e : Entries) where
  abbrev set_tasks : Test → (ℕ → TaskInfo) → ℕ → TaskInfo
  set_tasks test0 tasks =
      user_task 2 e.utask2 100 (kernel_task 1 e.ktask2 100 (kernel_task 0 e.ktask1 100 tasks))
  set_tasks test1 tasks = user_task 0 e.utask1 high_prio tasks
  set_tasks test2 tasks =
      user_task 3 e.utask3 200
        (user_task 2 image.kcd_task 100 (user_task 1 e.utask2 175 (user_task 0 e.utask1 150 tasks)))
  set_tasks test3 tasks = user_task 1 image.kcd_task 100 (user_task 0 e.msg_tsk1 150 tasks)

  -- NULL is `none`.
  unfoldable pub ae_set_task_info : Option (ℕ → TaskInfo) → Option (ℕ → TaskInfo)
  ae_set_task_info none = none
  ae_set_task_info (some tasks) = some (set_tasks test tasks)

  -- `sched`, the only field that is written; DEFAULT is 0.
  unfoldable pub ae_set_sys_info : Option ℕ → Rtx × Option ℕ
  ae_set_sys_info none = (rtx_err, none)
  ae_set_sys_info (some sched) = (rtx_ok, some 0)

  unfoldable pub ae_init :
      (sys_info : Option ℕ) → Option (ℕ → TaskInfo) → Rtx × Option ℕ × Option (ℕ → TaskInfo)
  ae_init sys_info task_info =
      let (r, sys_info') = ae_set_sys_info sys_info in
      elim r [
        | rtx_err ↦ (rtx_err, sys_info', task_info)
        | rtx_ok ↦ (rtx_ok, sys_info', ae_set_task_info task_info)
      ]

  -- The array is static, so it starts with zeros.
  abbrev pub zero_info : ℕ → TaskInfo
  zero_info i = record {
    ptask = 0;
    k_stack_hi = 0;
    u_stack_hi = 0;
    k_stack_size = 0;
    u_stack_size = 0;
    tid = 0;
    prio = 0;
    state = dormant;
    priv = 0;
  }

  abbrev pub elements : (rounds i : ℕ) → (ℕ → TaskInfo) → List TaskInfo
  elements zero i tasks = []
  elements (suc rounds) i tasks = tasks i ∷ elements rounds (i + 1) tasks

  abbrev pub mode_svc : ℕ
  mode_svc = 0x13

  -- The machine when the null task starts to yield, or `none` in the inner option if `main` returns.
  -- The result of `k_rtx_init` is not looked at; `gp_current_task` is NULL while no task has started.
  unfoldable pub main : (end_addr mode : ℕ) → Machine → Option (Option Machine)
  main end_addr mode b =
      let (r, sys_info, task_info) = ae_init (some 0) (some zero_info) in
      let unset = record b {
        kernel = record b.kernel { sched = record b.kernel.sched { started = false } };
      } in
      elim r [
        | rtx_err ↦ some none
        | rtx_ok ↦ elim task_info [
          | none ↦ some none
          | some tasks ↦
              if mode == mode_svc
              then (elim (k_rtx_init image end_addr (boot_tasks test)
                  (elements (boot_tasks test) 0 tasks) unset) [
                    | none ↦ none
                    | some (r', b') ↦ some (some b')
                  ])
              else some (some b)
        ]
      ]
