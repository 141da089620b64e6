-- ===== src/Boot.antt =====
-- RTX/src/kernel/k_rtx_init.c: `k_rtx_init` sets up the drivers, the memory and the tasks.
pub mod Order
pub mod Insert
pub mod Tasks
pub mod Started
use preemptive_multi_tasked.Prelude.{ℕ, List, Option, none, some}
use preemptive_multi_tasked.Mem.{Rtx, rtx_ok, rtx_err, k_mem_init}
use preemptive_multi_tasked.Kernel.{Image, Kernel, TaskInfo, k_tsk_init}
use preemptive_multi_tasked.Board.Timer.{Timers, config_hps_timer, config_a9_timer}
use preemptive_multi_tasked.Board.Uart.{Uart, uart0_init}

pub record Machine : Type 0 where
  pub uart : Uart
  pub timers : Timers
  pub kernel : Kernel

-- The registers as the drivers leave them.
unfoldable pub init_drivers : Machine → Machine
init_drivers b = record b {
  uart = uart0_init b.uart;
  timers = config_a9_timer 0xffff_ffff 1 0 199 (config_hps_timer 0 10000 1 1 b.timers);
}

-- The end of the image is what the linker says.
unfoldable pub k_rtx_init :
    Image → (end_addr num_tasks : ℕ) → List TaskInfo → Machine → Option (Rtx × Machine)
k_rtx_init image end_addr num_tasks infos b =
    let b1 = init_drivers b in
    let (r, m) = k_mem_init end_addr b1.kernel.mem in
    let b2 = record b1 { kernel = record b1.kernel { mem = m } } in
    elim r [
      | rtx_err ↦ some (rtx_err, b2)
      | rtx_ok ↦ elim (k_tsk_init image num_tasks infos b2.kernel) [
        | none ↦ none
        | some (r', k) ↦ some (r', record b2 { kernel = k })
      ]
    ]
