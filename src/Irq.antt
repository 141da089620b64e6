-- ===== src/Irq.antt =====
-- `c_IRQ_Handler` of RTX/src/kernel/HAL_CA.c. A key is sent to the command decoder as a message;
-- where that wakes the decoder, the stacks are exchanged inside `k_send_msg`, and the rest of the
-- handler runs when the interrupted task runs again.
pub mod Key
pub mod Lost
pub mod Ticks
mod Tests
use preemptive_multi_tasked.Prelude.{
  ℕ, ◌+◌, Bool, true, false, Option, none, some, List, [], ◌∷◌, ◌++◌, ltb, ◌==◌, if◌then◌else◌, ◌/◌,
  update, sub32,
}
use preemptive_multi_tasked.Mem.{k_mem_alloc, k_mem_dealloc}
use preemptive_multi_tasked.Task.{Run, returns, null_deref, runs_on, tid_kcd, k_tsk_run_new}
use preemptive_multi_tasked.Msg.{Post, k_send_msg}
use preemptive_multi_tasked.Kcd.{key_in, msg_hdr_size, store32}
use preemptive_multi_tasked.Board.Gic.{Gic, gic_ack_pending, gic_end_interrupt}
use preemptive_multi_tasked.Board.Timer.{Timers, timer_clear_irq, timer_get_current_val}
use preemptive_multi_tasked.Board.Uart.{
  Uart, uart0_get_rx_irq_status, uart0_get_rx_data_status, uart0_get_rx_data,
}

-- What is written to the serial ports.
pub data Report : Type 0 where
  echo : ℕ → Report
  error_type : Report
  passed : ℕ → Report
  unrecognized : Report

-- `a9_timer_last` is the static variable of the handler, and `reports` what has been written.
pub record System : Type 0 where
  pub post : Post
  pub gic : Gic
  pub timers : Timers
  pub uart : Uart
  pub a9_timer_last : ℕ
  pub reports : List Report

-- The handler ends; or `k_send_msg` has switched to another task, with the message at `ptr` to be
-- freed and the rounds on the registers `rest` to come; or it has followed a NULL pointer; or a
-- loop has not ended.
pub data Handled : Type 0 where
  ends : System → Handled
  switched : (ptr : ℕ) (rest : List Uart) → System → Handled
  faults : Handled
  unfinished : Handled

abbrev pub a9_timer_irq_id : ℕ
a9_timer_irq_id = 29

abbrev pub uart0_rx_irq_id : ℕ
uart0_rx_irq_id = 194

abbrev pub hps_timer0_irq_id : ℕ
hps_timer0_irq_id = 199

abbrev pub hps_timer1_irq_id : ℕ
hps_timer1_irq_id = 200

abbrev pub report : Report → System → System
report r sys = record sys { reports = sys.reports ++ r ∷ [] }

-- The message at `ptr` for the key `c`.
unfoldable pub key_message : (ptr c : ℕ) → (ℕ → ℕ) → ℕ → ℕ
key_message ptr c bytes =
    update (store32 (ptr + 4) key_in (store32 ptr (msg_hdr_size + 1) bytes)) (ptr + msg_hdr_size) c

-- The kernel when the message for `c` at `ptr` is about to be sent.
abbrev pub with_key : (ptr c : ℕ) → Post → Post
with_key ptr c k = record k {
  store = record k.store { bytes = key_message ptr c k.store.bytes };
  interrupt_flag = true;
}

-- A round of the loop up to the call of `k_send_msg`, whose result is ignored; `ptr` is returned.
unfoldable pub send_key : (c : ℕ) → System → Run (ℕ × System)
send_key c sys =
    let k = sys.post in
    elim (k_mem_alloc (k.sched.tcbs k.sched.current).tid (msg_hdr_size + 1) k.mem) [
      | none ↦ runs_on
      | some (ptr, m) ↦
          if ptr == 0
          then null_deref
          else (elim (k_send_msg tid_kcd ptr (with_key ptr c (record k { mem = m }))) [
            | returns (r, k') ↦ returns (ptr, report (echo c) (record sys { post = k' }))
            | null_deref ↦ null_deref
            | runs_on ↦ runs_on
          ])
    ]

-- The end of a round.
unfoldable pub free_key : (ptr : ℕ) → System → Option System
free_key ptr sys =
    let k = sys.post in
    elim (k_mem_dealloc false (k.sched.tcbs k.sched.current).tid ptr k.mem) [
      | none ↦ none
      | some (r, m) ↦ some (record sys { post = record k { mem = m } })
    ]

-- The loop over the received characters; the list has the registers of the port as each test of the
-- loop finds them.
unfoldable pub rx_loop : List Uart → System → Handled
rx_loop [] sys = unfinished
rx_loop (u ∷ us) sys = elim (uart0_get_rx_data_status u == 0) [
  | true ↦ ends sys
  | false ↦ elim (send_key (uart0_get_rx_data u) sys) [
    | null_deref ↦ faults
    | runs_on ↦ unfinished
    | returns (ptr, sys1) ↦ elim (sys1.post.sched.current == sys.post.sched.current) [
      | false ↦ switched ptr us sys1
      | true ↦ elim (free_key ptr sys1) [ none ↦ unfinished | some sys2 ↦ rx_loop us sys2 ]
    ]
  ]
]

-- The end of the handler.
unfoldable pub end_irq : (interrupt_id : ℕ) (switch_flag : Bool) → System → System
unfolding gic_end_interrupt
end_irq interrupt_id switch_flag sys =
    let sys1 = record sys { gic = gic_end_interrupt interrupt_id sys.gic } in
    if switch_flag
    then record sys1 { post = record sys1.post { sched = (k_tsk_run_new sys1.post.sched).1 } }
    else sys1

abbrev pub end_rx : Handled → Handled
end_rx (ends sys) = ends (end_irq uart0_rx_irq_id true sys)
end_rx (switched ptr rest sys) = switched ptr rest sys
end_rx faults = faults
end_rx unfinished = unfinished

-- The interrupt of HPS timer 0.
unfoldable pub tick : System → System
unfolding timer_clear_irq timer_get_current_val
tick sys =
    let ts = timer_clear_irq 0 sys.timers in
    let a9_timer_curr = timer_get_current_val 2 ts in
    let elapsed = sub32 sys.a9_timer_last a9_timer_curr in
    let sys1 = record sys { timers = ts } in
    if ltb 500000 elapsed
    then report (passed (elapsed / 1000)) (record sys1 { a9_timer_last = a9_timer_curr })
    else sys1

unfoldable pub c_irq_handler : (rounds : List Uart) → System → Handled
c_irq_handler rounds sys =
    let interrupt_id = gic_ack_pending sys.gic in
    if interrupt_id == uart0_rx_irq_id
    then (if uart0_get_rx_irq_status sys.uart
        then end_rx (rx_loop rounds sys)
        else ends (end_irq interrupt_id false (report error_type sys)))
    else if interrupt_id == hps_timer0_irq_id
    then ends (end_irq interrupt_id false (tick sys))
    else if interrupt_id == hps_timer1_irq_id
    then ends (end_irq interrupt_id false (record sys { timers = timer_clear_irq 1 sys.timers }))
    else if interrupt_id == a9_timer_irq_id
    then ends (end_irq interrupt_id false (record sys { timers = timer_clear_irq 2 sys.timers }))
    else ends (end_irq interrupt_id false (report unrecognized sys))

-- What the handler does when the interrupted task runs again.
unfoldable pub c_irq_resume : (ptr : ℕ) (rest : List Uart) → System → Handled
c_irq_resume ptr rest sys = elim (free_key ptr sys) [
  | none ↦ unfinished
  | some sys1 ↦ end_rx (rx_loop rest sys1)
]
