-- ===== src/Irq/Ticks.antt =====
-- The interrupts of the timers, and those that nobody expects.
use preemptive_multi_tasked.Prelude.{
  ℕ, ◌≡◌, Bool, true, false, List, [], ◌∷◌, ◌++◌, ltb, ◌==◌, ◌&&◌, ◌||◌, if◌then◌else◌, arith,
  sub32, ◌/◌,
}
use mathlib.Core.List.{append-nil}
use preemptive_multi_tasked.Board.Timer.{timer_clear_irq}
use preemptive_multi_tasked.Board.Uart.{Uart, uart0_get_rx_irq_status}
use preemptive_multi_tasked.Irq.{
  System, ends, Report, passed, unrecognized, error_type, c_irq_handler, end_irq, tick, report,
}

-- The interrupt is not about a received character.
abbrev pub no_key : System → Bool
no_key sys =
    if sys.gic.iar == 194 then (if uart0_get_rx_irq_status sys.uart then false else true) else true

-- The microseconds since the last report, on a timer that counts down.
abbrev pub elapsed : System → ℕ
elapsed sys = sub32 sys.a9_timer_last sys.timers.arm.currentval

-- What an interrupt other than that of a received character writes.
abbrev pub reported : System → List Report
reported sys =
    if sys.gic.iar == 194
    then error_type ∷ []
    else if sys.gic.iar == 199
    then (if ltb 500000 (elapsed sys) then passed (elapsed sys / 1000) ∷ [] else [])
    else if sys.gic.iar == 200 || sys.gic.iar == 29
    then []
    else unrecognized ∷ []

-- What the handler does before its end.
served : System → System
served sys =
    let id = sys.gic.iar in
    if id == 194
    then report error_type sys
    else if id == 199
    then tick sys
    else if id == 200
    then record sys { timers = timer_clear_irq 1 sys.timers }
    else if id == 29
    then record sys { timers = timer_clear_irq 2 sys.timers }
    else report unrecognized sys

-- On an interrupt that is not about a received character the handler ends with the tasks, the
-- messages and the memory as they were, and the interrupt that was acknowledged as ended; the
-- interrupt of the A9 timer is cleared if it is that one; the time is reported once more than
-- 500000 microseconds have passed, counted modulo 2 ^ 32, and then the count starts anew.
pub c_irq_handler-no_key :
    (rounds : List Uart) (sys : System)
    → no_key sys ≡ true
    → (sys' : System) × (c_irq_handler rounds sys ≡ ends sys')
      × (sys'.post ≡ sys.post)
      × (sys'.gic ≡ record sys.gic { eoir = sys.gic.iar })
      × (sys'.timers.hps ≡ sys.timers.hps)
      × (sys'.timers.arm.intstat ≡ (if sys.gic.iar == 29 then 1 else sys.timers.arm.intstat))
      × (sys'.reports ≡ sys.reports ++ reported sys)
      × (sys'.a9_timer_last ≡ (
          if sys.gic.iar == 199 && ltb 500000 (elapsed sys)
          then sys.timers.arm.currentval
          else sys.a9_timer_last))
unfolding c_irq_handler end_irq tick served
c_irq_handler-no_key rounds sys h = (
  end_irq sys.gic.iar false (served sys),
  ground arith,
  ground arith,
  ground arith,
  ground arith,
  ground arith,
  ground (arith, append-nil sys.reports),
  ground arith,
)
