-- ===== src/Board/Timer.antt =====
-- RTX/src/board/DE1_SoC_A9/timer.c: the two HPS timers, numbers 0 and 1, and the A9 private timer,
-- number 2. The registers are words; reading `eoi` has no effect on them.
use preemptive_multi_tasked.Prelude.{
  ℕ, zero, suc, ◌+◌, ◌-◌, ◌*◌, ◌/◌, ◌%◌, ◌<◌, ◌≡◌, ltb, leb, ◌==◌, if◌then◌else◌, update, arith,
}
use preemptive_multi_tasked.Board.Bits.{clear_bit, set_bit}

pub record HpsTimer : Type 0 where
  pub loadcount : ℕ
  pub currentval : ℕ
  pub controlreg : ℕ
  pub eoi : ℕ
  pub intstat : ℕ

pub record ArmTimer : Type 0 where
  pub loadcount : ℕ
  pub currentval : ℕ
  pub controlreg : ℕ
  pub intstat : ℕ

pub record Timers : Type 0 where
  pub hps : ℕ → HpsTimer
  pub arm : ArmTimer

abbrev pub set_control : (n v : ℕ) → Timers → Timers
set_control n v ts = record ts { hps = update ts.hps n (record (ts.hps n) { controlreg = v }) }

abbrev pub set_arm_control : (v : ℕ) → Timers → Timers
set_arm_control v ts = record ts { arm = record ts.arm { controlreg = v } }

-- `f` on the control register of the timer `n`.
abbrev pub on_control : (f : ℕ → ℕ) (n : ℕ) → Timers → Timers
on_control f n ts =
    if leb n 1
    then set_control n (f (ts.hps n).controlreg) ts
    else if n == 2
    then set_arm_control (f ts.arm.controlreg) ts
    else ts

unfoldable pub timer_disable : (n : ℕ) → Timers → Timers
timer_disable n ts = on_control (clear_bit 1) n ts

unfoldable pub timer_enable : (n : ℕ) → Timers → Timers
timer_enable n ts = on_control (set_bit 1) n ts

unfoldable pub timer_set_mode : (n mode : ℕ) → Timers → Timers
timer_set_mode n mode ts =
    if mode == 0
    then on_control (clear_bit 2) n ts
    else if mode == 1
    then on_control (set_bit 2) n ts
    else ts

unfoldable pub timer_set_count : (n count : ℕ) → Timers → Timers
timer_set_count n count ts =
    if leb n 1
    then record ts { hps = update ts.hps n (record (ts.hps n) { loadcount = count }) }
    else if n == 2
    then record ts { arm = record ts.arm { loadcount = count } }
    else ts

unfoldable pub timer_clear_irq : (n : ℕ) → Timers → Timers
timer_clear_irq n ts = if n == 2 then record ts { arm = record ts.arm { intstat = 1 } } else ts

unfoldable pub timer_get_current_val : (n : ℕ) → Timers → ℕ
timer_get_current_val n ts =
    if leb n 1 then (ts.hps n).currentval else if n == 2 then ts.arm.currentval else 0

unfoldable pub hps_timer_set_irq_mask : (n irq_mask : ℕ) → Timers → Timers
hps_timer_set_irq_mask n irq_mask ts =
    if leb n 1
    then (if irq_mask == 0
        then set_control n (clear_bit 4 (ts.hps n).controlreg) ts
        else if irq_mask == 1
        then set_control n (set_bit 4 (ts.hps n).controlreg) ts
        else ts)
    else ts

unfoldable pub a9_timer_set_irq_bit : (n irq_bit : ℕ) → Timers → Timers
a9_timer_set_irq_bit n irq_bit ts =
    if n == 2
    then (if irq_bit == 0
        then set_arm_control (clear_bit 4 ts.arm.controlreg) ts
        else if irq_bit == 1
        then set_arm_control (set_bit 4 ts.arm.controlreg) ts
        else ts)
    else ts

unfoldable pub a9_timer_set_prescaler : (prescaler : ℕ) → Timers → Timers
a9_timer_set_prescaler prescaler ts = set_arm_control (prescaler * 256 + ts.arm.controlreg % 16) ts

unfoldable pub config_hps_timer : (n count mode irq_mask : ℕ) → Timers → Timers
config_hps_timer n count mode irq_mask ts =
    if ltb n 2
    then timer_enable n (
        hps_timer_set_irq_mask n irq_mask
          (timer_set_mode n mode (timer_set_count n count (timer_disable n ts))))
    else ts

unfoldable pub config_a9_timer : (count mode irq_bit prescaler : ℕ) → Timers → Timers
config_a9_timer count mode irq_bit prescaler ts = timer_enable 2 (
    a9_timer_set_prescaler prescaler (
      a9_timer_set_irq_bit 2 irq_bit
        (timer_set_mode 2 mode (timer_set_count 2 count (timer_disable 2 ts)))))

-- `config_hps_timer` on timer 0 or 1, with a mode and a mask of 0 or 1, loads the count, sets the
-- control bits to enabled, the mode and the mask, keeps the bits above them, and touches neither
-- the other HPS timer nor the A9 timer.
pub config_hps_timer-control :
    (n count mode mask : ℕ) (ts : Timers)
    → n < 2
    → mode < 2
    → mask < 2
    → let ts' = config_hps_timer n count mode mask ts in
      ((ts'.hps n).loadcount ≡ count)
      × ((ts'.hps n).controlreg ≡ (ts.hps n).controlreg / 8 * 8 + mask * 4 + mode * 2 + 1)
      × (ts'.hps (1 - n) ≡ ts.hps (1 - n))
      × (ts'.arm ≡ ts.arm)
unfolding config_hps_timer timer_disable timer_enable timer_set_count timer_set_mode
    hps_timer_set_irq_mask
config_hps_timer-control zero count mode mask ts p q r = ground arith
config_hps_timer-control (suc zero) count mode mask ts p q r = ground arith
config_hps_timer-control (suc (suc n)) count mode mask ts p q r = ground arith

-- `config_a9_timer`, with a mode and an interrupt bit of 0 or 1, loads the count, sets the control
-- bits to enabled, the mode, the interrupt bit and the prescaler, keeps bit 3, clears those between
-- it and the prescaler, and touches no HPS timer.
pub config_a9_timer-control :
    (count mode irq_bit prescaler : ℕ) (ts : Timers)
    → mode < 2
    → irq_bit < 2
    → let ts' = config_a9_timer count mode irq_bit prescaler ts in
      (ts'.arm.loadcount ≡ count)
      × (ts'.arm.controlreg
          ≡ prescaler * 256 + ts.arm.controlreg % 16 / 8 * 8 + irq_bit * 4 + mode * 2 + 1)
      × (ts'.hps ≡ ts.hps)
unfolding config_a9_timer timer_disable timer_enable timer_set_count timer_set_mode
    a9_timer_set_irq_bit a9_timer_set_prescaler
config_a9_timer-control count mode irq_bit prescaler ts q r = ground arith
