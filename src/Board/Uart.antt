-- ===== src/Board/Uart.antt =====
-- The set-up of UART0 in RTX/src/board/DE1_SoC_A9/Serial.c, and what its interrupt handler asks. A
-- register is the word last written to it; the calls that wait for the port are in Serial.
use preemptive_multi_tasked.Prelude.{ℕ, ◌+◌, ◌-◌, ◌*◌, ◌/◌, ◌%◌, ◌≡◌, Bool, ◌==◌, arith}
use preemptive_multi_tasked.Board.Bits.{bit, clear_bit, set_bit}

pub record Uart : Type 0 where
  pub dr : ℕ
  pub ier_dlh : ℕ
  pub iir_fcr : ℕ
  pub lcr : ℕ
  pub lsr : ℕ
  pub srr : ℕ

abbrev pub uart0_clk : ℕ
uart0_clk = 100000000

unfoldable pub uart0_set_baud_rate : (baud_rate : ℕ) → Uart → Uart
uart0_set_baud_rate baud_rate u =
    let divisor = uart0_clk / (baud_rate * 16) in
    record u { dr = divisor; iir_fcr = divisor / 256; lcr = clear_bit 128 (set_bit 128 u.lcr) }

unfoldable pub uart0_init : Uart → Uart
uart0_init u =
    let u1 = record u { srr = 1; ier_dlh = set_bit 1 u.ier_dlh } in
    let u2 = uart0_set_baud_rate 115200 u1 in
    record u2 { lcr = set_bit 1 (set_bit 2 u2.lcr); iir_fcr = 7 }

-- A received character is what the interrupt is about.
unfoldable pub uart0_get_rx_irq_status : Uart → Bool
uart0_get_rx_irq_status u = u.iir_fcr % 16 == 4

unfoldable pub uart0_get_rx_data_status : Uart → ℕ
uart0_get_rx_data_status u = u.lsr % 2

unfoldable pub uart0_get_rx_data : Uart → ℕ
uart0_get_rx_data u = u.dr % 256

-- After `UART0_Init` the divisor latch is closed, words have eight bits, the receive interrupt is
-- enabled, and the other bits of the line control register are as they were.
pub uart0_init-lcr :
    (u : Uart)
    → ((uart0_init u).lcr ≡ u.lcr - bit 128 u.lcr * 128 - u.lcr % 4 + 3)
      × (bit 1 (uart0_init u).ier_dlh ≡ 1)
      × ((uart0_init u).iir_fcr ≡ 7)
unfolding uart0_init uart0_set_baud_rate
uart0_init-lcr u = ground arith
