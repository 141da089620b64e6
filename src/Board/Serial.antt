-- ===== src/Board/Serial.antt =====
-- The calls of RTX/src/board/DE1_SoC_A9/Serial.c that wait for a port. The registers change by
-- themselves: `bus i` is what the read of a register number `i` finds, counted over both ports.
pub mod Sends
mod Tests
use preemptive_multi_tasked.Prelude.{
  ℕ, zero, suc, ◌+◌, ◌*◌, ◌/◌, ◌%◌, Bool, true, false, ◌==◌, if◌then◌else◌, ltb, update, List, [],
  ◌∷◌, ◌++◌, Option, none, some,
}
use preemptive_multi_tasked.Board.Bits.{bit}

-- The number of reads so far, and what has been written to each port.
pub record Port : Type 0 where
  pub reads : ℕ
  pub sent : ℕ → List ℕ

-- A write to the data register of the port `n`.
abbrev pub write : (n c : ℕ) → Port → Port
write n c p = record p { sent = update p.sent n (p.sent n ++ c ∷ []) }

abbrev pub after : (rounds : ℕ) → Port → Port
after rounds p = record p { reads = p.reads + rounds }

module _ (bus : ℕ → ℕ) where
  -- The second test reads the register again. There is no result if `fuel` rounds are not enough.
  unfoldable pub uart0_put_char : (fuel c : ℕ) → Port → Option Port
  uart0_put_char zero c p = none
  uart0_put_char (suc fuel) c p = elim (bit 32 (bus p.reads) == 0) [
    | true ↦ uart0_put_char fuel c (after 1 p)
    | false ↦ elim (bit 64 (bus (p.reads + 1)) == 0) [
      | true ↦ uart0_put_char fuel c (after 2 p)
      | false ↦ some (write 1 c (after 2 p))
    ]
  ]

  -- The condition of the loop is `UARTLSR & (0x1 == 0)`, which reads the register and is never true.
  unfoldable pub uart0_get_char : Port → ℕ × Port
  uart0_get_char p = (bus (p.reads + 1) % 256, after 2 p)

  unfoldable pub jtag_uart_put_char : (fuel c : ℕ) → Port → Option Port
  jtag_uart_put_char zero c p = none
  jtag_uart_put_char (suc fuel) c p = elim (bus p.reads / 65536 % 65536 == 0) [
    | true ↦ jtag_uart_put_char fuel c (after 1 p)
    | false ↦ some (write 0 c (after 1 p))
  ]

  unfoldable pub jtag_uart_get_char : (fuel : ℕ) → Port → Option (ℕ × Port)
  jtag_uart_get_char zero p = none
  jtag_uart_get_char (suc fuel) p = elim (bit 32768 (bus p.reads) == 0) [
    | true ↦ jtag_uart_get_char fuel (after 1 p)
    | false ↦ some (bus p.reads % 256, after 1 p)
  ]

  unfoldable pub ser_put_char : (fuel n c : ℕ) → Port → Option Port
  ser_put_char fuel n c p =
      if n == 0
      then jtag_uart_put_char fuel c p
      else if n == 1
      then uart0_put_char fuel c p
      else some p

  unfoldable pub ser_get_char : (fuel n : ℕ) → Port → Option (ℕ × Port)
  ser_get_char fuel n p =
      if n == 0
      then jtag_uart_get_char fuel p
      else if n == 1
      then some (uart0_get_char p)
      else some (0, p)

  -- The loop of `SER_PutStr`; a string ends with its list or with the character 0.
  unfoldable pub put_str_loop : (fuel n : ℕ) (s : List ℕ) → Port → Option Port
  put_str_loop fuel n [] p = some p
  put_str_loop fuel n (c ∷ s) p = elim (c == 0) [
    | true ↦ some p
    | false ↦ elim (ser_put_char fuel n c p) [ none ↦ none | some p' ↦ put_str_loop fuel n s p' ]
  ]

  -- `none` for the string is NULL.
  unfoldable pub ser_put_str : (fuel n : ℕ) (s : Option (List ℕ)) → Port → Option (ℕ × Port)
  ser_put_str fuel n none p = some (1, p)
  ser_put_str fuel n (some s) p = elim (put_str_loop fuel n s p) [
    | none ↦ none
    | some p' ↦ some (0, p')
  ]

  -- What `printf` calls; `p` is NULL if `is_null`, and `message` is the text of the warning.
  unfoldable pub putc : (fuel : ℕ) (message : List ℕ) (is_null : Bool) (c : ℕ) → Port → Option Port
  putc fuel message false c p = elim (ser_put_str fuel 0 (some message) p) [
    | none ↦ none
    | some (r, p') ↦ some p'
  ]
  putc fuel message true c p = ser_put_char fuel 0 c p
