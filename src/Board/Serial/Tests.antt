-- ===== src/Board/Serial/Tests.antt =====
-- UART0 is busy for four reads.
use preemptive_multi_tasked.Prelude.{ℕ, ◌≡◌, [], ◌∷◌, some, if◌then◌else◌, ltb, arith}
use preemptive_multi_tasked.Board.Serial.{Port, ser_put_str}
use preemptive_multi_tasked.Board.Serial.Sends.{Sent, ser_put_str-Sent}

abbrev busy : ℕ → ℕ
busy i = if ltb i 4 then 32 else 96

abbrev unused : Port
unused = record { reads = 0; sent = λ _. [] }

ser_put_str-Sent_example :
    (p' : Port) × (ser_put_str busy 5 1 (some (72 ∷ 105 ∷ [])) unused ≡ some (0, p'))
    × Sent busy 1 (72 ∷ 105 ∷ []) unused p'
ser_put_str-Sent_example =
    ser_put_str-Sent busy 1 5 (72 ∷ 105 ∷ []) unused (omega arith)
      (λ i. (4, omega arith, λ j low high. (ground (arith, low), ground (arith, low))))
      (omega arith, (omega arith, tt))
