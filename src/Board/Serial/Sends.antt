-- ===== src/Board/Serial/Sends.antt =====
-- What the waiting calls send over a port that becomes free.
use preemptive_multi_tasked.Prelude.{
  ℕ, zero, suc, ◌+◌, ◌-◌, ◌/◌, ◌%◌, ◌≡◌, ◌≢◌, ◌≤◌, ◌<◌, Bool-cases, inl, inr, refl, subst, ap, sym,
  ◌∙◌, true, false, ◌==◌, update, List, [], ◌∷◌, ◌++◌, Option, some, arith,
}
use mathlib.Core.List.{append-nil, append_assoc}
use preemptive_multi_tasked.Board.Bits.{bit}
use preemptive_multi_tasked.Board.Serial.{
  Port, write, after, uart0_put_char, jtag_uart_put_char, ser_put_char, put_str_loop, ser_put_str,
}

-- Bits 5 and 6 of the line status.
abbrev pub IsFree : ℕ → Type 0
IsFree v = (bit 32 v ≡ 1) × (bit 64 v ≡ 1)

-- No character is 0.
abbrev pub IsText : List ℕ → Type 0
IsText [] = Unit {0}
IsText (c ∷ s) = (c ≢ 0) × IsText s

updated :
    (f : ℕ → List ℕ) (n : ℕ) (v : List ℕ)
    → (update f n v n ≡ v) × ((q : ℕ) → q ≢ n → update f n v q ≡ f q)
updated f n v = (ground arith, λ q other. ground (arith, other))

module _ (bus : ℕ → ℕ) where
  -- From the read `i` on the port `n` is free at some read within `patience`, UART0 for three reads.
  abbrev pub Frees : (n patience i : ℕ) → Type 0
  Frees zero patience i = (k : ℕ) × (k < patience) × (bus (i + k) / 65536 % 65536 ≢ 0)
  Frees (suc n) patience i =
      (k : ℕ) × (k < patience) × ((j : ℕ) → i + k ≤ j → j ≤ i + k + 2 → IsFree (bus j))

  -- The character has been written once, and to no other port.
  abbrev pub Wrote : (n c : ℕ) → Port → Option Port → Type 0
  Wrote n c p result = (i : ℕ) × (result ≡ some (record (write n c p) { reads = i }))

  put-now :
      (fuel c : ℕ) (p : Port)
      → IsFree (bus p.reads)
      → IsFree (bus (p.reads + 1))
      → Wrote 1 c p (uart0_put_char bus (suc fuel) c p)
  unfolding uart0_put_char
  put-now fuel c p h h1 =
      let bit5 : (bit 32 (bus p.reads) == 0) ≡ false = ground (arith, h.0) in
      let bit6 : (bit 64 (bus (p.reads + 1)) == 0) ≡ false = ground (arith, h1.1) in
      (p.reads + 2, rw (uart0_put_char, bit5, bit6) refl)

  skip-one :
      (fuel c : ℕ) (p : Port)
      → (bit 32 (bus p.reads) == 0) ≡ true
      → uart0_put_char bus (suc fuel) c p ≡ uart0_put_char bus fuel c (after 1 p)
  unfolding uart0_put_char
  skip-one fuel c p h = rw (uart0_put_char, h) refl

  skip-two :
      (fuel c : ℕ) (p : Port)
      → (bit 32 (bus p.reads) == 0) ≡ false
      → (bit 64 (bus (p.reads + 1)) == 0) ≡ true
      → uart0_put_char bus (suc fuel) c p ≡ uart0_put_char bus fuel c (after 2 p)
  unfolding uart0_put_char
  skip-two fuel c p h h1 = rw (uart0_put_char, h, h1) refl

  found :
      (fuel c : ℕ) (p : Port)
      → (bit 32 (bus p.reads) == 0) ≡ false
      → (bit 64 (bus (p.reads + 1)) == 0) ≡ false
      → uart0_put_char bus (suc fuel) c p ≡ some (write 1 c (after 2 p))
  unfolding uart0_put_char
  found fuel c p h h1 = rw (uart0_put_char, h, h1) refl

  -- The port is free from the read `k` from here on up to the read `m`, which is far enough for the
  -- loop, which may pass the first of these reads.
  put-soon :
      (fuel k m c : ℕ) (p : Port)
      → k < fuel
      → p.reads + k < m
      → (1 ≤ k → p.reads + k + 1 < m)
      → ((i : ℕ) → p.reads + k ≤ i → i ≤ m → IsFree (bus i))
      → Wrote 1 c p (uart0_put_char bus fuel c p)
  put-soon zero k m c p h near far free = let never : ⊥ = omega (arith, h) in elim never [ ]
  put-soon (suc fuel) zero m c p h near far free =
      put-now fuel c p (free p.reads (omega arith) (omega (arith, near)))
        (free (p.reads + 1) (omega arith) (omega (arith, near)))
  put-soon (suc fuel) (suc k) m c p h near far free =
      let more : 1 ≤ suc k = omega arith in
      let room : p.reads + suc k + 1 < m = far more in
      elim (Bool-cases (bit 32 (bus p.reads) == 0)) [
        | inl skipped ↦ rw (skip-one fuel c p skipped) (
            put-soon fuel k m c (after 1 p) (omega (arith, h)) (omega (arith, near))
              (λ e. omega (arith, room)) (λ i low high. free i (omega (arith, low)) high))
        | inr bit5 ↦ elim (Bool-cases (bit 64 (bus (p.reads + 1)) == 0)) [
          | inl skipped ↦ rw (skip-two fuel c p bit5 skipped) (
              put-soon fuel (k - 1) m c (after 2 p) (omega (arith, h)) (omega (arith, room))
                (λ e. omega (arith, room, e)) (λ i low high. free i (omega (arith, low)) high))
          | inr bit6 ↦ (p.reads + 2, found fuel c p bit5 bit6)
        ]
      ]

  jtag-skip :
      (fuel c : ℕ) (p : Port)
      → (bus p.reads / 65536 % 65536 == 0) ≡ true
      → jtag_uart_put_char bus (suc fuel) c p ≡ jtag_uart_put_char bus fuel c (after 1 p)
  unfolding jtag_uart_put_char
  jtag-skip fuel c p h = rw (jtag_uart_put_char, h) refl

  jtag-found :
      (fuel c : ℕ) (p : Port)
      → (bus p.reads / 65536 % 65536 == 0) ≡ false
      → jtag_uart_put_char bus (suc fuel) c p ≡ some (write 0 c (after 1 p))
  unfolding jtag_uart_put_char
  jtag-found fuel c p h = rw (jtag_uart_put_char, h) refl

  jtag-soon :
      (fuel k c : ℕ) (p : Port)
      → k < fuel
      → bus (p.reads + k) / 65536 % 65536 ≢ 0
      → Wrote 0 c p (jtag_uart_put_char bus fuel c p)
  jtag-soon zero k c p h free = let never : ⊥ = omega (arith, h) in elim never [ ]
  jtag-soon (suc fuel) zero c p h free = (p.reads + 1, jtag-found fuel c p (ground (arith, free)))
  jtag-soon (suc fuel) (suc k) c p h free = elim (Bool-cases (bus p.reads / 65536 % 65536 == 0)) [
    | inl skipped ↦ rw (jtag-skip fuel c p skipped) (
        jtag-soon fuel k c (after 1 p) (omega (arith, h))
          (subst (λ i. bus i / 65536 % 65536 ≢ 0) (omega arith) free))
    | inr now ↦ (p.reads + 1, jtag-found fuel c p now)
  ]

  ser_put_char-Wrote :
      (n patience c : ℕ) (p : Port)
      → n < 2
      → Frees n patience p.reads
      → Wrote n c p (ser_put_char bus patience n c p)
  unfolding ser_put_char
  ser_put_char-Wrote zero patience c p h (k, soon, free) = jtag-soon patience k c p soon free
  ser_put_char-Wrote (suc zero) patience c p h (k, soon, free) =
      put-soon patience k (p.reads + k + 2) c p soon (omega arith) (λ e. omega arith) free
  ser_put_char-Wrote (suc (suc n)) patience c p h free =
      let never : ⊥ = omega (arith, h) in elim never [ ]

  -- The characters `s` have come behind those of the port `n`, and no other port has changed.
  abbrev pub Sent : (n : ℕ) (s : List ℕ) (p p' : Port) → Type 0
  Sent n s p p' = (p'.sent n ≡ p.sent n ++ s) × ((q : ℕ) → q ≢ n → p'.sent q ≡ p.sent q)

  put_str_loop-Sent :
      (n patience : ℕ) (s : List ℕ) (p : Port)
      → n < 2
      → ((i : ℕ) → Frees n patience i)
      → IsText s
      → (p' : Port) × (put_str_loop bus patience n s p ≡ some p') × Sent n s p p'
  unfolding put_str_loop
  put_str_loop-Sent n patience [] p h frees text =
      (p, refl, (sym (append-nil (p.sent n)), λ q other. refl))
  put_str_loop-Sent n patience (c ∷ s) p h frees text =
      let (i, wrote) = ser_put_char-Wrote n patience c p h (frees p.reads) in
      let (p', looped, (last, others)) =
        put_str_loop-Sent n patience s (record (write n c p) { reads = i }) h frees text.1 in
      let more : (c == 0) ≡ false = ground (arith, text.0) in
      (
        p',
        rw (put_str_loop, more, wrote) looped,
        (
          last
              ∙ ap (λ l. l ++ s) (updated p.sent n (p.sent n ++ c ∷ [])).0
              ∙ append_assoc (p.sent n) (c ∷ []) s,
          λ q other. others q other ∙ (updated p.sent n (p.sent n ++ c ∷ [])).1 q other,
        ),
      )

  -- On a port, JTAG or UART0, that becomes free within `patience` reads after any read, UART0 for three
  -- reads, `SER_PutStr` ends with 0 and has sent the characters of the string, in their order and once
  -- each, behind what was sent before, and nothing to the other port.
  pub ser_put_str-Sent :
      (n patience : ℕ) (s : List ℕ) (p : Port)
      → n < 2
      → ((i : ℕ) → Frees n patience i)
      → IsText s
      → (p' : Port) × (ser_put_str bus patience n (some s) p ≡ some (0, p')) × Sent n s p p'
  unfolding ser_put_str
  ser_put_str-Sent n patience s p h frees text =
      let (p', looped, sent) = put_str_loop-Sent n patience s p h frees text in
      (p', rw (ser_put_str, looped) refl, sent)
