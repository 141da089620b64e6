-- ===== src/Printf/Tests.antt =====
-- Runs of RTX/src/board/DE1_SoC_A9/printf.c.
use preemptive_multi_tasked.Prelude.{ℕ, ◌≡◌, ◌≤◌, ◌^◌, true, some, List, [], ◌∷◌, arith, length}
use preemptive_multi_tasked.Printf.{i2a, word, text, tfp_format}
use preemptive_multi_tasked.Printf.Total.{has_ended, has_ended-tfp_format}
use preemptive_multi_tasked.Printf.Digits.{i2a-length}

i2a-length_example : (bf : List ℕ) × (i2a (2 ^ 31) ≡ some bf) × (length bf ≤ 11)
i2a-length_example = i2a-length (2 ^ 31) (omega arith)

-- The format `a%5d%s`.
has_ended-tfp_format_example :
    has_ended (tfp_format 7 (97 ∷ 37 ∷ 53 ∷ 100 ∷ 37 ∷ 115 ∷ []) (word 42 ∷ text (98 ∷ []) ∷ []))
    ≡ true
has_ended-tfp_format_example =
    has_ended-tfp_format 7 (97 ∷ 37 ∷ 53 ∷ 100 ∷ 37 ∷ 115 ∷ []) (word 42 ∷ text (98 ∷ []) ∷ [])
      (omega arith) (omega arith, tt)
