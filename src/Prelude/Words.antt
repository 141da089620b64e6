-- ===== src/Prelude/Words.antt =====
-- 32-bit unsigned words: every number stands for a bit pattern below 2 ^ 32, and sums and
-- differences wrap. A C `int` is its bit pattern too.
use Prim.Native.Nat.{ℕ, ◌+◌, ◌-◌, ◌^◌, ◌%◌}

abbrev pub add32 : ℕ → ℕ → ℕ
add32 a b = (a + b) % 2 ^ 32

-- `-` stops at 0, so the modulus is added first.
abbrev pub sub32 : ℕ → ℕ → ℕ
sub32 a b = (a + 2 ^ 32 - b) % 2 ^ 32
