-- ===== src/Msg/Copy.antt =====
-- `memcpy` on areas that do not overlap.
use preemptive_multi_tasked.Prelude.{
  ℕ, zero, suc, ◌+◌, ◌-◌, ◌≤◌, ◌≡◌, ◌⊎◌, arith, ltb, leb, ◌&&◌, if◌then◌else◌, update,
}
use preemptive_multi_tasked.Msg.{memcpy_loop, memcpy, load32}

memcpy_loop-bytes :
    (rounds i dest src a : ℕ) (bytes : ℕ → ℕ)
    → (dest + i + rounds ≤ src + i) ⊎ (src + i + rounds ≤ dest + i)
    → memcpy_loop rounds i dest src bytes a ≡ (
        if leb (dest + i) a && ltb a (dest + i + rounds) then bytes (src + (a - dest)) else bytes a)
unfolding memcpy_loop
memcpy_loop-bytes zero i dest src a bytes apart = ground arith
memcpy_loop-bytes (suc rounds) i dest src a bytes apart = ground (
  arith,
  memcpy_loop-bytes rounds (i + 1) dest src a (update bytes (dest + i) (bytes (src + i)))
      (omega arith),
)

-- `memcpy` between areas of `n` bytes that do not overlap: afterwards each byte of the destination
-- is that of the source, and every other byte of the memory is as it was.
pub memcpy-bytes :
    (dest src n a : ℕ) (bytes : ℕ → ℕ)
    → (dest + n ≤ src) ⊎ (src + n ≤ dest)
    → memcpy dest src n bytes a
      ≡ (if leb dest a && ltb a (dest + n) then bytes (src + (a - dest)) else bytes a)
unfolding memcpy
memcpy-bytes dest src n a bytes apart =
    ground (arith, memcpy_loop-bytes n 0 dest src a bytes (ground arith))

-- The message and its length stay readable where they were.
pub memcpy-load32 :
    (dest src n : ℕ) (bytes : ℕ → ℕ)
    → (dest + n ≤ src) ⊎ ((src + n ≤ dest) × (src + 4 ≤ dest))
    → load32 (memcpy dest src n bytes) src ≡ load32 bytes src
memcpy-load32 dest src n bytes apart =
    let whole : (dest + n ≤ src) ⊎ (src + n ≤ dest) = ground arith in
    ground (
      arith,
      memcpy-bytes dest src n src bytes whole,
      memcpy-bytes dest src n (src + 1) bytes whole,
      memcpy-bytes dest src n (src + 2) bytes whole,
      memcpy-bytes dest src n (src + 3) bytes whole,
    )
