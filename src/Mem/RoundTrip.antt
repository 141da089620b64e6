-- ===== src/Mem/RoundTrip.antt =====
-- `k_mem_alloc` followed by `k_mem_dealloc`.
use preemptive_multi_tasked.Prelude.{
  ℕ, ◌+◌, ◌^◌, ◌≤◌, ◌<◌, ◌≡◌, subst, List, arith, false, true, Option, none, some,
}
use preemptive_multi_tasked.Mem.{Mem, Rtx, rtx_ok, align, k_mem_alloc, k_mem_dealloc}
use preemptive_multi_tasked.Mem.Blocks.{
  Block, first_fit, first_fit-Outcome, Fit, Fit-fits, Fit-Fits, give-Fit,
}
use preemptive_multi_tasked.Mem.Chain.{Holds}
use preemptive_multi_tasked.Mem.FirstFit.{align_bounds, k_mem_alloc-Allocates}
use preemptive_multi_tasked.Mem.Dealloc.{IsBlock, reaches}
use preemptive_multi_tasked.Mem.GiveBack.{k_mem_dealloc-Releases}

-- The task `tid` asks for `size` bytes and gives them back at once.
abbrev pub borrow : (tid size : ℕ) → Mem → Option (Rtx × Mem)
borrow tid size m = elim (k_mem_alloc tid size m) [
  | none ↦ none
  | some (p, m') ↦ k_mem_dealloc false tid p m'
]

borrow-eq :
    (tid size p : ℕ) (m m' : Mem) (r : Option (Rtx × Mem))
    → k_mem_alloc tid size m ≡ some (p, m')
    → k_mem_dealloc false tid p m' ≡ r
    → borrow tid size m ≡ r
borrow-eq tid size p m m' r e f = rw (e, borrow) f

-- A task that is given a block of a memory with the free blocks `bs`, for a `size` from 1 to 2 ^ 32
-- - 8, and gives it back at once succeeds, and the memory holds `bs` again, if among the blocks
-- that stayed free one lies behind the block or ends where it starts.
pub borrow-Holds :
    (tid size : ℕ) (m : Mem) (bs left : List Block) (taken : Block)
    → Holds m bs
    → 0 < size
    → size + 8 ≤ 2 ^ 32
    → first_fit (align size) bs ≡ some (taken, left)
    → reaches taken left ≡ true
    → (m' : Mem) × (borrow tid size m ≡ some (rtx_ok, m')) × Holds m' bs
borrow-Holds tid size m bs left taken held pos w e r =
    let (lo, hi, al, top) = align_bounds size w in
    let f : Fit (align size) bs taken left = rw e at (first_fit-Outcome (align size) bs) in
    let (at_least, aligned, fits, tight, inside) =
      Fit-fits (align size) al (omega arith) 1 f held.laid in
    let (m1, e1, held1, owned, sized) = rw e at (k_mem_alloc-Allocates tid size m bs held pos w) in
    let valid : IsBlock m1 taken = record {
      size = sized;
      aligned = aligned;
      room = omega arith;
      inside = inside;
    } in
    let (m2, e2, held2) = rw r at (
      k_mem_dealloc-Releases false tid m1 taken valid left held1
        (Fit-Fits (align size) al (omega arith) 1 f held.laid) (ground arith)) in
    (
      m2,
      borrow-eq tid size (taken.addr + 16) m m1 _ e1 e2,
      subst (Holds m2) (give-Fit (align size) al (omega arith) 1 f held.laid) held2,
    )
