-- ===== src/Mem/Tests.antt =====
-- Runs of the memory manager of RTX/src/kernel/k_mem.c on a small memory.
use preemptive_multi_tasked.Prelude.{◌≡◌, refl, [], ◌∷◌, some, false, arith, ◌<◌, ◌+◌}
use preemptive_multi_tasked.Mem.{Mem, rtx_ok, k_mem_alloc, k_mem_dealloc, k_mem_count_extfrag}
use preemptive_multi_tasked.Mem.Blocks.{Block, block}
use preemptive_multi_tasked.Mem.Chain.{Holds}
use preemptive_multi_tasked.Mem.Dealloc.{IsBlock}
use preemptive_multi_tasked.Mem.GiveBack.{k_mem_dealloc-Releases}
use preemptive_multi_tasked.Mem.FirstFit.{k_mem_alloc-Allocates, k_mem_alloc_wraps}
use preemptive_multi_tasked.Mem.RoundTrip.{borrow, borrow-Holds}
use preemptive_multi_tasked.Samples.{two_free, two_blocks, two_free-Holds}
use preemptive_multi_tasked.Mem.Walks.{k_mem_count_extfrag-count}

abbrev lent : Block
lent = block 6000 40

lent-IsBlock : IsBlock two_free lent
lent-IsBlock = record { size = refl; aligned = refl; room = omega arith; inside = omega arith }

k_mem_alloc-Allocates_example :
    (m' : Mem) × (k_mem_alloc 5 61 two_free ≡ some (4096 + 16, m'))
    × Holds m' (block 8192 128 ∷ [])
    × ((m'.cell 4096).tid ≡ 5)
    × ((m'.cell 4096).size ≡ 64)
k_mem_alloc-Allocates_example =
    k_mem_alloc-Allocates 5 61 two_free two_blocks two_free-Holds (omega arith) (omega arith)

k_mem_dealloc-Releases_example :
    (m' : Mem) × (k_mem_dealloc false 7 6016 two_free ≡ some (rtx_ok, m'))
    × Holds m' (block 4096 64 ∷ block 6000 40 ∷ block 8192 128 ∷ [])
k_mem_dealloc-Releases_example =
    k_mem_dealloc-Releases false 7 two_free lent lent-IsBlock two_blocks two_free-Holds
      (ground arith) refl

borrow-Holds_example :
    (m' : Mem) × (borrow 5 100 two_free ≡ some (rtx_ok, m')) × Holds m' two_blocks
borrow-Holds_example =
    borrow-Holds 5 100 two_free two_blocks (block 4096 64 ∷ block 8312 8 ∷ []) (block 8192 104)
      two_free-Holds (omega arith) (omega arith) refl refl

k_mem_alloc_wraps_example :
    (m' : Mem) × (k_mem_alloc 5 0xffff_ffff two_free ≡ some (4096 + 16, m'))
    × ((m'.cell 4096).size < 24)
k_mem_alloc_wraps_example =
    k_mem_alloc_wraps 5 0xffff_ffff two_free (block 4096 64) (block 8192 128 ∷ []) two_free-Holds
      (omega arith) (omega arith)

k_mem_count_extfrag-count_example : k_mem_count_extfrag 100 two_free ≡ some 1
k_mem_count_extfrag-count_example = k_mem_count_extfrag-count 100 two_free two_blocks two_free-Holds
