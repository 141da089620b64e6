-- ===== src/Mem/Heap/Tests.antt =====
-- A program of two tasks on the sample memory.
use preemptive_multi_tasked.Prelude.{◌≡◌, refl, inl, inr, [], ◌∷◌, some, arith}
use preemptive_multi_tasked.Mem.{Mem, Rtx, rtx_err}
use preemptive_multi_tasked.Mem.Blocks.{block}
use preemptive_multi_tasked.Mem.Heap.{Heap, IsHeap, held}
use preemptive_multi_tasked.Mem.Heap.Client.{Prog, ret, alloc, free, run, heap_run, run-Simulates}
use preemptive_multi_tasked.Samples.{two_free, two_blocks, two_free-Holds}

-- Task 7 holds the block at 6000.
abbrev two_heap : Heap
two_heap = record { free = two_blocks; used = held 7 (block 6000 40) ∷ [] }

two_free-IsHeap : IsHeap two_free two_heap
two_free-IsHeap = record {
  holds = two_free-Holds;
  each = (
    record {
      valid = record { size = refl; aligned = refl; room = omega arith; inside = omega arith };
      owner = refl;
      low = omega arith;
      clear = (inr (omega arith), (inl (omega arith), tt));
    },
    tt,
  );
  sparse = (tt, tt);
}

-- Task 1 allocates, task 2 may not free the block, and task 7 frees its own.
abbrev three_calls : Prog Rtx
three_calls = alloc 1 61 (λ p. free 2 p (λ r. free 7 6016 (λ s. ret r)))

run-Simulates_example :
    (m' : Mem) × (run three_calls two_free ≡ some (rtx_err, m'))
    × IsHeap m'
        (record { free = block 6000 40 ∷ block 8192 128 ∷ []; used = held 1 (block 4096 64) ∷ [] })
unfolding heap_run
run-Simulates_example = run-Simulates three_calls two_free two_heap two_free-IsHeap
