-- ===== src/Trials/Tests.antt =====
-- The tests on a memory with one free block of 20000 bytes.
use preemptive_multi_tasked.Prelude.{◌≡◌, [], some, true, arith}
use preemptive_multi_tasked.Mem.{Mem}
use preemptive_multi_tasked.Mem.Heap.{IsHeap}
use preemptive_multi_tasked.Mem.Heap.Client.{run}
use preemptive_multi_tasked.Trials.{utask1}
use preemptive_multi_tasked.Trials.Runs.{one_free}
use preemptive_multi_tasked.Trials.Suite.{utask1-passes}

abbrev wide : Mem
wide = record { head = 4096; cell = λ _. record { size = 20000; next = 0; tid = 0; buf = 0 } }

wide-IsHeap : IsHeap wide (one_free 4096 20000 [])
wide-IsHeap = record {
  holds = record { chain = ground arith; laid = ground arith };
  each = tt;
  sparse = tt;
}

utask1-passes_example :
    (m' : Mem) × (run (utask1 3 (λ _. 0) (λ _. 0)) wide ≡ some (true, m'))
    × IsHeap m' (one_free 4096 20000 [])
utask1-passes_example =
    utask1-passes 3 4096 20000 [] wide wide-IsHeap (λ _. 0) (λ _. 0) (omega arith)
