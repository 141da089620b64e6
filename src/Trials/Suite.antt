-- ===== src/Trials/Suite.antt =====
-- The tests of RTX/src/app on a memory with one free block.
use preemptive_multi_tasked.Prelude.{
  ℕ, ◌+◌, ◌-◌, ◌≤◌, ◌<◌, ◌^◌, ◌≡◌, ◌≢◌, ◌∙◌, List, [], ◌∷◌, some, true, arith, ◌%◌,
}
use preemptive_multi_tasked.Mem.{Mem}
use preemptive_multi_tasked.Mem.Heap.{Heap, Held, held, IsHeap}
use preemptive_multi_tasked.Mem.Blocks.{block}
use preemptive_multi_tasked.Mem.Heap.Client.{ret, run, heap_run, run-eq}
use preemptive_multi_tasked.Trials.Runs.{
  heap_run-bind, heap_run-count, heap_run-ret, one_free, heap,
}
use preemptive_multi_tasked.Trials.Passes.{
  is_size_larger_than_available-passes, test_first_fit-passes, test_size_zero-passes,
  align_check-passes, deallocate_invalid-passes, coalece_check-passes, task_dealloc_testers-passes,
}
use preemptive_multi_tasked.Trials.Coalescing.{test_coalescing_free_regions-passes}
use preemptive_multi_tasked.Trials.Leakage.{heap_leakage_test-passes}
use preemptive_multi_tasked.Trials.{
  code_success, is_size_larger_than_available, test_first_fit, test_size_zero, align_check,
  deallocate_invalid, coalece_check, heap_leakage_test, utask1, task_dealloc_testers,
  test_coalescing_free_regions, mem_count_extfrag,
}

module _ (tid a n : ℕ) (used : List Held) (m : Mem) (v : IsHeap m (one_free a n used)) where
  inside : (1 ≤ a) × (a % 8 ≡ 0) × (a + n < 2 ^ 30)
  inside = omega (arith, v.holds.laid)

  abbrev start : Heap
  start = one_free a n used

  counted : heap_run (mem_count_extfrag tid 0) start ≡ some (0, start)
  counted = heap_run-count 0 0 ret start (ground arith) ∙ heap_run-ret 0 start

  utask1-heap :
      (p_old p_new : ℕ → ℕ)
      → 14264 ≤ n
      → heap_run (utask1 tid p_old p_new) start ≡ some (true, start)
  unfolding utask1
  utask1-heap p_old p_new room =
      let (pos, al, top) = inside in
      heap_run-bind (mem_count_extfrag tid 0) _ start 0 start counted
      ∙ heap_run-bind (is_size_larger_than_available tid) _ start true start
          (is_size_larger_than_available-passes tid a n used pos (omega arith) top (omega arith))
      ∙ heap_run-bind (test_first_fit tid) _ start true start
          (test_first_fit-passes tid a n used pos (omega arith) top)
      ∙ heap_run-bind (test_size_zero tid) _ start true start
          (test_size_zero-passes tid a n used pos (omega arith) top)
      ∙ heap_run-bind (align_check tid) _ start true start
          (align_check-passes tid a n used pos (omega arith) top al)
      ∙ heap_run-bind (deallocate_invalid tid) _ start true start
          (deallocate_invalid-passes tid a n used pos (omega arith) top)
      ∙ heap_run-bind (coalece_check tid) _ start true start
          (coalece_check-passes tid a n used pos (omega arith) top)
      ∙ heap_run-bind (heap_leakage_test tid p_old p_new) _ start code_success start
          (heap_leakage_test-passes tid a n used p_old p_new pos room al top)
      ∙ heap_run-bind (mem_count_extfrag tid 0) _ start 0 start counted
      ∙ heap_run-ret true start

  -- On a memory whose one free block has at least 14264 bytes, whatever blocks are in use, the test
  -- task of the memory manager ends with every test passed: the request for more than there is and
  -- that for nothing get NULL, a freed block is the next to be handed out, addresses are multiples of
  -- eight, a second free is refused, two neighbours are joined, and the same total fits again after it
  -- has been freed; the same block is free afterwards and the same blocks are in use.
  pub utask1-passes :
      (p_old p_new : ℕ → ℕ)
      → 14264 ≤ n
      → (m' : Mem) × (run (utask1 tid p_old p_new) m ≡ some (true, m'))
        × IsHeap m' (one_free a n used)
  utask1-passes p_old p_new room =
      run-eq (utask1 tid p_old p_new) m start start true v (utask1-heap p_old p_new room)

  -- On a memory whose one free block has at least 600 bytes, whatever blocks are in use,
  -- `test_coalescing_free_regions_using_count_extfrag` passes: nine blocks in a row leave no small
  -- free block, four freed ones are counted as four, they are joined where those between them are
  -- freed, too, and in the end the same block is free as at first.
  pub test_coalescing_free_regions-succeeds :
      600 ≤ n
      → (m' : Mem) × (run (test_coalescing_free_regions tid) m ≡ some (true, m'))
        × IsHeap m' (one_free a n used)
  test_coalescing_free_regions-succeeds room =
      run-eq (test_coalescing_free_regions tid) m start start true v
        (test_coalescing_free_regions-passes tid a n used inside.0 room inside.2)

  -- On a memory whose one free block has at least 300 bytes, `task_dealloc_tester2` passes: a task
  -- cannot free the four bytes that `task_dealloc_tester1` of another task has allocated, and they
  -- stay in use by that task.
  pub task_dealloc_testers-succeed :
      (second : ℕ)
      → 300 ≤ n
      → second ≢ tid
      → (m' : Mem) × (run (task_dealloc_testers tid second) m ≡ some (true, m'))
        × IsHeap m' (heap (block (a + 24) (n - 24) ∷ []) (held tid (block a 8) ∷ used))
  task_dealloc_testers-succeed second room other =
      run-eq (task_dealloc_testers tid second) m start _ true v
        (task_dealloc_testers-passes tid a n used inside.0 room inside.2 second other)
