-- ===== src/Trials/Passes.antt =====
-- The tests of RTX/src/app/ae_usr_tasks.c, one by one, on a heap with one free block.
use preemptive_multi_tasked.Prelude.{
  ℕ, ◌+◌, ◌-◌, ◌^◌, ◌≤◌, ◌<◌, ◌≡◌, ◌≢◌, ◌%◌, refl, ◌∙◌, true, ◌||◌, List, [], ◌∷◌, some, arith,
  ◌==◌,
}
use preemptive_multi_tasked.Mem.{rtx_ok}
use preemptive_multi_tasked.Mem.Blocks.{block}
use preemptive_multi_tasked.Mem.Heap.{Held, held}
use preemptive_multi_tasked.Mem.Heap.Client.{heap_run}
use preemptive_multi_tasked.Trials.{
  align_check, is_size_larger_than_available, test_size_zero, task_dealloc_testers, test_first_fit,
  reuse, coalece_check, deallocate_invalid, ◌>>=◌,
}
use preemptive_multi_tasked.Trials.Runs.{
  heap_run-alloc, heap_run-free, heap_run-count, heap_run-true, heap_run-if, one_free, heap, mine,
  alloc_next, heap_run-four,
}

module _ (tid a n : ℕ) (used : List Held) (pos : 1 ≤ a) (room : 300 ≤ n)
    (inside : a + n < 2 ^ 30) where
  -- From a memory with one free block, aligned or not, of at least 300 bytes, `coalece_check` reports
  -- success and leaves the heap as it was.
  pub coalece_check-passes :
      heap_run (coalece_check tid) (one_free a n used) ≡ some (true, one_free a n used)
  unfolding coalece_check ◌>>=◌
  coalece_check-passes =
      let b = λ (d : ℕ) (s : ℕ). block (a + d) s in
      let last = b 192 (n - 192) in
      heap_run-four tid a n used pos room inside _
      ∙ heap_run-free tid (a + 48 + 16) rtx_ok _ _
          (heap (b 48 32 ∷ last ∷ []) (
            mine tid a n used pos room inside 144
            ∷ mine tid a n used pos room inside 96
            ∷ mine tid a n used pos room inside 0
            ∷ used))
          (ground arith)
      ∙ heap_run-free tid (a + 96 + 16) rtx_ok _ _
          (heap (b 48 80 ∷ last ∷ [])
            (mine tid a n used pos room inside 144 ∷ mine tid a n used pos room inside 0 ∷ used))
          (ground arith)
      ∙ heap_run-alloc tid 72 (a + 48 + 16) _ _
          (heap (last ∷ []) (
            held tid (b 48 80)
            ∷ mine tid a n used pos room inside 144
            ∷ mine tid a n used pos room inside 0
            ∷ used))
          (omega arith) (ground arith)
      ∙ heap_run-free tid (a + 16) rtx_ok _ _
          (heap (b 0 32 ∷ last ∷ [])
            (held tid (b 48 80) ∷ mine tid a n used pos room inside 144 ∷ used))
          (ground arith)
      ∙ heap_run-free tid (a + 144 + 16) rtx_ok _ _
          (heap (b 0 32 ∷ b 144 (n - 144) ∷ []) (held tid (b 48 80) ∷ used)) (ground arith)
      ∙ heap_run-free tid (a + 48 + 16) rtx_ok _ _ (one_free a n used) (ground arith)
      ∙ heap_run-true _ _ (ground arith)

  -- In the same way `test_first_fit` reports success and leaves the heap as it was.
  pub test_first_fit-passes :
      heap_run (test_first_fit tid) (one_free a n used) ≡ some (true, one_free a n used)
  unfolding test_first_fit reuse ◌>>=◌
  test_first_fit-passes =
      let b = λ (d : ℕ) (s : ℕ). block (a + d) s in
      let last = b 240 (n - 240) in
      heap_run-four tid a n used pos room inside _
      ∙ heap_run-alloc tid 32 (a + 192 + 16) _ _ _ (omega arith)
          (alloc_next tid a n used pos room inside 192 _ (omega arith))
      ∙ heap_run-if
          (a + 16 == 0
            || a + 48 + 16 == 0
            || a + 96 + 16 == 0
            || a + 144 + 16 == 0
            || a + 192 + 16 == 0)
          _ _ _ (ground arith)
      ∙ heap_run-free tid (a + 48 + 16) rtx_ok _ _
          (heap (b 48 32 ∷ last ∷ []) (
            mine tid a n used pos room inside 192
            ∷ mine tid a n used pos room inside 144
            ∷ mine tid a n used pos room inside 96
            ∷ mine tid a n used pos room inside 0
            ∷ used))
          (ground arith)
      ∙ heap_run-free tid (a + 144 + 16) rtx_ok _ _
          (heap (b 48 32 ∷ b 144 32 ∷ last ∷ []) (
            mine tid a n used pos room inside 192
            ∷ mine tid a n used pos room inside 96
            ∷ mine tid a n used pos room inside 0
            ∷ used))
          (ground arith)
      ∙ heap_run-alloc tid 32 (a + 48 + 16) _ _
          (heap (b 144 32 ∷ last ∷ []) (
            mine tid a n used pos room inside 48
            ∷ mine tid a n used pos room inside 192
            ∷ mine tid a n used pos room inside 96
            ∷ mine tid a n used pos room inside 0
            ∷ used))
          (omega arith) (ground arith)
      ∙ heap_run-free tid (a + 16) rtx_ok _ _
          (heap (b 0 32 ∷ b 144 32 ∷ last ∷ []) (
            mine tid a n used pos room inside 48
            ∷ mine tid a n used pos room inside 192
            ∷ mine tid a n used pos room inside 96
            ∷ used))
          (ground arith)
      ∙ heap_run-free tid (a + 96 + 16) rtx_ok _ _
          (heap (b 0 32 ∷ b 96 80 ∷ last ∷ [])
            (mine tid a n used pos room inside 48 ∷ mine tid a n used pos room inside 192 ∷ used))
          (ground arith)
      ∙ heap_run-free tid (a + 192 + 16) rtx_ok _ _
          (heap (b 0 32 ∷ b 96 (n - 96) ∷ []) (mine tid a n used pos room inside 48 ∷ used))
          (ground arith)
      ∙ heap_run-free tid (a + 48 + 16) rtx_ok _ _ (one_free a n used) (ground arith)
      ∙ heap_run-true _ _ (ground arith)

  pub align_check-passes :
      a % 8 ≡ 0 → heap_run (align_check tid) (one_free a n used) ≡ some (true, one_free a n used)
  unfolding align_check ◌>>=◌
  align_check-passes al =
      let b = λ (d : ℕ) (s : ℕ). block (a + d) s in
      let part = λ (d : ℕ) (s : ℕ). held tid (b d s) in
      let last = b 216 (n - 216) in
      heap_run-alloc tid 32 (a + 16) _ _ (heap (b 48 (n - 48) ∷ []) (part 0 32 ∷ used))
        (omega arith) (ground arith)
      ∙ heap_run-alloc tid 31 (a + 48 + 16) _ _
          (heap (b 96 (n - 96) ∷ []) (part 48 32 ∷ part 0 32 ∷ used)) (omega arith) (ground arith)
      ∙ heap_run-alloc tid 69 (a + 96 + 16) _ _
          (heap (b 184 (n - 184) ∷ []) (part 96 72 ∷ part 48 32 ∷ part 0 32 ∷ used)) (omega arith)
          (ground arith)
      ∙ heap_run-alloc tid 25 (a + 184 + 16) _ _
          (heap (b 232 (n - 232) ∷ []) (part 184 32 ∷ part 96 72 ∷ part 48 32 ∷ part 0 32 ∷ used))
          (omega arith) (ground arith)
      ∙ heap_run-count 0 0 _ _ (ground arith)
      ∙ heap_run-free tid (a + 48 + 16) rtx_ok _ _
          (heap (b 48 32 ∷ b 232 (n - 232) ∷ []) (part 184 32 ∷ part 96 72 ∷ part 0 32 ∷ used))
          (ground arith)
      ∙ heap_run-free tid (a + 96 + 16) rtx_ok _ _
          (heap (b 48 120 ∷ b 232 (n - 232) ∷ []) (part 184 32 ∷ part 0 32 ∷ used)) (ground arith)
      ∙ heap_run-count 0 0 _ _ (ground arith)
      ∙ heap_run-alloc tid 15 (a + 48 + 16) _ _
          (heap (b 80 88 ∷ b 232 (n - 232) ∷ []) (part 48 16 ∷ part 184 32 ∷ part 0 32 ∷ used))
          (omega arith) (ground arith)
      ∙ heap_run-count 0 0 _ _ (ground arith)
      ∙ heap_run-free tid (a + 16) rtx_ok _ _
          (heap (b 0 32 ∷ b 80 88 ∷ b 232 (n - 232) ∷ []) (part 48 16 ∷ part 184 32 ∷ used))
          (ground arith)
      ∙ heap_run-free tid (a + 184 + 16) rtx_ok _ _
          (heap (b 0 32 ∷ b 80 (n - 80) ∷ []) (part 48 16 ∷ used)) (ground arith)
      ∙ heap_run-free tid (a + 48 + 16) rtx_ok _ _ (one_free a n used) (ground arith)
      ∙ heap_run-count 0 0 _ _ (ground arith)
      ∙ heap_run-true _ _ (ground arith)

  pub is_size_larger_than_available-passes :
      n < 1215752191
      → heap_run (is_size_larger_than_available tid) (one_free a n used)
        ≡ some (true, one_free a n used)
  unfolding is_size_larger_than_available ◌>>=◌
  is_size_larger_than_available-passes h =
      heap_run-alloc tid 1215752191 0 _ _ (one_free a n used) (omega arith) (ground arith)
      ∙ heap_run-true _ _ refl

  pub test_size_zero-passes :
      heap_run (test_size_zero tid) (one_free a n used) ≡ some (true, one_free a n used)
  unfolding test_size_zero ◌>>=◌
  test_size_zero-passes =
      heap_run-alloc tid 0 0 _ _ (one_free a n used) (omega arith) refl ∙ heap_run-true _ _ refl

  pub deallocate_invalid-passes :
      heap_run (deallocate_invalid tid) (one_free a n used) ≡ some (true, one_free a n used)
  unfolding heap_run deallocate_invalid ◌>>=◌
  deallocate_invalid-passes = ground arith

  -- A task that is not the owner is refused; the block stays with its owner.
  pub task_dealloc_testers-passes :
      (second : ℕ)
      → second ≢ tid
      → heap_run (task_dealloc_testers tid second) (one_free a n used)
        ≡ some (true, heap (block (a + 24) (n - 24) ∷ []) (held tid (block a 8) ∷ used))
  unfolding heap_run task_dealloc_testers ◌>>=◌
  task_dealloc_testers-passes second e = ground arith
