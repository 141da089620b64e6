-- ===== src/Trials/Coalescing.antt =====
-- The test of RTX/src/app/ae_mem.c on a heap with one free block.
use preemptive_multi_tasked.Prelude.{
  ℕ, ◌+◌, ◌-◌, ◌^◌, ◌≤◌, ◌<◌, ◌≡◌, ◌*◌, sub32, ap, ◌∙◌, true, List, [], ◌∷◌, some, arith,
}
use preemptive_multi_tasked.Mem.{rtx_ok}
use preemptive_multi_tasked.Mem.Blocks.{Block, block}
use preemptive_multi_tasked.Mem.Heap.{Held, held}
use preemptive_multi_tasked.Mem.Heap.Client.{heap_run}
use preemptive_multi_tasked.Trials.{
  test_coalescing_free_regions, coalescing_2, coalescing_3, coalescing_4, ◌>>=◌,
}
use preemptive_multi_tasked.Trials.Runs.{
  heap_run-alloc, heap_run-free, heap_run-count, heap_run-true, one_free, heap, alloc_next,
  heap_run-four,
}

module _ (tid a n : ℕ) (used : List Held) (pos : 1 ≤ a) (room : 600 ≤ n)
    (inside : a + n < 2 ^ 30) where
  abbrev my : ℕ → Held
  my d = held tid (block (a + d) 32)

  abbrev at : ℕ → ℕ → Block
  at d s = block (a + d) s

  abbrev last : Block
  last = at 432 (n - 432)

  -- The addresses of the nine blocks.
  abbrev ptr : ℕ → ℕ
  ptr d = a + d + 16

  coalescing_4-passes :
      heap_run
        (coalescing_4 tid 16 (a + 16) (ptr 192) (ptr 384))
        (heap (at 48 128 ∷ at 240 128 ∷ last ∷ []) (my 384 ∷ my 192 ∷ my 0 ∷ used))
      ≡ some (true, one_free a n used)
  unfolding coalescing_4 ◌>>=◌
  coalescing_4-passes =
      heap_run-free tid (a + 16) rtx_ok _ _
        (heap (at 0 176 ∷ at 240 128 ∷ last ∷ []) (my 384 ∷ my 192 ∷ used)) (ground arith)
      ∙ heap_run-free tid (ptr 192) rtx_ok _ _ (heap (at 0 368 ∷ last ∷ []) (my 384 ∷ used))
          (ground arith)
      ∙ heap_run-free tid (ptr 384) rtx_ok _ _ (one_free a n used) (ground arith)
      ∙ heap_run-count 433 0 _ _ (ground arith)
      ∙ heap_run-true _ _ (ground arith)

  coalescing_3-passes :
      heap_run (coalescing_3 tid 16 (a + 16) (ptr 96) (ptr 192) (ptr 288) (ptr 384)) (
        heap
          (at 48 32 ∷ at 144 32 ∷ at 240 32 ∷ at 336 32 ∷ last ∷ [])
          (my 384 ∷ my 288 ∷ my 192 ∷ my 96 ∷ my 0 ∷ used))
      ≡ some (true, one_free a n used)
  unfolding coalescing_3 ◌>>=◌
  coalescing_3-passes =
      heap_run-free tid (ptr 96) rtx_ok _ _
        (heap (at 48 128 ∷ at 240 32 ∷ at 336 32 ∷ last ∷ [])
          (my 384 ∷ my 288 ∷ my 192 ∷ my 0 ∷ used))
        (ground arith)
      ∙ heap_run-free tid (ptr 288) rtx_ok _ _
          (heap (at 48 128 ∷ at 240 128 ∷ last ∷ []) (my 384 ∷ my 192 ∷ my 0 ∷ used)) (ground arith)
      ∙ heap_run-count 49 0 _ _ (ground arith)
      ∙ heap_run-count 145 2 _ _ (ground arith)
      ∙ coalescing_4-passes

  -- The nine blocks are in use.
  nine : List Held
  nine = my 384 ∷ my 336 ∷ my 288 ∷ my 240 ∷ my 192 ∷ my 144 ∷ my 96 ∷ my 48 ∷ my 0 ∷ used

  coalescing_2-passes :
      heap_run
        (coalescing_2 tid 16
          (a + 16)
          (ptr 48)
          (ptr 96)
          (ptr 144)
          (ptr 192)
          (ptr 240)
          (ptr 288)
          (ptr 336)
          (ptr 384))
        (heap (last ∷ []) nine)
      ≡ some (true, one_free a n used)
  unfolding coalescing_2 nine ◌>>=◌
  coalescing_2-passes =
      heap_run-free tid (ptr 48) rtx_ok _ _
        (heap (at 48 32 ∷ last ∷ [])
          (my 384 ∷ my 336 ∷ my 288 ∷ my 240 ∷ my 192 ∷ my 144 ∷ my 96 ∷ my 0 ∷ used))
        (ground arith)
      ∙ heap_run-free tid (ptr 144) rtx_ok _ _
          (heap (at 48 32 ∷ at 144 32 ∷ last ∷ [])
            (my 384 ∷ my 336 ∷ my 288 ∷ my 240 ∷ my 192 ∷ my 96 ∷ my 0 ∷ used))
          (ground arith)
      ∙ heap_run-free tid (ptr 240) rtx_ok _ _
          (heap (at 48 32 ∷ at 144 32 ∷ at 240 32 ∷ last ∷ [])
            (my 384 ∷ my 336 ∷ my 288 ∷ my 192 ∷ my 96 ∷ my 0 ∷ used))
          (ground arith)
      ∙ heap_run-free tid (ptr 336) rtx_ok _ _
          (heap (at 48 32 ∷ at 144 32 ∷ at 240 32 ∷ at 336 32 ∷ last ∷ [])
            (my 384 ∷ my 288 ∷ my 192 ∷ my 96 ∷ my 0 ∷ used))
          (ground arith)
      ∙ heap_run-count 49 4 _ _ (ground arith)
      ∙ heap_run-count 145 4 _ _ (ground arith)
      ∙ coalescing_3-passes

  -- What the test takes for the size of a control block.
  header_size-eq : sub32 (sub32 (ptr 48) (a + 16)) 32 ≡ 16
  header_size-eq = omega arith

  -- From a memory whose one free block has at least 600 bytes and ends below 2 ^ 30, the test reports
  -- success and leaves the heap as it was.
  pub test_coalescing_free_regions-passes :
      heap_run (test_coalescing_free_regions tid) (one_free a n used)
      ≡ some (true, one_free a n used)
  unfolding test_coalescing_free_regions nine ◌>>=◌
  test_coalescing_free_regions-passes =
      let more = alloc_next tid a n used pos (omega arith) inside in
      let hs = sub32 (sub32 (ptr 48) (a + 16)) 32 in
      heap_run-four tid a n used pos (omega arith) inside _
      ∙ heap_run-alloc tid 32 (ptr 192) _ _ _ (omega arith) (more 192 _ (omega arith))
      ∙ heap_run-alloc tid 32 (ptr 240) _ _ _ (omega arith) (more 240 _ (omega arith))
      ∙ heap_run-alloc tid 32 (ptr 288) _ _ _ (omega arith) (more 288 _ (omega arith))
      ∙ heap_run-alloc tid 32 (ptr 336) _ _ _ (omega arith) (more 336 _ (omega arith))
      ∙ heap_run-alloc tid 32 (ptr 384) _ _ _ (omega arith) (more 384 _ (omega arith))
      ∙ heap_run-count (32 + hs + 1) 0 _ _ (ground (arith, header_size-eq))
      ∙ heap_run-count (96 + 3 * hs + 1) 0 _ _ (ground (arith, header_size-eq))
      ∙ ap
          (λ (h : ℕ).
            heap_run
              (coalescing_2 tid h (a + 16) (ptr 48) (ptr 96) (ptr 144) (ptr 192) (ptr 240) (ptr 288)
                (ptr 336) (ptr 384))
              (heap (last ∷ []) nine))
          header_size-eq
      ∙ coalescing_2-passes
