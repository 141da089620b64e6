-- ===== src/Trials/Leakage.antt =====
-- `heap_leakage_test` of RTX/src/app/ae_usr_tasks.c on a heap with one free block.
use preemptive_multi_tasked.Prelude.{
  ℕ, zero, suc, sym, ◌+◌, ◌-◌, ◌*◌, ◌%◌, ◌^◌, ◌≤◌, ◌<◌, ◌≡◌, ◌≢◌, refl, ap, ◌∙◌, true, false, not,
  ◌&&◌, ◌||◌, List, [], ◌∷◌, some, arith, ◌==◌, ltb, leb, update, add32, dec_lt,
}
use preemptive_multi_tasked.Mem.{rtx_ok, align}
use preemptive_multi_tasked.Mem.Blocks.{block}
use preemptive_multi_tasked.Mem.Heap.{Heap, Held, heap_alloc, heap_free}
use preemptive_multi_tasked.Mem.Heap.Client.{heap_run}
use preemptive_multi_tasked.Trials.Runs.{
  heap_run-alloc, heap_run-free, heap_run-bind, heap_run-ret, heap_run-if, one_free, heap,
}
use preemptive_multi_tasked.Trials.Rows.{
  dist, dist-lt, stack, filled, filled-at, front, heap_free-front, front-next, front-last,
}
use native.Mathlib.Nat.{zero-add}
use native.Mathlib.Numerals.{add-one}
use preemptive_multi_tasked.Trials.{
  code_success, allocate_old, deallocate_old, allocate_new, deallocate_new, compare_areas,
  heap_leakage_test, old_then, freed_then, old_then_new,
}

-- One round of the loops.
module _ (tid rounds i p : ℕ) (ps : ℕ → ℕ) (hp hp' : Heap) where
  allocate_old-round :
      heap_alloc tid (i * 256 + 255) hp ≡ (p, hp')
      → i < 10
      → p ≢ 0
      → update ps i p 0 % 4 ≡ 0
      → (ltb 0 i && leb p (add32 (update ps i p (i - 1)) (256 * i))) ≡ false
      → heap_run (allocate_old tid (suc rounds) i ps) hp
        ≡ heap_run (allocate_old tid rounds (i + 1) (update ps i p)) hp'
  unfolding allocate_old
  allocate_old-round e small full al apart =
      heap_run-alloc tid (i * 256 + 255) p _ hp hp' (omega arith) e ∙ (ground (arith, al, apart))

  allocate_new-round :
      heap_alloc tid ((10 - i) * 256 - 1) hp ≡ (p, hp')
      → p ≢ 0
      → update ps i p 0 % 4 ≡ 0
      → (ltb 0 i && leb p (add32 (update ps i p (i - 1)) (256 * (10 - i + 1)))) ≡ false
      → heap_run (allocate_new tid (suc rounds) i ps) hp
        ≡ heap_run (allocate_new tid rounds (i + 1) (update ps i p)) hp'
  unfolding allocate_new
  allocate_new-round e full al apart =
      heap_run-alloc tid ((10 - i) * 256 - 1) p _ hp hp' (omega arith) e
      ∙ (ground (arith, al, apart))

  deallocate_old-round :
      heap_free tid p hp ≡ some (rtx_ok, hp')
      → ps i ≡ p
      → heap_run (deallocate_old tid (suc rounds) i ps) hp
        ≡ heap_run (deallocate_old tid rounds (i + 1) ps) hp'
  unfolding deallocate_old
  deallocate_old-round e at = heap_run-free tid (ps i) rtx_ok _ hp hp' (rw at e)

  deallocate_new-round :
      heap_free tid p hp ≡ some (rtx_ok, hp')
      → ps i ≡ p
      → heap_run (deallocate_new tid (suc rounds) i ps) hp
        ≡ heap_run (deallocate_new tid rounds (i + 1) ps) hp'
  unfolding deallocate_new
  deallocate_new-round e at = heap_run-free tid (ps i) rtx_ok _ hp hp' (rw at e)

module _ (tid a n : ℕ) (used : List Held) (size : ℕ → ℕ) (total : ℕ) (pos : 1 ≤ a)
    (room : total + 24 ≤ n) where
  -- The heap once the first `k` blocks are free again.
  abbrev pub rest : (k r : ℕ) → Heap
  rest k r = heap (front tid a n used size total k) (stack tid a n used size k r)

  rest-next :
      (k r : ℕ)
      → dist size (k + suc (suc r)) ≡ total
      → heap_free tid (a + dist size k + 16) (rest k (suc (suc r)))
        ≡ some (rtx_ok, rest (suc k) (suc r))
  rest-next k r e =
      let next : k + suc (suc r) ≡ suc k + suc r = omega arith in
      heap_free-front tid a n used size total pos room k (suc r) e
      ∙ ap (λ fs. some (rtx_ok, heap fs (stack tid a n used size (suc k) (suc r))))
          (front-next tid a n used size total pos room k
            (omega (arith, dist-lt size (suc k) r, ap (dist size) next)))

  rest-last :
      (k : ℕ)
      → dist size (k + 1) ≡ total
      → heap_free tid (a + dist size k + 16) (rest k 1) ≡ some (rtx_ok, one_free a n used)
  rest-last k e =
      heap_free-front tid a n used size total pos room k 0 e
      ∙ ap (λ fs. some (rtx_ok, heap fs used))
          (front-last tid a n used size total pos room k (sym (ap (dist size) (add-one k)) ∙ e))

  module _ (ps : ℕ → ℕ) (at : (j : ℕ) → j < 10 → ps j ≡ a + dist size j + 16) where
    pub deallocate_old-all :
        (r k : ℕ)
        → k + suc r ≡ 10
        → dist size 10 ≡ total
        → heap_run (deallocate_old tid (suc r) k ps) (rest k (suc r))
          ≡ some (true, one_free a n used)
    unfolding deallocate_old
    deallocate_old-all zero k e f =
        deallocate_old-round tid 0 k (a + dist size k + 16) ps _ (one_free a n used)
          (rest-last k (ap (dist size) e ∙ f)) (at k (omega arith))
        ∙ heap_run-ret true _
    deallocate_old-all (suc r) k e f =
        deallocate_old-round tid (suc r) k (a + dist size k + 16) ps _ (rest (suc k) (suc r))
          (rest-next k r (ap (dist size) e ∙ f)) (at k (omega arith))
        ∙ ap (λ j. heap_run (deallocate_old tid (suc r) j ps) (rest (suc k) (suc r))) (add-one k)
        ∙ deallocate_old-all r (suc k) (omega arith) f

    pub deallocate_new-all :
        (r k : ℕ)
        → k + suc r ≡ 10
        → dist size 10 ≡ total
        → heap_run (deallocate_new tid (suc r) k ps) (rest k (suc r))
          ≡ some (code_success, one_free a n used)
    unfolding deallocate_new
    deallocate_new-all zero k e f =
        deallocate_new-round tid 0 k (a + dist size k + 16) ps _ (one_free a n used)
          (rest-last k (ap (dist size) e ∙ f)) (at k (omega arith))
        ∙ heap_run-ret code_success _
    deallocate_new-all (suc r) k e f =
        deallocate_new-round tid (suc r) k (a + dist size k + 16) ps _ (rest (suc k) (suc r))
          (rest-next k r (ap (dist size) e ∙ f)) (at k (omega arith))
        ∙ ap (λ j. heap_run (deallocate_new tid (suc r) j ps) (rest (suc k) (suc r))) (add-one k)
        ∙ deallocate_new-all r (suc k) (omega arith) f

  -- The heap once the first `k` blocks are in use.
  abbrev pub in_use : ℕ → Heap
  in_use k = heap (block (a + dist size k) (n - dist size k) ∷ []) (stack tid a n used size 0 k)

  pub in_use-zero : in_use 0 ≡ one_free a n used
  in_use-zero = ground arith

  heap_alloc-next :
      (k request : ℕ)
      → align request ≡ size k
      → request ≢ 0
      → dist size (suc k) + 24 ≤ n
      → heap_alloc tid request (in_use k) ≡ (a + dist size k + 16, in_use (suc k))
  heap_alloc-next k request e some_bytes fits =
      let full : (request == 0) ≡ false = ground arith in rw (full, e, zero-add k) (ground arith)

  dist-fits : (k : ℕ) → k < 10 → dist size 10 ≡ total → dist size (suc k) + 24 ≤ n
  dist-fits k h f = elim (dec_lt k 9) [
    | yes more ↦
        let e : suc k + suc (8 - k) ≡ 10 = omega arith in
        omega (arith, dist-lt size (suc k) (8 - k), ap (dist size) e)
    | no last ↦ let e : suc k ≡ 10 = omega arith in omega (arith, ap (dist size) e)
  ]

  module _ (ps : ℕ → ℕ) (al : a % 8 ≡ 0) (top : dist size 10 ≡ total)
      (inside : a + n < 2 ^ 30) where
    abbrev pub p_at : ℕ → ℕ → ℕ
    p_at k = filled tid a n used size ps k

    aligned_first : (k : ℕ) → p_at (suc k) 0 % 4 ≡ 0
    aligned_first k = omega (arith, filled-at tid a n used size ps (suc k) 0 (omega arith))

    apart :
        (k gap : ℕ)
        → k < 10
        → ((j : ℕ) → k ≡ suc j → size j ≡ gap)
        → (ltb 0 k && leb (a + dist size k + 16) (add32 (p_at (suc k) (k - 1)) gap)) ≡ false
    apart zero gap lt h = refl
    apart (suc j) gap lt h =
        let prev : suc j - 1 ≡ j = omega arith in
        let value = filled-at tid a n used size ps (suc (suc j)) j (omega arith) in
        let fits = dist-fits (suc j) lt top in rw prev (rw value (ground (arith, h j refl)))

    -- The first loop.
    pub allocate_old-all :
        ((k : ℕ) → size k ≡ k * 256 + 256)
        → (r k : ℕ) → k + r ≡ 10
        → heap_run (allocate_old tid r k (p_at k)) (in_use k) ≡ some (some (p_at 10), in_use 10)
    unfolding allocate_old
    allocate_old-all sizes zero k e =
        let last : k ≡ 10 = omega arith in
        heap_run-ret (some (p_at k)) (in_use k) ∙ ap (λ j. some (some (p_at j), in_use j)) last
    allocate_old-all sizes (suc r) k e =
        allocate_old-round tid r k (a + dist size k + 16) (p_at k) (in_use k) (in_use (suc k))
          (heap_alloc-next k (k * 256 + 255) (ground (arith, sizes k)) (omega arith)
            (dist-fits k (omega arith) top))
          (omega arith) (omega arith) (aligned_first k)
          (apart k (256 * k) (omega arith) (λ j q. ground (arith, sizes j)))
        ∙ ap (λ j. heap_run (allocate_old tid r j (p_at (suc k))) (in_use (suc k))) (add-one k)
        ∙ allocate_old-all sizes r (suc k) (omega arith)

    -- The third.
    pub allocate_new-all :
        ((k : ℕ) → size k ≡ (10 - k) * 256)
        → (r k : ℕ) → k + r ≡ 10
        → heap_run (allocate_new tid r k (p_at k)) (in_use k) ≡ some (some (p_at 10), in_use 10)
    unfolding allocate_new
    allocate_new-all sizes zero k e =
        let last : k ≡ 10 = omega arith in
        heap_run-ret (some (p_at k)) (in_use k) ∙ ap (λ j. some (some (p_at j), in_use j)) last
    allocate_new-all sizes (suc r) k e =
        allocate_new-round tid r k (a + dist size k + 16) (p_at k) (in_use k) (in_use (suc k))
          (heap_alloc-next k ((10 - k) * 256 - 1) (ground (arith, sizes k)) (omega arith)
            (dist-fits k (omega arith) top))
          (omega arith) (aligned_first k)
          (apart k (256 * (10 - k + 1)) (omega arith) (λ j q. ground (arith, sizes j)))
        ∙ ap (λ j. heap_run (allocate_new tid r j (p_at (suc k))) (in_use (suc k))) (add-one k)
        ∙ allocate_new-all sizes r (suc k) (omega arith)

-- The bytes of the blocks in the first and in the third loop.
abbrev old_size : ℕ → ℕ
old_size k = k * 256 + 256

abbrev new_size : ℕ → ℕ
new_size k = (10 - k) * 256

module _ (tid a n : ℕ) (used : List Held) (p_old p_new : ℕ → ℕ) (pos : 1 ≤ a) (room : 14264 ≤ n)
    (al : a % 8 ≡ 0) (inside : a + n < 2 ^ 30) where
  abbrev olds : ℕ → ℕ
  olds = filled tid a n used old_size p_old 10

  abbrev news : ℕ → ℕ
  news = filled tid a n used new_size p_new 10

  first_loop :
      heap_run (allocate_old tid 10 0 p_old) (one_free a n used)
      ≡ some (some olds, in_use tid a n used old_size 14240 pos room 10)
  first_loop =
      ap (heap_run (allocate_old tid 10 0 p_old))
        (sym (in_use-zero tid a n used old_size 14240 pos room))
      ∙ allocate_old-all tid a n used old_size 14240 pos room p_old al refl inside (λ k. refl) 10 0
          refl

  second_loop :
      heap_run (deallocate_old tid 10 0 olds) (in_use tid a n used old_size 14240 pos room 10)
      ≡ some (true, one_free a n used)
  second_loop =
      deallocate_old-all tid a n used old_size 14240 pos room olds
        (filled-at tid a n used old_size p_old 10) 9 0 refl refl

  third_loop :
      heap_run (allocate_new tid 10 0 p_new) (one_free a n used)
      ≡ some (some news, in_use tid a n used new_size 14240 pos room 10)
  third_loop =
      ap (heap_run (allocate_new tid 10 0 p_new))
        (sym (in_use-zero tid a n used new_size 14240 pos room))
      ∙ allocate_new-all tid a n used new_size 14240 pos room p_new al refl inside (λ k. refl) 10 0
          refl

  comparison :
      heap_run (compare_areas tid olds news) (in_use tid a n used new_size 14240 pos room 10)
      ≡ some (code_success, one_free a n used)
  unfolding compare_areas
  comparison =
      let same : (not (olds 0 == news 0) || not (add32 (olds 9) 2560 == add32 (news 9) 256))
          ≡ false =
        ground arith in
      heap_run-if (not (olds 0 == news 0) || not (add32 (olds 9) 2560 == add32 (news 9) 256)) _ _ _
        same
      ∙ deallocate_new-all tid a n used new_size 14240 pos room news
          (filled-at tid a n used new_size p_new 10) 9 0 refl refl

  -- From a memory whose one free block is aligned, has at least 14264 bytes and ends below 2 ^ 30,
  -- `heap_leakage_test` reports success and leaves the heap as it was.
  pub heap_leakage_test-passes :
      heap_run (heap_leakage_test tid p_old p_new) (one_free a n used)
      ≡ some (code_success, one_free a n used)
  unfolding heap_leakage_test
  heap_leakage_test-passes =
      heap_run-bind (allocate_old tid 10 0 p_old) (old_then tid p_new) _ (some olds) _ first_loop
      ∙ heap_run-bind (deallocate_old tid 10 0 olds) (freed_then tid olds p_new) _ true _
          second_loop
      ∙ heap_run-bind (allocate_new tid 10 0 p_new) (old_then_new tid olds) _ (some news) _
          third_loop
      ∙ comparison
