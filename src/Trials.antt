-- ===== src/Trials.antt =====
-- The tests of the memory manager in RTX/src/app/ae_usr_tasks.c (TEST == 1), ae_mem.c and
-- ae_priv_tasks.c, as programs. What a test prints is its result: `true` where it reports success.
pub mod Runs
pub mod Passes
pub mod Coalescing
pub mod Rows
pub mod Leakage
pub mod Suite
pub mod Tasks
pub mod Calls
pub mod Sequence
pub mod Commands
pub mod Greeting
mod Tests
use preemptive_multi_tasked.Prelude.{
  ℕ, zero, suc, ◌+◌, ◌-◌, ◌*◌, ◌%◌, ◌^◌, Bool, true, false, not, ◌&&◌, ◌||◌, List, [], ◌∷◌, ◌==◌,
  if◌then◌else◌, sub32, add32, ltb, leb, update, Option, none, some,
}
use preemptive_multi_tasked.Mem.{Rtx, rtx_ok, rtx_err}
use preemptive_multi_tasked.Mem.Heap.Client.{Prog, ret, alloc, free, count_extfrag}

infixl 5 ◌>>=◌ ◌>>◌
unfoldable pub ◌>>=◌ : {A B : Type 0} → Prog A → (A → Prog B) → Prog B
ret a >>= f = f a
alloc tid size k >>= f = alloc tid size (λ p. k p >>= f)
free tid ptr k >>= f = free tid ptr (λ r. k r >>= f)
count_extfrag size k >>= f = count_extfrag size (λ n. k n >>= f)

abbrev pub ◌>>◌ : {A B : Type 0} → Prog A → Prog B → Prog B
c >> d = c >>= λ _. d

abbrev is_ok : Rtx → Bool
is_ok rtx_ok = true
is_ok rtx_err = false

-- The calls of a running task.
module _ (tid : ℕ) where
  abbrev pub mem_alloc : ℕ → Prog ℕ
  mem_alloc size = alloc tid size ret

  abbrev pub mem_dealloc : ℕ → Prog Rtx
  mem_dealloc ptr = free tid ptr ret

  abbrev pub mem_count_extfrag : ℕ → Prog ℕ
  mem_count_extfrag size = count_extfrag size ret

  -- The request is cut to 32 bits.
  unfoldable pub is_size_larger_than_available : Prog Bool
  is_size_larger_than_available = do p ← mem_alloc (99999999999 % 2 ^ 32); ret (p == 0)

  -- The second part of `test_first_fit`.
  unfoldable pub reuse : (b1 b2 b3 b4 b5 : ℕ) → Prog Bool
  reuse b1 b2 b3 b4 b5 = do
    mem_dealloc b2
    mem_dealloc b4
    b6 ← mem_alloc 32
    mem_dealloc b1
    mem_dealloc b3
    mem_dealloc b5
    mem_dealloc b6
    ret (b6 == b2)

  unfoldable pub test_first_fit : Prog Bool
  unfolding reuse
  test_first_fit = do
    b1 ← mem_alloc 32
    b2 ← mem_alloc 32
    b3 ← mem_alloc 32
    b4 ← mem_alloc 32
    b5 ← mem_alloc 32
    (if b1 == 0 || b2 == 0 || b3 == 0 || b4 == 0 || b5 == 0
        then ret false
        else reuse b1 b2 b3 b4 b5)

  unfoldable pub test_size_zero : Prog Bool
  test_size_zero = do k1 ← mem_alloc 0; ret (k1 == 0)

  -- No line that speaks of a failure is printed.
  unfoldable pub deallocate_invalid : Prog Bool
  deallocate_invalid = do
    p ← mem_alloc 32
    first ← mem_dealloc p
    second ← mem_dealloc p
    ret (is_ok first && not (is_ok second))

  unfoldable pub coalece_check : Prog Bool
  coalece_check = do
    h1 ← mem_alloc 32
    h2 ← mem_alloc 32
    h3 ← mem_alloc 32
    h4 ← mem_alloc 32
    mem_dealloc h2
    mem_dealloc h3
    h5 ← mem_alloc 72
    mem_dealloc h1
    mem_dealloc h4
    mem_dealloc h5
    ret (h5 == h2)

  -- No line that speaks of a failure is printed.
  unfoldable pub align_check : Prog Bool
  align_check = do
    h1 ← mem_alloc 32
    h2 ← mem_alloc 31
    h3 ← mem_alloc 69
    h4 ← mem_alloc 25
    mem_count_extfrag 0
    mem_dealloc h2
    mem_dealloc h3
    mem_count_extfrag 0
    h5 ← mem_alloc 15
    mem_count_extfrag 0
    mem_dealloc h1
    mem_dealloc h4
    mem_dealloc h5
    mem_count_extfrag 0
    ret (h1 % 8 == 0 && h2 % 8 == 0 && h3 % 8 == 0 && h4 % 8 == 0 && h5 % 8 == 0)

  -- The fourth part of `test_coalescing_free_regions_using_count_extfrag`.
  unfoldable pub coalescing_4 : (header_size p1 p5 p9 : ℕ) → Prog Bool
  coalescing_4 header_size p1 p5 p9 = do
    mem_dealloc p1
    mem_dealloc p5
    mem_dealloc p9
    size_289 ← mem_count_extfrag (288 + 9 * header_size + 1)
    ret (size_289 == 0)

  -- The third part. Where a test fails the blocks that are left are freed.
  unfoldable pub coalescing_3 : (header_size p1 p3 p5 p7 p9 : ℕ) → Prog Bool
  unfolding coalescing_4
  coalescing_3 header_size p1 p3 p5 p7 p9 = do
    mem_dealloc p3
    mem_dealloc p7
    size_33 ← mem_count_extfrag (32 + header_size + 1)
    size_97 ← mem_count_extfrag (96 + 3 * header_size + 1)
    (if not (size_33 == 0) || not (size_97 == 2)
        then (mem_dealloc p1 >> mem_dealloc p5 >> mem_dealloc p9 >> ret false)
        else coalescing_4 header_size p1 p5 p9)

  -- The second part.
  unfoldable pub coalescing_2 : (header_size p1 p2 p3 p4 p5 p6 p7 p8 p9 : ℕ) → Prog Bool
  unfolding coalescing_3
  coalescing_2 header_size p1 p2 p3 p4 p5 p6 p7 p8 p9 = do
    mem_dealloc p2
    mem_dealloc p4
    mem_dealloc p6
    mem_dealloc p8
    size_33 ← mem_count_extfrag (32 + header_size + 1)
    size_97 ← mem_count_extfrag (96 + 3 * header_size + 1)
    (if not (size_33 == 4) || not (size_97 == 4)
        then (mem_dealloc p1
            >> mem_dealloc p3
            >> mem_dealloc p5
            >> mem_dealloc p7
            >> mem_dealloc p9
            >> ret false)
        else coalescing_3 header_size p1 p3 p5 p7 p9)

  unfoldable pub test_coalescing_free_regions : Prog Bool
  unfolding coalescing_2
  test_coalescing_free_regions = do
    p1 ← mem_alloc 32
    p2 ← mem_alloc 32
    p3 ← mem_alloc 32
    p4 ← mem_alloc 32
    p5 ← mem_alloc 32
    p6 ← mem_alloc 32
    p7 ← mem_alloc 32
    p8 ← mem_alloc 32
    p9 ← mem_alloc 32
    let header_size = sub32 (sub32 p2 p1) 32
    size_33 ← mem_count_extfrag (32 + header_size + 1)
    size_97 ← mem_count_extfrag (96 + 3 * header_size + 1)
    (if not (size_33 == 0) || not (size_97 == 0)
        then (mem_dealloc p1
            >> mem_dealloc p2
            >> mem_dealloc p3
            >> mem_dealloc p4
            >> mem_dealloc p5
            >> mem_dealloc p6
            >> mem_dealloc p7
            >> mem_dealloc p8
            >> mem_dealloc p9
            >> ret false)
        else coalescing_2 header_size p1 p2 p3 p4 p5 p6 p7 p8 p9)

-- The results of `heap_leakage_test`.
pub data Code : Type 0 where
  code_mem_alloc code_mem_dealloc code_heap_leakage_1 code_heap_leakage_2 code_success : Code

module _ (tid : ℕ) where
  -- The first loop, from the index `i` on; `none` where the code returns CODE_MEM_ALLOC.
  unfoldable pub allocate_old : (rounds i : ℕ) → (p_old : ℕ → ℕ) → Prog (Option (ℕ → ℕ))
  allocate_old zero i p_old = ret (some p_old)
  allocate_old (suc rounds) i p_old = alloc tid (i * 256 + 255) (λ p.
      let p_old' = update p_old i p in
      if p == 0 || not (p_old' 0 % 4 == 0)
      then ret none
      else if ltb 0 i && leb p (add32 (p_old' (i - 1)) (256 * i))
      then ret none
      else allocate_old rounds (i + 1) p_old')

  -- The second loop; `false` where the code returns CODE_MEM_DEALLOC.
  unfoldable pub deallocate_old : (rounds i : ℕ) → (p_old : ℕ → ℕ) → Prog Bool
  deallocate_old zero i p_old = ret true
  deallocate_old (suc rounds) i p_old =
      free tid (p_old i)
        (λ r. if not (is_ok r) then ret false else deallocate_old rounds (i + 1) p_old)

  -- The third loop; `none` where the code returns CODE_HEAP_LEAKAGE_1.
  unfoldable pub allocate_new : (rounds i : ℕ) → (p_new : ℕ → ℕ) → Prog (Option (ℕ → ℕ))
  allocate_new zero i p_new = ret (some p_new)
  allocate_new (suc rounds) i p_new = alloc tid ((10 - i) * 256 - 1) (λ p.
      let p_new' = update p_new i p in
      if p == 0 || not (p_new' 0 % 4 == 0)
      then ret none
      else if ltb 0 i && leb p (add32 (p_new' (i - 1)) (256 * (10 - i + 1)))
      then ret none
      else allocate_new rounds (i + 1) p_new')

  -- The last loop.
  unfoldable pub deallocate_new : (rounds i : ℕ) → (p_new : ℕ → ℕ) → Prog Code
  deallocate_new zero i p_new = ret code_success
  deallocate_new (suc rounds) i p_new =
      free tid (p_new i) (λ _. deallocate_new rounds (i + 1) p_new)

  -- The comparison of the addresses, and what comes after it.
  unfoldable pub compare_areas : (p_old p_new : ℕ → ℕ) → Prog Code
  unfolding deallocate_new
  compare_areas p_old p_new =
      if not (p_old 0 == p_new 0) || not (add32 (p_old 9) (10 * 256) == add32 (p_new 9) 256)
      then ret code_heap_leakage_2
      else deallocate_new 10 0 p_new

  abbrev pub old_then_new : (p_old : ℕ → ℕ) → Option (ℕ → ℕ) → Prog Code
  old_then_new p_old none = ret code_heap_leakage_1
  old_then_new p_old (some p_new) = compare_areas p_old p_new

  abbrev pub freed_then : (p_old p_new : ℕ → ℕ) → Bool → Prog Code
  freed_then p_old p_new false = ret code_mem_dealloc
  freed_then p_old p_new true = allocate_new 10 0 p_new >>= old_then_new p_old

  abbrev pub old_then : (p_new : ℕ → ℕ) → Option (ℕ → ℕ) → Prog Code
  old_then p_new none = ret code_mem_alloc
  old_then p_new (some p_old) = deallocate_old 10 0 p_old >>= freed_then p_old p_new

  -- The arrays hold what happens to be on the stack.
  unfoldable pub heap_leakage_test : (p_old p_new : ℕ → ℕ) → Prog Code
  heap_leakage_test p_old p_new = allocate_old 10 0 p_old >>= old_then p_new

-- What `baka` returns.
abbrev pub is_success : Code → Bool
is_success code_success = true
is_success _ = false

-- The test task of TEST == 1; the result says whether all tests report success.
unfoldable pub utask1 : (tid : ℕ) (p_old p_new : ℕ → ℕ) → Prog Bool
utask1 tid p_old p_new = do
  mem_count_extfrag tid 0
  r1 ← is_size_larger_than_available tid
  r2 ← test_first_fit tid
  r3 ← test_size_zero tid
  r4 ← align_check tid
  r5 ← deallocate_invalid tid
  r6 ← coalece_check tid
  code ← heap_leakage_test tid p_old p_new
  mem_count_extfrag tid 0
  ret (r1 && r2 && r3 && r4 && r5 && r6 && is_success code)

-- `task_dealloc_tester1`, by the task `first`, and then `task_dealloc_tester2`, by the task `second`.
unfoldable pub task_dealloc_testers : (first second : ℕ) → Prog Bool
task_dealloc_testers first second = do
  dealloc_pointer ← mem_alloc first 4
  r ← mem_dealloc second dealloc_pointer
  ret (not (is_ok r))
