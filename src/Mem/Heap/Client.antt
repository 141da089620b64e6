-- ===== src/Mem/Heap/Client.antt =====
-- Programs that call the memory manager of RTX/src/kernel/k_mem.c, on the memory and on the heap.
use preemptive_multi_tasked.Prelude.{
  ℕ, ◌+◌, ◌^◌, ◌≡◌, refl, inl, inr, true, false, Option, none, some, leb, leb→le, Bool-cases,
}
use preemptive_multi_tasked.Mem.{Mem, Rtx, k_mem_alloc, k_mem_dealloc, k_mem_count_extfrag}
use preemptive_multi_tasked.Mem.Walks.{count_small, k_mem_count_extfrag-count}
use preemptive_multi_tasked.Mem.Heap.{Heap, IsHeap, heap_alloc, heap_free}
use preemptive_multi_tasked.Mem.Heap.Alloc.{k_mem_alloc-IsHeap}
use preemptive_multi_tasked.Mem.Heap.Free.{FreesAs, k_mem_dealloc-IsHeap}

-- A program of one or several tasks: each call is that of the task `tid`, and what follows may depend
-- on its result.
pub data Prog {ℓ} (A : Type ℓ) : Type ℓ where
  ret : A → Prog A
  alloc : (tid size : ℕ) → (ℕ → Prog A) → Prog A
  free : (tid ptr : ℕ) → (Rtx → Prog A) → Prog A
  count_extfrag : (size : ℕ) → (ℕ → Prog A) → Prog A

-- The program on the memory; `none` means that a loop has not ended.
unfoldable pub run {ℓ} : {A : Type ℓ} → Prog A → Mem → Option (A × Mem)
run (ret a) m = some (a, m)
run (alloc tid size k) m = elim (k_mem_alloc tid size m) [
  | none ↦ none
  | some (p, m') ↦ run (k p) m'
]
run (free tid ptr k) m = elim (k_mem_dealloc false tid ptr m) [
  | none ↦ none
  | some (r, m') ↦ run (k r) m'
]
run (count_extfrag size k) m = elim (k_mem_count_extfrag size m) [
  | none ↦ none
  | some n ↦ run (k n) m
]

-- The program on the heap; `none` means that a pointer to no block is given back, or that a request
-- is for more than 2 ^ 32 - 8 bytes.
unfoldable pub heap_run {ℓ} : {A : Type ℓ} → Prog A → Heap → Option (A × Heap)
heap_run (ret a) hp = some (a, hp)
heap_run (alloc tid size k) hp = elim (leb (size + 8) (2 ^ 32)) [
  | true ↦ heap_run (k (heap_alloc tid size hp).0) (heap_alloc tid size hp).1
  | false ↦ none
]
heap_run (free tid ptr k) hp = elim (heap_free tid ptr hp) [
  | none ↦ none
  | some (r, hp') ↦ heap_run (k r) hp'
]
heap_run (count_extfrag size k) hp = heap_run (k (count_small size hp.free)) hp

-- The program does on the memory what it does on the heap, where that promises something.
abbrev pub Simulates {ℓ} : {A : Type ℓ} → Option (A × Mem) → Option (A × Heap) → Type ℓ
Simulates r none = Unit
Simulates r (some (a, hp')) = (m' : Mem) × (r ≡ some (a, m')) × IsHeap m' hp'

free-Simulates {ℓ} :
    {A : Type ℓ} (tid ptr : ℕ) (k : Rtx → Prog A) (m : Mem) (o : Option (Rtx × Heap))
    → ((r : Rtx) (m' : Mem) (hp' : Heap)
        → IsHeap m' hp'
        → Simulates (run (k r) m') (heap_run (k r) hp'))
    → FreesAs tid ptr m o
    → Simulates
        (run (free tid ptr k) m)
        (elim o [ none ↦ none | some (r, hp') ↦ heap_run (k r) hp' ])
unfolding run
free-Simulates tid ptr k m none next f = tt
free-Simulates tid ptr k m (some (r, hp')) next (m', e, v) = rw (e, run) (next r m' hp' v)

-- Every program, of whatever tasks, does on the memory of a heap what it does on the heap, as long as
-- it gives back no pointer to something else than a block and asks for at most 2 ^ 32 - 8 bytes at
-- a time: it ends with the same result, and no two blocks overlap, held or free.
pub run-Simulates {ℓ} :
    {A : Type ℓ} (c : Prog A) (m : Mem) (hp : Heap)
    → IsHeap m hp
    → Simulates (run c m) (heap_run c hp)
unfolding run heap_run
run-Simulates (ret a) m hp v = (m, refl, v)
run-Simulates (alloc tid size k) m hp v = elim (Bool-cases (leb (size + 8) (2 ^ 32))) [
  | inl fits ↦
      let (m', e, v') = k_mem_alloc-IsHeap tid size m hp (leb→le _ _ fits) v in
      rw (fits, heap_run, e, run)
        (run-Simulates (k (heap_alloc tid size hp).0) m' (heap_alloc tid size hp).1 v')
  | inr long ↦ rw (long, heap_run) tt
]
run-Simulates (free tid ptr k) m hp v =
    free-Simulates tid ptr k m (heap_free tid ptr hp) (λ r m' hp' v'. run-Simulates (k r) m' hp' v')
      (k_mem_dealloc-IsHeap tid ptr m hp v)
run-Simulates (count_extfrag size k) m hp v =
    rw (k_mem_count_extfrag-count size m hp.free v.holds, run)
      (run-Simulates (k (count_small size hp.free)) m hp v)

-- What is computed on the heap holds of the memory.
pub run-eq {ℓ} :
    {A : Type ℓ} (c : Prog A) (m : Mem) (hp hp' : Heap) (x : A)
    → IsHeap m hp
    → heap_run c hp ≡ some (x, hp')
    → (m' : Mem) × (run c m ≡ some (x, m')) × IsHeap m' hp'
run-eq c m hp hp' x v e = rw e at (run-Simulates c m hp v)
