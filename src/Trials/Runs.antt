-- ===== src/Trials/Runs.antt =====
-- Programs on a heap, one call after the other.
use preemptive_multi_tasked.Prelude.{
  ℕ, ◌+◌, ◌-◌, ◌^◌, ◌≤◌, ◌<◌, ◌≡◌, refl, ap, ◌∙◌, Bool, true, false, Option, List, [], ◌∷◌, some,
  none, arith, if◌then◌else◌, le→leb, leb, inl, inr, Bool-cases, Option-cases,
}
use preemptive_multi_tasked.Mem.{Rtx}
use preemptive_multi_tasked.Mem.Blocks.{Block, block}
use preemptive_multi_tasked.Mem.Heap.{Heap, Held, held, heap_alloc, heap_free}
use preemptive_multi_tasked.Mem.Heap.Client.{Prog, ret, alloc, free, count_extfrag, heap_run}
use preemptive_multi_tasked.Mem.Walks.{count_small}
use preemptive_multi_tasked.Trials.{◌>>=◌}

pub heap_run-alloc :
    {A : Type 0} (tid size p : ℕ) (k : ℕ → Prog A) (hp hp' : Heap)
    → size + 8 ≤ 2 ^ 32
    → heap_alloc tid size hp ≡ (p, hp')
    → heap_run (alloc tid size k) hp ≡ heap_run (k p) hp'
unfolding heap_run
heap_run-alloc {A} tid size p k hp hp' w e =
    rw (le→leb _ _ w, heap_run) (ap (λ (r : ℕ × Heap). heap_run (k r.0) r.1) e)

pub heap_run-free :
    {A : Type 0} (tid ptr : ℕ) (r : Rtx) (k : Rtx → Prog A) (hp hp' : Heap)
    → heap_free tid ptr hp ≡ some (r, hp')
    → heap_run (free tid ptr k) hp ≡ heap_run (k r) hp'
unfolding heap_run
heap_run-free {A} tid ptr r k hp hp' e =
    ap
      (λ (o : Option (Rtx × Heap)).
        let y : Option (A × Heap) = elim o [ none ↦ none | some (r', h) ↦ heap_run (k r') h ] in y)
      e

pub heap_run-count :
    {A : Type 0} (size c : ℕ) (k : ℕ → Prog A) (hp : Heap)
    → count_small size hp.free ≡ c
    → heap_run (count_extfrag size k) hp ≡ heap_run (k c) hp
unfolding heap_run
heap_run-count size c k hp e = ap (λ i. heap_run (k i) hp) e

pub heap_run-ret : {A : Type 0} (x : A) (hp : Heap) → heap_run (ret x) hp ≡ some (x, hp)
unfolding heap_run
heap_run-ret x hp = refl

pub heap_run-true : (x : Bool) (hp : Heap) → x ≡ true → heap_run (ret x) hp ≡ some (true, hp)
unfolding heap_run
heap_run-true x hp e = rw e refl

pub heap_run-if :
    {A : Type 0} (x : Bool) (c d : Prog A) (hp : Heap)
    → x ≡ false
    → heap_run (if x then c else d) hp ≡ heap_run d hp
heap_run-if x c d hp e = rw e refl

-- One free block, of `n` bytes at `a`.
abbrev pub one_free : (a n : ℕ) → List Held → Heap
one_free a n used = record { free = block a n ∷ []; used = used }

abbrev pub heap : List Block → List Held → Heap
heap fs us = record { free = fs; used = us }

pub heap_run-bind :
    {A B : Type 0} (c : Prog A) (f : A → Prog B) (hp : Heap) (x : A) (hp' : Heap)
    → heap_run c hp ≡ some (x, hp')
    → heap_run (c >>= f) hp ≡ heap_run (f x) hp'
unfolding heap_run ◌>>=◌
heap_run-bind (ret a) f hp x hp' e = ground (arith, e)
heap_run-bind (alloc tid size k) f hp x hp' e = elim (Bool-cases (leb (size + 8) (2 ^ 32))) [
  | inl fits ↦
      rw (fits, heap_run)
        (heap_run-bind (k (heap_alloc tid size hp).0) f (heap_alloc tid size hp).1 x hp'
          (rw (fits, heap_run) at e))
  | inr long ↦ absurd (cc (rw (long, heap_run) at e))
]
heap_run-bind (free tid ptr k) f hp x hp' e = elim (Option-cases (heap_free tid ptr hp)) [
  | inl lost ↦ absurd (cc (rw (lost, heap_run) at e))
  | inr ((r, h), kept) ↦
      rw (kept, heap_run) (heap_run-bind (k r) f h x hp' (rw (kept, heap_run) at e))
]
heap_run-bind (count_extfrag size k) f hp x hp' e =
    heap_run-bind (k (count_small size hp.free)) f hp x hp' e

module _ (tid a n : ℕ) (used : List Held) (pos : 1 ≤ a) (room : 300 ≤ n)
    (inside : a + n < 2 ^ 30) where
  -- The block of 32 bytes at the distance `d` from `a`.
  abbrev pub mine : ℕ → Held
  mine d = held tid (block (a + d) 32)

  -- The memory is used up to the distance `d`.
  abbrev pub up_to : ℕ → List Held → Heap
  up_to d us = record { free = block (a + d) (n - d) ∷ []; used = us }

  alloc_first : heap_alloc tid 32 (one_free a n used) ≡ (a + 16, up_to 48 (mine 0 ∷ used))
  alloc_first = ground arith

  pub alloc_next :
      (d : ℕ) (us : List Held)
      → d + 56 ≤ n
      → heap_alloc tid 32 (up_to d us) ≡ (a + d + 16, up_to (d + 48) (mine d ∷ us))
  alloc_next d us h = ground arith

  -- Four blocks in a row.
  abbrev pub four : List Held
  four = mine 144 ∷ mine 96 ∷ mine 48 ∷ mine 0 ∷ used

  pub heap_run-four :
      {A : Type 0} (k : ℕ → ℕ → ℕ → ℕ → Prog A)
      → heap_run
          (alloc tid 32
            (λ p. alloc tid 32 (λ q. alloc tid 32 (λ r. alloc tid 32 (λ s. k p q r s)))))
          (one_free a n used)
        ≡ heap_run (k (a + 16) (a + 48 + 16) (a + 96 + 16) (a + 144 + 16)) (up_to 192 four)
  heap_run-four k =
      heap_run-alloc tid 32 (a + 16) _ (one_free a n used) _ (omega arith) alloc_first
      ∙ heap_run-alloc tid 32 (a + 48 + 16) _ _ _ (omega arith) (alloc_next 48 _ (omega arith))
      ∙ heap_run-alloc tid 32 (a + 96 + 16) _ _ _ (omega arith) (alloc_next 96 _ (omega arith))
      ∙ heap_run-alloc tid 32 (a + 144 + 16) _ _ _ (omega arith) (alloc_next 144 _ (omega arith))
