-- ===== src/Mem/Heap.antt =====
-- The memory manager as its callers see it: free blocks, and blocks that tasks hold.
pub mod Alloc
pub mod Free
pub mod Client
mod Tests
use preemptive_multi_tasked.Prelude.{
  ℕ, zero, suc, ◌+◌, ◌^◌, ◌%◌, ◌≤◌, ◌<◌, ◌≡◌, ◌≢◌, refl, sym, ◌∙◌, inl, inr, Bool, true, false,
  ◌&&◌, ◌||◌, Option, none, some, List, [], ◌∷◌, arith, ◌==◌, if◌then◌else◌, Bool-cases, ==_iff,
  sub32,
}
use preemptive_multi_tasked.Mem.{Mem, Rtx, rtx_ok, rtx_err, align, k_mem_alloc, k_mem_dealloc}
use preemptive_multi_tasked.Mem.Blocks.{
  Block, end, first_fit, first_fit-Outcome, Fit, Fit-fits, give, Outcome,
}
use preemptive_multi_tasked.Mem.Chain.{Holds}
use preemptive_multi_tasked.Mem.Dealloc.{IsBlock, reaches}
use preemptive_multi_tasked.Mem.GiveBack.{k_mem_dealloc-Releases, Releases}
use preemptive_multi_tasked.Mem.FirstFit.{
  align_bounds, Allocates, Untouched, k_mem_alloc-Allocates, k_mem_alloc-frame,
}
use preemptive_multi_tasked.Mem.Frame.{Spares, k_mem_dealloc-frame}
use preemptive_multi_tasked.Mem.Walks.{IsFreeAt, k_mem_dealloc-free, k_mem_dealloc-denied}
use preemptive_multi_tasked.Mem.Clear.{
  Disjoint, Clear, Disjoint-sym, Fit-Clear, Clear-taken, Clear-left, Clear-give, Clear-Fits,
  Clear-Apart,
}

-- A block that the task `owner` holds.
pub record Held : Type 0 where
  pub owner : ℕ
  pub place : Block

pub record Heap : Type 0 where
  pub free : List Block
  pub used : List Held

abbrev pub held : ℕ → Block → Held
held o b = record { owner = o; place = b }

-- Allocation, after a first fit.
abbrev pub handed : ℕ → Heap → Option (Block × List Block) → ℕ × Heap
handed tid hp none = (0, hp)
handed tid hp (some (taken, left)) =
    (taken.addr + 16, record { free = left; used = held tid taken ∷ hp.used })

abbrev pub heap_alloc : (tid size : ℕ) → Heap → ℕ × Heap
heap_alloc tid size hp =
    if size == 0 then (0, hp) else handed tid hp (first_fit (align size) hp.free)

-- The block whose bytes start at `p`, and the others.
abbrev pub take_held : ℕ → List Held → Option (Held × List Held)
take_held p [] = none
take_held p (u ∷ us) =
    let rest = take_held p us in
    if u.place.addr + 16 == p
    then some (u, us)
    else (elim rest [ none ↦ none | some (w, ws) ↦ some (w, u ∷ ws) ])

-- The bytes behind the control block of a free block start at `p`.
abbrev pub is_free : ℕ → List Block → Bool
is_free p [] = false
is_free p (b ∷ bs) = b.addr + 16 == p || is_free p bs

abbrev pub released : ℕ → Heap → Option (Held × List Held) → Option (Rtx × Heap)
released tid hp none = none
released tid hp (some (u, rest)) =
    if u.owner == tid && reaches u.place hp.free
    then some (rtx_ok, record { free = give u.place hp.free; used = rest })
    else some (rtx_err, hp)

-- A task gives back the block at `p`. Nothing is promised for a pointer to no block.
abbrev pub heap_free : (tid p : ℕ) → Heap → Option (Rtx × Heap)
heap_free tid p hp =
    if p == 0 || is_free p hp.free
    then some (rtx_err, hp)
    else released tid hp (take_held p hp.used)

-- The block is in memory as its holder left it, and overlaps no free block.
pub record IsHeld (m : Mem) (bs : List Block) (u : Held) : Type 0 where
  pub valid : IsBlock m u.place
  pub owner : (m.cell u.place.addr).tid ≡ u.owner
  pub low : 1 ≤ u.place.addr
  pub clear : Clear u.place bs

abbrev pub EachHeld : Mem → List Block → List Held → Type 0
EachHeld m bs [] = Unit {0}
EachHeld m bs (u ∷ us) = IsHeld m bs u × EachHeld m bs us

-- The block overlaps none of those held.
abbrev pub Beside : Block → List Held → Type 0
Beside h [] = Unit {0}
Beside h (u ∷ us) = Disjoint h u.place × Beside h us

abbrev pub Sparse : List Held → Type 0
Sparse [] = Unit {0}
Sparse (u ∷ us) = Beside u.place us × Sparse us

-- The memory is that of the heap: no two blocks overlap, held or free.
pub record IsHeap (m : Mem) (hp : Heap) : Type 0 where
  pub holds : Holds m hp.free
  pub each : EachHeld m hp.free hp.used
  pub sparse : Sparse hp.used
