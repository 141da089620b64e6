-- ===== src/Mem/Heap/Alloc.antt =====
-- `k_mem_alloc` on the memory of a heap.
use preemptive_multi_tasked.Prelude.{
  ℕ, zero, suc, ◌+◌, ◌^◌, ◌%◌, ◌≤◌, ◌<◌, ◌≡◌, false, Option, none, some, List, [], ◌∷◌, arith, ◌==◌,
}
use preemptive_multi_tasked.Mem.{Mem, align, k_mem_alloc}
use preemptive_multi_tasked.Mem.Blocks.{Block, first_fit, first_fit-Outcome, Fit, Fit-fits, Outcome}
use preemptive_multi_tasked.Mem.FirstFit.{
  align_bounds, Allocates, Untouched, k_mem_alloc-Allocates, k_mem_alloc-frame,
}
use preemptive_multi_tasked.Mem.Clear.{
  Clear, Disjoint-sym, Fit-Clear, Clear-taken, Clear-left, Clear-Apart,
}
use preemptive_multi_tasked.Mem.Heap.{
  Held, Heap, handed, heap_alloc, IsHeld, EachHeld, Beside, IsHeap,
}

-- A held block whose control block is unchanged is still held, and clear of what is left free.
pub IsHeld-moves :
    (m m' : Mem) (bs bs' : List Block) (u : Held)
    → m'.cell u.place.addr ≡ m.cell u.place.addr
    → Clear u.place bs'
    → IsHeld m bs u
    → IsHeld m' bs' u
IsHeld-moves m m' bs bs' u e c h = record {
  valid = record {
    size = rw e h.valid.size;
    aligned = h.valid.aligned;
    room = h.valid.room;
    inside = h.valid.inside;
  };
  owner = rw e h.owner;
  low = h.low;
  clear = c;
}

EachHeld-map :
    (m m' : Mem) (bs bs' : List Block) (us : List Held)
    → ((u : Held) → IsHeld m bs u → IsHeld m' bs' u)
    → EachHeld m bs us
    → EachHeld m' bs' us
EachHeld-map m m' bs bs' [] f h = tt
EachHeld-map m m' bs bs' (u ∷ us) f h = (f u h.0, EachHeld-map m m' bs bs' us f h.1)

-- The block that a first fit takes overlaps none of those held.
Beside-taken :
    {size : ℕ} {bs : List Block} {taken : Block} {left : List Block} (m : Mem) (us : List Held)
    → Fit size bs taken left
    → EachHeld m bs us
    → Beside taken us
Beside-taken m [] f h = tt
Beside-taken {size} {bs} {taken} m (u ∷ us) f h =
    (Disjoint-sym u.place taken (Clear-taken u.place f h.0.clear), Beside-taken m us f h.1)

-- A call of `k_mem_alloc` that touches no held block gives the memory of the heap afterwards.
handed-IsHeap :
    (tid n : ℕ) (m : Mem) (hp : Heap) (o : Option (Block × List Block)) (r : Option (ℕ × Mem))
    → n % 8 ≡ 0
    → 0 < n
    → IsHeap m hp
    → Outcome n hp.free o
    → Allocates tid m o r
    → ((u : Held) → IsHeld m hp.free u → Untouched u.place.addr m r)
    → (m' : Mem) × (r ≡ some ((handed tid hp o).0, m')) × IsHeap m' (handed tid hp o).1
handed-IsHeap tid n m hp none r al pos v f a same = (m, a, v)
handed-IsHeap tid n m hp (some (taken, left)) r al pos v f (m', e, holds, owner, sized) same =
    let (lo, aligned, fits, tight, inside) = Fit-fits n al pos 1 f v.holds.laid in
    (
      m',
      e,
      record {
        holds = holds;
        each = (
          record {
            valid = record { size = sized; aligned = aligned; room = omega arith; inside = inside };
            owner = owner;
            low = lo;
            clear = Fit-Clear 1 f v.holds.laid;
          },
          EachHeld-map m m' hp.free left hp.used
              (λ u h.
                IsHeld-moves m m' hp.free left u (rw e at (same u h)) (Clear-left u.place f h.clear)
                  h)
              v.each,
        );
        sparse = (Beside-taken m hp.used f v.each, v.sparse);
      },
    )

k_mem_alloc-zero : (tid : ℕ) (m : Mem) → k_mem_alloc tid 0 m ≡ some (0, m)
unfolding k_mem_alloc
k_mem_alloc-zero tid m = ground arith

-- On the memory of a heap `k_mem_alloc`, for a `size` of at most 2 ^ 32 - 8, returns what
-- `heap_alloc` returns and leaves the memory of the heap that it leaves: no two blocks overlap.
pub k_mem_alloc-IsHeap :
    (tid size : ℕ) (m : Mem) (hp : Heap)
    → size + 8 ≤ 2 ^ 32
    → IsHeap m hp
    → (m' : Mem) × (k_mem_alloc tid size m ≡ some ((heap_alloc tid size hp).0, m'))
      × IsHeap m' (heap_alloc tid size hp).1
k_mem_alloc-IsHeap tid zero m hp w v = (m, k_mem_alloc-zero tid m, v)
k_mem_alloc-IsHeap tid (suc n) m hp w v =
    let (lo, hi, al, top) = align_bounds (suc n) w in
    let full : (suc n == 0) ≡ false = ground arith in
    rw full (
      handed-IsHeap tid (align (suc n)) m hp (first_fit (align (suc n)) hp.free)
        (k_mem_alloc tid (suc n) m) al (omega arith) v (first_fit-Outcome (align (suc n)) hp.free)
        (k_mem_alloc-Allocates tid (suc n) m hp.free v.holds (omega arith) w)
        (λ u h.
          k_mem_alloc-frame tid (suc n) m hp.free u.place.addr v.holds (omega arith) w
            (omega (arith, h.low)) (Clear-Apart u.place hp.free h.clear)))
