-- ===== src/Mem/FirstFit.antt =====
-- What `k_mem_alloc` promises: a first fit on the free blocks.
use preemptive_multi_tasked.Prelude.{
  ℕ, ◌+◌, ◌%◌, ◌^◌, ◌≤◌, ◌<◌, ◌≡◌, refl, List, [], ◌∷◌, arith, false, ◌==◌, Option, none, some,
  dec_lt, le→leb, gt→leb,
}
use preemptive_multi_tasked.Mem.{Mem, max_blocks, align, k_mem_alloc}
use preemptive_multi_tasked.Mem.Blocks.{
  Block, first_fit, first_fit-Outcome, Outcome, Fit, Fit-IsLaid, Fit-fits, Fit-Fits, Fit-total,
  Fits, total,
}
use preemptive_multi_tasked.Mem.Chain.{Holds, Apart, length-lt-max_blocks}
use preemptive_multi_tasked.Mem.Alloc.{Meets, alloc_loop-Meets}

-- Rounding up stays below eight bytes and gives a multiple of eight, if it does not wrap.
pub align_bounds :
    (n : ℕ)
    → n + 8 ≤ 2 ^ 32
    → (n ≤ align n) × (align n < n + 8) × (align n % 8 ≡ 0) × (align n + 8 ≤ 2 ^ 32)
align_bounds n h = ground arith

-- What a caller sees of `k_mem_alloc` where the free blocks are `bs`, against a first fit.
abbrev pub Allocates : (tid : ℕ) (m : Mem) → Option (Block × List Block) → Option (ℕ × Mem) → Type 0
Allocates tid m none r = r ≡ some (0, m)
Allocates tid m (some (taken, left)) r =
    (m' : Mem) × (r ≡ some (taken.addr + 16, m'))
    × Holds m' left
    × ((m'.cell taken.addr).tid ≡ tid)
    × ((m'.cell taken.addr).size ≡ taken.size)

positive→ne : (n : ℕ) → 0 < n → (n == 0) ≡ false
positive→ne n h = ground arith

k_mem_alloc-Meets :
    (tid size : ℕ) (m : Mem) (bs : List Block)
    → Holds m bs
    → 0 < size
    → size < 2 ^ 32
    → align size + 8 ≤ 2 ^ 32
    → Meets tid m m.head 0 bs (first_fit (align size) bs) (k_mem_alloc tid size m)
unfolding k_mem_alloc
k_mem_alloc-Meets tid size m [] held p w h = rw (held.chain)
k_mem_alloc-Meets tid size m (b ∷ bs) held p w h =
    rw (positive→ne m.head (omega (arith, held.chain, held.laid)), positive→ne size p)
      (alloc_loop-Meets tid (align size) h max_blocks m.head 0 m (b ∷ bs)
        (length-lt-max_blocks (b ∷ bs) held.laid) held.chain held.laid
        (omega (arith, held.chain, held.laid)) (λ _. omega arith) (λ e. absurd (e refl)))

module _ (tid size : ℕ) (m : Mem) (bs : List Block) (held : Holds m bs) where
  Meets-Allocates :
      (o : Option (Block × List Block)) (r : Option (ℕ × Mem))
      → (n : ℕ) → n % 8 ≡ 0
      → 0 < n
      → Outcome n bs o
      → Meets tid m m.head 0 bs o r
      → Allocates tid m o r
  Meets-Allocates none r n al p f h = h
  Meets-Allocates (some (taken, left)) r n al p f (m', e, t) = (
    m',
    e,
    record { chain = ground (arith, t.chain); laid = Fit-IsLaid n al p 1 f held.laid },
    t.owned,
    t.sized,
  )

  -- Where the memory holds the free blocks `bs`, `k_mem_alloc` for a `size` from 1 to 2 ^ 32 - 8 is
  -- a first fit for the size rounded up to a multiple of eight: it returns NULL and changes nothing
  -- if no block is large enough, and otherwise the address behind the control block of the block
  -- taken, which then carries the id of the task and its size, and the memory holds what the first
  -- fit leaves.
  pub k_mem_alloc-Allocates :
      0 < size
      → size + 8 ≤ 2 ^ 32
      → Allocates tid m (first_fit (align size) bs) (k_mem_alloc tid size m)
  k_mem_alloc-Allocates p h =
      let (lo, hi, al, top) = align_bounds size h in
      Meets-Allocates _ _ (align size) al (omega arith) (first_fit-Outcome (align size) bs)
        (k_mem_alloc-Meets tid size m bs held p (omega arith) (omega arith))

-- The call returns, and the control block at `a` is as it was.
abbrev pub Untouched : ℕ → Mem → Option (ℕ × Mem) → Type 0
Untouched a m none = ⊥
Untouched a m (some (p, m')) = m'.cell a ≡ m.cell a

Meets-Untouched :
    (tid : ℕ) (m : Mem) (bs : List Block) (a : ℕ) (o : Option (Block × List Block))
    (r : Option (ℕ × Mem))
    → 0 < a
    → Apart a bs
    → Meets tid m m.head 0 bs o r
    → Untouched a m r
Meets-Untouched tid m bs a none r pos apart h = rw h refl
Meets-Untouched tid m bs a (some (taken, left)) r pos apart (m1, e1, t) =
    rw e1 (t.same a (λ k. omega arith) apart)

-- Where the memory holds the free blocks `bs`, `k_mem_alloc` for a `size` from 1 to 2 ^ 32 - 8
-- returns and does not change a control block outside the free blocks, such as that of an allocated
-- block.
pub k_mem_alloc-frame :
    (tid size : ℕ) (m : Mem) (bs : List Block) (a : ℕ)
    → Holds m bs
    → 0 < size
    → size + 8 ≤ 2 ^ 32
    → 0 < a
    → Apart a bs
    → Untouched a m (k_mem_alloc tid size m)
k_mem_alloc-frame tid size m bs a held s h pos apart =
    Meets-Untouched tid m bs a _ _ pos apart
      (k_mem_alloc-Meets tid size m bs held s (omega arith) (align_bounds size h).3)

-- If a first fit on a memory with the free blocks `bs` takes a block for a `size` from 1 to 2 ^ 32
-- - 8, the address handed out is a multiple of eight, the block is inside the memory, has room for
-- the request and overlaps no block that stays free, and its bytes, control block included, and the
-- free ones make up those free before.
pub k_mem_alloc_block :
    (tid size : ℕ) (m : Mem) (bs left : List Block) (taken : Block)
    → Holds m bs
    → 0 < size
    → size + 8 ≤ 2 ^ 32
    → first_fit (align size) bs ≡ some (taken, left)
    → ((taken.addr + 16) % 8 ≡ 0)
      × (size ≤ taken.size)
      × (taken.addr + 16 + taken.size ≤ 0x3fff_ffff)
      × Fits 1 taken left
      × (total bs ≡ 16 + taken.size + total left)
k_mem_alloc_block tid size m bs left taken held s h e =
    let (lo, hi, al, top) = align_bounds size h in
    let f : Fit (align size) bs taken left = rw e at (first_fit-Outcome (align size) bs) in
    let fits = Fit-fits (align size) al (omega arith) 1 f held.laid in
    (
      omega arith,
      omega arith,
      omega arith,
      Fit-Fits (align size) al (omega arith) 1 f held.laid,
      Fit-total f,
    )

-- A request of more than 2 ^ 32 - 8 bytes wraps to none when it is rounded up: from a memory that
-- has a free block the caller gets the first one, with room for less than 24 bytes, instead of
-- NULL.
pub k_mem_alloc_wraps :
    (tid size : ℕ) (m : Mem) (b : Block) (bs : List Block)
    → Holds m (b ∷ bs)
    → 2 ^ 32 < size + 8
    → size < 2 ^ 32
    → (m' : Mem) × (k_mem_alloc tid size m ≡ some (b.addr + 16, m')) × ((m'.cell b.addr).size < 24)
k_mem_alloc_wraps tid size m b bs held h w =
    let zero_size : align size ≡ 0 = ground arith in
    let met = k_mem_alloc-Meets tid size m (b ∷ bs) held (omega arith) w (omega arith) in
    elim (dec_lt b.size 24) [
      | yes tight ↦
          let (m', e, t) =
            rw (zero_size, le→leb 0 b.size (omega arith), gt→leb 24 b.size tight) at met in
          (m', e, omega (arith, t.sized))
      | no large ↦
          let (m', e, t) =
            rw (zero_size, le→leb 0 b.size (omega arith), le→leb 24 b.size (omega arith)) at met in
          (m', e, omega (arith, t.sized))
    ]
