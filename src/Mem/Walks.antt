-- ===== src/Mem/Walks.antt =====
-- The walks of k_mem.c that find the memory ready: `k_mem_init`, `k_mem_count_extfrag`, and a
-- block that is freed again.
use preemptive_multi_tasked.Prelude.{
  ℕ, zero, suc, ◌+◌, ◌-◌, ◌^◌, ◌≤◌, ◌<◌, ◌≡◌, ◌≢◌, ◌⊎◌, inl, inr, List, [], ◌∷◌, arith, Bool, false,
  ◌==◌, if◌then◌else◌, length, none, some, add32, sub32, ltb,
}
use preemptive_multi_tasked.Mem.{
  Mem, rtx_ok, rtx_err, max_blocks, align, settle, dealloc_loop, k_mem_dealloc, k_mem_init,
  extfrag_loop, k_mem_count_extfrag,
}
use preemptive_multi_tasked.Mem.Blocks.{Block, block, end, IsLaid, IsLaid-mono}
use preemptive_multi_tasked.Mem.Chain.{Cells, Chain, Holds, length-lt-max_blocks}

-- A free block of the list starts at `a`.
abbrev pub IsFreeAt : ℕ → List Block → Type 0
IsFreeAt a [] = ⊥
IsFreeAt a (b ∷ bs) = (a ≡ b.addr) ⊎ IsFreeAt a bs

IsFreeAt-bounds :
    (c : Cells) (lo p a : ℕ) (bs : List Block)
    → Chain c p bs
    → IsLaid lo bs
    → IsFreeAt a bs
    → (lo ≤ a) × (a + 16 + (c a).size ≤ 0x3fff_ffff)
IsFreeAt-bounds c lo p a [] ch v f = absurd f
IsFreeAt-bounds c lo p a (b ∷ bs) ch v (inl e) = ground arith
IsFreeAt-bounds c lo p a (b ∷ bs) ch v (inr f) =
    omega (arith, IsFreeAt-bounds c (end b + 1) (c p).next a bs ch.2 v.4 f)

settle-before :
    (m : Mem) (curr a : ℕ) (b : Block) (bs : List Block)
    → Chain m.cell curr (b ∷ bs)
    → IsLaid 1 (b ∷ bs)
    → (m.cell curr).next ≤ a
    → end b < a
    → a + 16 + (m.cell a).size ≤ 0x3fff_ffff
    → settle a curr m ≡ none
unfolding settle
settle-before m curr a b bs c v p q r = ground arith

Chain-start_le :
    (c : Cells) (p a lo : ℕ) (bs : List Block) → Chain c p bs → IsLaid lo bs → IsFreeAt a bs → p ≤ a
Chain-start_le c p a lo [] ch v f = absurd f
Chain-start_le c p a lo (b ∷ bs) ch v (inl e) = omega arith
Chain-start_le c p a lo (b ∷ bs) ch v (inr f) =
    omega (arith, IsFreeAt-bounds c (end b + 1) (c p).next a bs ch.2 v.4 f)

dealloc_loop-free :
    (m : Mem) (fuel curr a : ℕ) (bs : List Block)
    → length bs < fuel
    → Chain m.cell curr bs
    → IsLaid 1 bs
    → IsFreeAt a bs
    → dealloc_loop fuel a curr m ≡ some (rtx_err, m)
unfolding dealloc_loop
dealloc_loop-free m zero curr a bs f c v at = elim f [ ]
dealloc_loop-free m (suc fuel) curr a [] f c v at = absurd at
dealloc_loop-free m (suc fuel) curr a (b ∷ bs) f c v (inl e) = ground arith
dealloc_loop-free m (suc fuel) curr a (b ∷ bs) f c v (inr at) =
    let (above, inside) = IsFreeAt-bounds m.cell (end b + 1) (m.cell curr).next a bs c.2 v.4 at in
    let start = Chain-start_le m.cell (m.cell curr).next a (end b + 1) bs c.2 v.4 at in
    let no_null : (curr == 0) ≡ false = ground arith in
    let other : (curr == a) ≡ false = ground arith in
    rw (no_null, other, settle-before m curr a b bs c v start (omega arith) inside)
      (dealloc_loop-free m fuel (m.cell curr).next a bs (omega arith) c.2
        (IsLaid-mono bs (omega arith) v.4) at)

-- A block that is free and starts one of the free blocks that the memory holds is not freed again:
-- whoever asks, the call fails and changes nothing.
pub k_mem_dealloc-free :
    (override : Bool) (tid a : ℕ) (m : Mem) (bs : List Block)
    → Holds m bs
    → IsFreeAt a bs
    → k_mem_dealloc override tid (a + 16) m ≡ some (rtx_err, m)
unfolding k_mem_dealloc
k_mem_dealloc-free override tid a m bs held at =
    let (above, inside) = IsFreeAt-bounds m.cell 1 m.head a bs held.chain held.laid at in
    let back : sub32 (a + 16) 16 ≡ a = omega arith in
    let start = Chain-start_le m.cell m.head a 1 bs held.chain held.laid at in
    rw back (
      ground (
        arith,
        dealloc_loop-free m max_blocks m.head a bs (length-lt-max_blocks bs held.laid) held.chain
            held.laid at,
      ))

-- A task that does not own the block is refused by `k_mem_dealloc`, unless ownership is overridden,
-- and the memory is unchanged.
pub k_mem_dealloc-denied :
    (tid ptr : ℕ) (m : Mem)
    → tid ≢ (m.cell (sub32 ptr 16)).tid
    → k_mem_dealloc false tid ptr m ≡ some (rtx_err, m)
unfolding k_mem_dealloc
k_mem_dealloc-denied tid ptr m h = ground arith

-- The free blocks that hold fewer than `size` bytes, control block included.
abbrev pub count_small : ℕ → List Block → ℕ
count_small size [] = 0
count_small size (b ∷ bs) = (if ltb (b.size + 16) size then 1 else 0) + count_small size bs

extfrag_loop-count :
    (fuel size curr count : ℕ) (m : Mem) (bs : List Block)
    → length bs < fuel
    → Chain m.cell curr bs
    → IsLaid 1 bs
    → extfrag_loop fuel size curr count m ≡ some (count + count_small size bs)
unfolding extfrag_loop
extfrag_loop-count zero size curr count m bs f c v = elim f [ ]
extfrag_loop-count (suc fuel) size curr count m [] f c v = ground arith
extfrag_loop-count (suc fuel) size curr count m (b ∷ bs) f c v =
    let small = ltb (add32 (m.cell curr).size 16) size in
    ground (
      arith,
      extfrag_loop-count fuel size (m.cell curr).next (if small then count + 1 else count) m bs
          (omega arith) c.2 (IsLaid-mono bs (omega arith) v.4),
    )

-- Where the memory holds the free blocks `bs`, `k_mem_count_extfrag` ends and counts those that are
-- smaller than `size`, control block included.
pub k_mem_count_extfrag-count :
    (size : ℕ) (m : Mem) (bs : List Block)
    → Holds m bs
    → k_mem_count_extfrag size m ≡ some (count_small size bs)
unfolding k_mem_count_extfrag
k_mem_count_extfrag-count size m bs held = ground (
  arith,
  extfrag_loop-count max_blocks size m.head 0 m bs (length-lt-max_blocks bs held.laid) held.chain
      held.laid,
)

-- If the end of the image, rounded up, leaves room for a control block and eight bytes below
-- `ram_end`, `k_mem_init` succeeds and the memory holds one free block, from there to `ram_end`.
pub k_mem_init-Holds :
    (end_addr : ℕ) (m : Mem)
    → 0 < end_addr
    → align end_addr + 24 ≤ 0x3fff_ffff
    → end_addr ≤ 0x3fff_ffff
    → let (r, m') = k_mem_init end_addr m in
      (r ≡ rtx_ok) × Holds m' (block (align end_addr) (0x3fff_ffff - align end_addr - 16) ∷ [])
unfolding k_mem_init
k_mem_init-Holds end_addr m pos room le = ground arith

-- An image whose end, rounded up without wrapping, leaves less than a control block below `ram_end`
-- is accepted by `k_mem_init` all the same.
pub k_mem_init_full :
    (end_addr : ℕ) (m : Mem)
    → end_addr + 8 ≤ 2 ^ 32
    → 0x3fff_ffff < align end_addr + 16
    → (k_mem_init end_addr m).0 ≡ rtx_ok
unfolding k_mem_init
k_mem_init_full end_addr m w full = ground arith
