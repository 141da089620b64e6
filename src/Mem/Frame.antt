-- ===== src/Mem/Frame.antt =====
-- What `k_mem_dealloc` leaves alone.
use preemptive_multi_tasked.Prelude.{
  ℕ, ◌+◌, ◌≡◌, ◌≢◌, refl, inl, inr, List, [], ◌∷◌, arith, Bool, false, true, Option, none, some,
  ge→ltb, lt→ltb,
}
use preemptive_multi_tasked.Mem.{Mem, Rtx, max_blocks, dealloc_front, k_mem_dealloc}
use preemptive_multi_tasked.Mem.Blocks.{Block, end, Fits, Fits-le}
use preemptive_multi_tasked.Mem.Chain.{Holds, Apart, length-lt-max_blocks}
use preemptive_multi_tasked.Mem.Dealloc.{IsBlock, reaches}
use preemptive_multi_tasked.Mem.GiveBack.{Frees, may_free, dealloc_loop-Frees, k_mem_dealloc-eq}

-- The call returns, and the control block at `a` is as it was.
abbrev pub Spares : ℕ → Mem → Option (Rtx × Mem) → Type 0
Spares a m none = ⊥
Spares a m (some (r, m')) = m'.cell a ≡ m.cell a

Frees-Spares :
    (m : Mem) (h : Block) (curr a : ℕ) (bs : List Block) (o : Bool) (r : Option (Rtx × Mem))
    → Frees m h curr bs o r
    → a ≢ h.addr
    → Apart a bs
    → Spares a m r
Frees-Spares m h curr a bs true r (m', e, g) n apart = rw e (g.same a n apart)
Frees-Spares m h curr a bs false r e n apart = rw e refl

dealloc_front-cell : (h a : ℕ) (m : Mem) → a ≢ h → (dealloc_front h m).cell a ≡ m.cell a
unfolding dealloc_front
dealloc_front-cell h a m n = ground arith

-- Where the memory holds the free blocks `bs`, none of which overlaps the block `h`, and the caller
-- may free `h`, `k_mem_dealloc` returns and changes no control block but that of `h` and those
-- inside free blocks.
pub k_mem_dealloc-frame :
    (override : Bool) (tid a : ℕ) (m : Mem) (h : Block) (valid : IsBlock m h) (bs : List Block)
    → Holds m bs
    → Fits 1 h bs
    → may_free override tid m h ≡ true
    → a ≢ h.addr
    → Apart a bs
    → Spares a m (k_mem_dealloc override tid (h.addr + 16) m)
k_mem_dealloc-frame override tid a m h valid [] held f may n apart =
    rw
      (
        k_mem_dealloc-eq override tid m h valid f may,
        ge→ltb h.addr m.head (omega (arith, held.chain)),
      )
      (Frees-Spares m h m.head a [] (reaches h []) _
        (dealloc_loop-Frees m h valid max_blocks m.head [] (length-lt-max_blocks [] held.laid)
          held.chain held.laid tt)
        n apart)
k_mem_dealloc-frame override tid a m h valid (b ∷ bs) held (pos, inl before) may n apart =
    rw
      (
        k_mem_dealloc-eq override tid m h valid pos may,
        lt→ltb h.addr m.head (omega (arith, held.chain)),
      )
      (dealloc_front-cell h.addr a m n)
k_mem_dealloc-frame override tid a m h valid (b ∷ bs) held (pos, inr after) may n apart =
    let le = Fits-le (end b) h bs after in
    rw
      (
        k_mem_dealloc-eq override tid m h valid pos may,
        ge→ltb h.addr m.head (omega (arith, held.chain)),
      )
      (Frees-Spares m h m.head a (b ∷ bs) (reaches h (b ∷ bs)) _
        (dealloc_loop-Frees m h valid max_blocks m.head (b ∷ bs)
          (length-lt-max_blocks (b ∷ bs) held.laid) held.chain held.laid (le, after))
        n apart)
