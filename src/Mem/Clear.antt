-- ===== src/Mem/Clear.antt =====
-- Blocks that do not overlap, and what first fit and give-back do to them.
use preemptive_multi_tasked.Prelude.{
  ℕ, ◌+◌, ◌≤◌, ◌≡◌, ◌⊎◌, inl, inr, List, [], ◌∷◌, arith, ltb, ◌==◌, Bool-cases,
}
use preemptive_multi_tasked.Mem.Blocks.{
  Block, block, end, IsLaid, Fit, split_here, whole_here, further, Fits, give, join,
}
use preemptive_multi_tasked.Mem.Chain.{Apart}

abbrev pub Disjoint : Block → Block → Type 0
Disjoint h b = (end h ≤ b.addr) ⊎ (end b ≤ h.addr)

-- The block `h` overlaps none of the blocks.
abbrev pub Clear : Block → List Block → Type 0
Clear h [] = Unit {0}
Clear h (b ∷ bs) = Disjoint h b × Clear h bs

pub Disjoint-sym : (h b : Block) → Disjoint h b → Disjoint b h
Disjoint-sym h b (inl e) = inr e
Disjoint-sym h b (inr e) = inl e

Clear-behind : (lo : ℕ) (h : Block) (bs : List Block) → IsLaid lo bs → end h ≤ lo → Clear h bs
Clear-behind lo h [] v e = tt
Clear-behind lo h (b ∷ bs) v e =
    (inl (omega arith), Clear-behind (end b + 1) h bs v.4 (omega arith))

-- A block that overlaps no free block lies in a gap.
pub Clear-Fits : (lo : ℕ) (h : Block) (bs : List Block) → lo ≤ h.addr → Clear h bs → Fits lo h bs
Clear-Fits lo h [] p c = p
Clear-Fits lo h (b ∷ bs) p (inl e, c) = (p, inl e)
Clear-Fits lo h (b ∷ bs) p (inr e, c) = (p, inr (Clear-Fits (end b) h bs e c))

pub Clear-Apart : (h : Block) (bs : List Block) → Clear h bs → Apart h.addr bs
Clear-Apart h [] c = tt
Clear-Apart h (b ∷ bs) (inl e, c) = (inl (omega arith), Clear-Apart h bs c)
Clear-Apart h (b ∷ bs) (inr e, c) = (inr e, Clear-Apart h bs c)

Fit-le :
    {size : ℕ} {bs : List Block} {taken : Block} {left : List Block} (lo : ℕ)
    → Fit size bs taken left
    → IsLaid lo bs
    → lo ≤ taken.addr
Fit-le lo (split_here h) v = v.0
Fit-le lo (whole_here h k) v = v.0
Fit-le lo (further {b} h f) v = omega (arith, Fit-le (end b + 1) f v.4)

-- The block handed out overlaps no block that stays free.
pub Fit-Clear :
    {size : ℕ} {bs : List Block} {taken : Block} {left : List Block} (lo : ℕ)
    → Fit size bs taken left
    → IsLaid lo bs
    → Clear taken left
Fit-Clear lo (split_here {b} {bs} h) v =
    (inl (omega arith), Clear-behind (end b + 1) _ bs v.4 (omega arith))
Fit-Clear lo (whole_here {b} {bs} h k) v = Clear-behind (end b + 1) b bs v.4 (omega arith)
Fit-Clear lo (further {b} h f) v =
    (inr (omega (arith, Fit-le (end b + 1) f v.4)), Fit-Clear (end b + 1) f v.4)

-- A block that overlaps no free block overlaps neither the one handed out nor those left.
pub Clear-taken :
    {size : ℕ} {bs : List Block} {taken : Block} {left : List Block} (h : Block)
    → Fit size bs taken left
    → Clear h bs
    → Disjoint h taken
Clear-taken h (split_here k) (inl e, c) = inl (omega arith)
Clear-taken h (split_here k) (inr e, c) = inr (omega arith)
Clear-taken h (whole_here k l) (d, c) = d
Clear-taken h (further k f) (d, c) = Clear-taken h f c

pub Clear-left :
    {size : ℕ} {bs : List Block} {taken : Block} {left : List Block} (h : Block)
    → Fit size bs taken left
    → Clear h bs
    → Clear h left
Clear-left h (split_here k) (inl e, c) = (inl (omega arith), c)
Clear-left h (split_here k) (inr e, c) = (inr (omega arith), c)
Clear-left h (whole_here k l) (d, c) = c
Clear-left h (further k f) (d, c) = (d, Clear-left h f c)

-- So does a block given back, joined to its neighbours.
Clear-join : (h b : Block) (bs : List Block) → Disjoint h b → Clear h bs → Clear h (join b bs)
Clear-join h b [] d c = (d, tt)
Clear-join h b (x ∷ xs) d c = elim (Bool-cases (end b == x.addr)) [
  | inl e ↦ rw e (Disjoint-union h b x d c.0 (ground arith), c.1)
  | inr e ↦ rw e (d, c)
]
  where
    Disjoint-union :
        (h b x : Block)
        → Disjoint h b
        → Disjoint h x
        → end b ≡ x.addr
        → Disjoint h (block b.addr (b.size + 16 + x.size))
    Disjoint-union h b x (inl p) q e = inl p
    Disjoint-union h b x (inr p) (inl q) e = absurd (omega arith)
    Disjoint-union h b x (inr p) (inr q) e = inr (omega arith)

pub Clear-give : (h g : Block) (bs : List Block) → Disjoint h g → Clear h bs → Clear h (give g bs)
Clear-give h g [] d c = (d, tt)
Clear-give h g (b ∷ bs) d c = elim (Bool-cases (ltb g.addr b.addr)) [
  | inl e ↦ rw e (Clear-join h g (b ∷ bs) d c)
  | inr e ↦ rw e (Clear-join h b (give g bs) c.0 (Clear-give h g bs d c.1))
]
