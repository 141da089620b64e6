-- ===== src/Mem/Chain.antt =====
-- The free list in memory against the list of blocks that it stands for.
use preemptive_multi_tasked.Prelude.{ℕ, ◌+◌, ◌≤◌, ◌<◌, ◌≡◌, ◌≢◌, ◌⊎◌, List, [], ◌∷◌, arith, length}
use preemptive_multi_tasked.Mem.{ControlBlock, Mem, max_blocks}
use preemptive_multi_tasked.Mem.Blocks.{Block, end, IsLaid, length-le}

abbrev pub Cells : Type 0
Cells = ℕ → ControlBlock

-- From `p` the `next` pointers lead through the control blocks of `bs` to NULL.
abbrev pub Chain : Cells → ℕ → List Block → Type 0
Chain c p [] = p ≡ 0
Chain c p (b ∷ bs) = (p ≡ b.addr) × ((c p).size ≡ b.size) × Chain c (c p).next bs

-- The memory holds the free blocks `bs`, from `HEAD` on.
pub record Holds (m : Mem) (bs : List Block) : Type 0 where
  pub chain : Chain m.cell m.head bs
  pub laid : IsLaid 1 bs

-- A chain survives any change below it.
pub Chain-frame :
    (c d : Cells) (lo p : ℕ) (bs : List Block)
    → IsLaid lo bs
    → ((a : ℕ) → lo ≤ a → d a ≡ c a)
    → Chain c p bs
    → Chain d p bs
Chain-frame c d lo p [] v same h = h
Chain-frame c d lo p (b ∷ bs) v same h =
    ground
      (arith, same p, Chain-frame c d (end b + 1) (c p).next bs v.4 (λ a k. same a (omega arith)))

-- The rounds of a walk are within `max_blocks`.
pub length-lt-max_blocks : (bs : List Block) → IsLaid 1 bs → length bs < max_blocks
unfolding max_blocks
length-lt-max_blocks bs v = omega (arith, length-le 1 bs v (omega arith))

-- The address `a` is in none of the blocks.
abbrev pub Apart : ℕ → List Block → Type 0
Apart a [] = Unit {0}
Apart a (b ∷ bs) = ((a < b.addr) ⊎ (end b ≤ a)) × Apart a bs

-- A chain is empty or starts at its first block.
pub Chain-start :
    (c : Cells) (lo p : ℕ) (bs : List Block) → IsLaid lo bs → Chain c p bs → p ≢ 0 → lo ≤ p
Chain-start c lo p [] v h n = absurd (n h)
Chain-start c lo p (b ∷ bs) v h n = omega arith
