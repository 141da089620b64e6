-- ===== src/Mem/Blocks.antt =====
-- The free memory as a list of blocks, lowest address first: what k_mem.c promises.
use preemptive_multi_tasked.Prelude.{
  ℕ, ◌+◌, ◌-◌, ◌*◌, ◌%◌, ◌^◌, ◌≤◌, ◌<◌, ◌≡◌, refl, ◌⊎◌, inl, inr, Option, none, some, List, [], ◌∷◌,
  arith, ltb, leb, ◌==◌, if◌then◌else◌, length, ge→ltb, gt→leb, le→leb, dec_lt,
}

-- `size` counts the bytes behind the control block of 16 bytes.
pub record Block : Type 0 where
  pub addr : ℕ
  pub size : ℕ

abbrev pub block : ℕ → ℕ → Block
block a s = record { addr = a; size = s }

-- The first address behind a block.
abbrev pub end : Block → ℕ
end b = b.addr + 16 + b.size

-- The bytes of the blocks, control blocks included.
abbrev pub total : List Block → ℕ
total [] = 0
total (b ∷ bs) = 16 + b.size + total bs

-- A first fit: the block that is handed out, and the blocks that stay free.
abbrev pub first_fit : ℕ → List Block → Option (Block × List Block)
first_fit size [] = none
first_fit size (b ∷ bs) =
    let rest = first_fit size bs in
    if leb size b.size
    then (if leb (size + 24) b.size
        then some (block b.addr size, block (b.addr + 16 + size) (b.size - size - 16) ∷ bs)
        else some (b, bs))
    else elim rest [ none ↦ none | some (taken, left) ↦ some (taken, b ∷ left) ]

-- A block in front of a list, joined to the first if they touch.
abbrev pub join : Block → List Block → List Block
join b [] = b ∷ []
join b (c ∷ cs) = if end b == c.addr then block b.addr (b.size + 16 + c.size) ∷ cs else b ∷ c ∷ cs

-- A block put in its place by address and joined to its neighbours.
abbrev pub give : Block → List Block → List Block
give h [] = h ∷ []
give h (b ∷ bs) = let rest = give h bs in if ltb h.addr b.addr then join h (b ∷ bs) else join b rest

-- From `lo` on: aligned, within the memory, in order, and no two free blocks touch.
abbrev pub IsLaid : ℕ → List Block → Type 0
IsLaid lo [] = Unit {0}
IsLaid lo (b ∷ bs) =
    (lo ≤ b.addr) × (b.addr % 8 ≡ 0) × (8 ≤ b.size) × (end b ≤ 0x3fff_ffff) × IsLaid (end b + 1) bs

pub IsLaid-mono : {lo hi : ℕ} (bs : List Block) → lo ≤ hi → IsLaid hi bs → IsLaid lo bs
IsLaid-mono [] h v = tt
IsLaid-mono (b ∷ bs) h v = (omega arith, v.1, v.2, v.3, v.4)

-- The blocks are at most 2 ^ 26, so that `max_blocks` rounds visit them all.
pub length-le :
    (lo : ℕ) (bs : List Block) → IsLaid lo bs → lo ≤ 2 ^ 30 → length bs * 24 + lo ≤ 2 ^ 30
length-le lo [] v h = omega arith
length-le lo (b ∷ bs) v h = omega (arith, length-le (end b + 1) bs v.4 (omega arith))

-- The block `h` lies in a gap of the list.
abbrev pub Fits : ℕ → Block → List Block → Type 0
Fits lo h [] = lo ≤ h.addr
Fits lo h (b ∷ bs) = (lo ≤ h.addr) × ((end h ≤ b.addr) ⊎ (Fits (end b) h bs))

pub Fits-mono : {lo hi : ℕ} (h : Block) (bs : List Block) → lo ≤ hi → Fits hi h bs → Fits lo h bs
Fits-mono h [] p f = omega arith
Fits-mono h (b ∷ bs) p f = (omega arith, f.1)

Fits-front :
    (lo : ℕ) (h : Block) (bs : List Block) → lo ≤ h.addr → IsLaid (end h + 1) bs → Fits lo h bs
Fits-front lo h [] p v = p
Fits-front lo h (b ∷ bs) p v = (p, inl (omega arith))

pub Fits-le : (lo : ℕ) (h : Block) (bs : List Block) → Fits lo h bs → lo ≤ h.addr
Fits-le lo h [] f = f
Fits-le lo h (b ∷ bs) f = f.0

-- Blocks that do not touch stay apart.
pub join_apart : (b : Block) (bs : List Block) → IsLaid (end b + 1) bs → join b bs ≡ b ∷ bs
join_apart b [] v = refl
join_apart b (c ∷ cs) v = ground arith

give_front : (b : Block) (bs : List Block) → IsLaid (end b + 1) bs → give b bs ≡ b ∷ bs
give_front b [] v = refl
give_front b (c ∷ cs) v = ground arith

-- The runs of a first fit: the first block that is large enough, split or whole.
pub data Fit (size : ℕ) : List Block → Block → List Block → Type 0 where
  split_here :
      {b : Block} {bs : List Block}
      → size + 24 ≤ b.size
      → Fit size (b ∷ bs) (block b.addr size) (block (b.addr + 16 + size) (b.size - size - 16) ∷ bs)
  whole_here :
      {b : Block} {bs : List Block} → size ≤ b.size → b.size < size + 24 → Fit size (b ∷ bs) b bs
  further :
      {b taken : Block} {bs left : List Block}
      → b.size < size
      → Fit size bs taken left
      → Fit size (b ∷ bs) taken (b ∷ left)

-- No block is large enough.
abbrev pub AllBelow : ℕ → List Block → Type 0
AllBelow size [] = Unit {0}
AllBelow size (b ∷ bs) = (b.size < size) × AllBelow size bs

abbrev pub Outcome : ℕ → List Block → Option (Block × List Block) → Type 0
Outcome size bs none = AllBelow size bs
Outcome size bs (some (taken, left)) = Fit size bs taken left

skip-Outcome :
    {size : ℕ} (b : Block) (bs : List Block) (o : Option (Block × List Block))
    → b.size < size
    → Outcome size bs o
    → Outcome size (b ∷ bs) (elim o [ none ↦ none | some (taken, left) ↦ some (taken, b ∷ left) ])
skip-Outcome b bs none h v = (h, v)
skip-Outcome b bs (some (taken, left)) h v = further h v

-- A first fit takes the first block that is large enough, and fails when there is none.
pub first_fit-Outcome : (size : ℕ) (bs : List Block) → Outcome size bs (first_fit size bs)
first_fit-Outcome size [] = tt
first_fit-Outcome size (b ∷ bs) = elim (dec_lt b.size size) [
  | yes small ↦
      rw (gt→leb size b.size small) (skip-Outcome b bs _ small (first_fit-Outcome size bs))
  | no fits ↦ elim (dec_lt b.size (size + 24)) [
    | yes tight ↦
        rw (le→leb size b.size (omega arith), gt→leb (size + 24) b.size tight)
          (whole_here (omega arith) tight)
    | no large ↦
        rw (le→leb size b.size (omega arith), le→leb (size + 24) b.size (omega arith))
          (split_here (omega arith))
  ]
]

module _ (size : ℕ) (aligned : size % 8 ≡ 0) (pos : 0 < size) where
  -- What is left is laid out as before.
  pub Fit-IsLaid :
      {bs : List Block} {taken : Block} {left : List Block} (lo : ℕ)
      → Fit size bs taken left
      → IsLaid lo bs
      → IsLaid lo left
  Fit-IsLaid lo (split_here {b} {bs} h) v =
      (omega arith, omega arith, omega arith, omega arith, IsLaid-mono bs (omega arith) v.4)
  Fit-IsLaid lo (whole_here {b} {bs} h k) v = IsLaid-mono bs (omega arith) v.4
  Fit-IsLaid lo (further {b} h f) v = (v.0, v.1, v.2, v.3, Fit-IsLaid (end b + 1) f v.4)

  -- The block handed out is aligned, within the memory and large enough.
  pub Fit-fits :
      {bs : List Block} {taken : Block} {left : List Block} (lo : ℕ)
      → Fit size bs taken left
      → IsLaid lo bs
      → (lo ≤ taken.addr)
        × (taken.addr % 8 ≡ 0)
        × (size ≤ taken.size)
        × (taken.size < size + 24)
        × (end taken ≤ 0x3fff_ffff)
  Fit-fits lo (split_here h) v = omega arith
  Fit-fits lo (whole_here h k) v = omega arith
  Fit-fits lo (further {b} h f) v = omega (arith, Fit-fits (end b + 1) f v.4)

  -- The block handed out lies in a gap of what is left.
  pub Fit-Fits :
      {bs : List Block} {taken : Block} {left : List Block} (lo : ℕ)
      → Fit size bs taken left
      → IsLaid lo bs
      → Fits lo taken left
  Fit-Fits lo (split_here h) v = (v.0, inl (omega arith))
  Fit-Fits lo (whole_here {b} {bs} h k) v = Fits-front lo b bs v.0 v.4
  Fit-Fits lo (further {b} h f) v = (
    omega (arith, Fit-fits (end b + 1) f v.4),
    inr (Fits-mono _ _ (omega arith) (Fit-Fits (end b + 1) f v.4)),
  )

  -- Given back, it leaves the list as it was.
  pub give-Fit :
      {bs : List Block} {taken : Block} {left : List Block} (lo : ℕ)
      → Fit size bs taken left
      → IsLaid lo bs
      → give taken left ≡ bs
  give-Fit lo (split_here {b} {bs} h) v = ground arith
  give-Fit lo (whole_here {b} {bs} h k) v = give_front b bs v.4
  give-Fit lo (further {b} {taken} {bs} {left} h f) v =
      ground (arith, give-Fit (end b + 1) f v.4, Fit-fits (end b + 1) f v.4, join_apart b bs v.4)

-- No byte is lost or made up.
pub Fit-total :
    {size : ℕ} {bs : List Block} {taken : Block} {left : List Block}
    → Fit size bs taken left
    → total bs ≡ 16 + taken.size + total left
Fit-total (split_here h) = omega arith
Fit-total (whole_here h k) = omega arith
Fit-total (further h f) = omega (arith, Fit-total f)

pub join-IsLaid :
    (lo : ℕ) (b : Block) (bs : List Block)
    → lo ≤ b.addr
    → b.addr % 8 ≡ 0
    → 8 ≤ b.size
    → end b ≤ 0x3fff_ffff
    → IsLaid (end b) bs
    → IsLaid lo (join b bs)
join-IsLaid lo b [] p q r s v = (p, q, r, s, tt)
join-IsLaid lo b (c ∷ cs) p q r s v =
    ground (arith, IsLaid-mono {lo = end b + 1} {hi = end c + 1} cs)

pub total-join : (b : Block) (bs : List Block) → total (join b bs) ≡ 16 + b.size + total bs
total-join b [] = refl
total-join b (c ∷ cs) = ground arith

-- A block given back into a gap leaves the list laid out as before.
pub give-IsLaid :
    (lo : ℕ) (h : Block) (bs : List Block)
    → IsLaid lo bs
    → h.addr % 8 ≡ 0
    → 8 ≤ h.size
    → end h ≤ 0x3fff_ffff
    → Fits lo h bs
    → IsLaid lo (give h bs)
give-IsLaid lo h [] v q r s f = (f, q, r, s, tt)
give-IsLaid lo h (b ∷ bs) v q r s (p, inl before) =
    ground (arith, IsLaid-mono {lo = end h + 1} {hi = end b + 1} bs)
give-IsLaid lo h (b ∷ bs) v q r s (p, inr after) =
    rw (ge→ltb h.addr b.addr (omega (arith, Fits-le (end b) h bs after))) (
      join-IsLaid lo b (give h bs) v.0 v.1 v.2 v.3
        (give-IsLaid (end b) h bs (IsLaid-mono bs (omega arith) v.4) q r s after))
