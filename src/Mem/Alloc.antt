-- ===== src/Mem/Alloc.antt =====
-- `k_mem_alloc` is a first fit on the free list.
use preemptive_multi_tasked.Prelude.{
  ℕ, zero, suc, ◌+◌, ◌-◌, ◌^◌, ◌≤◌, ◌<◌, ◌≡◌, refl, ◌≢◌, List, [], ◌∷◌, arith, false, ◌==◌,
  if◌then◌else◌, length, Option, none, some, dec_lt, le→leb, gt→leb,
}
use preemptive_multi_tasked.Mem.{Mem, claim, alloc_loop}
use preemptive_multi_tasked.Mem.Blocks.{Block, block, end, IsLaid, IsLaid-mono, first_fit}
use preemptive_multi_tasked.Mem.Chain.{Chain, Chain-frame, Chain-start, Apart}

-- What the list has in place of `curr`, behind `prev`, once the memory is `m'`.
abbrev pub entry : (curr prev : ℕ) → Mem → Mem → ℕ
entry curr prev m m' = if curr == m.head then m'.head else (m'.cell prev).next

-- What a walk that starts at `curr`, behind `prev`, does to the memory when it takes `taken` and
-- leaves `left` of the blocks from `curr` on.
pub record Took (tid : ℕ) (m : Mem) (curr prev : ℕ) (bs : List Block) (taken : Block)
    (left : List Block) (m' : Mem) : Type 0 where
  pub head : curr ≢ m.head → m'.head ≡ m.head
  pub chain : Chain m'.cell (entry curr prev m m') left
  pub prev_size : (m'.cell prev).size ≡ (m.cell prev).size
  pub same : (a : ℕ) → a ≢ prev → Apart a bs → m'.cell a ≡ m.cell a
  pub below : (a : ℕ) → a < prev → m'.cell a ≡ m.cell a
  pub owned : (m'.cell taken.addr).tid ≡ tid
  pub sized : (m'.cell taken.addr).size ≡ taken.size

module _ (tid size : ℕ) (small : size + 8 ≤ 2 ^ 32) (curr prev : ℕ) (m : Mem) (b : Block)
    (bs : List Block) (c : Chain m.cell curr (b ∷ bs)) (v : IsLaid (prev + 1) (b ∷ bs)) where
  claim-split :
      size + 24 ≤ b.size
      → Took tid m curr prev
          (b ∷ bs)
          (block b.addr size)
          (block (b.addr + 16 + size) (b.size - size - 16) ∷ bs)
          (claim tid size curr prev m).1
  unfolding claim
  claim-split h = record {
    head = ground arith;
    chain = ground (
      arith,
      Chain-frame m.cell (claim tid size curr prev m).1.cell (end b + 1) (m.cell curr).next bs v.4
          (λ a k. ground arith) c.2,
    );
    prev_size = ground arith;
    same = λ a p q. ground arith;
    below = ground arith;
    owned = ground arith;
    sized = ground arith;
  }

  claim-whole :
      size ≤ b.size
      → b.size < size + 24
      → Took tid m curr prev (b ∷ bs) b bs (claim tid size curr prev m).1
  unfolding claim
  claim-whole h k = record {
    head = ground arith;
    chain = ground (
      arith,
      Chain-frame m.cell (claim tid size curr prev m).1.cell (end b + 1) (m.cell curr).next bs v.4
          (λ a k. ground arith) c.2,
    );
    prev_size = ground arith;
    same = λ a p q. ground arith;
    below = ground arith;
    owned = ground arith;
    sized = ground arith;
  }

  claim-addr : (claim tid size curr prev m).0 ≡ b.addr + 16
  unfolding claim
  claim-addr = ground arith

  Took-further :
      (taken : Block) (left : List Block) (m' : Mem)
      → m.head ≤ curr
      → (curr ≢ m.head → (m.cell prev).next ≡ curr)
      → (m.cell curr).next ≢ m.head
      → Took tid m (m.cell curr).next curr bs taken left m'
      → Took tid m curr prev (b ∷ bs) taken (b ∷ left) m'
  Took-further taken left m' le link apart t = record {
    head = λ _. t.head apart;
    chain = ground (arith, t.below prev, t.chain, t.head apart);
    prev_size = ground (arith, t.below prev);
    same = λ a p q. t.same a (ground arith) q.1;
    below = λ a k. t.below a (omega arith);
    owned = t.owned;
    sized = t.sized;
  }

-- A walk against a first fit from `curr` on.
abbrev pub Meets :
    (tid : ℕ) (m : Mem) (curr prev : ℕ) (bs : List Block)
    → Option (Block × List Block)
    → Option (ℕ × Mem)
    → Type 0
Meets tid m curr prev bs none r = r ≡ some (0, m)
Meets tid m curr prev bs (some (taken, left)) r =
    (m' : Mem) × (r ≡ some (taken.addr + 16, m')) × Took tid m curr prev bs taken left m'

module _ (tid size : ℕ) (small : size + 8 ≤ 2 ^ 32) where
  Meets-further :
      (curr prev : ℕ) (m : Mem) (b : Block) (bs : List Block)
      → Chain m.cell curr (b ∷ bs)
      → IsLaid (prev + 1) (b ∷ bs)
      → m.head ≤ curr
      → (curr ≢ m.head → (m.cell prev).next ≡ curr)
      → (m.cell curr).next ≢ m.head
      → (o : Option (Block × List Block)) (r : Option (ℕ × Mem))
      → Meets tid m (m.cell curr).next curr bs o r
      → Meets tid m curr prev
          (b ∷ bs)
          (elim o [ none ↦ none | some (taken, left) ↦ some (taken, b ∷ left) ])
          r
  Meets-further curr prev m b bs c v le link apart none r h = h
  Meets-further curr prev m b bs c v le link apart (some (taken, left)) r (m', e, t) =
      (m', e, Took-further tid size small curr prev m b bs c v taken left m' le link apart t)

  pub alloc_loop-Meets :
      (fuel curr prev : ℕ) (m : Mem) (bs : List Block)
      → length bs < fuel
      → Chain m.cell curr bs
      → IsLaid (prev + 1) bs
      → 0 < m.head
      → (curr ≢ 0 → m.head ≤ curr)
      → (curr ≢ m.head → (m.cell prev).next ≡ curr)
      → Meets tid m curr prev bs (first_fit size bs) (alloc_loop fuel tid size curr prev m)
  unfolding alloc_loop
  alloc_loop-Meets zero curr prev m bs f c v pos le link = elim f [ ]
  alloc_loop-Meets (suc fuel) curr prev m [] f c v pos le link = ground arith
  alloc_loop-Meets (suc fuel) curr prev m (b ∷ bs) f c v pos le link =
      let nonnull : (curr == 0) ≡ false = ground arith in
      let start = Chain-start m.cell (end b + 1) (m.cell curr).next bs v.4 c.2 in
      elim (dec_lt b.size size) [
        | yes tight ↦
            rw (nonnull, c.1, gt→leb size b.size tight)
              (Meets-further curr prev m b bs c v (le (ground arith)) link (ground (arith, start)) _
                _
                (alloc_loop-Meets fuel (m.cell curr).next curr m bs (omega arith) c.2
                  (IsLaid-mono bs (omega arith) v.4) pos (ground (arith, start)) (λ _. refl)))
        | no fits ↦ elim (dec_lt b.size (size + 24)) [
          | yes tight ↦
              rw (nonnull, c.1, le→leb size b.size (omega arith), gt→leb (size + 24) b.size tight)
                (
                  (claim tid size curr prev m).1,
                  ground (arith, claim-addr tid size small curr prev m b bs c v),
                  claim-whole tid size small curr prev m b bs c v (omega arith) tight,
                )
          | no large ↦
              rw
                (
                  nonnull,
                  c.1,
                  le→leb size b.size (omega arith),
                  le→leb (size + 24) b.size (omega arith),
                )
                (
                  (claim tid size curr prev m).1,
                  ground (arith, claim-addr tid size small curr prev m b bs c v),
                  claim-split tid size small curr prev m b bs c v (omega arith),
                )
        ]
      ]
