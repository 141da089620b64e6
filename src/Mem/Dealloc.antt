-- ===== src/Mem/Dealloc.antt =====
-- `k_mem_dealloc` puts a block back in its place among the free blocks and joins it to its
-- neighbours.
use preemptive_multi_tasked.Prelude.{
  ℕ, ◌+◌, ◌%◌, ◌≤◌, ◌<◌, ◌≡◌, ◌≢◌, inl, inr, List, [], ◌∷◌, arith, Bool, false, true, ◌||◌, ◌==◌,
  none, some, ltb, Bool-cases, ==_iff,
}
use preemptive_multi_tasked.Mem.{Mem, set_next, settle, merge_into, merge_next}
use preemptive_multi_tasked.Mem.Blocks.{Block, end, IsLaid, join}
use preemptive_multi_tasked.Mem.Chain.{Chain, Chain-frame, Apart}

-- `header` is the control block of `h`, a block inside the memory.
pub record IsBlock (m : Mem) (h : Block) : Type 0 where
  pub size : (m.cell h.addr).size ≡ h.size
  pub aligned : h.addr % 8 ≡ 0
  pub room : 8 ≤ h.size
  pub inside : end h ≤ 0x3fff_ffff

-- The walk comes to a place for `h`: in front of a free block, or right behind one.
abbrev pub reaches : Block → List Block → Bool
reaches h [] = false
reaches h (b ∷ bs) = ltb h.addr b.addr || end b == h.addr || reaches h bs

-- What giving back `h` does to the memory, seen from the free block at `curr` on, where the free
-- blocks are `bs` before and `left` after.
pub record Gave (m : Mem) (h : Block) (curr : ℕ) (bs left : List Block) (m' : Mem) : Type 0 where
  pub head : m'.head ≡ m.head
  pub chain : Chain m'.cell curr left
  pub below : (a : ℕ) → a < curr → m'.cell a ≡ m.cell a
  pub same : (a : ℕ) → a ≢ h.addr → Apart a bs → m'.cell a ≡ m.cell a

module _ (m : Mem) (h : Block) (valid : IsBlock m h) (curr : ℕ) (b n : Block) (ns : List Block)
    (c : Chain m.cell curr (b ∷ n ∷ ns)) (v : IsLaid 1 (b ∷ n ∷ ns)) (p : end b ≤ h.addr)
    (q : end h ≤ n.addr) where
  rest-frame :
      (m' : Mem)
      → ((a : ℕ) → end n + 1 ≤ a → m'.cell a ≡ m.cell a)
      → Chain m'.cell (m.cell n.addr).next ns
  rest-frame m' same =
      Chain-frame m.cell m'.cell (end n + 1) (m.cell n.addr).next ns v.4.4 same (ground arith)

  -- `h` lies between the free blocks `b` and `n`.
  pub settle-between :
      (m' : Mem) × (settle h.addr curr m ≡ some m')
      × Gave m h curr (b ∷ n ∷ ns) (join b (join h (n ∷ ns))) m'
  unfolding settle
  settle-between = elim (Bool-cases (end h == n.addr)) [
    | inl next ↦ elim (Bool-cases (end b == h.addr)) [
      | inl touch ↦
          rw (next, touch)
            (let m' = merge_into true h.addr curr (merge_next h.addr curr m) in
              (
                m',
                ground arith,
                record {
                  head = ground arith;
                  chain = ground (arith, rest-frame m' (λ a k. ground arith));
                  below = ground arith;
                  same = ground arith;
                },
              ))
      | inr apart ↦
          rw (next, apart)
            (let m' = merge_next h.addr curr m in
              (
                m',
                ground arith,
                record {
                  head = ground arith;
                  chain = ground (arith, rest-frame m' (λ a k. ground arith));
                  below = ground arith;
                  same = ground arith;
                },
              ))
    ]
    | inr gap ↦ elim (Bool-cases (end b == h.addr)) [
      | inl touch ↦
          rw (gap, touch)
            (let m' = merge_into false h.addr curr m in
              (
                m',
                ground arith,
                record {
                  head = ground arith;
                  chain = ground (arith, rest-frame m' (λ a k. ground arith));
                  below = ground arith;
                  same = ground arith;
                },
              ))
      | inr apart ↦
          rw (gap, apart)
            (let m' = set_next (set_next m h.addr n.addr) curr h.addr in
              (
                m',
                ground arith,
                record {
                  head = ground arith;
                  chain = ground (arith, rest-frame m' (λ a k. ground arith));
                  below = ground arith;
                  same = ground arith;
                },
              ))
    ]
  ]

module _ (m : Mem) (h : Block) (valid : IsBlock m h) (curr : ℕ) (b : Block)
    (c : Chain m.cell curr (b ∷ [])) (v : IsLaid 1 (b ∷ [])) where
  -- `h` touches the last free block from behind.
  pub settle-last :
      end b ≡ h.addr
      → (m' : Mem) × (settle h.addr curr m ≡ some m') × Gave m h curr (b ∷ []) (join b (h ∷ [])) m'
  unfolding settle
  settle-last e = rw ((==_iff (end b) h.addr).1 e) (
      let m' = merge_into false h.addr curr m in
      (
        m',
        ground arith,
        record {
          head = ground arith;
          chain = ground arith;
          below = ground arith;
          same = ground arith;
        },
      ))

  pub settle-stranded : end b < h.addr → settle h.addr curr m ≡ none
  unfolding settle
  settle-stranded e = ground arith

-- Further free blocks come before `h`.
pub settle-later :
    (m : Mem) (h : Block)
    → IsBlock m h
    → (curr : ℕ) (b n : Block) (ns : List Block) → Chain m.cell curr (b ∷ n ∷ ns)
    → IsLaid 1 (b ∷ n ∷ ns)
    → end n ≤ h.addr
    → settle h.addr curr m ≡ none
unfolding settle
settle-later m h valid curr b n ns c v p = ground arith
