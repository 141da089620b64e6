-- ===== src/Mem/GiveBack.antt =====
-- What `k_mem_dealloc` promises: the block is put back by address and joined to its neighbours,
-- unless it lies behind every free block and touches none.
use preemptive_multi_tasked.Prelude.{
  ℕ, zero, suc, ◌+◌, ◌≤◌, ◌<◌, ◌≡◌, refl, inl, inr, List, [], ◌∷◌, arith, Bool, false, true, ◌||◌,
  ◌==◌, if◌then◌else◌, length, Option, some, sub32, ltb, Bool-cases, ==_iff, ge→ltb, lt→ltb,
}
use preemptive_multi_tasked.Mem.{
  Mem, Rtx, rtx_ok, rtx_err, max_blocks, dealloc_loop, dealloc_front, k_mem_dealloc,
}
use preemptive_multi_tasked.Mem.Blocks.{
  Block, end, IsLaid, give, join, Fits, Fits-le, IsLaid-mono, give-IsLaid,
}
use preemptive_multi_tasked.Mem.Chain.{Chain, Chain-frame, Holds, length-lt-max_blocks}
use preemptive_multi_tasked.Mem.Dealloc.{
  IsBlock, reaches, Gave, settle-between, settle-last, settle-stranded, settle-later,
}

join-join_apart :
    (b n : Block) (xs : List Block) → end b < n.addr → join b (join n xs) ≡ b ∷ join n xs
join-join_apart b n [] h = ground arith
join-join_apart b n (c ∷ cs) h = ground arith

give_later :
    (h b n : Block) (ns : List Block)
    → b.addr < h.addr
    → n.addr < h.addr
    → end b < n.addr
    → give h (b ∷ n ∷ ns) ≡ b ∷ give h (n ∷ ns)
give_later h b n ns p q r =
    rw (ge→ltb h.addr b.addr (omega arith), ge→ltb h.addr n.addr (omega arith))
      (join-join_apart b n (give h ns) r)

abbrev pub Frees :
    (m : Mem) (h : Block) (curr : ℕ) (bs : List Block) → Bool → Option (Rtx × Mem) → Type 0
Frees m h curr bs true r = (m' : Mem) × (r ≡ some (rtx_ok, m')) × Gave m h curr bs (give h bs) m'
Frees m h curr bs false r = r ≡ some (rtx_err, m)

-- The walk stands at a free block in front of `h`.
abbrev pub Behind : Block → List Block → Type 0
Behind h [] = Unit {0}
Behind h (b ∷ bs) = (end b ≤ h.addr) × Fits (end b) h bs

module _ (m : Mem) (h : Block) (valid : IsBlock m h) where
  Frees-later :
      (curr : ℕ) (b n : Block) (ns : List Block) (o : Bool) (r : Option (Rtx × Mem))
      → Chain m.cell curr (b ∷ n ∷ ns)
      → IsLaid 1 (b ∷ n ∷ ns)
      → end n ≤ h.addr
      → Frees m h n.addr (n ∷ ns) o r
      → Frees m h curr (b ∷ n ∷ ns) o r
  Frees-later curr b n ns true r c v p (m', e, g) = (
    m',
    e,
    record {
      head = g.head;
      chain =
          rw (give_later h b n ns (omega arith) (omega arith) (omega arith))
            (ground (arith, g.below curr, g.chain));
      below = λ a k. g.below a (omega arith);
      same = λ a k q. g.same a k q.1;
    },
  )
  Frees-later curr b n ns false r c v p e = e

  pub dealloc_loop-Frees :
      (fuel curr : ℕ) (bs : List Block)
      → length bs < fuel
      → Chain m.cell curr bs
      → IsLaid 1 bs
      → Behind h bs
      → Frees m h curr bs (reaches h bs) (dealloc_loop fuel h.addr curr m)
  unfolding dealloc_loop
  dealloc_loop-Frees zero curr bs f c v w = elim f [ ]
  dealloc_loop-Frees (suc fuel) curr [] f c v w = rw c
  dealloc_loop-Frees (suc fuel) curr (b ∷ []) f c v (p, q) =
      let no_null : (curr == 0) ≡ false = ground arith in
      let other : (curr == h.addr) ≡ false = ground arith in
      let behind = ge→ltb h.addr b.addr (omega arith) in
      elim (Bool-cases (end b == h.addr)) [
        | inl touch ↦
            let (m', e, g) = settle-last m h valid curr b c v ((==_iff (end b) h.addr).0 touch) in
            rw (behind, touch, no_null, other, e, behind) (m', refl, g)
        | inr apart ↦
            rw
              (
                behind,
                apart,
                no_null,
                other,
                settle-stranded m h valid curr b c v (ground arith),
                c.2,
              )
              (dealloc_loop-Frees fuel 0 [] (omega arith) refl tt tt)
      ]
  dealloc_loop-Frees (suc fuel) curr (b ∷ n ∷ ns) f c v (p, (q, inl before)) =
      let no_null : (curr == 0) ≡ false = ground arith in
      let other : (curr == h.addr) ≡ false = ground arith in
      let behind = ge→ltb h.addr b.addr (omega arith) in
      let reached : reaches h (b ∷ n ∷ ns) ≡ true = ground arith in
      let (m', e, g) = settle-between m h valid curr b n ns c v p before in
      rw (reached, no_null, other, e, behind, lt→ltb h.addr n.addr (omega arith)) (m', refl, g)
  dealloc_loop-Frees (suc fuel) curr (b ∷ n ∷ ns) f c v (p, (q, inr after)) =
      let no_null : (curr == 0) ≡ false = ground arith in
      let other : (curr == h.addr) ≡ false = ground arith in
      let le = Fits-le (end n) h ns after in
      let unreached : reaches h (b ∷ n ∷ ns) ≡ reaches h (n ∷ ns) = ground arith in
      rw (unreached, no_null, other, settle-later m h valid curr b n ns c v le, c.2.0)
        (Frees-later curr b n ns _ _ c v le (
          rw c.2.0 at (
            dealloc_loop-Frees fuel (m.cell curr).next (n ∷ ns) (omega arith) c.2
              (IsLaid-mono (n ∷ ns) (omega arith) v.4) (le, after))))

-- What a caller sees of `k_mem_dealloc` for the block `h`, where the free blocks are `bs`.
abbrev pub Releases : (m : Mem) (h : Block) (bs : List Block) → Bool → Option (Rtx × Mem) → Type 0
Releases m h bs true r = (m' : Mem) × (r ≡ some (rtx_ok, m')) × Holds m' (give h bs)
Releases m h bs false r = r ≡ some (rtx_err, m)

-- The calling task may free the block.
abbrev pub may_free : (override : Bool) (tid : ℕ) → Mem → Block → Bool
may_free override tid m h = override || tid == (m.cell h.addr).tid

module _ (m : Mem) (h b : Block) (bs : List Block) (valid : IsBlock m h)
    (c : Chain m.cell m.head (b ∷ bs)) (v : IsLaid 1 (b ∷ bs)) (pos : 1 ≤ h.addr)
    (p : end h ≤ b.addr) where
  -- `h` comes before the first free block.
  dealloc_front-Chain :
      Chain (dealloc_front h.addr m).cell (dealloc_front h.addr m).head (give h (b ∷ bs))
  unfolding dealloc_front
  dealloc_front-Chain = ground (
    arith,
    Chain-frame m.cell (dealloc_front h.addr m).cell (end b + 1) (m.cell m.head).next bs v.4
        (λ a k. ground arith) c.2,
  )

module _ (override : Bool) (tid : ℕ) (m : Mem) (h : Block) (valid : IsBlock m h) where
  Frees-Releases :
      (bs : List Block) (o : Bool) (r : Option (Rtx × Mem))
      → Holds m bs
      → Fits 1 h bs
      → Frees m h m.head bs o r
      → Releases m h bs o r
  Frees-Releases bs true r held f (m', e, g) = (
    m',
    e,
    record {
      chain = rw g.head g.chain;
      laid = give-IsLaid 1 h bs held.laid valid.aligned valid.room valid.inside f;
    },
  )
  Frees-Releases bs false r held f e = e

  pub k_mem_dealloc-eq :
      1 ≤ h.addr
      → may_free override tid m h ≡ true
      → k_mem_dealloc override tid (h.addr + 16) m ≡ (
          if ltb h.addr m.head
          then some (rtx_ok, dealloc_front h.addr m)
          else dealloc_loop max_blocks h.addr m.head m)
  unfolding k_mem_dealloc
  k_mem_dealloc-eq pos may =
      let back : sub32 (h.addr + 16) 16 ≡ h.addr = omega (arith, valid.inside) in
      rw back (ground arith)

  -- Where the memory holds the free blocks `bs`, none of which overlaps the block `h`, and the
  -- caller may free `h`, `k_mem_dealloc` succeeds and the memory holds the blocks with `h` in its
  -- place by address, joined to the neighbours it touches, if a free block lies behind `h` or ends
  -- where it starts; otherwise the call fails, the memory is as it was and the block stays lost.
  pub k_mem_dealloc-Releases :
      (bs : List Block)
      → Holds m bs
      → Fits 1 h bs
      → may_free override tid m h ≡ true
      → Releases m h bs (reaches h bs) (k_mem_dealloc override tid (h.addr + 16) m)
  k_mem_dealloc-Releases [] held f may =
      rw (k_mem_dealloc-eq f may, ge→ltb h.addr m.head (omega (arith, held.chain)))
        (dealloc_loop-Frees m h valid max_blocks m.head [] (length-lt-max_blocks [] held.laid)
          held.chain held.laid tt)
  k_mem_dealloc-Releases (b ∷ bs) held (pos, inl before) may =
      let reached : reaches h (b ∷ bs) ≡ true = ground arith in
      rw (reached, k_mem_dealloc-eq pos may, lt→ltb h.addr m.head (omega (arith, held.chain)))
        (
          dealloc_front h.addr m,
          refl,
          record {
            chain = dealloc_front-Chain m h b bs valid held.chain held.laid pos before;
            laid =
                give-IsLaid 1 h (b ∷ bs) held.laid valid.aligned valid.room valid.inside
                  (pos, inl before);
          },
        )
  k_mem_dealloc-Releases (b ∷ bs) held (pos, inr after) may =
      let le = Fits-le (end b) h bs after in
      rw (k_mem_dealloc-eq pos may, ge→ltb h.addr m.head (omega (arith, held.chain)))
        (Frees-Releases (b ∷ bs) _ _ held (pos, inr after)
          (dealloc_loop-Frees m h valid max_blocks m.head (b ∷ bs)
            (length-lt-max_blocks (b ∷ bs) held.laid) held.chain held.laid (le, after)))
