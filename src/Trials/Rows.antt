-- ===== src/Trials/Rows.antt =====
-- Blocks in a row, as `heap_leakage_test` of RTX/src/app/ae_usr_tasks.c allocates and frees them.
use preemptive_multi_tasked.Prelude.{
  ℕ, zero, suc, ◌+◌, ◌-◌, ◌≤◌, ◌<◌, ◌≡◌, ◌≢◌, refl, ap, ◌∙◌, true, false, inl, inr, List, [], ◌∷◌,
  some, arith, ◌==◌, update, Bool-cases, ==_iff,
}
use native.Mathlib.Nat.{add-zero}
use preemptive_multi_tasked.Mem.{rtx_ok}
use preemptive_multi_tasked.Mem.Blocks.{Block, block, give}
use preemptive_multi_tasked.Mem.Dealloc.{reaches}
use preemptive_multi_tasked.Mem.Heap.{Heap, Held, held, heap_free, take_held, is_free}
use preemptive_multi_tasked.Trials.Runs.{heap}

-- The `k`th block has `size k` bytes and lies at the distance `dist k` from `a`.
abbrev pub dist : (ℕ → ℕ) → ℕ → ℕ
dist size zero = 0
dist size (suc k) = dist size k + size k + 16

pub dist-lt : (size : ℕ → ℕ) (k r : ℕ) → dist size k < dist size (k + suc r)
dist-lt size k zero = let next : k + suc zero ≡ suc k = omega arith in rw next (omega arith)
dist-lt size k (suc r) =
    let next : k + suc (suc r) ≡ suc (k + suc r) = omega arith in
    rw next (omega (arith, dist-lt size k r))

take_held-skip :
    (p : ℕ) (u w : Held) (us ws : List Held)
    → (u.place.addr + 16 == p) ≡ false
    → take_held p us ≡ some (w, ws)
    → take_held p (u ∷ us) ≡ some (w, u ∷ ws)
take_held-skip p u w us ws other e = rw (other, e) refl

heap_free-held :
    (tid p : ℕ) (hp : Heap) (u : Held) (rest : List Held)
    → p ≢ 0
    → is_free p hp.free ≡ false
    → take_held p hp.used ≡ some (u, rest)
    → u.owner ≡ tid
    → reaches u.place hp.free ≡ true
    → heap_free tid p hp ≡ some (rtx_ok, record { free = give u.place hp.free; used = rest })
heap_free-held tid p hp u rest n f t o r =
    let full : (p == 0) ≡ false = ground arith in
    let own : (u.owner == tid) ≡ true = ground arith in rw (full, f, t, own, r) refl

module _ (tid a n : ℕ) (used : List Held) (size : ℕ → ℕ) where
  abbrev pub place : ℕ → Held
  place k = held tid (block (a + dist size k) (size k))

  -- The `r` blocks from the one with the index `lo` on, the last first.
  abbrev pub stack : (lo r : ℕ) → List Held
  stack lo zero = used
  stack lo (suc r) = place (lo + r) ∷ stack lo r

  -- The array of the addresses of the first `k` blocks.
  abbrev pub filled : (ps : ℕ → ℕ) → ℕ → ℕ → ℕ
  filled ps zero = ps
  filled ps (suc k) = update (filled ps k) k (a + dist size k + 16)

  pub filled-at : (ps : ℕ → ℕ) (k j : ℕ) → j < k → filled ps k j ≡ a + dist size j + 16
  filled-at ps zero j h = absurd (omega arith)
  filled-at ps (suc k) j h = elim (Bool-cases (j == k)) [
    | inl e ↦ rw (e, (==_iff j k).0 e) refl
    | inr e ↦ rw e (filled-at ps k j (ground arith))
  ]

  take_held-stack :
      (lo r : ℕ)
      → take_held (a + dist size lo + 16) (stack lo (suc r)) ≡ some (place lo, stack (suc lo) r)
  take_held-stack lo zero =
      let same : (a + dist size lo + 16 == a + dist size lo + 16) ≡ true = ground arith in
      rw (add-zero lo, same) refl
  take_held-stack lo (suc r) =
      let next : lo + suc r ≡ suc lo + r = omega arith in
      take_held-skip (a + dist size lo + 16) (place (lo + suc r)) (place lo) (stack lo (suc r))
        (stack (suc lo) r) (ground (arith, dist-lt size lo r)) (take_held-stack lo r)
      ∙ ap (λ k. some (place lo, place k ∷ stack (suc lo) r)) next

  -- Of `total` bytes in a row, those of the first `k` blocks are free again, and so is the rest of the
  -- memory behind them.
  abbrev pub front : (total k : ℕ) → List Block
  front total zero = block (a + total) (n - total) ∷ []
  front total (suc k) = block a (dist size k + size k) ∷ block (a + total) (n - total) ∷ []

  module _ (total : ℕ) (pos : 1 ≤ a) (room : total + 24 ≤ n) where
    not_free :
        (k r : ℕ)
        → dist size (k + suc r) ≡ total
        → is_free (a + dist size k + 16) (front total k) ≡ false
    not_free zero r e = ground (arith, dist-lt size zero r)
    not_free (suc k) r e = ground (arith, dist-lt size (suc k) r)

    reached :
        (k r : ℕ)
        → dist size (k + suc r) ≡ total
        → reaches (block (a + dist size k) (size k)) (front total k) ≡ true
    reached zero r e = ground (arith, dist-lt size zero r)
    reached (suc k) r e = ground (arith, dist-lt size (suc k) r)

    -- The first of the blocks is given back.
    pub heap_free-front :
        (k r : ℕ)
        → dist size (k + suc r) ≡ total
        → heap_free tid (a + dist size k + 16) (heap (front total k) (stack k (suc r)))
          ≡ some (
            rtx_ok,
            heap (give (block (a + dist size k) (size k)) (front total k)) (stack (suc k) r),
          )
    heap_free-front k r e =
        heap_free-held tid (a + dist size k + 16) (heap (front total k) (stack k (suc r))) (place k)
          (stack (suc k) r) (omega arith) (not_free k r e) (take_held-stack k r) refl
          (reached k r e)

    -- It is joined to those before it.
    pub front-next :
        (k : ℕ)
        → dist size (suc k) < total
        → give (block (a + dist size k) (size k)) (front total k) ≡ front total (suc k)
    front-next zero h = ground arith
    front-next (suc k) h = ground arith

    -- The last one is joined to the rest of the memory, too.
    pub front-last :
        (k : ℕ)
        → dist size (suc k) ≡ total
        → give (block (a + dist size k) (size k)) (front total k) ≡ block a n ∷ []
    front-last zero h = ground arith
    front-last (suc k) h = ground arith
