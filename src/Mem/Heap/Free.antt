-- ===== src/Mem/Heap/Free.antt =====
-- `k_mem_dealloc` on the memory of a heap.
use preemptive_multi_tasked.Prelude.{
  ℕ, ◌+◌, ◌≡◌, ◌≢◌, refl, sym, ◌∙◌, inl, inr, Bool, true, false, Option, none, some, List, [], ◌∷◌,
  arith, ◌==◌, if◌then◌else◌, Bool-cases, ==_iff, sub32,
}
use preemptive_multi_tasked.Mem.{Mem, Rtx, rtx_ok, rtx_err, k_mem_dealloc}
use preemptive_multi_tasked.Mem.Blocks.{Block, give}
use preemptive_multi_tasked.Mem.Dealloc.{reaches}
use preemptive_multi_tasked.Mem.GiveBack.{k_mem_dealloc-Releases, Releases}
use preemptive_multi_tasked.Mem.Frame.{k_mem_dealloc-frame}
use preemptive_multi_tasked.Mem.Walks.{IsFreeAt, k_mem_dealloc-free, k_mem_dealloc-denied}
use preemptive_multi_tasked.Mem.Clear.{Disjoint, Disjoint-sym, Clear-give, Clear-Fits, Clear-Apart}
use preemptive_multi_tasked.Mem.Heap.{
  Held, Heap, take_held, is_free, released, heap_free, IsHeld, EachHeld, Beside, Sparse, IsHeap,
}
use preemptive_multi_tasked.Mem.Heap.Alloc.{IsHeld-moves}

EachHeld-map-Beside :
    (m m' : Mem) (bs bs' : List Block) (b : Block) (us : List Held)
    → ((u : Held) → Disjoint b u.place → IsHeld m bs u → IsHeld m' bs' u)
    → Beside b us
    → EachHeld m bs us
    → EachHeld m' bs' us
EachHeld-map-Beside m m' bs bs' b [] f d h = tt
EachHeld-map-Beside m m' bs bs' b (u ∷ us) f d h =
    (f u d.0 h.0, EachHeld-map-Beside m m' bs bs' b us f d.1 h.1)

-- What the search for a held block finds: the block, clear of all others, which are in order.
abbrev Taken :
    (p : ℕ) (m : Mem) (bs : List Block) (us : List Held) → Option (Held × List Held) → Type 0
Taken p m bs us none = Unit {0}
Taken p m bs us (some (u, rest)) =
    (p ≡ u.place.addr + 16)
    × IsHeld m bs u
    × EachHeld m bs rest
    × Beside u.place rest
    × Sparse rest
    × ((b : Block) → Beside b us → Disjoint b u.place × Beside b rest)

Taken-later :
    (p : ℕ) (m : Mem) (bs : List Block) (w : Held) (ws : List Held) (o : Option (Held × List Held))
    → IsHeld m bs w
    → Beside w.place ws
    → Taken p m bs ws o
    → Taken p m bs (w ∷ ws) (elim o [ none ↦ none | some (u, us) ↦ some (u, w ∷ us) ])
Taken-later p m bs w ws none h d t = tt
Taken-later p m bs w ws (some (u, rest)) h d (e, here, each, beside, sparse, apart) = (
  e,
  here,
  (h, each),
  (Disjoint-sym w.place u.place (apart w.place d).0, beside),
  ((apart w.place d).1, sparse),
  λ b k. ((apart b k.1).0, (k.0, (apart b k.1).1)),
)

take_held-Taken :
    (p : ℕ) (m : Mem) (bs : List Block) (us : List Held)
    → EachHeld m bs us
    → Sparse us
    → Taken p m bs us (take_held p us)
take_held-Taken p m bs [] h s = tt
take_held-Taken p m bs (w ∷ ws) h s = elim (Bool-cases (w.place.addr + 16 == p)) [
  | inl here ↦
      rw here (sym ((==_iff (w.place.addr + 16) p).0 here), h.0, h.1, s.0, s.1, λ b k. (k.0, k.1))
  | inr other ↦ rw other (Taken-later p m bs w ws _ h.0 s.0 (take_held-Taken p m bs ws h.1 s.1))
]

is_free-IsFreeAt :
    (p : ℕ) (bs : List Block) → is_free p bs ≡ true → (a : ℕ) × (p ≡ a + 16) × IsFreeAt a bs
is_free-IsFreeAt p [] e = cc
is_free-IsFreeAt p (b ∷ bs) e = elim (Bool-cases (b.addr + 16 == p)) [
  | inl here ↦ (b.addr, sym ((==_iff (b.addr + 16) p).0 here), inl refl)
  | inr other ↦ let (a, q, f) = is_free-IsFreeAt p bs (rw other at e) in (a, q, inr f)
]

starts_apart : (h b : Block) → Disjoint h b → b.addr ≢ h.addr
starts_apart h b (inl d) e = absurd (omega arith)
starts_apart h b (inr d) e = absurd (omega arith)

-- The call does to the memory what the operation does to the heap, where that promises something.
abbrev pub FreesAs : (tid p : ℕ) → Mem → Option (Rtx × Heap) → Type 0
FreesAs tid p m none = Unit {0}
FreesAs tid p m (some (r, hp')) =
    (m' : Mem) × (k_mem_dealloc false tid p m ≡ some (r, m')) × IsHeap m' hp'

k_mem_dealloc-zero : (tid : ℕ) (m : Mem) → k_mem_dealloc false tid 0 m ≡ some (rtx_err, m)
unfolding k_mem_dealloc
k_mem_dealloc-zero tid m = ground arith

module _ (tid p : ℕ) (m : Mem) (hp : Heap) (v : IsHeap m hp) where
  owner_frees :
      (u : Held) (rest : List Held) (o : Bool)
      → Taken p m hp.free hp.used (some (u, rest))
      → (m.cell u.place.addr).tid ≡ tid
      → Releases m u.place hp.free o (k_mem_dealloc false tid p m)
      → FreesAs tid p m (
          if o
          then some (rtx_ok, record { free = give u.place hp.free; used = rest })
          else some (rtx_err, hp))
  owner_frees u rest true (e, here, each, beside, sparse, apart) own (m', r, holds) = (
    m',
    r,
    record {
      holds = holds;
      each =
          EachHeld-map-Beside m m' hp.free (give u.place hp.free) u.place rest
            (λ w d h.
              IsHeld-moves m m' hp.free (give u.place hp.free) w
                (rw r at (
                  rw (← e) at (
                    k_mem_dealloc-frame false tid w.place.addr m u.place here.valid hp.free v.holds
                      (Clear-Fits 1 u.place hp.free here.low here.clear) (ground arith)
                      (λ k. starts_apart u.place w.place d k)
                      (Clear-Apart w.place hp.free h.clear))))
                (Clear-give w.place u.place hp.free (Disjoint-sym u.place w.place d) h.clear) h)
            beside each;
      sparse = sparse;
    },
  )
  owner_frees u rest false t own r = (m, r, v)

  released-FreesAs :
      (o : Option (Held × List Held))
      → Taken p m hp.free hp.used o
      → FreesAs tid p m (released tid hp o)
  released-FreesAs none t = tt
  released-FreesAs (some (u, rest)) t = elim (Bool-cases (u.owner == tid)) [
    | inl own ↦
        let owned : (m.cell u.place.addr).tid ≡ tid = t.1.owner ∙ (==_iff u.owner tid).0 own in
        rw own (
          owner_frees u rest (reaches u.place hp.free) t owned (
            rw t.0 (
              k_mem_dealloc-Releases false tid m u.place t.1.valid hp.free v.holds
                (Clear-Fits 1 u.place hp.free t.1.low t.1.clear) (ground (arith, owned)))))
    | inr other ↦
        let back : sub32 (u.place.addr + 16) 16 ≡ u.place.addr = omega (arith, t.1.valid.inside) in
        rw other (
          m,
          rw (t.0) (
              k_mem_dealloc-denied tid (u.place.addr + 16) m
                (rw back (λ e. ground (arith, t.1.owner)))),
          v,
        )
  ]

  -- On the memory of a heap `k_mem_dealloc`, without an override of the ownership, does what
  -- `heap_free` does to the heap, for every pointer that is NULL or to a free or held block: a block
  -- goes back only if its owner gives it back, and no two blocks overlap afterwards.
  pub k_mem_dealloc-IsHeap : FreesAs tid p m (heap_free tid p hp)
  k_mem_dealloc-IsHeap = elim (Bool-cases (p == 0)) [
    | inl null ↦
        let none_at : p ≡ 0 = (==_iff p 0).0 null in
        rw null (m, rw none_at (k_mem_dealloc-zero tid m), v)
    | inr some_at ↦ elim (Bool-cases (is_free p hp.free)) [
      | inl free ↦
          let (a, e, at) = is_free-IsFreeAt p hp.free free in
          rw (some_at, free) (m, rw e (k_mem_dealloc-free false tid a m hp.free v.holds at), v)
      | inr busy ↦
          rw (some_at, busy)
            (released-FreesAs (take_held p hp.used)
              (take_held-Taken p m hp.free hp.used v.each v.sparse))
    ]
  ]
