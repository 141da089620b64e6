-- ===== src/Board/Gic/Init.antt =====
-- What the initialisation of the interrupt controller leaves in its registers.
use preemptive_multi_tasked.Prelude.{
  ℕ, zero, suc, ◌+◌, ◌-◌, ◌*◌, ◌/◌, ◌%◌, ◌^◌, ◌≤◌, ◌<◌, ◌≡◌, refl, ◌∙◌, ltb, leb, ◌&&◌, ◌==◌,
  if◌then◌else◌, arith, true,
}
use preemptive_multi_tasked.Board.Bits.{get_byte, get_byte-update}
use preemptive_multi_tasked.Board.Gic.{
  Gic, implemented, gic_set_priority, gic_get_priority, gic_set_target, init_spi, init_spis,
  gic_dist_init, gic_disable_irq, gic_set_configuration, gic_end_interrupt, gic_enable_distributor,
  gic_disable_distributor,
}

-- `GIC_GetPriority` reads what the controller keeps of the last eight bits that `GIC_SetPriority`
-- wrote for the same interrupt, and what was there before for every other one.
pub gic_get_priority-set_priority :
    (n k priority : ℕ) (g : Gic)
    → gic_get_priority k (gic_set_priority n priority g)
      ≡ (if k == n then implemented g.priority_bits priority % 256 else gic_get_priority k g)
unfolding gic_get_priority gic_set_priority
gic_get_priority-set_priority n k priority g =
    get_byte-update n k (implemented g.priority_bits priority) g.ipriorityr

-- The target list of an interrupt.
abbrev pub get_target : ℕ → Gic → ℕ
get_target n g = get_byte n (g.itargetsr (n / 4))

get_target-set_target :
    (n k target : ℕ) (g : Gic)
    → get_target k (gic_set_target n target g) ≡ (if k == n then target % 256 else get_target k g)
unfolding gic_set_target
get_target-set_target n k target g = get_byte-update n k target g.itargetsr

init_spi-bytes :
    (i field k : ℕ) (g : Gic)
    → (gic_get_priority k (init_spi i field g)
        ≡ (if k == i then implemented g.priority_bits (field / 2) % 256 else gic_get_priority k g))
      × (get_target k (init_spi i field g) ≡ (if k == i then 1 else get_target k g))
unfolding init_spi gic_set_target gic_set_priority gic_set_configuration gic_end_interrupt
    gic_disable_irq gic_get_priority
init_spi-bytes i field k g = (
  get_byte-update i k (implemented g.priority_bits (field / 2)) g.ipriorityr,
  get_byte-update i k 1 g.itargetsr,
)

init_spis-bytes :
    (rounds i field k : ℕ) (g : Gic)
    → (gic_get_priority k (init_spis rounds i field g) ≡ (
        if leb i k && ltb k (i + rounds)
        then implemented g.priority_bits (field / 2) % 256
        else gic_get_priority k g))
      × (get_target k (init_spis rounds i field g)
          ≡ (if leb i k && ltb k (i + rounds) then 1 else get_target k g))
unfolding init_spis init_spi gic_set_target gic_set_priority gic_set_configuration gic_end_interrupt
    gic_disable_irq
init_spis-bytes zero i field k g = ground arith
init_spis-bytes (suc rounds) i field k g =
    let (priority, target) = init_spi-bytes i field k g in
    let (priorities, targets) = init_spis-bytes rounds (i + 1) field k (init_spi i field g) in
    (ground (arith, priority, priorities), ground (arith, target, targets))

-- The priority in the middle, for each number of bits.
middle :
    (bits : ℕ)
    → 1 ≤ bits
    → bits ≤ 8
    → implemented bits (implemented bits 255 % 256 / 2) % 256 ≡ 128 - 2 ^ (8 - bits)
middle zero low high = absurd (omega arith)
middle (suc zero) low high = refl
middle (suc (suc zero)) low high = refl
middle (suc (suc (suc zero))) low high = refl
middle (suc (suc (suc (suc zero)))) low high = refl
middle (suc (suc (suc (suc (suc zero))))) low high = refl
middle (suc (suc (suc (suc (suc (suc zero)))))) low high = refl
middle (suc (suc (suc (suc (suc (suc (suc zero))))))) low high = refl
middle (suc (suc (suc (suc (suc (suc (suc (suc zero)))))))) low high = refl
middle (suc (suc (suc (suc (suc (suc (suc (suc (suc bits))))))))) low high = absurd (omega arith)

-- On a controller with one to eight bits of a priority, the others reading as zero, `GIC_DistInit`
-- gives every shared interrupt, from 32 up to the number that the controller supports, the priority
-- 128 - 2 ^ (8 - bits), which is 127 with all eight bits, and sends it to CPU 0 alone.
pub gic_dist_init-spis :
    (k : ℕ) (g : Gic)
    → 1 ≤ g.priority_bits
    → g.priority_bits ≤ 8
    → 32 ≤ k
    → k < 32 * (g.typer % 32 + 1)
    → (gic_get_priority k (gic_dist_init g) ≡ 128 - 2 ^ (8 - g.priority_bits))
      × (get_target k (gic_dist_init g) ≡ 1)
unfolding gic_dist_init gic_enable_distributor gic_disable_distributor gic_get_priority
    gic_set_priority
gic_dist_init-spis k g some_bits eight low high =
    let bits = g.priority_bits in
    let g2 = gic_set_priority 0 255 (gic_disable_distributor g) in
    let field : gic_get_priority 0 g2 ≡ implemented bits 255 % 256 =
      get_byte-update 0 0 (implemented bits 255) g.ipriorityr in
    let rounds = 32 * (g.typer % 32 + 1) - 32 in
    let (priority, target) = init_spis-bytes rounds 32 (gic_get_priority 0 g2) k g2 in
    let first : leb 32 k ≡ true = ground arith in
    let last : ltb k (32 + rounds) ≡ true = ground arith in
    (
      priority ∙ rw (first, last, field) (middle bits some_bits eight),
      target ∙ rw (first, last) refl,
    )
