-- ===== src/Board/Gic.antt =====
-- RTX/src/board/DE1_SoC_A9/interrupt.c: the interrupt controller. A register is the word last
-- written to it, but for the priorities, of which the controller keeps as many bits as it has; what
-- it makes of a write to the enable and end-of-interrupt registers is not modelled.
pub mod Init
use preemptive_multi_tasked.Prelude.{
  ℕ, zero, suc, ◌+◌, ◌-◌, ◌*◌, ◌/◌, ◌%◌, ◌^◌, ltb, ◌==◌, if◌then◌else◌, update, true, false, Bool,
}
use preemptive_multi_tasked.Board.Bits.{bit, clear_bit, set_bit, get_byte, set_byte}

-- `typer` and `iar` are read only. The controller has the upper `priority_bits` of the eight bits of
-- a priority.
pub record Gic : Type 0 where
  pub ctlr : ℕ
  pub typer : ℕ
  pub priority_bits : ℕ
  pub isenabler : ℕ → ℕ
  pub icenabler : ℕ → ℕ
  pub ipriorityr : ℕ → ℕ
  pub itargetsr : ℕ → ℕ
  pub icfgr : ℕ → ℕ
  pub interface_ctlr : ℕ
  pub pmr : ℕ
  pub bpr : ℕ
  pub iar : ℕ
  pub eoir : ℕ

unfoldable pub gic_enable_distributor : Gic → Gic
gic_enable_distributor g = record g { ctlr = set_bit 1 g.ctlr }

unfoldable pub gic_disable_distributor : Gic → Gic
gic_disable_distributor g = record g { ctlr = clear_bit 1 g.ctlr }

unfoldable pub gic_enable_interface : Gic → Gic
gic_enable_interface g = record g { interface_ctlr = 1 }

unfoldable pub gic_disable_interface : Gic → Gic
gic_disable_interface g = record g { interface_ctlr = 0x200 }

abbrev pub gic_distributor_info : Gic → ℕ
gic_distributor_info g = g.typer

-- What reads back of a priority where the controller has `bits` of its eight bits: the others are
-- zero.
abbrev pub implemented : (bits priority : ℕ) → ℕ
implemented bits priority = let unit = 2 ^ (8 - bits) in priority % 256 / unit * unit

unfoldable pub gic_set_priority : (irqn priority : ℕ) → Gic → Gic
gic_set_priority irqn priority g = record g {
  ipriorityr =
      update g.ipriorityr (irqn / 4)
        (set_byte irqn (implemented g.priority_bits priority) (g.ipriorityr (irqn / 4)));
}

unfoldable pub gic_get_priority : (irqn : ℕ) → Gic → ℕ
gic_get_priority irqn g = get_byte irqn (g.ipriorityr (irqn / 4))

unfoldable pub gic_disable_irq : (irqn : ℕ) → Gic → Gic
gic_disable_irq irqn g = record g { icenabler = update g.icenabler (irqn / 32) (2 ^ (irqn % 32)) }

unfoldable pub gic_enable_irq : (irqn : ℕ) → Gic → Gic
gic_enable_irq irqn g = record g { isenabler = update g.isenabler (irqn / 32) (2 ^ (irqn % 32)) }

-- The field of two bits of an interrupt; `int_config` is below 4.
abbrev pub set_pair : (n value word : ℕ) → ℕ
set_pair n value word = let unit = 4 ^ (n % 16) in word - (word / unit) % 4 * unit + value * unit

unfoldable pub gic_set_configuration : (irqn int_config : ℕ) → Gic → Gic
gic_set_configuration irqn int_config g = record g {
  icfgr = update g.icfgr (irqn / 16) (set_pair irqn int_config (g.icfgr (irqn / 16)));
}

unfoldable pub gic_set_target : (irqn cpu_target : ℕ) → Gic → Gic
gic_set_target irqn cpu_target g = record g {
  itargetsr = update g.itargetsr (irqn / 4) (set_byte irqn cpu_target (g.itargetsr (irqn / 4)));
}

unfoldable pub gic_set_interface_priority_mask : (priority : ℕ) → Gic → Gic
gic_set_interface_priority_mask priority g = record g { pmr = priority % 256 }

unfoldable pub gic_set_binary_point : (binary_point : ℕ) → Gic → Gic
gic_set_binary_point binary_point g = record g { bpr = binary_point % 8 }

unfoldable pub gic_end_interrupt : (irqn : ℕ) → Gic → Gic
gic_end_interrupt irqn g = record g { eoir = irqn }

abbrev pub gic_ack_pending : Gic → ℕ
gic_ack_pending g = g.iar

-- One round of the loop of `GIC_DistInit`.
unfoldable pub init_spi : (i priority_field : ℕ) → Gic → Gic
init_spi i priority_field g = gic_set_target i 1 (
    gic_set_priority i (priority_field / 2)
      (gic_set_configuration i 0 (gic_end_interrupt i (gic_disable_irq i g))))

unfoldable pub init_spis : (rounds i priority_field : ℕ) → Gic → Gic
init_spis zero i priority_field g = g
init_spis (suc rounds) i priority_field g =
    init_spis rounds (i + 1) priority_field (init_spi i priority_field g)

unfoldable pub gic_dist_init : Gic → Gic
gic_dist_init g =
    let g1 = gic_disable_distributor g in
    let num_irq = 32 * (gic_distributor_info g1 % 32 + 1) in
    let g2 = gic_set_priority 0 255 g1 in
    gic_enable_distributor (init_spis (num_irq - 32) 32 (gic_get_priority 0 g2) g2)

-- One round of the loop of `GIC_CPUInterfaceInit`, for an interrupt of the CPU itself.
unfoldable pub init_ppi : (i priority_field : ℕ) → Gic → Gic
init_ppi i priority_field g =
    let g1 = if ltb 15 i then gic_set_configuration i 0 g else g in
    gic_set_priority i (priority_field / 2) (gic_end_interrupt i (gic_disable_irq i g1))

unfoldable pub init_ppis : (rounds i priority_field : ℕ) → Gic → Gic
init_ppis zero i priority_field g = g
init_ppis (suc rounds) i priority_field g =
    init_ppis rounds (i + 1) priority_field (init_ppi i priority_field g)

unfoldable pub gic_cpu_interface_init : Gic → Gic
gic_cpu_interface_init g =
    let g1 = gic_set_priority 0 255 (gic_disable_interface g) in
    let g2 = init_ppis 32 0 (gic_get_priority 0 g1) g1 in
    gic_set_interface_priority_mask 255 (gic_set_binary_point 0 (gic_enable_interface g2))

unfoldable pub gic_enable : Gic → Gic
gic_enable g = gic_cpu_interface_init (gic_dist_init g)
