-- ===== src/Board/Tests.antt =====
-- Runs of the board drivers of RTX/src/board/DE1_SoC_A9.
use preemptive_multi_tasked.Prelude.{◌≡◌, arith}
use preemptive_multi_tasked.Board.Gic.{Gic, gic_get_priority, gic_dist_init}
use preemptive_multi_tasked.Board.Gic.Init.{get_target, gic_dist_init-spis}

-- A controller for 64 interrupts, with five bits of a priority.
abbrev reset_gic : Gic
reset_gic = record {
  ctlr = 0;
  typer = 1;
  priority_bits = 5;
  isenabler = λ _. 0;
  icenabler = λ _. 0;
  ipriorityr = λ _. 0;
  itargetsr = λ _. 0;
  icfgr = λ _. 0;
  interface_ctlr = 0;
  pmr = 0;
  bpr = 0;
  iar = 1023;
  eoir = 0;
}

gic_dist_init-spis_example :
    (gic_get_priority 63 (gic_dist_init reset_gic) ≡ 120)
    × (get_target 63 (gic_dist_init reset_gic) ≡ 1)
gic_dist_init-spis_example =
    gic_dist_init-spis 63 reset_gic (omega arith) (omega arith) (omega arith) (omega arith)
