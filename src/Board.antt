-- ===== src/Board.antt =====
-- The registers of the board, RTX/src/board/DE1_SoC_A9: the interrupt controller, the timers
-- and UART0.
pub mod Bits
pub mod Gic
pub mod Timer
pub mod Uart
pub mod Serial
mod Tests
