-- ===== src/Cpu.antt =====
-- src/core/cpu.rs: the state of the processor, its registers, and the status register.
pub mod State
pub mod Stack
pub mod Status
pub mod Control
pub mod Reset
mod Examples
