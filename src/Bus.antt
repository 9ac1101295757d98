-- ===== src/Bus.antt =====
-- src/core/memory.rs: the bus that the host provides, and the linear memory that implements it.
pub mod Interface
pub mod Linear
mod Examples
