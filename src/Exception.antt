-- ===== src/Exception.antt =====
-- src/core/cpu.rs, src/core/execute.rs and src/core/exceptions.rs: the accesses to memory, the faults
-- that they raise, and the entry into an exception.
pub mod Machine
pub mod Memory
pub mod Stack
pub mod Frames
pub mod Faults
pub mod Return
pub mod Interrupts
pub mod Finishes
pub mod Accesses
pub mod Pushes
pub mod Ends
pub mod Nested
pub mod Depth
pub mod RoundTrip
pub mod Laws
pub mod Halts
pub mod Overflow
mod Examples
