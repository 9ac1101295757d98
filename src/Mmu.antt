-- ===== src/Mmu.antt =====
-- src/mmu: the address translation cache, the transparent translation registers, and the table walks.
pub mod Atc
pub mod Ttr
pub mod Fault
pub mod Table040
pub mod Table030
pub mod Translation
