-- ===== src/Lib.antt =====
-- A 68000-family processor core (src/core, src/mmu): the processor state and its registers, the
-- instructions that act on registers, the bus, and the memory management unit with its caches.
--
-- The parts and the files:
--
--   Base          The shared names, tests, casts and conditionals, the laws of `&`, `|` and `^` on
--                 natural numbers (Base/Bits), the integers (Base/Int), and results and fallible
--                 actions on a state (Base/Results).
--   Types         src/core/types.rs: `CpuType`, `Size` and its methods.
--   Cpu           src/core/cpu.rs, src/core/interrupts.rs. State is `CpuCore` and its register
--                 accessors, Stack the banked stack pointers (`sp_index`, `set_sm_flag`), Status
--                 `get_sr`, `set_sr`, the conditions and `check_interrupts`, Control the registers
--                 of MOVEC (`read_control_register`, `write_control_register`), and Reset
--                 `set_cpu_type` and `pulse_reset`.
--   Bus           src/core/memory.rs. Interface is the trait `AddressBus`, Linear is
--                 `LinearMemoryBus`.
--   Arith         src/core/instructions/integer_arith.rs: ADD, SUB, ADDA, SUBA, ADDX, SUBX, CMP and
--                 CMPA, with `set_add_flags`, `set_sub_flags` and `set_cmp_flags`; EXT and EXTB.
--   MulDiv        src/core/instructions/mul_div.rs: `divu_cycles` and `divs_cycles`, the clocks that the
--                 68000 takes for a division.
--   Shift         src/core/instructions/shift_rotate.rs: ASL, ASR, LSL and LSR.
--   Rotate        src/core/instructions/shift_rotate.rs: ROL, ROR, ROXL and ROXR.
--   Bcd           src/core/instructions/bcd.rs: the digits of ABCD, SBCD and NBCD, in the hardware
--                 model and in that of the test fixtures, and PACK and UNPK between registers.
--   BitField      src/core/instructions/bitfield.rs: the extension word, and the eight operations on
--                 a data register.
--   Mmu           src/mmu. Atc is the address translation cache (src/mmu/atc.rs), Ttr the transparent
--                 translation registers (src/mmu/ttr.rs), and the rest is src/mmu/translation.rs:
--                 Fault the faults, Table040 the walk of the 68040 and the 68060 (`translate_040`),
--                 Table030 that of the 68030 (`walk_030`, `translate_030`, `ptest_030`), and
--                 Translation the choice between them (`translate`).
--   BranchCache   src/core/timing_060.rs, `BranchCache060`.
--   Exception     src/core/cpu.rs, src/core/execute.rs, src/core/exceptions.rs. Memory is `read_8` to
--                 `write_32` with `handle_mmu_fault`, Stack the pushes, the prefetch queue and
--                 `jump_vector`, Frames the stack frames, and Faults `trigger_address_error`,
--                 `trigger_bus_error`, `take_exception` and `take_group2_exception`. An access and an
--                 exception call each other: each takes a record of the faults (Machine, `Faults`),
--                 and `faults_to` ties the knot to a depth, past which the model gives
--                 `stack_overflow`. Return is RTE (src/core/decode.rs, `0x4E73`) and RTS, Interrupts
--                 `service_interrupt` and the stopped state.
--   Scenarios     States for the tests. The tests stand in the modules named Examples.
--
-- How they interact: `CpuCore` holds the translation cache and the branch cache. `set_sr` changes the
-- mode through `set_sm_flag`, which saves and restores A7. MOVEC writes the stack banks, drops the
-- cached translations, and clears the branch cache through CACR. The instructions take operands that
-- were read before and give back the state, the result and the cycle count; they leave the condition
-- codes as `flag_x` to `flag_c` and `test_condition` read them. Translation reads descriptors from the
-- bus, asks the transparent registers first, and records walks in the cache. The reset clears both
-- caches.
--
-- The model: a method on `&mut self` is a function from the state to the new state, with what it
-- returns beside it; one that can fail is an action, whose state comes back after an error too. The
-- bus is a parameter: any type of states with the transfers of `AddressBus`. A `u8`, `u16`, `u32` or
-- `u64` is a natural number, and what wraps in the source is cut by `%` where it does; an `i32` is
-- kept as its bits, and the theorems read it as an integer by `value`. An array is a function of its
-- index, which each access masks into range. Loops have a count that is known at their start
-- (`asl_loop`, `roxl_loop`, `roxr_loop`, `divu_loop`, `divs_loop`), and the walk of the 68030 is a
-- recursion on its configured levels (`walk_levels`), so no fuel is needed.
--
-- Faults nest: an access may raise a bus error, whose frame is written by accesses. The nesting is
-- followed to a depth, and four is enough unless the vector base is odd (Exception/Laws,
-- Exception/Overflow). RTE follows throwaway frames to a count that its caller gives; a frame of
-- the format 0 takes one (Exception/RoundTrip). The interrupt acknowledge cycle of the bus is a
-- parameter.
--
-- Not modelled: the effective addresses, the fetches of the instruction stream, the decoding and
-- the step loop, and the instructions that act through an address; the floating point unit
-- (src/fpu) and its exceptions; the timing tables; the hooks of the bus and of the processor for
-- timing, interrupts and instruction caches, with the state of the 68060 pipeline; and the fast
-- memory path, the decode cache and the trace compiler, which do not change what an instruction
-- means. Of `CpuCore`, the fields that only these parts use are left out.
mod Base
pub mod Scenarios
pub mod Types
pub mod Mmu
pub mod Exception
pub mod MulDiv
pub mod Bus
pub mod BranchCache
pub mod Cpu
pub mod Arith
pub mod Shift
pub mod Rotate
pub mod Bcd
pub mod BitField
