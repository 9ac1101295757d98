-- ===== src/Exception/Frames.antt =====
-- src/core/exceptions.rs: the stack frames of the exceptions, by processor model.
use m68k_rs.Base.{
  ℕ, zero, suc, ◌*◌, ◌/◌, ◌^◌, bit_and, bit_or, Bool, true, false, not, ◌==◌, if◌then◌else◌, u16,
  wrapping_add, Option, none, some,
}
use m68k_rs.Base.Results.{pure, ◌>>=◌, ◌>>◌}
use m68k_rs.Bus.Interface.{BasicBus, AddressBus}
use m68k_rs.Mmu.Fault.{
  MmuFaultCause, pointer_a, pointer_b, indirect, page_fault, write_protect, supervisor_protect,
  table_walk_bus_error, access_bus_error,
}
use m68k_rs.Exception.Machine.{Machine, cpu, Faults}
use m68k_rs.Exception.Memory.{write_16}
use m68k_rs.Exception.Stack.{
  grow, fake_push_16_raw, fake_push_32_raw, push_16_raw, push_32_raw, push_16, push_32,
}

-- The function codes of the module `fc`: by supervisor mode, and by kind of access.
unfoldable pub function_code : Bool → Bool → ℕ
function_code true true = 6
function_code true false = 5
function_code false true = 2
function_code false false = 1

unfoldable pub status_word : ℕ → Bool → Bool → ℕ
status_word fc write instruction =
    bit_or (bit_or fc (if write then 0 else 0x10)) (if instruction then 0 else 0x08)

pub cause_bits : Option MmuFaultCause → Bool → ℕ
cause_bits none write = if write then 0x10 else 0x20
cause_bits (some cause) write = elim cause [
  | pointer_a ↦ 0x1000
  | pointer_b ↦ 0x0800
  | indirect ↦ 0x0400
  | page_fault ↦ 0x0200
  | write_protect ↦ 0x0080
  | supervisor_protect ↦ 0x0100
  | table_walk_bus_error ↦ 0x0040
  | access_bus_error ↦ if write then 0x10 else 0x20
]

-- A field of two bits by the size of an access: `byte` for one, `word` for two, `three` for three.
pub size_bits : ℕ → ℕ → ℕ → ℕ → ℕ
size_bits byte word three size =
    if size == 1 then byte else if size == 2 then word else if size == 3 then three else 0

unfoldable pub fslw_060 : Bool → Bool → ℕ → ℕ → Option MmuFaultCause → ℕ
unfolding cause_bits size_bits
fslw_060 write instruction size fc cause =
    let w : ℕ = if write then 0x0080_0000 else 0x0100_0000 in
    let w = bit_or w (size_bits (1 * 2 ^ 21) (2 * 2 ^ 21) 0 size) in
    let w = bit_or w (bit_and fc 7 * 2 ^ 16) in
    let w = if instruction then bit_or w 0x8000 else w in bit_or w (cause_bits cause write)

-- The special status word of the 68040.
unfoldable pub ssw_040 : Bool → ℕ → ℕ → Option MmuFaultCause → ℕ
unfolding size_bits
ssw_040 write size fc cause =
    let rw : ℕ = if write then 0 else 0x0100 in
    let atc : ℕ = elim cause [ some c ↦ 0x0400 | none ↦ 0 ] in
    let sz = size_bits 0x0020 0x0040 0 size in bit_or (bit_or (bit_or rw atc) sz) (bit_and fc 7)

-- The status of the third writeback of the 68040.
unfoldable pub wb3s_040 : Bool → ℕ → ℕ → ℕ
unfolding size_bits
wb3s_040 write size fc =
    if write then bit_or (bit_or 0x0080 (size_bits 0x0020 0x0040 0 size)) (bit_and fc 7) else 0

-- The special status word of the 68020 and the 68030.
unfoldable pub ssw_030 : Bool → Bool → ℕ → ℕ → ℕ
unfolding size_bits
ssw_030 write instruction size fc =
    let ssw = bit_and fc 7 in
    if not instruction
    then (let ssw = bit_or ssw 0x0100 in
        let ssw = if not write then bit_or ssw 0x0040 else ssw in
        bit_or ssw (size_bits 0x0010 0x0020 0x0030 size))
    else bit_or ssw (bit_or 0x4000 0x1000)

module _ {B : Type 0} where
  -- A push that is made `n` times.
  unfoldable pub times : ℕ → Machine B (Unit {0}) → Machine B (Unit {0})
  times zero m = pure tt
  times (suc n) m = do m; times n m

module _ {B : Type 0} (basic : BasicBus B) where
  -- The frame of the 68000 for an address error or a bus error.
  unfoldable pub group0_frame_68000 : ℕ → ℕ → ℕ → Machine B (Unit {0})
  unfolding push_16_raw push_32_raw
  group0_frame_68000 status address old_sr = do
    c ← cpu
    push_16_raw basic status
    push_32_raw basic address
    push_16_raw basic (u16 c.ir)
    push_16_raw basic old_sr
    push_32_raw basic c.ppc

  -- The frame of format 8, of the 68010.
  unfoldable pub group0_frame_68010 : ℕ → ℕ → Machine B (Unit {0})
  unfolding push_16_raw push_32_raw times
  group0_frame_68010 vector old_sr = do
    c ← cpu
    times 8 fake_push_32_raw
    push_16_raw basic 0
    fake_push_16_raw
    push_16_raw basic 0
    fake_push_16_raw
    push_16_raw basic 0
    fake_push_16_raw
    push_32_raw basic 0
    push_16_raw basic 0
    push_16_raw basic (bit_or 0x8000 (vector * 4))
    push_32_raw basic c.ppc
    push_16_raw basic old_sr

  -- The address error frame of the 68040, of format 2.
  unfoldable pub address_error_frame_040 : ℕ → ℕ → Machine B (Unit {0})
  unfolding push_16_raw push_32_raw
  address_error_frame_040 address old_sr = do
    c ← cpu
    push_32_raw basic (bit_and address 0xffff_fffe)
    push_16_raw basic (bit_or 0x2000 (3 * 4))
    push_32_raw basic c.ppc
    push_16_raw basic old_sr

  -- The address error frame of the other models.
  unfoldable pub address_error_frame : ℕ → Machine B (Unit {0})
  unfolding push_16_raw push_32_raw
  address_error_frame old_sr = do
    c ← cpu
    push_16_raw basic (3 * 4)
    push_32_raw basic c.ppc
    push_16_raw basic old_sr

module _ {B : Type 0} (bus : AddressBus B) (faults : Faults B) where
  unfoldable pub push_exception_frame_68000 : ℕ → ℕ → Machine B (Unit {0})
  push_exception_frame_68000 stacked_pc sr = do
    sp ← grow 6
    write_16 bus faults (wrapping_add sp 4) (bit_and stacked_pc 0xffff)
    write_16 bus faults sp sr
    write_16 bus faults (wrapping_add sp 2) (u16 (stacked_pc / 2 ^ 16))

  -- The frame of format 0, of the 68010 and later.
  unfoldable pub format_0_frame : ℕ → ℕ → ℕ → Machine B (Unit {0})
  unfolding push_16 push_32
  format_0_frame vector stacked_pc sr = do
    push_16 bus faults (u16 (u16 vector * 4))
    push_32 bus faults stacked_pc
    push_16 bus faults sr

  -- The frame of format 2, of the 68020 and later.
  unfoldable pub format_2_frame : ℕ → ℕ → ℕ → ℕ → Machine B (Unit {0})
  unfolding push_16 push_32
  format_2_frame vector origin next_pc sr = do
    push_32 bus faults origin
    push_16 bus faults (bit_or 0x2000 (bit_and (u16 (u16 vector * 4)) 0x0fff))
    push_32 bus faults next_pc
    push_16 bus faults sr

  -- The bus error frame of the 68060, of format 4.
  unfoldable pub bus_error_frame_060 : ℕ → ℕ → ℕ → Machine B (Unit {0})
  unfolding push_16 push_32
  bus_error_frame_060 fslw address old_sr = do
    c ← cpu
    push_32 bus faults fslw
    push_32 bus faults address
    push_16 bus faults (bit_or 0x4000 (2 * 4))
    push_32 bus faults c.ppc
    push_16 bus faults old_sr

  -- The bus error frame of the 68040, of format 7.
  unfoldable pub bus_error_frame_040 : Bool → ℕ → ℕ → ℕ → ℕ → ℕ → Machine B (Unit {0})
  unfolding push_16 push_32 times
  bus_error_frame_040 write address wdata wb3s ssw old_sr = do
    c ← cpu
    times 3 (push_32 bus faults 0)
    push_32 bus faults 0
    push_32 bus faults 0
    push_32 bus faults 0
    push_32 bus faults 0
    push_32 bus faults (if write then wdata else 0)
    push_32 bus faults (if write then address else 0)
    push_32 bus faults address
    push_16 bus faults 0
    push_16 bus faults 0
    push_16 bus faults wb3s
    push_16 bus faults ssw
    push_32 bus faults address
    push_16 bus faults (bit_or 0x7000 (2 * 4))
    push_32 bus faults c.ppc
    push_16 bus faults old_sr

  -- The bus error frame of the 68020 and the 68030, of format B.
  unfoldable pub bus_error_frame_030 : Bool → Bool → ℕ → ℕ → ℕ → ℕ → Machine B (Unit {0})
  unfolding push_16 push_32 times
  bus_error_frame_030 write instruction address wdata ssw old_sr = do
    c ← cpu
    times 9 (push_32 bus faults 0)
    push_16 bus faults 0
    times 3 (push_16 bus faults 0)
    push_32 bus faults 0
    push_32 bus faults 0
    push_32 bus faults (if not instruction then 0 else address)
    push_32 bus faults 0
    push_32 bus faults 0
    push_32 bus faults (if write then wdata else 0)
    push_32 bus faults 0
    push_32 bus faults (if not instruction then address else 0)
    push_16 bus faults 0
    push_16 bus faults 0
    push_16 bus faults ssw
    push_16 bus faults 0
    push_16 bus faults (bit_or 0xb000 (2 * 4))
    push_32 bus faults c.ppc
    push_16 bus faults old_sr
