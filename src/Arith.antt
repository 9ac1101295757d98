-- ===== src/Arith.antt =====
-- src/core/instructions/integer_arith.rs: addition, subtraction, comparison and extension. A method
-- gives the new state with what it returns, the cycle count last. The bus that some of them are
-- handed is not used by these.
pub mod Bits
pub mod Add
pub mod Compare
pub mod Extended
pub mod Extension
mod Examples
use m68k_rs.Base.{
  ℕ, ◌+◌, ◌-◌, ◌%◌, ◌^◌, bit_and, bit_or, bit_xor, Bool, true, false, ◌!=◌, ltb, if◌then◌else◌,
  wrapping_add, wrapping_sub, not_u32, u16, u32, sext8, sext16,
}
use m68k_rs.Types.{Size, byte, word, long, mask, msb_mask}
use m68k_rs.Cpu.State.{CpuCore, d, set_d, a, set_a, update}

abbrev pub vflag_set : ℕ
vflag_set = 0x80

abbrev pub cflag_set : ℕ
cflag_set = 0x100

-- The carry out of the most significant bit of an addition.
pub add_carry : Size → ℕ → ℕ → ℕ → Bool
add_carry byte s d r = bit_and (s + d) 0x100 != 0
add_carry word s d r = bit_and (s + d) 0x1_0000 != 0
add_carry long s d r =
    bit_and (bit_or (bit_and s d) (bit_and (not_u32 r) (bit_or s d))) 0x8000_0000 != 0

unfoldable pub set_add_flags : CpuCore → ℕ → ℕ → ℕ → Size → CpuCore
unfolding add_carry
set_add_flags c src dst result size =
    let msb = msb_mask size in
    let s = bit_and src (mask size) in
    let d = bit_and dst (mask size) in
    let r = bit_and result (mask size) in
    let v = bit_and (bit_and (bit_xor s r) (bit_xor d r)) msb in
    let carry : ℕ = if add_carry size s d r then cflag_set else 0 in
    record c {
      n_flag = if bit_and r msb != 0 then 0x80 else 0;
      not_z_flag = r;
      v_flag = if v != 0 then 0x80 else 0;
      c_flag = carry;
      x_flag = carry;
    }

-- The borrow of a subtraction.
pub sub_carry : Size → ℕ → ℕ → ℕ → Bool
sub_carry byte s d r = ltb d s
sub_carry word s d r = ltb d s
sub_carry long s d r =
    bit_and (bit_or (bit_and s r) (bit_and (not_u32 d) (bit_or s r))) 0x8000_0000 != 0

unfoldable pub set_sub_flags : CpuCore → ℕ → ℕ → ℕ → Size → CpuCore
unfolding sub_carry
set_sub_flags c src dst result size =
    let msb = msb_mask size in
    let s = bit_and src (mask size) in
    let d = bit_and dst (mask size) in
    let r = bit_and result (mask size) in
    let v = bit_and (bit_and (bit_xor s d) (bit_xor r d)) msb in
    let carry : ℕ = if sub_carry size s d r then cflag_set else 0 in
    record c {
      n_flag = if bit_and r msb != 0 then 0x80 else 0;
      not_z_flag = r;
      v_flag = if v != 0 then 0x80 else 0;
      c_flag = carry;
      x_flag = carry;
    }

unfoldable pub set_cmp_flags : CpuCore → ℕ → ℕ → ℕ → Size → CpuCore
set_cmp_flags c src dst result size =
    let msb = msb_mask size in
    let s = bit_and src (mask size) in
    let d = bit_and dst (mask size) in
    let r = bit_and result (mask size) in
    let v = bit_and (bit_and (bit_xor s d) (bit_xor r d)) msb in
    record c {
      n_flag = if bit_and r msb != 0 then 0x80 else 0;
      not_z_flag = r;
      v_flag = if v != 0 then vflag_set else 0;
      c_flag = if ltb d s then cflag_set else 0;
    }

unfoldable pub exec_add : CpuCore → Size → ℕ → ℕ → CpuCore × ℕ × ℕ
unfolding set_add_flags
exec_add c size src dst =
    let result = wrapping_add src dst in
    (set_add_flags c src dst result size, bit_and result (mask size), 4)

unfoldable pub exec_sub : CpuCore → Size → ℕ → ℕ → CpuCore × ℕ × ℕ
unfolding set_sub_flags
exec_sub c size src dst =
    let result = wrapping_sub dst src in
    (set_sub_flags c src dst result size, bit_and result (mask size), 4)

-- The source of an operation on an address register: a word is sign-extended.
pub address_source : Size → ℕ → ℕ
address_source word src = sext16 src
address_source _ src = src

unfoldable pub exec_adda : CpuCore → Size → ℕ → ℕ → CpuCore × ℕ
unfolding address_source a set_a
exec_adda c size src dst_reg =
    (set_a c dst_reg (wrapping_add (a c dst_reg) (address_source size src)), 8)

unfoldable pub exec_suba : CpuCore → Size → ℕ → ℕ → CpuCore × ℕ
unfolding address_source a set_a
exec_suba c size src dst_reg =
    (set_a c dst_reg (wrapping_sub (a c dst_reg) (address_source size src)), 8)

-- The sum is taken in 64 bits, where it does not wrap.
unfoldable pub exec_addx : CpuCore → Size → ℕ → ℕ → CpuCore × ℕ
exec_addx c size src dst =
    let msb = msb_mask size in
    let extend : ℕ = if c.x_flag != 0 then 1 else 0 in
    let d = bit_and dst (mask size) in
    let s = bit_and src (mask size) in
    let sum = d + s + extend in
    let r = bit_and (u32 sum) (mask size) in
    let v = bit_and (bit_and (bit_xor src r) (bit_xor dst r)) msb in
    let carry : ℕ = if ltb (mask size) sum then cflag_set else 0 in
    (
      record c {
        n_flag = if bit_and r msb != 0 then 0x80 else 0;
        not_z_flag = if r != 0 then r else c.not_z_flag;
        v_flag = if v != 0 then vflag_set else 0;
        c_flag = carry;
        x_flag = carry;
      },
      r,
    )

-- The difference is taken in 64 bits, where it wraps.
unfoldable pub exec_subx : CpuCore → Size → ℕ → ℕ → CpuCore × ℕ
exec_subx c size src dst =
    let msb = msb_mask size in
    let extend : ℕ = if c.x_flag != 0 then 1 else 0 in
    let d = bit_and dst (mask size) in
    let s = bit_and src (mask size) in
    let sub = s + extend in
    let r = bit_and (u32 ((d + 2 ^ 64 - sub) % 2 ^ 64)) (mask size) in
    let v = bit_and (bit_and (bit_xor s d) (bit_xor r d)) msb in
    let carry : ℕ = if ltb d sub then cflag_set else 0 in
    (
      record c {
        n_flag = if bit_and r msb != 0 then 0x80 else 0;
        not_z_flag = if r != 0 then r else c.not_z_flag;
        v_flag = if v != 0 then vflag_set else 0;
        c_flag = carry;
        x_flag = carry;
      },
      r,
    )

unfoldable pub exec_cmp : CpuCore → Size → ℕ → ℕ → CpuCore × ℕ
unfolding set_cmp_flags
exec_cmp c size src dst = (set_cmp_flags c src dst (wrapping_sub dst src) size, 4)

unfoldable pub exec_cmpa : CpuCore → Size → ℕ → ℕ → CpuCore × ℕ
unfolding address_source set_cmp_flags a
exec_cmpa c size src dst_reg =
    let src' = address_source size src in
    let dst = a c dst_reg in (set_cmp_flags c src' dst (wrapping_sub dst src') long, 6)

-- `set_logic_flags` of data_movement.rs.
unfoldable pub set_logic_flags : CpuCore → ℕ → Size → CpuCore
set_logic_flags c value size = record c {
  n_flag = if bit_and value (msb_mask size) != 0 then 0x80 else 0;
  not_z_flag = bit_and value (mask size);
  v_flag = 0;
  c_flag = 0;
}

-- EXT by its size, and EXTB.L.
pub ext_result : Size → ℕ → ℕ
ext_result byte value = value
ext_result word value = bit_or (u16 (sext8 value)) (bit_and value 0xffff_0000)
ext_result long value = sext16 value

unfoldable pub exec_ext : CpuCore → Size → ℕ → CpuCore × ℕ
unfolding ext_result d set_d set_logic_flags
exec_ext c size reg =
    let result = ext_result size (d c reg) in (set_logic_flags (set_d c reg result) result size, 4)

unfoldable pub exec_extb : CpuCore → ℕ → CpuCore × ℕ
unfolding d set_d set_logic_flags
exec_extb c reg =
    let result = sext8 (d c reg) in (set_logic_flags (set_d c reg result) result long, 4)
