-- ===== src/Rotate.antt =====
-- src/core/instructions/shift_rotate.rs: the rotates, with and without X.
pub mod Turns
pub mod Rounds
pub mod Extend
mod Examples
use m68k_rs.Base.{
  ℕ, zero, suc, ◌+◌, ◌-◌, ◌*◌, ◌/◌, ◌%◌, ◌^◌, bit_and, bit_or, ◌==◌, ◌!=◌, if◌then◌else◌, u32,
}
use m68k_rs.Types.{Size, mask, msb_mask, bits}
use m68k_rs.Cpu.State.{CpuCore}
use m68k_rs.Shift.{cflag_set, shift_reg_cycles, set_logic_flags_nv}

-- A rotate by 0: C and V are cleared.
pub rotate_none : CpuCore → Size → ℕ → CpuCore × ℕ × ℕ
unfolding set_logic_flags_nv shift_reg_cycles
rotate_none c size value =
    let result = bit_and value (mask size) in
    (
      set_logic_flags_nv (record c { c_flag = 0; v_flag = 0 }) result size,
      result,
      shift_reg_cycles c size 0,
    )

-- `cnt % bits`, where a multiple of the size is a full turn.
pub turn : Size → ℕ → ℕ
turn size cnt = if cnt % bits size == 0 then bits size else cnt % bits size

pub rol_result : Size → ℕ → ℕ → ℕ
rol_result size steps value =
    if steps == bits size
    then value
    else bit_and (bit_or (u32 (value * 2 ^ steps)) (value / 2 ^ (bits size - steps))) (mask size)

-- The end of a rotate: C is the carry, V is cleared, X is kept, N and Z are of the result.
pub rotate_done : CpuCore → Size → ℕ → ℕ → ℕ → CpuCore × ℕ × ℕ
unfolding set_logic_flags_nv shift_reg_cycles
rotate_done c size cnt result carry = (
  set_logic_flags_nv (record c { c_flag = if carry != 0 then cflag_set else 0; v_flag = 0 }) result
      size,
  result,
  shift_reg_cycles c size cnt,
)

unfoldable pub exec_rol : CpuCore → Size → ℕ → ℕ → CpuCore × ℕ × ℕ
unfolding turn
exec_rol c size shift value0 =
    let cnt = bit_and shift 63 in
    if cnt == 0
    then rotate_none c size value0
    else let steps = turn size cnt in
      let value = bit_and value0 (mask size) in
      let carry = bit_and (value / 2 ^ (bits size - steps)) 1 in
      rotate_done c size cnt (rol_result size steps value) carry

pub ror_result : Size → ℕ → ℕ → ℕ
ror_result size steps value =
    if steps == bits size
    then value
    else bit_and (bit_or (value / 2 ^ steps) (u32 (value * 2 ^ (bits size - steps)))) (mask size)

unfoldable pub exec_ror : CpuCore → Size → ℕ → ℕ → CpuCore × ℕ × ℕ
unfolding turn
exec_ror c size shift value0 =
    let cnt = bit_and shift 63 in
    if cnt == 0
    then rotate_none c size value0
    else let steps = turn size cnt in
      let value = bit_and value0 (mask size) in
      let carry = bit_and (value / 2 ^ (steps - 1)) 1 in
      rotate_done c size cnt (ror_result size steps value) carry

-- One round of ROXL, and of ROXR, on the operand and X.
pub roxl_round : Size → ℕ × ℕ → ℕ × ℕ
roxl_round size (result, x) =
    (bit_and (bit_or (u32 (result * 2)) x) (mask size), bit_and (result / 2 ^ (bits size - 1)) 1)

pub roxl_loop : Size → ℕ → ℕ × ℕ → ℕ × ℕ
roxl_loop size zero st = st
roxl_loop size (suc rounds) st = roxl_loop size rounds (roxl_round size st)

pub roxr_round : Size → ℕ × ℕ → ℕ × ℕ
roxr_round size (result, x) =
    (bit_or (result / 2) (if x != 0 then msb_mask size else 0), bit_and result 1)

pub roxr_loop : Size → ℕ → ℕ × ℕ → ℕ × ℕ
roxr_loop size zero st = st
roxr_loop size (suc rounds) st = roxr_loop size rounds (roxr_round size st)

-- No net rotation: C mirrors X and V is cleared.
pub rotate_extend_none : CpuCore → Size → ℕ → ℕ → CpuCore × ℕ × ℕ
unfolding set_logic_flags_nv shift_reg_cycles
rotate_extend_none c size value count =
    let result = bit_and value (mask size) in
    (
      set_logic_flags_nv (record c { c_flag = c.x_flag; v_flag = 0 }) result size,
      result,
      shift_reg_cycles c size count,
    )

-- What ROXL and ROXR do with the operand and X that their loop leaves.
pub rotate_extend_done : CpuCore → Size → ℕ → ℕ × ℕ → CpuCore × ℕ × ℕ
unfolding set_logic_flags_nv shift_reg_cycles
rotate_extend_done c size count (result, x) =
    let carry : ℕ = if x != 0 then cflag_set else 0 in
    (
      set_logic_flags_nv (record c { c_flag = carry; x_flag = carry; v_flag = 0 }) result size,
      result,
      shift_reg_cycles c size count,
    )

unfoldable pub exec_roxl : CpuCore → Size → ℕ → ℕ → CpuCore × ℕ × ℕ
exec_roxl c size shift value =
    let steps = shift % (bits size + 1) in
    if steps == 0
    then rotate_extend_none c size value shift
    else rotate_extend_done c size shift
        (roxl_loop size steps (bit_and value (mask size), if c.x_flag != 0 then 1 else 0))

unfoldable pub exec_roxr : CpuCore → Size → ℕ → ℕ → CpuCore × ℕ × ℕ
exec_roxr c size shift value =
    let steps = shift % (bits size + 1) in
    if steps == 0
    then rotate_extend_none c size value shift
    else rotate_extend_done c size shift
        (roxr_loop size steps (bit_and value (mask size), if c.x_flag != 0 then 1 else 0))
