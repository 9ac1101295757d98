-- ===== src/Shift.antt =====
-- src/core/instructions/shift_rotate.rs: the shifts. A method gives the new state, the result
-- and the cycle count.
pub mod Powers
pub mod Logical
pub mod Fill
pub mod Left
pub mod Asl
pub mod Right
pub mod Asr
mod Examples
use m68k_rs.Base.{
  ℕ, zero, suc, ◌+◌, ◌-◌, ◌*◌, ◌/◌, ◌%◌, ◌^◌, min, bit_and, bit_or, Bool, true, false, not, ◌&&◌,
  ◌||◌, ◌==◌, ◌!=◌, ltb, leb, if◌then◌else◌, u32,
}
use m68k_rs.Types.{CpuType, m68000, m68010, Size, mask, msb_mask, bits, is_long}
use m68k_rs.Cpu.State.{CpuCore}
use m68k_rs.Arith.{set_logic_flags}

abbrev pub cflag_set : ℕ
cflag_set = 0x100

-- `matches!(self.cpu_type, M68000 | M68010)`.
counts_steps : CpuType → Bool
counts_steps m68000 = true
counts_steps m68010 = true
counts_steps _ = false

unfoldable pub shift_reg_cycles : CpuCore → Size → ℕ → ℕ
unfolding counts_steps
shift_reg_cycles c size count =
    if not (counts_steps c.cpu_type) then 6 else (if is_long size then 8 else 6) + 2 * count

unfoldable pub set_logic_flags_nv : CpuCore → ℕ → Size → CpuCore
set_logic_flags_nv c value size = record c {
  n_flag = if bit_and value (msb_mask size) != 0 then 0x80 else 0;
  not_z_flag = bit_and value (mask size);
}

-- A shift by 0: C is cleared, X kept, and the flags are set from the operand, uncut.
pub shift_none : CpuCore → Size → ℕ → CpuCore × ℕ × ℕ
unfolding set_logic_flags shift_reg_cycles
shift_none c size value =
    (set_logic_flags (record c { c_flag = 0 }) value size, value, shift_reg_cycles c size 0)

-- The end of a shift: C and X are `carry`, V is `overflow`, N and Z are of the result.
pub shift_done : CpuCore → Size → ℕ → ℕ → Bool → Bool → CpuCore × ℕ × ℕ
unfolding set_logic_flags_nv shift_reg_cycles
shift_done c size shift result carry overflow =
    let c_flag' : ℕ = if carry then cflag_set else 0 in
    (
      set_logic_flags_nv
          (record c { c_flag = c_flag'; x_flag = c_flag'; v_flag = if overflow then 0x80 else 0 })
          result size,
      result,
      shift_reg_cycles c size shift,
    )

-- What ASL's loop carries from round to round.
pub record AslState : Type 0 where
  pub result : ℕ
  pub last_bit : ℕ
  pub overflow : Bool

-- One round of the loop.
pub asl_round : Size → AslState → AslState
asl_round size st =
    let last = bit_and st.result (msb_mask size) in
    let new_top = bit_and (u32 (st.result * 2)) (msb_mask size) in
    record {
      result = bit_and (u32 (st.result * 2)) (mask size);
      last_bit = last;
      overflow = if new_top != last then true else st.overflow;
    }

-- `for _ in 0..shift.min(bits)`.
pub asl_loop : Size → ℕ → AslState → AslState
asl_loop size zero st = st
asl_loop size (suc rounds) st = asl_loop size rounds (asl_round size st)

pub asl_start : Size → ℕ → AslState
asl_start size value = record { result = bit_and value (mask size); last_bit = 0; overflow = false }

unfoldable pub exec_asl : CpuCore → Size → ℕ → ℕ → CpuCore × ℕ × ℕ
unfolding asl_start
exec_asl c size shift0 value =
    let shift = bit_and shift0 63 in
    if shift == 0
    then shift_none c size value
    else let st = asl_loop size (min shift (bits size)) (asl_start size value) in
      let carry = if ltb (bits size) shift then false else st.last_bit != 0 in
      shift_done c size shift st.result carry st.overflow

pub asr_result : Size → ℕ → ℕ → ℕ
asr_result size shift value0 =
    let sign = bit_and value0 (msb_mask size) in
    let value = bit_and value0 (mask size) in
    bit_and
      (if leb (bits size) shift
        then (if sign != 0 then mask size else 0)
        else if sign != 0
        then bit_or (value / 2 ^ shift) (u32 (mask size * 2 ^ (bits size - shift)))
        else value / 2 ^ shift)
      (mask size)

pub asr_out : Size → ℕ → ℕ → Bool
asr_out size shift value0 =
    let value = bit_and value0 (mask size) in
    if leb (bits size) shift
    then bit_and value0 (msb_mask size) != 0
    else bit_and value (u32 (2 ^ (shift - 1))) != 0

-- The result is cut once more on return.
unfoldable pub exec_asr : CpuCore → Size → ℕ → ℕ → CpuCore × ℕ × ℕ
unfolding asr_result asr_out
exec_asr c size shift0 value =
    let shift = bit_and shift0 63 in
    if shift == 0
    then shift_none c size value
    else let done =
        shift_done c size shift (asr_result size shift value) (asr_out size shift value) false in
      (done.0, bit_and done.1 (mask size), done.2)

pub lsl_result : Size → ℕ → ℕ → ℕ
lsl_result size shift value =
    if leb (bits size) shift then 0 else bit_and (u32 (value * 2 ^ shift)) (mask size)

pub lsl_out : Size → ℕ → ℕ → Bool
lsl_out size shift value =
    if leb (bits size) shift
    then shift == bits size && bit_and value 1 != 0
    else bit_and (value / 2 ^ (bits size - shift)) 1 != 0

unfoldable pub exec_lsl : CpuCore → Size → ℕ → ℕ → CpuCore × ℕ × ℕ
unfolding lsl_result lsl_out
exec_lsl c size shift0 value =
    let shift = bit_and shift0 63 in
    if shift == 0
    then shift_none c size value
    else shift_done c size shift (lsl_result size shift value) (lsl_out size shift value) false

pub lsr_result : Size → ℕ → ℕ → ℕ
lsr_result size shift value = if leb (bits size) shift then 0 else value / 2 ^ shift

pub lsr_out : Size → ℕ → ℕ → Bool
lsr_out size shift value =
    if leb (bits size) shift
    then shift == bits size && bit_and value (msb_mask size) != 0
    else bit_and (value / 2 ^ (shift - 1)) 1 != 0

unfoldable pub exec_lsr : CpuCore → Size → ℕ → ℕ → CpuCore × ℕ × ℕ
unfolding lsr_result lsr_out
exec_lsr c size shift0 value0 =
    let shift = bit_and shift0 63 in
    if shift == 0
    then shift_none c size value0
    else let value = bit_and value0 (mask size) in
      shift_done c size shift (lsr_result size shift value) (lsr_out size shift value) false
