-- ===== src/Cpu/Status.antt =====
-- src/core/cpu.rs and src/core/interrupts.rs: the status register, the condition codes, the
-- conditions, and the test for a pending interrupt.
pub mod Laws
use m68k_rs.Base.{
  ℕ, ◌*◌, ◌/◌, ◌-◌, ◌%◌, ◌^◌, bit_and, bit_or, Bool, true, false, not, ◌&&◌, ◌||◌, ◌==◌, ◌!=◌, ltb,
  if◌then◌else◌, eqb, u8, u16,
}
use m68k_rs.Cpu.State.{CpuCore}
use m68k_rs.Cpu.Stack.{set_sm_flag, set_sm_flag_nosp}

unfoldable pub get_sr : CpuCore → ℕ
get_sr c =
    let t1 = u16 (bit_and c.t1_flag 0x8000) in
    let t0 = u16 (bit_and c.t0_flag 0x4000) in
    let s = u16 (bit_and c.s_flag 4 * 2 ^ 11) in
    let m = u16 (bit_and c.m_flag 2 * 2 ^ 11) in
    let i = u16 (bit_and c.int_mask 0x0700) in
    let x = u16 (bit_and c.x_flag 0x100 / 2 ^ 4) in
    let n = u16 (bit_and c.n_flag 0x80 / 2 ^ 4) in
    let z : ℕ = if c.not_z_flag == 0 then 0x04 else 0x00 in
    let v = u16 (bit_and c.v_flag 0x80 / 2 ^ 6) in
    let y = u16 (bit_and c.c_flag 0x100 / 2 ^ 8) in
    bit_or
      (bit_or (bit_or (bit_or (bit_or (bit_or (bit_or (bit_or (bit_or t1 t0) s) m) i) x) n) z) v) y

-- `set_ccr_internal`, on a byte.
unfoldable pub set_ccr_internal : CpuCore → ℕ → CpuCore
set_ccr_internal c ccr = record c {
  x_flag = if bit_and ccr 0x10 != 0 then 0x100 else 0;
  n_flag = if bit_and ccr 0x08 != 0 then 0x80 else 0;
  not_z_flag = if bit_and ccr 0x04 != 0 then 0 else 1;
  v_flag = if bit_and ccr 0x02 != 0 then 0x80 else 0;
  c_flag = if bit_and ccr 0x01 != 0 then 0x100 else 0;
}

-- `((sr >> 11) & 6)`, with M cleared when S is.
unfoldable pub sm_of : ℕ → ℕ
sm_of sr =
    let sm = bit_and (sr / 2 ^ 11) 6 in
    if bit_and sm 4 == 0 then bit_and sm (0xffff_ffff - 2) else sm

-- The part of `set_sr` and `set_sr_noint_nosp` before the modes are set.
unfoldable pub set_sr_flags : CpuCore → ℕ → CpuCore
unfolding set_ccr_internal
set_sr_flags c sr =
    set_ccr_internal
      (record c {
        t1_flag = bit_and sr 0x8000;
        t0_flag = bit_and sr 0x4000;
        int_mask = bit_and sr 0x0700;
      })
      (u8 sr)

unfoldable pub set_sr : CpuCore → ℕ → CpuCore
unfolding set_sr_flags sm_of set_sm_flag
set_sr c sr0 = let sr = bit_and sr0 (u16 c.sr_mask) in set_sm_flag (set_sr_flags c sr) (sm_of sr)

unfoldable pub set_sr_noint_nosp : CpuCore → ℕ → CpuCore
unfolding set_sr_flags sm_of set_sm_flag_nosp
set_sr_noint_nosp c sr0 =
    let sr = bit_and sr0 (u16 c.sr_mask) in set_sm_flag_nosp (set_sr_flags c sr) (sm_of sr)

unfoldable pub get_ccr : CpuCore → ℕ
unfolding get_sr
get_ccr c = bit_and (get_sr c) 0xff

unfoldable pub set_ccr : CpuCore → ℕ → CpuCore
unfolding set_ccr_internal
set_ccr c ccr = set_ccr_internal c ccr

abbrev pub flag_x : CpuCore → Bool
flag_x c = c.x_flag != 0

abbrev pub flag_n : CpuCore → Bool
flag_n c = c.n_flag != 0

abbrev pub flag_z : CpuCore → Bool
flag_z c = c.not_z_flag == 0

abbrev pub flag_v : CpuCore → Bool
flag_v c = c.v_flag != 0

abbrev pub flag_c : CpuCore → Bool
flag_c c = c.c_flag != 0

abbrev pub is_supervisor : CpuCore → Bool
is_supervisor c = c.s_flag != 0

-- `test_condition`, for the four bits of `cond & 0x0F`.
unfoldable pub test_condition : CpuCore → ℕ → Bool
test_condition c cond0 =
    let k = bit_and cond0 0x0f in
    if k == 0x0
    then true
    else if k == 0x1
    then false
    else if k == 0x2
    then not (flag_c c) && not (flag_z c)
    else if k == 0x3
    then flag_c c || flag_z c
    else if k == 0x4
    then not (flag_c c)
    else if k == 0x5
    then flag_c c
    else if k == 0x6
    then not (flag_z c)
    else if k == 0x7
    then flag_z c
    else if k == 0x8
    then not (flag_v c)
    else if k == 0x9
    then flag_v c
    else if k == 0xa
    then not (flag_n c)
    else if k == 0xb
    then flag_n c
    else if k == 0xc
    then eqb (flag_n c) (flag_v c)
    else if k == 0xd
    then not (eqb (flag_n c) (flag_v c))
    else if k == 0xe
    then not (flag_z c) && eqb (flag_n c) (flag_v c)
    else if k == 0xf
    then flag_z c || not (eqb (flag_n c) (flag_v c))
    else true

unfoldable pub set_irq : CpuCore → ℕ → CpuCore
set_irq c level = record c { int_level = bit_and level 7 }

unfoldable pub check_interrupts : CpuCore → Bool
check_interrupts c = let mask = c.int_mask / 2 ^ 8 in c.int_level == 7 || ltb mask c.int_level
