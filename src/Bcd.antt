-- ===== src/Bcd.antt =====
-- src/core/instructions/bcd.rs: the arithmetic of ABCD, SBCD and NBCD, and the digits of PACK and
-- UNPK between registers.
pub mod Digits
pub mod Laws
mod Examples
use m68k_rs.Base.{
  ℕ, ◌+◌, ◌-◌, ◌*◌, ◌/◌, ◌%◌, ◌^◌, bit_and, bit_or, Bool, true, false, not, ◌&&◌, ◌||◌, ◌==◌, ◌!=◌,
  ltb, leb, if◌then◌else◌, u8, u16, u32, wrapping_add, wrapping_sub,
}
use m68k_rs.Types.{
  CpuType, invalid, m68000, m68010, m68ec020, m68020, m68ec030, m68030, m68ec040, m68lc040, m68040,
  scc68070, m68060,
}
use m68k_rs.Cpu.State.{CpuCore, d, set_d}

-- `wrapping_sub` on `u16`.
abbrev pub sub_u16 : ℕ → ℕ → ℕ
sub_u16 a b = (a + 2 ^ 16 - b) % 2 ^ 16

-- X as a number, and a carry into both X and C.
abbrev pub x_in : CpuCore → ℕ
x_in c = if c.x_flag != 0 then 1 else 0

abbrev pub set_xc : CpuCore → Bool → CpuCore
set_xc c carry = record c {
  x_flag = if carry then 0x100 else 0;
  c_flag = if carry then 0x100 else 0;
}

pub bcd_nv_level : CpuType → ℕ
bcd_nv_level invalid = 0
bcd_nv_level m68000 = 0
bcd_nv_level m68010 = 0
bcd_nv_level scc68070 = 0
bcd_nv_level m68ec020 = 2
bcd_nv_level m68020 = 2
bcd_nv_level m68ec030 = 2
bcd_nv_level m68030 = 2
bcd_nv_level m68ec040 = 4
bcd_nv_level m68lc040 = 4
bcd_nv_level m68040 = 4
bcd_nv_level m68060 = 4

pub bcd_set_nvz : CpuCore → ℕ → Bool → CpuCore
unfolding bcd_nv_level
bcd_set_nvz c res8 v_set =
    let level = bcd_nv_level c.cpu_type in
    let keeps = not (ltb level 4) in
    record c {
      not_z_flag = bit_or c.not_z_flag res8;
      n_flag = if keeps then c.n_flag else if bit_and res8 0x80 != 0 then 0x80 else 0;
      v_flag = if keeps then c.v_flag else if ltb level 2 && v_set then 0x80 else 0;
    }

-- The sums of the hardware model: the sum before correction, the corrected one, and the carry.
pub add_digits : ℕ → ℕ → ℕ → ℕ × ℕ × Bool
add_digits src0 dst0 x =
    let src = bit_and src0 0xff in
    let dst = bit_and dst0 0xff in
    let newv_lo = u16 (bit_and src 0xf + bit_and dst 0xf) + x in
    let newv_hi = u16 (bit_and src 0xf0 + bit_and dst 0xf0) in
    let tmp_newv = newv_hi + newv_lo in
    let newv = if ltb 9 newv_lo then tmp_newv + 6 else tmp_newv in
    let carry = ltb 0x90 (bit_and newv 0x3f0) in
    (tmp_newv, if carry then newv + 0x60 else newv, carry)

pub bcd_add_sst : CpuCore → ℕ → ℕ → CpuCore × ℕ
bcd_add_sst c src0 dst0 =
    let x = x_in c in
    let src = bit_and src0 0xff in
    let dst = bit_and dst0 0xff in
    let lo = wrapping_add (wrapping_add (bit_and src 0xf) (bit_and dst 0xf)) x in
    let sum = wrapping_add (wrapping_add src dst) x in
    let res = if ltb 9 lo then wrapping_add sum 6 else sum in
    let carry = ltb 0x9f res in
    let res8 = bit_and (if carry then wrapping_add res 0x60 else res) 0xff in
    let c' = set_xc c carry in
    (record c' { not_z_flag = if res8 != 0 then res8 else c.not_z_flag }, res8)

unfoldable pub bcd_add : CpuCore → ℕ → ℕ → CpuCore × ℕ
unfolding bcd_add_sst add_digits bcd_set_nvz
bcd_add c src dst =
    if c.sst_m68000_compat
    then bcd_add_sst c src dst
    else let sums = add_digits src dst (x_in c) in
      let tmp_newv = sums.0 in
      let newv = sums.1 in
      let res8 = bit_and newv 0xff in
      (
        bcd_set_nvz (set_xc c sums.2) res8 (bit_and tmp_newv 0x80 == 0 && bit_and newv 0x80 != 0),
        res8,
      )

-- An `i32` is kept as its 32 bits: it is negative when the top one is set.
abbrev pub negative : ℕ → Bool
negative n = leb 0x8000_0000 n

pub bcd_sub_sst : CpuCore → ℕ → ℕ → CpuCore × ℕ
bcd_sub_sst c src0 dst0 =
    let x = x_in c in
    let src = bit_and src0 0xff in
    let dst = bit_and dst0 0xff in
    let base = wrapping_sub (wrapping_sub dst src) x in
    let low_borrow = negative (wrapping_sub (wrapping_sub (bit_and dst 0xf) (bit_and src 0xf)) x) in
    let borrow = negative base in
    let res = if low_borrow then wrapping_sub base 6 else base in
    let xc = negative res || borrow in
    let res8 = bit_and (if borrow then wrapping_sub res 0x60 else res) 0xff in
    let c' = set_xc c xc in
    (record c' { not_z_flag = if res8 != 0 then res8 else c.not_z_flag }, res8)

-- The difference of the low digits, and the whole one before correction.
pub sub_low : ℕ → ℕ → ℕ → ℕ
sub_low src dst x = sub_u16 (sub_u16 (u16 (bit_and dst 0xf)) (u16 (bit_and src 0xf))) (u16 x)

pub sub_raw : ℕ → ℕ → ℕ → ℕ
unfolding sub_low
sub_raw src dst x =
    let newv_hi = sub_u16 (u16 (bit_and dst 0xf0)) (u16 (bit_and src 0xf0)) in
    u16 (newv_hi + sub_low src dst x)

-- The borrows of the low digit and of the byte, and the carry out.
pub borrows_low : ℕ → ℕ → ℕ → Bool
unfolding sub_low
borrows_low src dst x = bit_and (sub_low src dst x) 0xf0 != 0

pub borrows : ℕ → ℕ → ℕ → Bool
borrows src dst x = bit_and (wrapping_sub (wrapping_sub dst src) x) 0x100 != 0

-- The differences of the hardware model, in the order of `add_digits`.
pub sub_digits : ℕ → ℕ → ℕ → ℕ × ℕ × Bool
unfolding sub_raw borrows_low borrows
sub_digits src0 dst0 x =
    let src = bit_and src0 0xff in
    let dst = bit_and dst0 0xff in
    let tmp_newv = sub_raw src dst x in
    let newv = if borrows_low src dst x then sub_u16 tmp_newv 6 else tmp_newv in
    let bcd : ℕ = if borrows_low src dst x then 6 else 0 in
    (
      tmp_newv,
      if borrows src dst x then sub_u16 newv 0x60 else newv,
      bit_and (wrapping_sub (wrapping_sub (wrapping_sub dst src) bcd) x) 0x300 != 0,
    )

unfoldable pub bcd_sub : CpuCore → ℕ → ℕ → CpuCore × ℕ
unfolding bcd_sub_sst sub_digits bcd_set_nvz
bcd_sub c src dst =
    if c.sst_m68000_compat
    then bcd_sub_sst c src dst
    else let sums = sub_digits src dst (x_in c) in
      let tmp_newv = sums.0 in
      let newv = sums.1 in
      let res8 = bit_and newv 0xff in
      (
        bcd_set_nvz (set_xc c sums.2) res8 (bit_and tmp_newv 0x80 != 0 && bit_and newv 0x80 == 0),
        res8,
      )

-- The negation of NBCD in the hardware model, in the order of `add_digits`.
pub negate_digits : ℕ → ℕ → ℕ × ℕ × Bool
negate_digits dst x =
    let dst8 = bit_and dst 0xff in
    let newv_lo = sub_u16 (sub_u16 0 (bit_and dst8 0xf)) x in
    let newv_hi = sub_u16 0 (bit_and dst8 0xf0) in
    let tmp_newv = u16 (newv_hi + newv_lo) in
    let corrected_lo = if ltb 9 newv_lo then sub_u16 newv_lo 6 else newv_lo in
    let newv = u16 (newv_hi + corrected_lo) in
    let carry = ltb 0x90 (bit_and newv 0x1f0) in
    (tmp_newv, if carry then sub_u16 newv 0x60 else newv, carry)

-- What NBCD does between the read and the write of its operand.
unfoldable pub nbcd_value : CpuCore → ℕ → CpuCore × ℕ
unfolding bcd_sub_sst negate_digits bcd_set_nvz
nbcd_value c dst =
    if c.sst_m68000_compat
    then bcd_sub_sst c dst 0
    else let sums = negate_digits dst (x_in c) in
      let tmp_newv = sums.0 in
      let newv = sums.1 in
      let res8 = bit_and newv 0xff in
      (
        bcd_set_nvz (set_xc c sums.2) res8 (bit_and tmp_newv 0x80 != 0 && bit_and newv 0x80 == 0),
        res8,
      )

-- PACK and UNPK between data registers, with an adjustment of 16 bits.
unfoldable pub exec_pack_rr : CpuCore → ℕ → ℕ → ℕ → CpuCore × ℕ
unfolding d set_d
exec_pack_rr c src_reg dst_reg adj =
    let val = u16 (u16 (d c src_reg) + adj) in
    let packed = bit_or (bit_and (val / 2 ^ 4) 0xf0) (bit_and val 0xf) in
    (set_d c dst_reg (bit_or (bit_and (d c dst_reg) 0xffff_ff00) packed), 6)

unfoldable pub exec_unpk_rr : CpuCore → ℕ → ℕ → ℕ → CpuCore × ℕ
unfolding d set_d
exec_unpk_rr c src_reg dst_reg adj =
    let src = bit_and (d c src_reg) 0xff in
    let unpacked = bit_or (bit_and (src / 2 ^ 4) 0xf * 2 ^ 8) (bit_and src 0xf) in
    let result = bit_and (unpacked + adj) 0xffff in
    (set_d c dst_reg (bit_or (bit_and (d c dst_reg) 0xffff_0000) result), 8)
