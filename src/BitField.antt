-- ===== src/BitField.antt =====
-- src/core/instructions/bitfield.rs: the fields of a data register. Bit 0 of a field is the most
-- significant one, and a field wraps around the end of the register.
pub mod Extract
pub mod Insert
pub mod Laws
mod Examples
use m68k_rs.Base.{
  ℕ, zero, suc, ◌+◌, ◌-◌, ◌*◌, ◌/◌, ◌%◌, ◌^◌, bit_and, bit_or, bit_xor, Bool, true, false, Option,
  none, some, ◌==◌, ◌!=◌, leb, if◌then◌else◌, u32, not_u32, wrapping_add,
}
use m68k_rs.Cpu.State.{CpuCore, d, set_d}

pub record BitFieldSpec : Type 0 where
  pub reg : ℕ
  pub offset : ℕ
  pub width : ℕ

unfoldable pub decode_bitfield_spec : CpuCore → ℕ → BitFieldSpec
unfolding d
decode_bitfield_spec c ext =
    let width =
      if bit_and ext 0x20 != 0 then bit_and (d c (bit_and ext 7)) 31 else bit_and ext 31 in
    record {
      reg = bit_and (ext / 2 ^ 12) 7;
      offset =
          if bit_and ext 0x800 != 0
          then d c (bit_and (ext / 2 ^ 6) 7)
          else bit_and (ext / 2 ^ 6) 31;
      width = if width == 0 then 32 else width;
    }

pub set_bitfield_flags : CpuCore → ℕ → ℕ → CpuCore
set_bitfield_flags c field width = record c {
  n_flag = if width == 0 then 0 else if bit_and field (u32 (2 ^ (width - 1))) != 0 then 0x80 else 0;
  not_z_flag = field;
  v_flag = 0;
  c_flag = 0;
}

unfoldable pub bf_mask : ℕ → ℕ
bf_mask width = if leb 32 width then 0xffff_ffff else 2 ^ width - 1

pub bf_sign_extend : ℕ → ℕ → ℕ
bf_sign_extend field width =
    if leb 32 width
    then field
    else if bit_and field (2 ^ (width - 1)) != 0
    then bit_or field (u32 (0xffff_ffff * 2 ^ width))
    else field

-- The rest of the scan for the first 1, `rounds` bits from the end of the field.
pub first_one : ℕ → ℕ → ℕ → ℕ → ℕ × Bool
first_one field width base_offset zero = (wrapping_add base_offset width, true)
first_one field width base_offset (suc rounds) =
    let later = first_one field width base_offset rounds in
    if bit_and (field / 2 ^ rounds) 1 != 0
    then (wrapping_add base_offset (width - suc rounds), false)
    else later

pub bf_find_first_one : ℕ → ℕ → ℕ → ℕ × Bool
unfolding first_one
bf_find_first_one field width base_offset =
    if field == 0
    then (wrapping_add base_offset width, true)
    else first_one field width base_offset width

-- The rounds of the two loops from bit `i` of the field on.
pub extract_from : ℕ → ℕ → ℕ → ℕ → ℕ → ℕ
extract_from value offset i zero out = out
extract_from value offset i (suc rounds) out =
    let pos = bit_and (offset + i) 31 in
    let bit = bit_and (value / 2 ^ (31 - pos)) 1 in
    extract_from value offset (i + 1) rounds (bit_or (u32 (out * 2)) bit)

unfoldable pub bf_extract_reg_msb0 : ℕ → ℕ → ℕ → ℕ
unfolding extract_from
bf_extract_reg_msb0 value offset width = extract_from value offset 0 width 0

pub insert_from : ℕ → ℕ → ℕ → ℕ → ℕ → ℕ → ℕ
insert_from offset width field i zero v = v
insert_from offset width field i (suc rounds) v =
    let pos = bit_and (offset + i) 31 in
    let bit = bit_and (field / 2 ^ (width - 1 - i)) 1 in
    let shift = 31 - pos in
    insert_from offset width field (i + 1) rounds
      (bit_or (bit_and v (not_u32 (2 ^ shift))) (bit * 2 ^ shift))

unfoldable pub bf_insert_reg_msb0 : ℕ → ℕ → ℕ → ℕ → ℕ
unfolding insert_from
bf_insert_reg_msb0 orig offset width field = insert_from offset width field 0 width orig

-- BFFFO: the place of the first 1 goes to the register of the extension word.
pub find_first : CpuCore → BitFieldSpec → ℕ → CpuCore
unfolding set_d set_bitfield_flags bf_find_first_one
find_first c spec field =
    let first = bf_find_first_one field spec.width spec.offset in
    let c' = set_bitfield_flags (set_d c spec.reg first.0) field spec.width in
    record c' { not_z_flag = if first.1 then 0 else c'.not_z_flag }

-- The register with `new_field` in place of the field.
pub replace_field : CpuCore → BitFieldSpec → ℕ → ℕ → ℕ → CpuCore
unfolding set_d
replace_field c spec reg orig new_field =
    set_d c reg (bf_insert_reg_msb0 orig (bit_and spec.offset 31) spec.width new_field)

-- The operations on a data register, by bits 11 to 8 of the opcode: `none` is the illegal
-- instruction exception.
unfoldable pub exec_bitfield_reg : CpuCore → ℕ → BitFieldSpec → ℕ → Option (CpuCore × ℕ)
unfolding d set_d set_bitfield_flags bf_sign_extend find_first replace_field
exec_bitfield_reg c op spec reg =
    let orig = d c reg in
    let reg_offset = bit_and spec.offset 31 in
    let field = bf_extract_reg_msb0 orig reg_offset spec.width in
    let src_field = bit_and (d c spec.reg) (bf_mask spec.width) in
    let flagged = set_bitfield_flags c field spec.width in
    if op == 0x8
    then some (flagged, 8)
    else if op == 0x9
    then some (set_bitfield_flags (set_d c spec.reg field) field spec.width, 8)
    else if op == 0xa
    then some (replace_field flagged spec reg orig (bit_xor field (bf_mask spec.width)), 8)
    else if op == 0xb
    then some (
      set_bitfield_flags (set_d c spec.reg (bf_sign_extend field spec.width)) field spec.width,
      8,
    )
    else if op == 0xc
    then some (replace_field flagged spec reg orig 0, 8)
    else if op == 0xd
    then some (find_first c spec field, 8)
    else if op == 0xe
    then some (replace_field flagged spec reg orig (bf_mask spec.width), 8)
    else if op == 0xf
    then some (replace_field (set_bitfield_flags c src_field spec.width) spec reg orig src_field, 8)
    else none
