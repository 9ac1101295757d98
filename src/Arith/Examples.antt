-- ===== src/Arith/Examples.antt =====
-- Additions and subtractions at the borders of the sizes.
use m68k_rs.Base.{
  ◌^◌, ◌%◌, ◌/◌, ◌+◌, ◌*◌, false, ◌&&◌, ◌==◌, if◌then◌else◌, ◌≡◌, ◌↔◌, arith, ◌+ℤ◌, ◌-ℤ◌,
}
use m68k_rs.Types.{byte, word, long}
use m68k_rs.Cpu.State.{d}
use m68k_rs.Cpu.Status.{flag_z, flag_c, flag_v}
use m68k_rs.Arith.{exec_add, exec_sub, exec_addx, exec_subx, exec_cmp, exec_ext, exec_extb}
use m68k_rs.Arith.Bits.{value}
use m68k_rs.Arith.Add.{Flags, exec_add_lem, exec_sub_lem}
use m68k_rs.Arith.Extended.{exec_add-exec_addx, exec_sub-exec_subx}
use m68k_rs.Arith.Compare.{Ordered, exec_cmp_lem}
use m68k_rs.Arith.Extension.{exec_ext_lem}
use m68k_rs.Scenarios.{idle}

exec_add_example :
    ((exec_add idle byte 0x7f 1).1 ≡ 0x80)
    × Flags (exec_add idle byte 0x7f 1).0 byte 0x80 false
    × ((flag_v (exec_add idle byte 0x7f 1).0 ≡ false)
        ↔ (value byte 0x80 ≡ value byte 0x7f +ℤ value byte 1))
exec_add_example = exec_add_lem idle byte 0x7f 1

exec_sub_example :
    ((exec_sub idle word 1 0x8000).1 ≡ 0x7fff)
    × Flags (exec_sub idle word 1 0x8000).0 word 0x7fff false
    × ((flag_v (exec_sub idle word 1 0x8000).0 ≡ false)
        ↔ (value word 0x7fff ≡ value word 0x8000 -ℤ value word 1))
exec_sub_example = exec_sub_lem idle word 1 0x8000 (omega arith) (omega arith)

exec_cmp_example :
    Ordered (exec_cmp idle byte 0x80 1).0 byte 0x80 1
    × ((exec_cmp idle byte 0x80 1).0.x_flag ≡ 0x100)
exec_cmp_example = exec_cmp_lem idle byte 0x80 1 (omega arith) (omega arith)

exec_add-exec_addx_example :
    ((exec_add idle byte 0xff 0x01).1
        + (exec_addx (exec_add idle byte 0xff 0x01).0 byte 0x12 0x34).1 * 256
        + (if flag_c (exec_addx (exec_add idle byte 0xff 0x01).0 byte 0x12 0x34).0
            then 256 * 256
            else 0)
      ≡ 0xff + 0x12 * 256 + (0x01 + 0x34 * 256))
    × (flag_z (exec_addx (exec_add idle byte 0xff 0x01).0 byte 0x12 0x34).0 ≡ (
        ((exec_addx (exec_add idle byte 0xff 0x01).0 byte 0x12 0x34).1 == 0)
        && ((exec_add idle byte 0xff 0x01).1 == 0)))
exec_add-exec_addx_example =
    exec_add-exec_addx idle byte 0xff 0x12 0x01 0x34 (omega arith) (omega arith) (omega arith)
      (omega arith)

exec_sub-exec_subx_example :
    ((exec_sub idle byte 0x01 0x00).1
        + (exec_subx (exec_sub idle byte 0x01 0x00).0 byte 0x12 0x34).1 * 256
        + (0x01 + 0x12 * 256)
      ≡ 0x00
        + 0x34 * 256
        + (if flag_c (exec_subx (exec_sub idle byte 0x01 0x00).0 byte 0x12 0x34).0
            then 256 * 256
            else 0))
    × (flag_z (exec_subx (exec_sub idle byte 0x01 0x00).0 byte 0x12 0x34).0 ≡ (
        ((exec_subx (exec_sub idle byte 0x01 0x00).0 byte 0x12 0x34).1 == 0)
        && ((exec_sub idle byte 0x01 0x00).1 == 0)))
exec_sub-exec_subx_example =
    exec_sub-exec_subx idle byte 0x01 0x12 0x00 0x34 (omega arith) (omega arith) (omega arith)
      (omega arith)

exec_ext_example :
    (value word (d (exec_ext idle word 2).0 2 % 2 ^ 16) ≡ value byte 0)
    × (d (exec_ext idle word 2).0 2 / 2 ^ 16 ≡ 0)
    × (value long (d (exec_ext idle long 2).0 2) ≡ value word 0)
    × (value long (d (exec_extb idle 2).0 2) ≡ value byte 0)
unfolding d
exec_ext_example = exec_ext_lem idle 2 (omega arith)
