-- ===== src/Rotate/Examples.antt =====
-- Rotates there and back.
use m68k_rs.Base.{◌≡◌}
use m68k_rs.Types.{byte, word}
use m68k_rs.Cpu.Status.{flag_x}
use m68k_rs.Rotate.{exec_rol, exec_ror, exec_roxl, exec_roxr}
use m68k_rs.Rotate.Turns.{rol_ror_inverse}
use m68k_rs.Rotate.Extend.{exec_roxr-exec_roxl}
use m68k_rs.Scenarios.{idle, kernel}

rol_ror_inverse_example :
    ((exec_ror kernel byte 11 (exec_rol idle byte 11 0x1a5).1).1 ≡ 0xa5)
    × ((exec_rol kernel byte 11 (exec_ror idle byte 11 0x1a5).1).1 ≡ 0xa5)
rol_ror_inverse_example = rol_ror_inverse idle kernel byte 11 0x1a5

exec_roxr-exec_roxl_example :
    ((exec_roxr (exec_roxl idle word 5 0x8421).0 word 5 (exec_roxl idle word 5 0x8421).1).1
      ≡ 0x8421)
    × (flag_x (exec_roxr (exec_roxl idle word 5 0x8421).0 word 5 (exec_roxl idle word 5 0x8421).1).0
        ≡ flag_x idle)
exec_roxr-exec_roxl_example = exec_roxr-exec_roxl idle word 5 0x8421
