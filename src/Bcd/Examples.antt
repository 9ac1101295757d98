-- ===== src/Bcd/Examples.antt =====
-- Decimal sums and differences with a carry.
use m68k_rs.Base.{arith}
use m68k_rs.Cpu.Status.{flag_c}
use m68k_rs.Bcd.{bcd_add, bcd_sub, nbcd_value}
use m68k_rs.Bcd.Digits.{Sum, Difference}
use m68k_rs.Bcd.Laws.{Decided, bcd_add_lem, bcd_sub_lem, nbcd_value_lem}
use m68k_rs.Scenarios.{idle}

bcd_add_example :
    Sum 0x58 0x76 1 (bcd_add idle 0x58 0x76).1 (flag_c (bcd_add idle 0x58 0x76).0)
    × Decided idle
        (bcd_add idle 0x58 0x76).0
        (bcd_add idle 0x58 0x76).1
        (flag_c (bcd_add idle 0x58 0x76).0)
bcd_add_example =
    bcd_add_lem idle 0x58 0x76 (record { low = omega arith; high = omega arith })
      (record { low = omega arith; high = omega arith })

bcd_sub_example :
    Difference 0x58 0x12 1 (bcd_sub idle 0x58 0x12).1 (flag_c (bcd_sub idle 0x58 0x12).0)
    × Decided idle
        (bcd_sub idle 0x58 0x12).0
        (bcd_sub idle 0x58 0x12).1
        (flag_c (bcd_sub idle 0x58 0x12).0)
bcd_sub_example =
    bcd_sub_lem idle 0x58 0x12 (record { low = omega arith; high = omega arith })
      (record { low = omega arith; high = omega arith })

nbcd_value_example :
    Difference 0x37 0 1 (nbcd_value idle 0x37).1 (flag_c (nbcd_value idle 0x37).0)
    × Decided idle
        (nbcd_value idle 0x37).0
        (nbcd_value idle 0x37).1
        (flag_c (nbcd_value idle 0x37).0)
nbcd_value_example = nbcd_value_lem idle 0x37 (record { low = omega arith; high = omega arith })
