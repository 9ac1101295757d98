-- ===== src/BitField/Examples.antt =====
-- Fields that wrap around the end of a register.
use m68k_rs.Base.{some, get_bit, ◌≡◌, arith}
use m68k_rs.Cpu.State.{CpuCore, d}
use m68k_rs.BitField.{BitFieldSpec, bf_extract_reg_msb0, bf_insert_reg_msb0, exec_bitfield_reg}
use m68k_rs.BitField.Laws.{bf_extract-bf_insert, exec_bitfield_reg-bits, changed, flip}
use m68k_rs.Scenarios.{idle}

abbrev wrapping : BitFieldSpec
wrapping = record { reg = 1; offset = 28; width = 8 }

bf_extract-bf_insert_example :
    bf_extract_reg_msb0 (bf_insert_reg_msb0 0x1234_5678 28 8 0x1a5) 28 8 ≡ 0xa5
bf_extract-bf_insert_example =
    bf_extract-bf_insert 0x1234_5678 28 8 0x1a5 (omega arith) (omega arith) (omega arith)

exec_bitfield_reg-bits_example :
    (c' : CpuCore) × (exec_bitfield_reg idle 0xa wrapping 0 ≡ some (c', 8))
    × (get_bit 31 (d c' 0) ≡ changed flip (get_bit 31 (d idle 0)) (get_bit 3 (d idle 1)))
unfolding d
exec_bitfield_reg-bits_example =
    exec_bitfield_reg-bits idle flip wrapping 0 31 (omega arith) (omega arith) (omega arith)
