-- ===== src/Shift/Examples.antt =====
-- Shifts that move bits out, and counts beyond the size.
use m68k_rs.Base.{true, false, ◌≡◌, ◌↔◌, arith, scale, floor_div}
use m68k_rs.Types.{byte, word}
use m68k_rs.Cpu.Status.{flag_v}
use m68k_rs.Arith.Bits.{value}
use m68k_rs.Shift.{exec_asl, exec_asr, exec_lsl}
use m68k_rs.Shift.Logical.{Shifted, exec_lsl_lem}
use m68k_rs.Shift.Asl.{exec_asl_lem}
use m68k_rs.Shift.Asr.{exec_asr_lem, odd}
use m68k_rs.Scenarios.{idle}

exec_asl_example :
    ((exec_asl idle byte 1 0x41).1 ≡ 0x82)
    × Shifted (exec_asl idle byte 1 0x41).0 byte 0x82 false
    × ((flag_v (exec_asl idle byte 1 0x41).0 ≡ false)
        ↔ (value byte 0x82 ≡ scale (value byte 0x41) 2))
exec_asl_example = exec_asl_lem idle byte 1 0x41 (omega arith)

exec_asr_example :
    (value byte (exec_asr idle byte 2 0x83).1 ≡ floor_div (value byte 0x83) 4)
    × Shifted
        (exec_asr idle byte 2 0x83).0
        byte
        (exec_asr idle byte 2 0x83).1
        (odd (floor_div (value byte 0x83) 2))
    × (flag_v (exec_asr idle byte 2 0x83).0 ≡ false)
exec_asr_example = exec_asr_lem idle byte 2 0x83 (omega arith)

exec_lsl_example :
    ((exec_lsl idle word 16 0x8001).1 ≡ 0)
    × Shifted (exec_lsl idle word 16 0x8001).0 word 0 true
    × (flag_v (exec_lsl idle word 16 0x8001).0 ≡ false)
exec_lsl_example = exec_lsl_lem idle word 16 0x8001 (omega arith)
