-- ===== src/Cpu/Examples.antt =====
-- The status register and the stack pointers of concrete states.
use m68k_rs.Base.{◌≡◌, arith}
use m68k_rs.Cpu.Stack.{set_sm_flag, sp_index}
use m68k_rs.Cpu.Stack.Laws.{bank_value, set_sm_flag-bank_value}
use m68k_rs.Cpu.Status.{get_sr, set_sr}
use m68k_rs.Cpu.Status.Laws.{legal_sr, get_sr-set_sr}
use m68k_rs.Scenarios.{kernel}

get_sr-set_sr_example : get_sr (set_sr kernel 0xffff) ≡ legal_sr 0xf71f
get_sr-set_sr_example = get_sr-set_sr kernel 0xffff (omega arith)

set_sm_flag-bank_value_example :
    (bank_value (set_sm_flag kernel 0) 6 ≡ bank_value kernel 6)
    × ((set_sm_flag kernel 0).dar 15 ≡ bank_value kernel (sp_index (set_sm_flag kernel 0)))
set_sm_flag-bank_value_example = set_sm_flag-bank_value kernel 0 6
