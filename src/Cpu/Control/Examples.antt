-- ===== src/Cpu/Control/Examples.antt =====
-- MOVEC in master mode.
use m68k_rs.Cpu.Control.Cacr.{is_kept, is_strobe}
use m68k_rs.Base.{true, none, ◌≡◌, refl, inr, get_bit}
use m68k_rs.Mmu.Atc.{lookup}
use m68k_rs.Cpu.State.{CpuCore, is_060}
use m68k_rs.Cpu.Stack.Laws.{bank_value}
use m68k_rs.Cpu.Control.{read_control_register, write_control_register}
use m68k_rs.Cpu.Control.Laws.{
  user, master, stack_registers, write_cacr_lem, write_control_register-lookup,
}
use m68k_rs.Scenarios.{idle, kernel}
use m68k_rs.Types.{m68030}

stack_registers_example :
    (read_control_register kernel 0x803 ≡ bank_value kernel 6)
    × (bank_value (write_control_register kernel 0x803 0x9000) 0 ≡ bank_value kernel 0)
unfolding is_060
stack_registers_example =
    stack_registers kernel master user 0x9000 (record { s = inr refl; m = inr refl }) refl

-- A 68030 with bit 0 pending, written CI and CD, and a look at CD.
abbrev cached : CpuCore
cached = record idle { cpu_type = m68030; cacr_pending_ops = 1 }

write_cacr_example :
    (get_bit 11 (read_control_register (write_control_register cached 2 0x809) 2) ≡ 0)
    × (get_bit 11 (write_control_register cached 2 0x809).cacr_pending_ops ≡ 1)
    × ((write_control_register cached 2 0x809).branch_cache ≡ cached.branch_cache)
unfolding is_kept is_strobe is_060
write_cacr_example = write_cacr_lem cached 0x809 11

write_control_register-lookup_example :
    lookup (write_control_register kernel 0x806 0x2000).atc 0x1234 true true ≡ none
write_control_register-lookup_example =
    write_control_register-lookup kernel 0x806 0x2000 0x1234 true true
