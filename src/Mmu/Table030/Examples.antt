-- ===== src/Mmu/Table030/Examples.antt =====
-- A walk through a table of one level.
use m68k_rs.Mmu.Table030.Levels.{walk_030-Counted, Counted}
use m68k_rs.Mmu.Fault.{read_u32_phys}
use m68k_rs.Base.{true, false, ◌==◌, if◌then◌else◌, ◌≡◌, refl, arith}
use m68k_rs.Types.{m68030}
use m68k_rs.Base.Results.{ok}
use m68k_rs.Bus.Interface.{AddressBus, default_bus}
use m68k_rs.Bus.Linear.{LinearMemoryBus, linear, read_long, index}
use m68k_rs.Cpu.State.{CpuCore}
use m68k_rs.Mmu.Table030.{
  translate_030, ptest_030, function_code_of, start_state, fetch_030, read_desc_030, examine,
  walk_030,
}
use m68k_rs.Mmu.Table030.Probe.{succeeds, admits, translate_030-ptest_030}
use m68k_rs.Scenarios.{idle}

-- A table of short descriptors at 0x10, whose entry 1 is a write-protected page at 0xabcd00.
abbrev table : LinearMemoryBus
table = record {
  memory =
      λ i. if i == 0x15 then 0xab else if i == 0x16 then 0xcd else if i == 0x17 then 0x5 else 0;
  len = 0x100;
  wrap_mask = 0xff;
  power_of_two_len = true;
  instruction_version = 1;
}

-- IS is 0, TIA is 4 and TIB is 0.
abbrev paged : CpuCore
paged = record idle {
  cpu_type = m68030;
  has_pmmu = true;
  pmmu_enabled = true;
  mmu_tc = 0x8000_4000;
  mmu_crp_aptr = 0x10;
  mmu_crp_limit = 0x2;
}

abbrev ram : AddressBus LinearMemoryBus
ram = default_bus linear

translate_030_maps : (translate_030 ram paged 0x1000_0042 false true false table).0 ≡ ok 0x00ab_cd42
unfolding translate_030 start_state fetch_030 read_desc_030 read_u32_phys default_bus examine
    read_long index
translate_030_maps = refl

translate_030-ptest_030_example :
    succeeds (translate_030 ram paged 0x1000_0042 true true false table).0
    ≡ admits true (ptest_030 ram paged 0x1000_0042 (function_code_of true false) true 7 table).0.0
translate_030-ptest_030_example =
    translate_030-ptest_030 ram paged table 0x1000_0042 7 true true false (omega arith)

walk_030-Counted_example : Counted 5 (walk_030 ram paged 0x1000_0042 5 7 table).0
walk_030-Counted_example = walk_030-Counted ram 0x1000_0042 5 paged 7 table (omega arith)
