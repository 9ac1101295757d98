-- ===== src/Mmu/Table040/Examples.antt =====
-- Translations through tables in a small memory.
use m68k_rs.Base.{◌==◌, if◌then◌else◌, true, false, ◌≡◌, refl, arith}
use m68k_rs.Base.Results.{ok, map_ok}
use m68k_rs.Types.{m68040}
use m68k_rs.Bus.Interface.{AddressBus, default_bus}
use m68k_rs.Bus.Linear.{LinearMemoryBus, linear, read_long, index}
use m68k_rs.Bus.Linear.Laws.{linear-IsQuiet}
use m68k_rs.Cpu.State.{CpuCore}
use m68k_rs.Mmu.Atc.{new, flush_all, lookup}
use m68k_rs.Mmu.Fault.{read_u32_phys}
use m68k_rs.Mmu.Table040.{page_bits, indices, follow, fetch_040, page_of, walk_040, translate_040}
use m68k_rs.Mmu.Table040.Coherent.{
  IsCoherent, at_offset, translate_040-IsCoherent, flushed-IsCoherent,
}
use m68k_rs.Scenarios.{idle}

-- A root table at 0, a pointer table at 0x200 and a page table at 0x400, which map the page 0x405 to
-- 0xabc.
abbrev pub tables : LinearMemoryBus
tables = record {
  memory = λ i.
      if i == 0x2
      then 0x2
      else if i == 0x3
      then 0x2
      else if i == 0x242
      then 0x4
      else if i == 0x243
      then 0x2
      else if i == 0x415
      then 0xab
      else if i == 0x416
      then 0xc0
      else if i == 0x417
      then 0x1
      else 0;
  len = 0x1000;
  wrap_mask = 0xfff;
  power_of_two_len = true;
  instruction_version = 1;
}

abbrev pub ram : AddressBus LinearMemoryBus
ram = default_bus linear

abbrev pub mapped : CpuCore
mapped = record idle {
  cpu_type = m68040;
  has_pmmu = true;
  pmmu_enabled = true;
  atc = flush_all new;
}

translate_040_maps : (translate_040 ram 0x0040_5123 false false (mapped, tables)).0 ≡ ok 0x00ab_c123
unfolding translate_040 lookup new default_bus read_long walk_040 fetch_040 follow page_of indices
    page_bits read_u32_phys flush_all index
translate_040_maps = refl

translate_040-IsCoherent_example :
    let out = translate_040 ram 0x0040_5123 true false (mapped, tables) in
    (out.0
      ≡ map_ok (at_offset mapped 0x0040_5123) (walk_040 ram mapped 0x0040_5123 true false tables).0)
    × IsCoherent ram out.1.0 tables
    × (out.1.1 ≡ tables)
translate_040-IsCoherent_example =
    translate_040-IsCoherent ram mapped tables 0x0040_5123 true false linear-IsQuiet
      (flushed-IsCoherent ram mapped new tables) (omega arith)
