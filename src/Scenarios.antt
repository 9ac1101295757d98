-- ===== src/Scenarios.antt =====
-- States of the processor for the tests.
use m68k_rs.Base.{◌==◌, true, false, if◌then◌else◌, none}
use m68k_rs.Types.{m68000, m68040}
use m68k_rs.Mmu.Atc.{new}
use m68k_rs.BranchCache.{empty}
use m68k_rs.Cpu.State.{CpuCore}

-- A 68000 in user mode, with X and Z set and every register 0.
abbrev pub idle : CpuCore
idle = record {
  dar = λ i. 0;
  dar_save = λ i. 0;
  sr_save = 0;
  ppc = 0;
  pc = 0;
  ir = 0;
  sp = λ i. 0;
  vbr = 0;
  sfc = 0;
  dfc = 0;
  cacr = 0;
  caar = 0;
  cacr_pending_ops = 0;
  itt0 = 0;
  itt1 = 0;
  dtt0 = 0;
  dtt1 = 0;
  t1_flag = 0;
  t0_flag = 0;
  s_flag = 0;
  m_flag = 0;
  x_flag = 0x100;
  n_flag = 0;
  not_z_flag = 0;
  v_flag = 0;
  c_flag = 0;
  int_mask = 0;
  int_level = 0;
  stopped = 0;
  cpu_type = m68000;
  address_mask = 0x00ff_ffff;
  sr_mask = 0xa71f;
  run_mode = 0;
  has_pmmu = false;
  pmmu_enabled = false;
  is_pre_68020 = true;
  mmu_crp_aptr = 0;
  mmu_crp_limit = 0;
  mmu_srp_aptr = 0;
  mmu_srp_limit = 0;
  mmu_tc = 0;
  mmu_sr = 0;
  mmu_tt0 = 0;
  mmu_tt1 = 0;
  dacr0 = 0;
  dacr1 = 0;
  iacr0 = 0;
  iacr1 = 0;
  pcr = 0;
  buscr = 0;
  atc = new;
  mmu_fc_override = none;
  branch_cache = empty;
  sst_m68000_compat = false;
  change_of_flow = false;
  loop_mode = false;
  precise_bus = false;
  prefetch_queue = (0, 0);
  prefetch_count = 0;
  exception_processing = false;
  instruction_exception_vector = none;
  last_exception_vector = none;
  pending_fault_cause = none;
  pending_fault_wdata = 0;
  mmu_read_override = none;
  mmu_write_suppress = none;
  fault_resume = none;
}

-- A 68040 in master mode, whose data register 0 covers the addresses from 0x4000_0000 for both modes.
abbrev pub kernel : CpuCore
kernel = record idle {
  cpu_type = m68040;
  sr_mask = 0xf71f;
  s_flag = 4;
  m_flag = 2;
  int_mask = 0x0300;
  dar = λ i. if i == 15 then 0x8000 else 0;
  sp = λ i. if i == 0 then 0x1000 else if i == 4 then 0x4000 else 0;
  dtt0 = 0x400f_c000;
}
