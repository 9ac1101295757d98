-- ===== src/Cpu/Reset.antt =====
-- src/core/cpu.rs: the choice of the processor model and the reset.
pub mod Laws
mod Examples
use m68k_rs.Base.{ℕ, bit_or, Bool, true, false}
use m68k_rs.Types.{
  CpuType, invalid, m68000, m68010, m68ec020, m68020, m68ec030, m68030, m68ec040, m68lc040, m68040,
  scc68070, m68060,
}
use m68k_rs.Mmu.Atc.{flush_all}
use m68k_rs.BranchCache.{clear_all}
use m68k_rs.Cpu.State.{CpuCore}
use m68k_rs.Cpu.Stack.{set_s_flag}

-- `CACR_CI | CACR_CD`.
abbrev pub cacr_clear_all : ℕ
cacr_clear_all = 0x808

abbrev pub pcr_060_reset : ℕ
pcr_060_reset = 0x0430_0100

-- `set_cpu_type`: the masks of each model. The invalid model keeps those that were there.
pub type_masks : CpuType → CpuCore → CpuCore
type_masks m68000 c = record c { address_mask = 0x00ff_ffff; sr_mask = 0xa71f; has_pmmu = false }
type_masks m68010 c = record c { address_mask = 0x00ff_ffff; sr_mask = 0xa71f; has_pmmu = false }
type_masks scc68070 c = record c { address_mask = 0xffff_ffff; sr_mask = 0xa71f; has_pmmu = false }
type_masks m68ec020 c = record c { address_mask = 0xffff_ffff; sr_mask = 0xf71f; has_pmmu = false }
type_masks m68020 c = record c { address_mask = 0xffff_ffff; sr_mask = 0xf71f; has_pmmu = false }
type_masks m68ec030 c = record c { address_mask = 0xffff_ffff; sr_mask = 0xf71f; has_pmmu = false }
type_masks m68030 c = record c { address_mask = 0xffff_ffff; sr_mask = 0xf71f; has_pmmu = true }
type_masks m68ec040 c = record c { address_mask = 0xffff_ffff; sr_mask = 0xf71f; has_pmmu = false }
type_masks m68lc040 c = record c { address_mask = 0xffff_ffff; sr_mask = 0xf71f; has_pmmu = false }
type_masks m68040 c = record c { address_mask = 0xffff_ffff; sr_mask = 0xf71f; has_pmmu = true }
type_masks m68060 c = record c { address_mask = 0xffff_ffff; sr_mask = 0xb71f; has_pmmu = true }
type_masks invalid c = c

pub is_pre_68020_type : CpuType → Bool
is_pre_68020_type m68000 = true
is_pre_68020_type m68010 = true
is_pre_68020_type scc68070 = true
is_pre_68020_type _ = false

-- The decode table and the 68060 pipeline state that it also drops are not part of the state here.
unfoldable pub set_cpu_type : CpuCore → CpuType → CpuCore
unfolding type_masks is_pre_68020_type
set_cpu_type c t = type_masks t (record c { cpu_type = t; is_pre_68020 = is_pre_68020_type t })

-- What the reset sets before it enters supervisor mode. The 68060 pipeline state, the instruction mode,
-- the flag for words taken without a prefetch and the clocks not yet reported, which it also clears,
-- are not part of the state here.
pub reset_cleared : CpuCore → CpuCore
reset_cleared c = record c {
  stopped = 0;
  t1_flag = 0;
  t0_flag = 0;
  m_flag = 0;
  run_mode = 0;
  vbr = 0;
  cacr = 0;
  cacr_pending_ops = bit_or c.cacr_pending_ops cacr_clear_all;
  pcr = pcr_060_reset;
  buscr = 0;
  branch_cache = clear_all c.branch_cache;
  mmu_tc = 0;
  pmmu_enabled = false;
  itt0 = 0;
  itt1 = 0;
  dtt0 = 0;
  dtt1 = 0;
  mmu_tt0 = 0;
  mmu_tt1 = 0;
  atc = flush_all c.atc;
  prefetch_queue = (0, 0);
  prefetch_count = 0;
  x_flag = 0;
  n_flag = 0;
  v_flag = 0;
  c_flag = 0;
  not_z_flag = 0;
}

unfoldable pub pulse_reset : CpuCore → CpuCore
unfolding reset_cleared set_s_flag
pulse_reset c = record (set_s_flag (reset_cleared c) 4) { int_mask = 0x0700 }
