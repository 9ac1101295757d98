-- ===== src/Cpu/State.antt =====
-- src/core/cpu.rs, `CpuCore`: the architectural state. The fields of the bus interface, the decoder,
-- the FPU, the trace compiler and the cycle counters are left out.
use m68k_rs.Base.{ℕ, ◌+◌, bit_and, Bool, true, false, ◌&&◌, Option, ◌==◌, ◌!=◌, if◌then◌else◌}
use m68k_rs.Types.{CpuType, m68ec040, m68lc040, m68040, is_m68060}
use m68k_rs.Mmu.Atc.{Atc}
use m68k_rs.Mmu.Fault.{MmuFaultCause}
use m68k_rs.BranchCache.{BranchCache060}

-- The arrays `dar` and `sp` are functions of the index, which every access keeps in range.
pub record CpuCore : Type 0 where
  pub dar : ℕ → ℕ
  pub dar_save : ℕ → ℕ
  pub sr_save : ℕ
  pub ppc : ℕ
  pub pc : ℕ
  pub ir : ℕ
  pub sp : ℕ → ℕ
  pub vbr : ℕ
  pub sfc : ℕ
  pub dfc : ℕ
  pub cacr : ℕ
  pub caar : ℕ
  pub cacr_pending_ops : ℕ
  pub itt0 : ℕ
  pub itt1 : ℕ
  pub dtt0 : ℕ
  pub dtt1 : ℕ
  pub t1_flag : ℕ
  pub t0_flag : ℕ
  pub s_flag : ℕ
  pub m_flag : ℕ
  pub x_flag : ℕ
  pub n_flag : ℕ
  pub not_z_flag : ℕ
  pub v_flag : ℕ
  pub c_flag : ℕ
  pub int_mask : ℕ
  pub int_level : ℕ
  pub stopped : ℕ
  pub cpu_type : CpuType
  pub address_mask : ℕ
  pub sr_mask : ℕ
  pub run_mode : ℕ
  pub has_pmmu : Bool
  pub pmmu_enabled : Bool
  pub is_pre_68020 : Bool
  pub mmu_crp_aptr : ℕ
  pub mmu_crp_limit : ℕ
  pub mmu_srp_aptr : ℕ
  pub mmu_srp_limit : ℕ
  pub mmu_tc : ℕ
  pub mmu_sr : ℕ
  pub mmu_tt0 : ℕ
  pub mmu_tt1 : ℕ
  pub dacr0 : ℕ
  pub dacr1 : ℕ
  pub iacr0 : ℕ
  pub iacr1 : ℕ
  pub pcr : ℕ
  pub buscr : ℕ
  pub atc : Atc
  pub mmu_fc_override : Option ℕ
  pub branch_cache : BranchCache060
  pub sst_m68000_compat : Bool
  pub change_of_flow : Bool
  pub loop_mode : Bool
  pub precise_bus : Bool
  pub prefetch_queue : ℕ × ℕ
  pub prefetch_count : ℕ
  pub exception_processing : Bool
  pub instruction_exception_vector : Option ℕ
  pub last_exception_vector : Option ℕ
  pub pending_fault_cause : Option MmuFaultCause
  pub pending_fault_wdata : ℕ
  pub mmu_read_override : Option (ℕ × ℕ)
  pub mmu_write_suppress : Option ℕ
  pub fault_resume : Option (ℕ × ℕ × (ℕ → ℕ))

-- `self.array[i] = v`.
abbrev pub update : (ℕ → ℕ) → ℕ → ℕ → ℕ → ℕ
update f i v j = if j == i then v else f j

abbrev pub run_mode_berr_aerr_reset : ℕ
run_mode_berr_aerr_reset = 1

unfoldable pub d : CpuCore → ℕ → ℕ
d c reg = c.dar (bit_and reg 7)

unfoldable pub set_d : CpuCore → ℕ → ℕ → CpuCore
set_d c reg value = record c { dar = update c.dar (bit_and reg 7) value }

unfoldable pub a : CpuCore → ℕ → ℕ
a c reg = c.dar (8 + bit_and reg 7)

unfoldable pub set_a : CpuCore → ℕ → ℕ → CpuCore
set_a c reg value = record c { dar = update c.dar (8 + bit_and reg 7) value }

unfoldable pub is_stopped : CpuCore → Bool
is_stopped c = c.stopped != 0 && c.run_mode != run_mode_berr_aerr_reset

unfoldable pub is_halted : CpuCore → Bool
is_halted c = c.stopped != 0 && c.run_mode == run_mode_berr_aerr_reset

unfoldable pub is_040_type : CpuType → Bool
is_040_type m68ec040 = true
is_040_type m68lc040 = true
is_040_type m68040 = true
is_040_type _ = false

unfoldable pub is_040 : CpuCore → Bool
unfolding is_040_type
is_040 c = is_040_type c.cpu_type

unfoldable pub is_060 : CpuCore → Bool
is_060 c = is_m68060 c.cpu_type

-- `address`.
unfoldable pub address : CpuCore → ℕ → ℕ
address c addr = bit_and addr c.address_mask
