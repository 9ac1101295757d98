-- ===== src/Cpu/Control.antt =====
-- src/core/cpu.rs: the control registers of MOVEC.
pub mod Laws
mod Cacr
mod Examples
use m68k_rs.Base.{
  ℕ, ◌-◌, bit_and, bit_or, Bool, true, false, not, ◌&&◌, ◌||◌, ◌==◌, ◌!=◌, if◌then◌else◌, not_u32,
}
use m68k_rs.Types.{CpuType, m68ec020, m68020, m68ec030, m68030, m68060}
use m68k_rs.Mmu.Atc.{flush_all}
use m68k_rs.BranchCache.{BranchCache060, clear_all, clear_user}
use m68k_rs.Cpu.State.{CpuCore, update, is_040, is_060}

-- The codes of the control registers.
pub data ControlRegister : Type 0 where
  reg_sfc reg_dfc reg_cacr reg_tc reg_itt0 reg_itt1 : ControlRegister
  reg_dtt0 reg_dtt1 reg_buscr_or_dacr0 reg_dacr1 reg_iacr0 reg_iacr1 : ControlRegister
  reg_usp reg_vbr reg_caar reg_msp reg_isp reg_mmusr : ControlRegister
  reg_urp reg_srp reg_pcr : ControlRegister
  unknown : ControlRegister

pub control_register : ℕ → ControlRegister
control_register reg =
    if reg == 0x0
    then reg_sfc
    else if reg == 0x1
    then reg_dfc
    else if reg == 0x2
    then reg_cacr
    else if reg == 0x3
    then reg_tc
    else if reg == 0x4
    then reg_itt0
    else if reg == 0x5
    then reg_itt1
    else if reg == 0x6
    then reg_dtt0
    else if reg == 0x7
    then reg_dtt1
    else if reg == 0x8
    then reg_buscr_or_dacr0
    else if reg == 0x9
    then reg_dacr1
    else if reg == 0xa
    then reg_iacr0
    else if reg == 0xb
    then reg_iacr1
    else if reg == 0x800
    then reg_usp
    else if reg == 0x801
    then reg_vbr
    else if reg == 0x802
    then reg_caar
    else if reg == 0x803
    then reg_msp
    else if reg == 0x804
    then reg_isp
    else if reg == 0x805
    then reg_mmusr
    else if reg == 0x806
    then reg_urp
    else if reg == 0x807
    then reg_srp
    else if reg == 0x808
    then reg_pcr
    else unknown

-- The active stack pointers: USP in user mode, MSP in master mode, ISP in interrupt mode.
abbrev pub in_master : CpuCore → Bool
in_master c = c.s_flag != 0 && c.m_flag != 0

abbrev pub in_interrupt : CpuCore → Bool
in_interrupt c = c.s_flag != 0 && c.m_flag == 0

pub read_of : CpuCore → ControlRegister → ℕ
read_of c reg_sfc = c.sfc
read_of c reg_dfc = c.dfc
read_of c reg_cacr = c.cacr
read_of c reg_tc = c.mmu_tc
read_of c reg_itt0 = c.itt0
read_of c reg_itt1 = c.itt1
read_of c reg_dtt0 = c.dtt0
read_of c reg_dtt1 = c.dtt1
read_of c reg_buscr_or_dacr0 = if is_060 c then c.buscr else c.dacr0
read_of c reg_dacr1 = c.dacr1
read_of c reg_iacr0 = c.iacr0
read_of c reg_iacr1 = c.iacr1
read_of c reg_usp = if c.s_flag == 0 then c.dar 15 else c.sp 0
read_of c reg_vbr = c.vbr
read_of c reg_caar = c.caar
read_of c reg_msp = if in_master c then c.dar 15 else c.sp 6
read_of c reg_isp = if in_interrupt c then c.dar 15 else c.sp 4
read_of c reg_mmusr = c.mmu_sr
read_of c reg_urp = c.mmu_crp_aptr
read_of c reg_srp = c.mmu_srp_aptr
read_of c reg_pcr = if is_060 c then c.pcr else 0
read_of c unknown = 0

unfoldable pub read_control_register : CpuCore → ℕ → ℕ
unfolding read_of control_register
read_control_register c reg = read_of c (control_register reg)

-- The bits of CACR that a model keeps, and the write-only bits that start an invalidation.
pub cacr_persist : CpuType → ℕ
cacr_persist m68ec020 = 0x3
cacr_persist m68020 = 0x3
cacr_persist m68ec030 = 0x3313
cacr_persist m68030 = 0x3313
cacr_persist m68060 = 0xf880_e000
cacr_persist _ = 0x8000_8000

pub cacr_strobes : CpuType → ℕ
cacr_strobes m68ec020 = 0xc
cacr_strobes m68020 = 0xc
cacr_strobes m68ec030 = 0xc0c
cacr_strobes m68030 = 0xc0c
cacr_strobes _ = 0

abbrev pub cacr_060_ebc : ℕ
cacr_060_ebc = 0x80_0000

abbrev pub cacr_060_cabc : ℕ
cacr_060_cabc = 0x40_0000

abbrev pub cacr_060_cubc : ℕ
cacr_060_cubc = 0x20_0000

-- The branch cache after a write to the 68060's CACR.
pub branch_strobes : CpuCore → ℕ → BranchCache060
branch_strobes c value =
    let cleared =
      if bit_and value cacr_060_cabc != 0
      then clear_all c.branch_cache
      else if bit_and value cacr_060_cubc != 0
      then clear_user c.branch_cache
      else c.branch_cache in
    if bit_and c.cacr cacr_060_ebc != 0 && bit_and value cacr_060_ebc == 0
    then clear_all cleared
    else cleared

pub write_cacr : CpuCore → ℕ → CpuCore
unfolding cacr_persist cacr_strobes branch_strobes
write_cacr c value = record c {
  branch_cache = if is_060 c then branch_strobes c value else c.branch_cache;
  cacr = bit_and value (cacr_persist c.cpu_type);
  cacr_pending_ops = bit_or c.cacr_pending_ops (bit_and value (cacr_strobes c.cpu_type));
}

unfoldable pub tc_enable : CpuCore → Bool
tc_enable c =
    if is_040 c || is_060 c then bit_and c.mmu_tc 0x8000 != 0 else bit_and c.mmu_tc 0x8000_0000 != 0

pub write_tc : CpuCore → ℕ → CpuCore
unfolding tc_enable
write_tc c value =
    let c' = record c {
      mmu_tc =
          if is_040 c
          then bit_and value 0xc000
          else if is_060 c
          then bit_and value 0xfffe
          else value;
    } in
    record c' { pmmu_enabled = tc_enable c' }

-- `PCR_EDEBUG | PCR_DFP | PCR_ESS`.
abbrev pub pcr_writable : ℕ
pcr_writable = 0x83

-- The bits of a transparent translation register that are kept.
abbrev pub ttr_writable : ℕ
ttr_writable = 0xffff_e364

pub write_of : CpuCore → ControlRegister → ℕ → CpuCore
unfolding write_cacr write_tc
write_of c reg_sfc value = record c { sfc = bit_and value 7 }
write_of c reg_dfc value = record c { dfc = bit_and value 7 }
write_of c reg_cacr value = write_cacr c value
write_of c reg_tc value = write_tc c value
write_of c reg_itt0 value = record c { itt0 = bit_and value ttr_writable }
write_of c reg_itt1 value = record c { itt1 = bit_and value ttr_writable }
write_of c reg_dtt0 value = record c { dtt0 = bit_and value ttr_writable }
write_of c reg_dtt1 value = record c { dtt1 = bit_and value ttr_writable }
write_of c reg_buscr_or_dacr0 value = record c {
  buscr =
      if is_060 c
      then bit_or (bit_and c.buscr 0x5000_0000) (bit_and value 0xa000_0000)
      else c.buscr;
  dacr0 = if is_060 c then c.dacr0 else value;
}
write_of c reg_dacr1 value = record c { dacr1 = value }
write_of c reg_iacr0 value = record c { iacr0 = value }
write_of c reg_iacr1 value = record c { iacr1 = value }
write_of c reg_usp value =
    if c.s_flag == 0
    then record c { dar = update c.dar 15 value }
    else record c { sp = update c.sp 0 value }
write_of c reg_vbr value = record c { vbr = value }
write_of c reg_caar value = record c { caar = value }
write_of c reg_msp value =
    if in_master c
    then record c { dar = update c.dar 15 value }
    else record c { sp = update c.sp 6 value }
write_of c reg_isp value =
    if in_interrupt c
    then record c { dar = update c.dar 15 value }
    else record c { sp = update c.sp 4 value }
write_of c reg_mmusr value = record c { mmu_sr = value }
write_of c reg_urp value = record c { mmu_crp_aptr = value }
write_of c reg_srp value = record c { mmu_srp_aptr = value }
write_of c reg_pcr value = record c {
  pcr =
      if is_060 c
      then bit_or (bit_and c.pcr (not_u32 pcr_writable)) (bit_and value pcr_writable)
      else c.pcr;
}
write_of c unknown value = c

-- The registers that take part in every translation.
pub drops_translations : ControlRegister → Bool
drops_translations reg_tc = true
drops_translations reg_itt0 = true
drops_translations reg_itt1 = true
drops_translations reg_dtt0 = true
drops_translations reg_dtt1 = true
drops_translations reg_urp = true
drops_translations reg_srp = true
drops_translations _ = false

unfoldable pub write_control_register : CpuCore → ℕ → ℕ → CpuCore
unfolding write_of control_register drops_translations
write_control_register c reg value =
    let c' = write_of c (control_register reg) value in
    record c' {
      atc = if drops_translations (control_register reg) then flush_all c'.atc else c'.atc;
    }
