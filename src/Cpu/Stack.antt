-- ===== src/Cpu/Stack.antt =====
-- src/core/cpu.rs: the banked stack pointers, and the modes that select them.
pub mod Laws
use m68k_rs.Base.{ℕ, ◌/◌, bit_and, bit_or, Bool, true, false, ◌&&◌, ◌==◌, ◌!=◌, if◌then◌else◌}
use m68k_rs.Types.{is_m68060}
use m68k_rs.Cpu.State.{CpuCore, update}

abbrev pub sflag_set : ℕ
sflag_set = 4

abbrev pub mflag_set : ℕ
mflag_set = 2

unfoldable pub sp_index : CpuCore → ℕ
sp_index c =
    if is_m68060 c.cpu_type then c.s_flag else bit_or c.s_flag (bit_and (c.s_flag / 2) c.m_flag)

unfoldable pub backup_sp : CpuCore → CpuCore
unfolding sp_index
backup_sp c = record c { sp = update c.sp (sp_index c) (c.dar 15) }

unfoldable pub restore_sp : CpuCore → CpuCore
unfolding sp_index
restore_sp c = record c { dar = update c.dar 15 (c.sp (sp_index c)) }

unfoldable pub set_s_flag : CpuCore → ℕ → CpuCore
unfolding backup_sp restore_sp
set_s_flag c value = restore_sp (record (backup_sp c) { s_flag = value })

unfoldable pub set_sm_flag : CpuCore → ℕ → CpuCore
unfolding backup_sp restore_sp
set_sm_flag c value =
    restore_sp
      (record (backup_sp c) { s_flag = bit_and value sflag_set; m_flag = bit_and value mflag_set })

unfoldable pub set_sm_flag_nosp : CpuCore → ℕ → CpuCore
set_sm_flag_nosp c value = record c {
  s_flag = bit_and value sflag_set;
  m_flag = bit_and value mflag_set;
}

unfoldable pub get_usp : CpuCore → ℕ
get_usp c = if c.s_flag == 0 then c.dar 15 else c.sp 0

unfoldable pub set_usp : CpuCore → ℕ → CpuCore
set_usp c value =
    if c.s_flag == 0
    then record c { dar = update c.dar 15 value }
    else record c { sp = update c.sp 0 value }
