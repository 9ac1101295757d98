-- ===== src/Cpu/Stack/Laws.antt =====
-- src/core/cpu.rs: the stack pointer of every bank under `set_sm_flag`.
use m68k_rs.Base.{ℕ, ◌==◌, if◌then◌else◌, ◌≡◌, arith}
use m68k_rs.Cpu.State.{CpuCore}
use m68k_rs.Cpu.Stack.{sp_index, set_s_flag, set_sm_flag}

-- The value of the stack pointer of a bank: A7 while the bank is active, else the saved one.
abbrev pub bank_value : CpuCore → ℕ → ℕ
bank_value c bank = if bank == sp_index c then c.dar 15 else c.sp bank

-- A change of the S and M flags keeps the stack pointer of every bank, and A7 is then that of the
-- bank that the new flags select.
pub set_sm_flag-bank_value :
    (c : CpuCore) (value bank : ℕ)
    → (bank_value (set_sm_flag c value) bank ≡ bank_value c bank)
      × ((set_sm_flag c value).dar 15 ≡ bank_value c (sp_index (set_sm_flag c value)))
unfolding set_sm_flag sp_index
set_sm_flag-bank_value c value bank = ground arith

-- So does a change of the S flag alone.
pub set_s_flag-bank_value :
    (c : CpuCore) (value bank : ℕ)
    → (bank_value (set_s_flag c value) bank ≡ bank_value c bank)
      × ((set_s_flag c value).dar 15 ≡ bank_value c (sp_index (set_s_flag c value)))
unfolding set_s_flag sp_index
set_s_flag-bank_value c value bank = ground arith
