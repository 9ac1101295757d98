-- ===== src/Exception/RoundTrip/Return.antt =====
-- src/core/decode.rs and src/core/cpu.rs: RTE through a frame of the format 0, and the stack pointers
-- after it.
use m68k_rs.Base.{
  ℕ, suc, ◌/◌, ◌^◌, ◌<◌, ◌≡◌, refl, sym, ap, ◌∙◌, Bool, true, false, none, bit_and, wrapping_add,
  u16, arith, ◌==◌,
}
use m68k_rs.Base.Results.{ok}
use m68k_rs.Types.{m68020}
use m68k_rs.Bus.Interface.{default_bus, AddressBus}
use m68k_rs.Bus.Linear.{LinearMemoryBus, linear, read_word, read_long}
use m68k_rs.Cpu.State.{CpuCore, address, a, update}
use m68k_rs.Cpu.Stack.Laws.{bank_value, set_sm_flag-bank_value, set_s_flag-bank_value}
use m68k_rs.Cpu.Stack.{set_sm_flag, set_s_flag, sp_index, backup_sp, restore_sp}
use m68k_rs.Cpu.Status.Laws.{legal_sr, get_sr-set_sr}
use m68k_rs.Cpu.Status.{get_sr, set_sr, set_sr_flags, set_ccr_internal, sm_of}
use m68k_rs.Exception.Machine.{Faults}
use m68k_rs.Exception.Memory.{
  is_odd_access, at_page_end, straddles, overridden, translated, read_at, read_16, read_16_at,
  read_32, read_32_at,
}
use m68k_rs.Exception.Stack.{pull_16, pull_32}
use m68k_rs.Exception.Return.{
  frame_format, return_format_0, pull_sr_pc, rte_frame, rte_68020, rte_type, exec_rte,
}

-- A 68020 that executes, with no exception in progress and no access to complete.
abbrev pub calm : CpuCore → Bool → CpuCore
calm c precise = record c {
  cpu_type = m68020;
  address_mask = 0xffff_ffff;
  run_mode = 0;
  has_pmmu = false;
  precise_bus = precise;
  exception_processing = false;
  mmu_read_override = none;
  mmu_write_suppress = none;
}

abbrev pub bus : AddressBus LinearMemoryBus
bus = default_bus linear

-- The address of the bus of a stack pointer.
abbrev pub at : ℕ → ℕ
at sp = bit_and sp 0xffff_ffff

-- Such a processor in supervisor mode.
abbrev pub handler : CpuCore → Bool → CpuCore
handler c precise = record (calm c precise) { s_flag = 4 }

module _ (faults : Faults LinearMemoryBus) (c : CpuCore) (b : LinearMemoryBus) (n : ℕ) where
  abbrev pub word_at : ℕ → ℕ
  word_at i = (read_word b (at (wrapping_add (c.dar 15) i))).0

  -- RTE, up to the format of the frame.
  dispatched :
      (precise : Bool)
      → exec_rte bus faults (suc n) (handler c precise, b)
        ≡ rte_frame bus faults
            (rte_68020 bus faults n)
            (handler c precise)
            (word_at 6 / 2 ^ 12)
            (handler c precise, b)
  unfolding exec_rte rte_type rte_68020 frame_format read_16 read_16_at a read_word read_at
      translated is_odd_access at_page_end overridden default_bus address
  dispatched true = refl
  dispatched false = refl

  -- The state after a frame of the format 0.
  abbrev pub back : Bool → CpuCore
  back precise =
      set_sr
        (record (handler c precise) {
          pc = (read_long b (at (wrapping_add (c.dar 15) 2))).0;
          dar =
              update
                (update (update c.dar 15 (wrapping_add (c.dar 15) 2)) 15
                  (wrapping_add (wrapping_add (c.dar 15) 2) 4))
                15 (wrapping_add (wrapping_add (wrapping_add (c.dar 15) 2) 4) 2);
        })
        (read_word b (at (c.dar 15))).0

  returned :
      (precise : Bool)
      → return_format_0 bus faults (handler c precise, b) ≡ (ok 20, (back precise, b))
  unfolding return_format_0 pull_sr_pc pull_16 pull_32 read_16 read_16_at read_32 read_32_at
      read_word read_long read_at translated is_odd_access at_page_end straddles overridden
      default_bus address
  returned true = refl
  returned false = refl

  pub rte_lem :
      (precise : Bool)
      → word_at 6 / 2 ^ 12 ≡ 0
      → exec_rte bus faults (suc n) (handler c precise, b) ≡ (ok 20, (back precise, b))
  unfolding rte_frame
  rte_lem precise e =
      dispatched precise
      ∙ ap
          (λ f.
            rte_frame bus faults (rte_68020 bus faults n) (handler c precise) f
              (handler c precise, b))
          e
      ∙ returned precise

-- A7 after the status register is set is the saved stack pointer of its bank.
set_sr-bank_value :
    (c : CpuCore) (sr : ℕ) → (set_sr c sr).dar 15 ≡ bank_value c (sp_index (set_sr c sr))
unfolding set_sr set_sr_flags set_ccr_internal sp_index
set_sr-bank_value c sr =
    let s = bit_and sr (u16 c.sr_mask) in (set_sm_flag-bank_value (set_sr_flags c s) (sm_of s) 0).1

pub set_sr-dar : (c : CpuCore) (sr i : ℕ) → (i == 15) ≡ false → (set_sr c sr).dar i ≡ c.dar i
unfolding set_sr set_sr_flags set_ccr_internal set_sm_flag backup_sp restore_sp
set_sr-dar c sr i e = rw e refl

pub set_sr-pc : (c : CpuCore) (sr : ℕ) → (set_sr c sr).pc ≡ c.pc
unfolding set_sr set_sr_flags set_ccr_internal set_sm_flag backup_sp restore_sp
set_sr-pc c sr = refl

-- Of the processor, the modes that are set depend on the mask.
set_sr-modes :
    (c k : CpuCore) (sr : ℕ)
    → k.sr_mask ≡ c.sr_mask
    → ((set_sr k sr).s_flag ≡ (set_sr c sr).s_flag) × ((set_sr k sr).m_flag ≡ (set_sr c sr).m_flag)
unfolding set_sr set_sr_flags set_ccr_internal set_sm_flag backup_sp restore_sp
set_sr-modes c k sr e = (
  ap (λ m. bit_and (sm_of (bit_and sr (u16 m))) 4) e,
  ap (λ m. bit_and (sm_of (bit_and sr (u16 m))) 2) e,
)

-- The status register is one that `set_sr` leaves as it is.
pub record IsLegal (c : CpuCore) : Type 0 where
  pub sr : get_sr (set_sr c (get_sr c)) ≡ get_sr c
  pub s : (set_sr c (get_sr c)).s_flag ≡ c.s_flag
  pub m : (set_sr c (get_sr c)).m_flag ≡ c.m_flag

-- The state `k` of a handler, with the banks that the entry from `c` has left.
pub record IsEntered (c k : CpuCore) : Type 0 where
  pub type : k.cpu_type ≡ m68020
  pub sr_mask : k.sr_mask ≡ c.sr_mask
  pub s_flag : k.s_flag ≡ 4
  pub m_flag : k.m_flag ≡ c.m_flag
  pub sp : k.sp ≡ (set_s_flag (calm c true) 4).sp
  pub a7 : k.dar 15 ≡ (set_s_flag (calm c true) 4).dar 15

module _ (c k : CpuCore) (legal : IsLegal c) (e : IsEntered c k) where
  entered : CpuCore
  entered = set_s_flag (calm c true) 4

  bank_of : sp_index k ≡ sp_index entered
  unfolding sp_index entered set_s_flag backup_sp restore_sp
  bank_of = rw (sp_index, e.type, e.s_flag, e.m_flag) refl

  same_banks : (bank : ℕ) → bank_value k bank ≡ bank_value entered bank
  unfolding entered
  same_banks bank = rw (bank_of, e.sp, e.a7) refl

  same_type : (set_sr k (get_sr c)).cpu_type ≡ m68020
  unfolding set_sr set_sr_flags set_ccr_internal set_sm_flag backup_sp restore_sp
  same_type = e.type

  home_bank : sp_index (set_sr k (get_sr c)) ≡ sp_index (calm c true)
  unfolding sp_index
  home_bank =
      let (s, m) = set_sr-modes c k (get_sr c) e.sr_mask in
      rw (sp_index, same_type, s ∙ legal.s, m ∙ legal.m) refl

  active : bank_value (calm c true) (sp_index (calm c true)) ≡ c.dar 15
  active = ground arith

  pub a7-back : (set_sr k (get_sr c)).dar 15 ≡ c.dar 15
  unfolding entered
  a7-back =
      set_sr-bank_value k (get_sr c)
      ∙ same_banks (sp_index (set_sr k (get_sr c)))
      ∙ (set_s_flag-bank_value (calm c true) 4 (sp_index (set_sr k (get_sr c)))).0
      ∙ ap (bank_value (calm c true)) home_bank
      ∙ active

  pub sr-back : get_sr c < 2 ^ 16 → get_sr (set_sr k (get_sr c)) ≡ get_sr c
  sr-back small =
      get_sr-set_sr k (get_sr c) small
      ∙ ap (λ m. legal_sr (bit_and (get_sr c) (u16 m))) e.sr_mask
      ∙ sym (get_sr-set_sr c (get_sr c) small)
      ∙ legal.sr
