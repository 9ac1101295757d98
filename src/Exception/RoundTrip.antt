-- ===== src/Exception/RoundTrip.antt =====
-- src/core/exceptions.rs and src/core/decode.rs: an exception and the RTE that ends it.
pub mod Return
mod Entry
use mathlib.Core.Path.{subst}
use m68k_rs.Base.{
  ◌-◌, ℕ, suc, ◌+◌, ◌*◌, ◌/◌, ◌%◌, ◌^◌, ◌<◌, ◌≤◌, ◌≡◌, refl, sym, ap, ◌∙◌, inl, inr, Bool, true,
  false, none, bit_and, bit_and_mask, wrapping_add, wrapping_sub, u16, u32, arith, if◌then◌else◌,
  ◌==◌, Bool-cases, ==_iff,
}
use m68k_rs.Base.Results.{ok, Result}
use m68k_rs.Types.{m68020}
use m68k_rs.Bus.Interface.{default_bus, AddressBus}
use m68k_rs.Bus.Linear.Laws.{IsValid}
use m68k_rs.Bus.Linear.Apart.{three_fields_lem}
use m68k_rs.Bus.Linear.{LinearMemoryBus, linear, read_word, read_long, write_word, write_long}
use m68k_rs.Cpu.State.{CpuCore, address, a, update}
use m68k_rs.Cpu.Stack.Laws.{bank_value, set_sm_flag-bank_value, set_s_flag-bank_value}
use m68k_rs.Cpu.Stack.{set_sm_flag, set_s_flag, sp_index, backup_sp, restore_sp}
use m68k_rs.Cpu.Status.Laws.{legal_sr, get_sr-set_sr, get_sr_lem}
use m68k_rs.Cpu.Status.{get_sr, set_sr, set_sr_flags, set_ccr_internal, sm_of}
use m68k_rs.Exception.Machine.{Faults, Machine}
use m68k_rs.Exception.Memory.{
  is_odd_access, at_page_end, straddles, overridden, suppressed, translated, read_at, write_at,
  read_16, read_16_at, read_32, read_32_at, write_16, write_16_at, write_32, write_32_at,
}
use m68k_rs.Exception.Stack.{
  push_16, push_32, pull_16, pull_32, jump_vector, jump_at, prefetch_enabled, prefetch_first,
  prefetch_second,
}
use m68k_rs.Exception.Frames.{format_0_frame}
use m68k_rs.Exception.Faults.{enter_supervisor, exception_frame, take_exception, stacks_next_pc}
use m68k_rs.Exception.Return.{
  frame_format, return_format_0, pull_sr_pc, rte_frame, rte_68020, rte_type, exec_rte,
}
use m68k_rs.Exception.RoundTrip.Return.{
  calm, at, handler, word_at, back, rte_lem, set_sr-dar, set_sr-pc, IsLegal, IsEntered, sr-back,
  a7-back, bus,
}
use m68k_rs.Exception.RoundTrip.Entry.{restored}

-- A 68020 that executes, with 32 address lines and no MMU, no exception in progress and no access to
-- complete.
pub record IsReady (c : CpuCore) : Type 0 where
  pub type : c.cpu_type ≡ m68020
  pub lines : c.address_mask ≡ 0xffff_ffff
  pub running : c.run_mode ≡ 0
  pub no_mmu : c.has_pmmu ≡ false
  pub idle : c.exception_processing ≡ false
  pub override : c.mmu_read_override ≡ none
  pub suppress : c.mmu_write_suppress ≡ none

ready_lem : (c : CpuCore) → IsReady c → c ≡ calm c c.precise_bus
ready_lem c h = λ i. record c {
  cpu_type = h.type i;
  address_mask = h.lines i;
  run_mode = h.running i;
  has_pmmu = h.no_mmu i;
  exception_processing = h.idle i;
  mmu_read_override = h.override i;
  mmu_write_suppress = h.suppress i;
}

-- The supervisor stack pointer that the frame is pushed from, and the address that is stacked.
abbrev pub stack_top : CpuCore → ℕ
stack_top c = (set_s_flag c 4).dar 15

abbrev pub stacked_pc : CpuCore → ℕ → ℕ
stacked_pc c vector = if stacks_next_pc vector then c.pc else c.ppc

-- The program counter, the status register and every register are as before the exception.
pub record Resumes (c : CpuCore) (vector : ℕ) (out : CpuCore) : Type 0 where
  pub pc : out.pc ≡ stacked_pc c vector
  pub sr : get_sr out ≡ get_sr c
  pub registers : (i : ℕ) → out.dar i ≡ c.dar i

get_sr-lt : (c : CpuCore) → get_sr c < 2 ^ 16
get_sr-lt c = ground (arith, get_sr_lem c)

module _ (faults : Faults LinearMemoryBus) (b : LinearMemoryBus) (vector n : ℕ) where
  abbrev round_trip : CpuCore → CpuCore
  round_trip c = (exec_rte bus faults (suc n) (take_exception bus faults vector (c, b)).1).1.0

  calm-Resumes :
      (c : CpuCore) (precise : Bool)
      → IsLegal c
      → IsValid b
      → 8 ≤ b.len
      → vector < 256
      → 8 ≤ stack_top (calm c precise)
      → stack_top (calm c precise) < 2 ^ 32
      → stacked_pc c vector < 2 ^ 32
      → Resumes c vector (round_trip (calm c precise))
  unfolding set_s_flag backup_sp restore_sp sp_index
  calm-Resumes c precise legal valid size byte room small p =
      let (e, f, g) =
        restored faults c b vector room small valid size byte p (get_sr-lt c) legal precise n in
      record { pc = e; sr = f; registers = g }

  -- An exception and the RTE that ends it leave a 68020 as it was: the program counter is the one
  -- that was stacked, and the status register and every register are those from before. The bus is a
  -- linear memory of at least eight bytes, the frame does not run past either end of the address
  -- space, and the status register is one that `set_sr` leaves as it is.
  pub exec_rte-take_exception :
      (c : CpuCore)
      → IsReady c
      → IsLegal c
      → IsValid b
      → 8 ≤ b.len
      → vector < 256
      → 8 ≤ stack_top c
      → stack_top c < 2 ^ 32
      → stacked_pc c vector < 2 ^ 32
      → Resumes c vector
          (exec_rte bus faults (suc n) (take_exception bus faults vector (c, b)).1).1.0
  exec_rte-take_exception c ready legal valid size byte room small p =
      let e = ready_lem c ready in
      subst (λ k. 8 ≤ stack_top k → stack_top k < 2 ^ 32 → Resumes c vector (round_trip k)) (sym e)
        (λ room' small'. calm-Resumes c c.precise_bus legal valid size byte room' small' p) room
        small
