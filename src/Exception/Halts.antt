-- ===== src/Exception/Halts.antt =====
-- src/core/cpu.rs: a fault while exception_processing is set. take_exception and the
-- triggers of a bus error set this flag; an address error, an instruction exception and an interrupt
-- do not.
use m68k_rs.Base.{ℕ, ◌≡◌, refl, inl, inr, Bool, true, false, Option-cases}
use m68k_rs.Base.Results.{ok}
use m68k_rs.Bus.Interface.{BasicBus, AddressBus}
use m68k_rs.Cpu.State.{CpuCore, is_halted}
use m68k_rs.Cpu.Stack.{set_sm_flag_nosp}
use m68k_rs.Cpu.Status.{set_sr_noint_nosp, set_sr_flags, set_ccr_internal, sm_of}
use m68k_rs.Exception.Machine.{faulted, unless_faulted, Faults}
use m68k_rs.Exception.Memory.{
  read_8, read_16, read_24, read_32, write_8, write_16, write_24, write_32,
}
use m68k_rs.Exception.Faults.{
  double_fault, trigger_bus_error, trigger_bus_error_no_rollback, take_exception,
  end_faulted_instruction,
}

-- The processor is halted: no access reaches the bus or changes the state, and the end of the
-- instruction does not wake it.
pub record IsDead {B : Type 0} (bus : AddressBus B) (faults : Faults B) (s : CpuCore × B)
    : Type 0 where
  pub halted : is_halted s.0 ≡ true
  pub read :
      (addr : ℕ)
      → (read_8 bus faults addr s ≡ (ok 0, s))
        × (read_16 bus faults addr s ≡ (ok 0, s))
        × (read_24 bus faults addr s ≡ (ok 0, s))
        × (read_32 bus faults addr s ≡ (ok 0, s))
  pub write :
      (addr value : ℕ)
      → (write_8 bus faults addr value s ≡ (ok tt, s))
        × (write_16 bus faults addr value s ≡ (ok tt, s))
        × (write_24 bus faults addr value s ≡ (ok tt, s))
        × (write_32 bus faults addr value s ≡ (ok tt, s))
  pub ended : is_halted (end_faulted_instruction s.0) ≡ true

module _ {B : Type 0} (basic : BasicBus B) (bus : AddressBus B) (faults : Faults B) where
  ended_halted : (c : CpuCore) → is_halted (end_faulted_instruction (double_fault c)) ≡ true
  unfolding is_halted end_faulted_instruction set_sr_noint_nosp set_sr_flags set_ccr_internal sm_of
      set_sm_flag_nosp
  ended_halted c = elim (Option-cases c.fault_resume) [ inl e ↦ rw e refl | inr (x, e) ↦ rw e refl ]

  double_fault-IsDead : (c : CpuCore) (b : B) → IsDead bus faults (double_fault c, b)
  unfolding is_halted read_8 read_16 read_24 read_32 write_8 write_16 write_24 write_32
  double_fault-IsDead c b = record {
    halted = refl;
    read = λ addr. (refl, refl, refl, refl);
    write = λ addr value. (refl, refl, refl, refl);
    ended = ended_halted c;
  }

  -- While the flag exception_processing is set and the instruction has not faulted, a bus error, with
  -- or without rollback, or an entry into take_exception halts the processor: from then on every read
  -- and write of one to four bytes of the data space leaves the state and the bus as they are, and the
  -- end of the instruction does not wake it.
  pub double_fault-halts :
      (s : CpuCore × B) (addr size vector : ℕ) (w i : Bool)
      → faulted s.0 ≡ false
      → s.0.exception_processing ≡ true
      → IsDead bus faults (trigger_bus_error basic bus faults addr w i size s).1
        × IsDead bus faults (trigger_bus_error_no_rollback basic bus faults addr w i s).1
        × IsDead bus faults (take_exception bus faults vector s).1
  unfolding trigger_bus_error trigger_bus_error_no_rollback take_exception
  double_fault-halts s addr size vector w i running busy = (
    rw (trigger_bus_error, running, unless_faulted, busy)
        (double_fault-IsDead (record s.0 { exception_processing = true }) s.1),
    rw (trigger_bus_error_no_rollback, running, unless_faulted, busy)
        (double_fault-IsDead (record s.0 { exception_processing = true }) s.1),
    rw (take_exception, busy)
        (double_fault-IsDead (record s.0 { exception_processing = true }) s.1),
  )
