-- ===== src/Exception/Nested.antt =====
-- src/core/exceptions.rs and src/core/cpu.rs: the nesting of the faults.
use m68k_rs.Exception.Frames.{status_word, function_code}
use m68k_rs.Base.{ℕ, refl, Bool, Option, bit_and, ◌!=◌, none}
use m68k_rs.Types.{
  CpuType, invalid, m68000, m68010, m68ec020, m68020, m68ec030, m68030, m68ec040, m68lc040, m68040,
  scc68070, m68060, is_m68000,
}
use m68k_rs.Bus.Interface.{BasicBus, AddressBus}
use m68k_rs.Cpu.State.{CpuCore, is_040_type}
use m68k_rs.Cpu.Stack.{set_s_flag, backup_sp, restore_sp, set_sm_flag_nosp}
use m68k_rs.Cpu.Status.{get_sr, set_sr_noint_nosp, set_sr_flags, set_ccr_internal, sm_of}
use m68k_rs.Mmu.Fault.{MmuFaultCause}
use m68k_rs.Exception.Machine.{modify, Faults}
use m68k_rs.Exception.Memory.{resume_here}
use m68k_rs.Exception.Faults.{
  enter_supervisor, roll_back, double_fault, address_error_stack, exception_address_error,
  trigger_address_error, bus_error_stack, fault_code, exception_bus_error, exception_frame,
  exception_cycles, group2_frame, take_group2_exception,
}
use m68k_rs.Exception.Finishes.{
  Stable, Finishes, pure-Finishes, cpu-Finishes, gets-Finishes, modify-Stable, bind-Finishes, ◌>>>◌,
  if-Finishes, unless_faulted-Finishes,
}
use m68k_rs.Exception.Accesses.{Settled}
use m68k_rs.Exception.Pushes.{jump_vector-Finishes, Stable-dar}
use m68k_rs.Exception.Ends.{
  group0_frame_68000-Finishes, group0_frame_68010-Finishes, address_error_frame_040-Finishes,
  address_error_frame-Finishes, push_exception_frame_68000-Finishes, format_0_frame-Finishes,
  format_2_frame-Finishes, bus_error_frame_060-Finishes, bus_error_frame_040-Finishes,
  bus_error_frame_030-Finishes,
}

module _ {B : Type 0} {P : CpuCore → Type 0}
    (k : (c : CpuCore) (dar : ℕ → ℕ) → P c → P (record c { dar = dar })) (basic : BasicBus B) where
  pub address_error_stack-Finishes :
      (type : CpuType) (status at old_sr : ℕ)
      → Finishes P (address_error_stack basic type status at old_sr)
  unfolding address_error_stack is_040_type
  address_error_stack-Finishes m68000 status at old_sr =
      group0_frame_68000-Finishes k basic status at old_sr
  address_error_stack-Finishes m68010 status at old_sr =
      group0_frame_68010-Finishes k basic 3 old_sr
  address_error_stack-Finishes scc68070 status at old_sr =
      group0_frame_68010-Finishes k basic 3 old_sr
  address_error_stack-Finishes m68ec040 status at old_sr =
      address_error_frame_040-Finishes k basic at old_sr
  address_error_stack-Finishes m68lc040 status at old_sr =
      address_error_frame_040-Finishes k basic at old_sr
  address_error_stack-Finishes m68040 status at old_sr =
      address_error_frame_040-Finishes k basic at old_sr
  address_error_stack-Finishes invalid status at old_sr =
      address_error_frame-Finishes k basic old_sr
  address_error_stack-Finishes m68ec020 status at old_sr =
      address_error_frame-Finishes k basic old_sr
  address_error_stack-Finishes m68020 status at old_sr = address_error_frame-Finishes k basic old_sr
  address_error_stack-Finishes m68ec030 status at old_sr =
      address_error_frame-Finishes k basic old_sr
  address_error_stack-Finishes m68030 status at old_sr = address_error_frame-Finishes k basic old_sr
  address_error_stack-Finishes m68060 status at old_sr = address_error_frame-Finishes k basic old_sr

module _ {B : Type 0} {q : Bool → Type 0} where
  pub enter_supervisor-Finishes : Finishes {B = B} (Stable q) (modify enter_supervisor)
  unfolding enter_supervisor set_s_flag backup_sp restore_sp
  enter_supervisor-Finishes = modify-Stable enter_supervisor (λ c. refl) (λ c. refl)

  pub roll_back-Finishes : Finishes {B = B} (Stable q) (modify roll_back)
  unfolding roll_back set_sr_noint_nosp set_sr_flags set_ccr_internal sm_of set_sm_flag_nosp
  roll_back-Finishes = modify-Stable roll_back (λ c. refl) (λ c. refl)

  pub resume_here-Finishes : Finishes {B = B} (Stable q) (modify resume_here)
  resume_here-Finishes = modify-Stable resume_here (λ c. refl) (λ c. refl)

  pub double_fault-Finishes : Finishes {B = B} (Stable q) (modify double_fault)
  double_fault-Finishes = modify-Stable double_fault (λ c. refl) (λ c. refl)

  module _ (basic : BasicBus B) (bus : AddressBus B) (faults : Faults B)
      (h : Settled q faults) where
    exception_address_error-Finishes :
        (at : ℕ) (w i : Bool)
        → Finishes (Stable q) (exception_address_error basic bus faults at w i)
    unfolding exception_address_error
    exception_address_error-Finishes at w i = bind-Finishes (gets-Finishes get_sr) λ old_sr.
        enter_supervisor-Finishes
        >>> bind-Finishes cpu-Finishes λ c.
          address_error_stack-Finishes Stable-dar basic c.cpu_type
            (status_word (function_code (bit_and old_sr 0x2000 != 0) i) w i) at old_sr
          >>> jump_vector-Finishes bus faults h 3
          >>> pure-Finishes 50

    pub trigger_address_error-Finishes :
        (at : ℕ) (w i : Bool) → Finishes (Stable q) (trigger_address_error basic bus faults at w i)
    unfolding trigger_address_error
    trigger_address_error-Finishes at w i =
        unless_faulted-Finishes tt
          (roll_back-Finishes >>> exception_address_error-Finishes at w i >>> resume_here-Finishes)

    module _ (odd : (a : ℕ) (w i : Bool) → Finishes (Stable q) (faults.address_error a w i)) where
      bus_error_stack-Finishes :
          (type : CpuType) (w i : Bool) (size fc at : ℕ) (cause : Option MmuFaultCause)
          (wdata old_sr : ℕ)
          → Finishes
              (Stable q)
              (bus_error_stack basic bus faults type w i size fc at cause wdata old_sr)
      unfolding bus_error_stack is_040_type
      bus_error_stack-Finishes m68000 w i size fc at cause wdata old_sr =
          group0_frame_68000-Finishes Stable-dar basic _ at old_sr
      bus_error_stack-Finishes m68010 w i size fc at cause wdata old_sr =
          group0_frame_68010-Finishes Stable-dar basic 2 old_sr
      bus_error_stack-Finishes scc68070 w i size fc at cause wdata old_sr =
          group0_frame_68010-Finishes Stable-dar basic 2 old_sr
      bus_error_stack-Finishes m68060 w i size fc at cause wdata old_sr =
          bus_error_frame_060-Finishes bus faults h odd _ at old_sr
      bus_error_stack-Finishes m68ec040 w i size fc at cause wdata old_sr =
          bus_error_frame_040-Finishes bus faults h odd w at wdata _ _ old_sr
      bus_error_stack-Finishes m68lc040 w i size fc at cause wdata old_sr =
          bus_error_frame_040-Finishes bus faults h odd w at wdata _ _ old_sr
      bus_error_stack-Finishes m68040 w i size fc at cause wdata old_sr =
          bus_error_frame_040-Finishes bus faults h odd w at wdata _ _ old_sr
      bus_error_stack-Finishes invalid w i size fc at cause wdata old_sr =
          bus_error_frame_030-Finishes bus faults h odd w i at wdata _ old_sr
      bus_error_stack-Finishes m68ec020 w i size fc at cause wdata old_sr =
          bus_error_frame_030-Finishes bus faults h odd w i at wdata _ old_sr
      bus_error_stack-Finishes m68020 w i size fc at cause wdata old_sr =
          bus_error_frame_030-Finishes bus faults h odd w i at wdata _ old_sr
      bus_error_stack-Finishes m68ec030 w i size fc at cause wdata old_sr =
          bus_error_frame_030-Finishes bus faults h odd w i at wdata _ old_sr
      bus_error_stack-Finishes m68030 w i size fc at cause wdata old_sr =
          bus_error_frame_030-Finishes bus faults h odd w i at wdata _ old_sr

      pub exception_bus_error-Finishes :
          (at : ℕ) (w i : Bool) (size : ℕ) (cause : Option MmuFaultCause)
          → Finishes (Stable q) (exception_bus_error basic bus faults at w i size cause)
      unfolding exception_bus_error
      exception_bus_error-Finishes at w i size cause =
          bind-Finishes (gets-Finishes get_sr) λ old_sr.
            bind-Finishes (gets-Finishes (λ c. c.pending_fault_wdata)) λ wdata.
              enter_supervisor-Finishes
              >>> bind-Finishes (gets-Finishes (λ c. fault_code c old_sr i)) λ fc.
                modify-Stable (λ c. record c { mmu_fc_override = none }) (λ c. refl) (λ c. refl)
                >>> bind-Finishes cpu-Finishes λ c.
                  bus_error_stack-Finishes c.cpu_type w i size fc at cause wdata old_sr
                  >>> jump_vector-Finishes bus faults h 2
                  >>> pure-Finishes 50

  module _ (bus : AddressBus B) (faults : Faults B) (h : Settled q faults)
      (odd : (a : ℕ) (w i : Bool) → Finishes (Stable q) (faults.address_error a w i)) where
    pub exception_frame-Finishes :
        (vector stacked_pc old_sr : ℕ)
        → Finishes (Stable q) (exception_frame bus faults vector stacked_pc old_sr)
    unfolding exception_frame
    exception_frame-Finishes vector stacked_pc old_sr = bind-Finishes cpu-Finishes λ c.
        if-Finishes (is_m68000 c.cpu_type)
          (push_exception_frame_68000-Finishes bus faults h odd stacked_pc old_sr)
          (format_0_frame-Finishes bus faults h odd vector stacked_pc old_sr)

    group2_frame-Finishes :
        (type : CpuType) (vector next_pc old_sr : ℕ)
        → Finishes (Stable q) (group2_frame bus faults type vector next_pc old_sr)
    unfolding group2_frame
    group2_frame-Finishes m68000 vector next_pc old_sr =
        push_exception_frame_68000-Finishes bus faults h odd next_pc old_sr
    group2_frame-Finishes m68010 vector next_pc old_sr =
        format_0_frame-Finishes bus faults h odd vector next_pc old_sr
    group2_frame-Finishes scc68070 vector next_pc old_sr =
        format_0_frame-Finishes bus faults h odd vector next_pc old_sr
    group2_frame-Finishes invalid vector next_pc old_sr =
        bind-Finishes cpu-Finishes
          λ c. format_2_frame-Finishes bus faults h odd vector c.ppc next_pc old_sr
    group2_frame-Finishes m68ec020 vector next_pc old_sr =
        bind-Finishes cpu-Finishes
          λ c. format_2_frame-Finishes bus faults h odd vector c.ppc next_pc old_sr
    group2_frame-Finishes m68020 vector next_pc old_sr =
        bind-Finishes cpu-Finishes
          λ c. format_2_frame-Finishes bus faults h odd vector c.ppc next_pc old_sr
    group2_frame-Finishes m68ec030 vector next_pc old_sr =
        bind-Finishes cpu-Finishes
          λ c. format_2_frame-Finishes bus faults h odd vector c.ppc next_pc old_sr
    group2_frame-Finishes m68030 vector next_pc old_sr =
        bind-Finishes cpu-Finishes
          λ c. format_2_frame-Finishes bus faults h odd vector c.ppc next_pc old_sr
    group2_frame-Finishes m68ec040 vector next_pc old_sr =
        bind-Finishes cpu-Finishes
          λ c. format_2_frame-Finishes bus faults h odd vector c.ppc next_pc old_sr
    group2_frame-Finishes m68lc040 vector next_pc old_sr =
        bind-Finishes cpu-Finishes
          λ c. format_2_frame-Finishes bus faults h odd vector c.ppc next_pc old_sr
    group2_frame-Finishes m68040 vector next_pc old_sr =
        bind-Finishes cpu-Finishes
          λ c. format_2_frame-Finishes bus faults h odd vector c.ppc next_pc old_sr
    group2_frame-Finishes m68060 vector next_pc old_sr =
        bind-Finishes cpu-Finishes
          λ c. format_2_frame-Finishes bus faults h odd vector c.ppc next_pc old_sr

    pub take_group2_exception-Finishes :
        (vector : ℕ) → Finishes (Stable q) (take_group2_exception bus faults vector)
    unfolding take_group2_exception
    take_group2_exception-Finishes vector = bind-Finishes (gets-Finishes get_sr) λ old_sr.
        enter_supervisor-Finishes
        >>> bind-Finishes cpu-Finishes λ c.
          group2_frame-Finishes c.cpu_type vector c.pc old_sr
          >>> jump_vector-Finishes bus faults h vector
          >>> pure-Finishes (exception_cycles vector)
