-- ===== src/Exception/Faults.antt =====
-- src/core/cpu.rs and src/core/exceptions.rs: the address error, the bus error and the other
-- exceptions. Their accesses to memory may fault in turn, to the depth that is followed.
use m68k_rs.Base.{
  ℕ, zero, suc, ◌+◌, bit_and, Bool, true, false, ◌&&◌, ◌||◌, ◌==◌, ◌!=◌, leb, ltb, if◌then◌else◌,
  Option, none, some,
}
use m68k_rs.Base.Results.{pure, raise, ◌>>=◌, ◌>>◌}
use m68k_rs.Types.{CpuType, m68000, m68010, scc68070, m68060, is_m68000}
use m68k_rs.Bus.Interface.{BasicBus, AddressBus}
use m68k_rs.Cpu.State.{CpuCore, is_040_type, run_mode_berr_aerr_reset}
use m68k_rs.Cpu.Stack.{set_s_flag, sflag_set}
use m68k_rs.Cpu.Status.{get_sr, set_sr_noint_nosp}
use m68k_rs.Mmu.Fault.{MmuFaultCause}
use m68k_rs.Exception.Machine.{Machine, cpu, gets, modify, unless_faulted, Faults, stack_overflow}
use m68k_rs.Exception.Memory.{resume_here}
use m68k_rs.Exception.Stack.{jump_vector}
use m68k_rs.Exception.Frames.{
  function_code, status_word, fslw_060, ssw_040, wb3s_040, ssw_030, group0_frame_68000,
  group0_frame_68010, address_error_frame_040, address_error_frame, push_exception_frame_68000,
  format_0_frame, format_2_frame, bus_error_frame_060, bus_error_frame_040, bus_error_frame_030,
}

-- The entry into supervisor mode, with the trace bits cleared.
unfoldable pub enter_supervisor : CpuCore → CpuCore
unfolding set_s_flag
enter_supervisor c = record (set_s_flag c sflag_set) { t1_flag = 0; t0_flag = 0 }

-- The way back to the state before the instruction.
unfoldable pub roll_back : CpuCore → CpuCore
unfolding set_sr_noint_nosp
roll_back c = record (set_sr_noint_nosp c c.sr_save) { dar = c.dar_save }

-- A fault on the way into an exception.
abbrev pub double_fault : CpuCore → CpuCore
double_fault c = record c { stopped = 1; run_mode = run_mode_berr_aerr_reset }

-- The exceptions that stack the address of the next instruction.
unfoldable pub stacks_next_pc : ℕ → Bool
stacks_next_pc vector =
    vector == 7
    || vector == 9
    || vector == 5
    || (leb 32 vector && ltb vector (32 + 16))
    || (leb 24 vector && leb vector 31)

unfoldable pub exception_cycles : ℕ → ℕ
exception_cycles vector =
    if vector == 0 || vector == 1
    then 40
    else if vector == 2 || vector == 3
    then 50
    else if vector == 4
    then 34
    else if vector == 5
    then 38
    else if vector == 6
    then 40
    else if vector == 7 || vector == 8 || vector == 9 || vector == 10 || vector == 11
    then 34
    else if leb 24 vector && leb vector 31
    then 44
    else 34

-- `check_trace`, with the state that it leaves.
unfoldable pub check_trace : CpuCore → Bool × CpuCore
check_trace c =
    let t1_before = bit_and c.sr_save 0x8000 != 0 in
    let t0_before = bit_and c.sr_save 0x4000 != 0 in
    (t1_before || (t0_before && c.change_of_flow), record c { change_of_flow = false })

-- The end of an instruction that faulted.
unfoldable pub end_faulted_instruction : CpuCore → CpuCore
unfolding set_sr_noint_nosp
end_faulted_instruction c =
    let c' : CpuCore = elim c.fault_resume [
      | none ↦ c
      | some (handler_pc, handler_sr, handler_dar) ↦
          (let entered = record c { fault_resume = none; pc = handler_pc } in
            record (set_sr_noint_nosp entered handler_sr) { dar = handler_dar })
    ] in
    if c'.stopped != 0 then c' else record c' { run_mode = 0 }

-- The function code of a faulted access, that of MOVES first.
unfoldable pub fault_code : CpuCore → ℕ → Bool → ℕ
fault_code c old_sr instruction = elim c.mmu_fc_override [
  | some fc ↦ fc
  | none ↦ function_code (bit_and old_sr 0x2000 != 0) instruction
]

module _ {B : Type 0} (basic : BasicBus B) where
  unfoldable pub address_error_stack : CpuType → ℕ → ℕ → ℕ → Machine B (Unit {0})
  address_error_stack m68000 status address old_sr = group0_frame_68000 basic status address old_sr
  address_error_stack m68010 status address old_sr = group0_frame_68010 basic 3 old_sr
  address_error_stack scc68070 status address old_sr = group0_frame_68010 basic 3 old_sr
  address_error_stack type status address old_sr =
      if is_040_type type
      then address_error_frame_040 basic address old_sr
      else address_error_frame basic old_sr

module _ {B : Type 0} (basic : BasicBus B) (bus : AddressBus B) (faults : Faults B) where
  unfoldable pub exception_address_error : ℕ → Bool → Bool → Machine B ℕ
  unfolding address_error_stack
  exception_address_error address write instruction = do
    old_sr ← gets get_sr
    modify enter_supervisor
    let fc = function_code (bit_and old_sr 0x2000 != 0) instruction
    c ← cpu
    address_error_stack basic c.cpu_type (status_word fc write instruction) address old_sr
    jump_vector bus faults 3
    pure 50

  -- `trigger_address_error`. Its report to a diagnostic stream is left out.
  unfoldable pub trigger_address_error : ℕ → Bool → Bool → Machine B (Unit {0})
  trigger_address_error address write instruction =
      unless_faulted tt
        (do modify roll_back; exception_address_error address write instruction; modify resume_here)

  unfoldable pub bus_error_stack :
      CpuType → Bool → Bool → ℕ → ℕ → ℕ → Option MmuFaultCause → ℕ → ℕ → Machine B (Unit {0})
  bus_error_stack m68000 write instruction size fc address cause wdata old_sr =
      group0_frame_68000 basic (status_word fc write instruction) address old_sr
  bus_error_stack m68010 write instruction size fc address cause wdata old_sr =
      group0_frame_68010 basic 2 old_sr
  bus_error_stack scc68070 write instruction size fc address cause wdata old_sr =
      group0_frame_68010 basic 2 old_sr
  bus_error_stack m68060 write instruction size fc address cause wdata old_sr =
      bus_error_frame_060 bus faults (fslw_060 write instruction size fc cause) address old_sr
  bus_error_stack type write instruction size fc address cause wdata old_sr =
      if is_040_type type
      then bus_error_frame_040 bus faults write address wdata (wb3s_040 write size fc)
          (ssw_040 write size fc cause) old_sr
      else bus_error_frame_030 bus faults write instruction address wdata
          (ssw_030 write instruction size fc) old_sr

  unfoldable pub exception_bus_error : ℕ → Bool → Bool → ℕ → Option MmuFaultCause → Machine B ℕ
  unfolding bus_error_stack fault_code
  exception_bus_error address write instruction size cause = do
    old_sr ← gets get_sr
    fault_wdata ← gets (λ c. c.pending_fault_wdata)
    modify enter_supervisor
    fc ← gets (λ c. fault_code c old_sr instruction)
    modify (λ c. record c { mmu_fc_override = none })
    c ← cpu
    bus_error_stack c.cpu_type write instruction size fc address cause fault_wdata old_sr
    jump_vector bus faults 2
    pure 50

  -- The part of `trigger_bus_error` after the registers are rolled back.
  unfoldable pub deliver_bus_error : ℕ → Bool → Bool → ℕ → Machine B (Unit {0})
  deliver_bus_error address write instruction size = do
    modify (λ c. record c { exception_processing = true })
    cause ← gets (λ c. c.pending_fault_cause)
    modify (λ c. record c { pending_fault_cause = none })
    exception_bus_error address write instruction size cause
    modify (λ c. resume_here (record c { exception_processing = false }))

  unfoldable pub trigger_bus_error : ℕ → Bool → Bool → ℕ → Machine B (Unit {0})
  unfolding deliver_bus_error
  trigger_bus_error address write instruction size = unless_faulted tt (do
    c ← cpu
    if c.exception_processing
        then modify double_fault
        else (do modify roll_back; deliver_bus_error address write instruction size))

  unfoldable pub trigger_bus_error_no_rollback : ℕ → Bool → Bool → Machine B (Unit {0})
  unfolding deliver_bus_error
  trigger_bus_error_no_rollback address write instruction = unless_faulted tt (do
    c ← cpu
    if c.exception_processing
        then modify double_fault
        else deliver_bus_error address write instruction 2)

module _ {B : Type 0} (bus : AddressBus B) (faults : Faults B) where
  unfoldable pub exception_frame : ℕ → ℕ → ℕ → Machine B (Unit {0})
  exception_frame vector stacked_pc old_sr = do
    c ← cpu
    if is_m68000 c.cpu_type
        then push_exception_frame_68000 bus faults stacked_pc old_sr
        else format_0_frame bus faults vector stacked_pc old_sr

  unfoldable pub take_exception : ℕ → Machine B ℕ
  unfolding exception_frame stacks_next_pc
  take_exception vector = do
    c ← cpu
    if c.exception_processing then (do modify double_fault; pure 0) else (do
      modify (λ c. record c { exception_processing = true })
      old_sr ← gets get_sr
      modify enter_supervisor
      stacked_pc ← gets (λ c. if stacks_next_pc vector then c.pc else c.ppc)
      exception_frame vector stacked_pc old_sr
      jump_vector bus faults vector
      modify (λ c. record c { exception_processing = false })
      pure (exception_cycles vector))

  -- `trap` and `exception_privilege`.
  unfoldable pub trap : ℕ → Machine B ℕ
  trap trap_num = take_exception (32 + bit_and trap_num 0xf)

  unfoldable pub exception_privilege : Machine B ℕ
  exception_privilege = take_exception 8

  unfoldable pub group2_frame : CpuType → ℕ → ℕ → ℕ → Machine B (Unit {0})
  group2_frame m68000 vector next_pc old_sr = push_exception_frame_68000 bus faults next_pc old_sr
  group2_frame m68010 vector next_pc old_sr = format_0_frame bus faults vector next_pc old_sr
  group2_frame scc68070 vector next_pc old_sr = format_0_frame bus faults vector next_pc old_sr
  group2_frame type vector next_pc old_sr = do
    c ← cpu
    format_2_frame bus faults vector c.ppc next_pc old_sr

  unfoldable pub take_group2_exception : ℕ → Machine B ℕ
  unfolding group2_frame
  take_group2_exception vector = do
    old_sr ← gets get_sr
    modify enter_supervisor
    c ← cpu
    group2_frame c.cpu_type vector c.pc old_sr
    jump_vector bus faults vector
    pure (exception_cycles vector)

module _ {B : Type 0} (basic : BasicBus B) (bus : AddressBus B) where
  -- The faults, nested `depth` deep at most.
  unfoldable pub faults_to : ℕ → Faults B
  faults_to zero = record {
    address_error = λ address write instruction. raise stack_overflow;
    bus_error = λ address write instruction size. raise stack_overflow;
    exception = λ vector. raise stack_overflow;
  }
  faults_to (suc depth) =
      let inner = faults_to depth in
      record {
        address_error = trigger_address_error basic bus inner;
        bus_error = trigger_bus_error basic bus inner;
        exception = take_exception bus inner;
      }
