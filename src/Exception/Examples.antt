-- ===== src/Exception/Examples.antt =====
-- Tests of the exceptions.
use m68k_rs.Exception.Halts.{IsDead, double_fault-halts}
use m68k_rs.Exception.RoundTrip.Return.{IsLegal, bus}
use m68k_rs.Base.{◌≡◌, refl, true, false, ◌==◌, if◌then◌else◌, arith}
use m68k_rs.Base.Results.{err}
use m68k_rs.Types.{m68010, m68020}
use m68k_rs.Bus.Linear.{LinearMemoryBus, linear}
use m68k_rs.Cpu.State.{CpuCore}
use m68k_rs.Scenarios.{idle}
use m68k_rs.Exception.Machine.{stack_overflow, Faults}
use m68k_rs.Exception.Memory.{
  read_8, read_16, read_24, read_32, write_8, write_16, write_24, write_32,
}
use m68k_rs.Exception.Faults.{
  faults_to, take_exception, take_group2_exception, stacks_next_pc, trigger_bus_error,
  trigger_bus_error_no_rollback,
}
use m68k_rs.Exception.Laws.{Returns, faults_to-Returns}
use m68k_rs.Cpu.Stack.{set_s_flag, set_sm_flag, backup_sp, restore_sp, sp_index}
use m68k_rs.Cpu.Status.{get_sr, set_sr, set_sr_flags, set_ccr_internal, sm_of}
use m68k_rs.Bus.Linear.{is_power_of_two, power_below}
use m68k_rs.Bus.Linear.Laws.{IsValid}
use m68k_rs.Exception.Return.{exec_rte}
use m68k_rs.Exception.RoundTrip.{IsReady, Resumes, exec_rte-take_exception}
use m68k_rs.Exception.Overflow.{IsLost, address_error-endless}

-- A buffer of 256 bytes, with the vector of line A at 40.
abbrev memory : LinearMemoryBus
memory = record {
  memory = λ i. if i == 43 then 0x80 else 0;
  len = 256;
  wrap_mask = 255;
  power_of_two_len = true;
  instruction_version = 1;
}

abbrev faults : Faults LinearMemoryBus
faults = faults_to linear bus 4

faults_to-Returns_example :
    Returns (read_8 bus faults 0x21) (idle, memory)
    × Returns (read_16 bus faults 0x21) (idle, memory)
    × Returns (read_24 bus faults 0x21) (idle, memory)
    × Returns (read_32 bus faults 0x21) (idle, memory)
    × Returns (write_8 bus faults 0x21 7) (idle, memory)
    × Returns (write_16 bus faults 0x21 7) (idle, memory)
    × Returns (write_24 bus faults 0x21 7) (idle, memory)
    × Returns (write_32 bus faults 0x21 7) (idle, memory)
    × Returns (take_exception bus faults 10) (idle, memory)
    × Returns (take_group2_exception bus faults 10) (idle, memory)
faults_to-Returns_example =
    faults_to-Returns linear bus 4 (idle, memory) 0x21 7 10 (omega arith) refl

-- A 68010 with the vector base 1.
abbrev lost : CpuCore
lost = record idle { cpu_type = m68010; vbr = 1 }

lost-IsLost : IsLost lost
lost-IsLost = record { type = refl; odd = refl; line = refl; running = refl }

address_error-endless_example :
    (faults.address_error 0x21 false false (lost, memory)).0 ≡ err stack_overflow
address_error-endless_example =
    address_error-endless linear bus 4 0x21 false false (lost, memory) lost-IsLost

-- A 68020 in user mode, whose supervisor stack starts at 0x80.
abbrev waiting : CpuCore
waiting = record idle {
  cpu_type = m68020;
  address_mask = 0xffff_ffff;
  sr_mask = 0xf71f;
  sp = λ i. 0x80;
  pc = 0x1234_5678;
  ppc = 0x1234_5676;
}

waiting-IsReady : IsReady waiting
waiting-IsReady = record {
  type = refl;
  lines = refl;
  running = refl;
  no_mmu = refl;
  idle = refl;
  override = refl;
  suppress = refl;
}

waiting-IsLegal : IsLegal waiting
unfolding get_sr set_sr set_sr_flags set_ccr_internal sm_of set_sm_flag backup_sp restore_sp
waiting-IsLegal = record { sr = refl; s = refl; m = refl }

memory-IsValid : IsValid memory
unfolding is_power_of_two power_below
memory-IsValid = record {
  nonempty = omega arith;
  mask = refl;
  flag = refl;
  version = omega arith;
  bytes = λ i. ground arith;
}

exec_rte-take_exception_example :
    Resumes waiting 10
      (exec_rte bus faults 1 (take_exception bus faults 10 (waiting, memory)).1).1.0
unfolding set_s_flag backup_sp restore_sp sp_index stacks_next_pc
exec_rte-take_exception_example =
    exec_rte-take_exception faults memory 10 0 waiting waiting-IsReady waiting-IsLegal
      memory-IsValid (omega arith) (omega arith) (omega arith) (omega arith) (omega arith)

-- The same processor on its way into an exception.
abbrev entering : CpuCore
entering = record waiting { exception_processing = true }

double_fault-halts_example :
    IsDead bus faults (trigger_bus_error linear bus faults 0x21 true false 2 (entering, memory)).1
    × IsDead bus faults
        (trigger_bus_error_no_rollback linear bus faults 0x21 true false (entering, memory)).1
    × IsDead bus faults (take_exception bus faults 10 (entering, memory)).1
double_fault-halts_example =
    double_fault-halts linear bus faults (entering, memory) 0x21 2 10 true false refl refl
