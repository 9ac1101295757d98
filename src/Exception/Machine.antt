-- ===== src/Exception/Machine.antt =====
-- What the accesses and the exceptions of src/core share: actions on the processor and its bus, and
-- the entry points of the faults, by which an access and an exception call each other.
use m68k_rs.Base.{ℕ, Bool, ◌==◌, if◌then◌else◌}
use m68k_rs.Base.Results.{Result, ok, Action}
use m68k_rs.Cpu.State.{CpuCore, run_mode_berr_aerr_reset}

-- Calls nested deeper than the model follows them.
pub data StackOverflow : Type 0 where
  stack_overflow : StackOverflow

abbrev pub Machine : Type 0 → Type 0 → Type 0
Machine B A = Action (CpuCore × B) StackOverflow A

module _ {B : Type 0} where
  abbrev pub cpu : Machine B CpuCore
  cpu (c, b) = (ok c, (c, b))

  abbrev pub gets : {A : Type 0} → (CpuCore → A) → Machine B A
  gets f (c, b) = (ok (f c), (c, b))

  abbrev pub modify : (CpuCore → CpuCore) → Machine B (Unit {0})
  modify f (c, b) = (ok tt, (f c, b))

  -- The outcome of a fallible action, as a value.
  abbrev pub outcome : {E A : Type 0} → Action (CpuCore × B) E A → Machine B (Result E A)
  outcome m s = let (r, s') = m s in (ok r, s')

  -- A transfer of the bus.
  abbrev pub transfer : {E A : Type 0} → Action B E A → Machine B (Result E A)
  transfer m (c, b) = let (r, b') = m b in (ok r, (c, b'))

  -- A transfer of the bus that cannot fault.
  abbrev pub write_raw : (B → B) → Machine B (Unit {0})
  write_raw f (c, b) = (ok tt, (c, f b))

-- `faulted`.
abbrev pub faulted : CpuCore → Bool
faulted c = c.run_mode == run_mode_berr_aerr_reset

module _ {B A : Type 0} where
  -- The early return of a faulted instruction.
  abbrev pub unless_faulted : A → Machine B A → Machine B A
  unless_faulted x m s = if faulted s.0 then (ok x, s) else m s

-- `trigger_address_error`, `trigger_bus_error` and `take_exception`.
pub record Faults (B : Type 0) : Type 0 where
  pub address_error : ℕ → Bool → Bool → Machine B (Unit {0})
  pub bus_error : ℕ → Bool → Bool → ℕ → Machine B (Unit {0})
  pub exception : ℕ → Machine B ℕ
