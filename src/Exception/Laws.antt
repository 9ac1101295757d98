-- ===== src/Exception/Laws.antt =====
-- src/core/cpu.rs and src/core/exceptions.rs: how deep faults nest.
use m68k_rs.Base.{ℕ, zero, suc, ◌%◌, ◌≤◌, ◌≡◌, inl, Bool, arith}
use m68k_rs.Base.Results.{ok}
use m68k_rs.Bus.Interface.{BasicBus, AddressBus}
use m68k_rs.Cpu.State.{CpuCore}
use m68k_rs.Exception.Machine.{Machine}
use m68k_rs.Exception.Memory.{
  read_8, read_16, read_24, read_32, write_8, write_16, write_24, write_32,
}
use m68k_rs.Exception.Faults.{faults_to, take_exception, take_group2_exception}
use m68k_rs.Exception.Finishes.{Stable, Finishes}
use m68k_rs.Exception.Accesses.{
  Settled, read_8-Finishes, read_16-Finishes, read_32-Finishes, write_8-Finishes, write_16-Finishes,
  write_32-Finishes, read_24-Finishes, write_24-Finishes,
}
use m68k_rs.Exception.Nested.{take_group2_exception-Finishes}
use m68k_rs.Exception.Depth.{Any, Any-Settled, Any-address_error}

-- The action gives a result, and does not run into the bound on the nesting.
pub Returns : {B A : Type 0} → Machine B A → CpuCore × B → Type 0
Returns m s = (x : _) × ((m s).0 ≡ ok x)

-- What comes to an end when faults are followed to a depth.
record Ends {B : Type 0} (basic : BasicBus B) (bus : AddressBus B) (depth : ℕ) : Type 0 where
  settled : Settled Any (faults_to basic bus depth)
  odd :
      (a : ℕ) (w i : Bool) → Finishes (Stable Any) ((faults_to basic bus depth).address_error a w i)
  exception :
      (vector : ℕ) → Finishes (Stable Any) (take_exception bus (faults_to basic bus depth) vector)

module _ {B : Type 0} (basic : BasicBus B) (bus : AddressBus B) where
  ends : (depth : ℕ) → 4 ≤ depth → Ends basic bus depth
  unfolding faults_to
  ends (suc (suc (suc (suc depth)))) bound = record {
    settled = Any-Settled basic bus (suc depth);
    odd = Any-address_error basic bus depth;
    exception = (Any-Settled basic bus (suc (suc depth))).exception;
  }
  ends zero bound = absurd (omega arith)
  ends (suc zero) bound = absurd (omega arith)
  ends (suc (suc zero)) bound = absurd (omega arith)
  ends (suc (suc (suc zero))) bound = absurd (omega arith)

module _ {B : Type 0} (basic : BasicBus B) (bus : AddressBus B) (depth : ℕ) where
  -- Faults nest four deep at most: over any bus, from a state whose vector base is even, every read
  -- and write of one to four bytes of the data space (`read_8` to `write_32`), every exception and
  -- every instruction exception gives a result when its faults are followed to a depth of four or
  -- more.
  pub faults_to-Returns :
      (s : CpuCore × B) (addr value vector : ℕ)
      → 4 ≤ depth
      → s.0.vbr % 2 ≡ 0
      → let faults = faults_to basic bus depth in
        Returns (read_8 bus faults addr) s
        × Returns (read_16 bus faults addr) s
        × Returns (read_24 bus faults addr) s
        × Returns (read_32 bus faults addr) s
        × Returns (write_8 bus faults addr value) s
        × Returns (write_16 bus faults addr value) s
        × Returns (write_24 bus faults addr value) s
        × Returns (write_32 bus faults addr value) s
        × Returns (take_exception bus faults vector) s
        × Returns (take_group2_exception bus faults vector) s
  unfolding Returns
  faults_to-Returns s addr value vector bound even =
      let faults = faults_to basic bus depth in
      let e = ends basic bus depth bound in
      let stable : Stable Any s.0 = record { even = even; flag = tt } in
      (
        (read_8-Finishes bus faults e.settled addr).value s stable,
        (read_16-Finishes bus faults e.settled addr (inl e.odd)).value s stable,
        (read_24-Finishes bus faults e.settled e.odd addr).value s stable,
        (read_32-Finishes bus faults e.settled addr (inl e.odd)).value s stable,
        (write_8-Finishes bus faults e.settled addr value).value s stable,
        (write_16-Finishes bus faults e.settled addr value (inl e.odd)).value s stable,
        (write_24-Finishes bus faults e.settled e.odd addr value).value s stable,
        (write_32-Finishes bus faults e.settled addr value (inl e.odd)).value s stable,
        (e.exception vector).value s stable,
        (take_group2_exception-Finishes bus faults e.settled e.odd vector).value s stable,
      )
