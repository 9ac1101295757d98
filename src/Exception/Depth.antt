-- ===== src/Exception/Depth.antt =====
-- src/core/cpu.rs and src/core/exceptions.rs: the depth to which faults nest. While
-- exception_processing is set a bus error halts the processor at once, so an address error is one
-- level deep there; while it is not, a bus error holds what an exception does, and an address error a
-- bus error.
use m68k_rs.Base.{ℕ, suc, ◌≡◌, refl, inl, inr, Bool, true, false, Bool-cases, if◌then◌else◌, none}
use m68k_rs.Base.Results.{ok, pure, ◌>>=◌, ◌>>◌}
use m68k_rs.Bus.Interface.{BasicBus, AddressBus}
use m68k_rs.Cpu.State.{CpuCore}
use m68k_rs.Cpu.Status.{get_sr}
use m68k_rs.Exception.Machine.{Machine, modify, faulted, Faults}
use m68k_rs.Exception.Memory.{resume_here}
use m68k_rs.Exception.Faults.{
  deliver_bus_error, trigger_bus_error, stacks_next_pc, exception_cycles, take_exception, faults_to,
}
use m68k_rs.Exception.Finishes.{
  Stable, Finishes, pure-Finishes, cpu-Finishes, gets-Finishes, modify-Stable, bind-Finishes, ◌>>>◌,
  if-Finishes, unless_faulted-Finishes,
}
use m68k_rs.Exception.Accesses.{Settled}
use m68k_rs.Exception.Pushes.{jump_vector-Finishes}
use m68k_rs.Exception.Nested.{
  enter_supervisor-Finishes, roll_back-Finishes, double_fault-Finishes,
  trigger_address_error-Finishes, exception_bus_error-Finishes, exception_frame-Finishes,
}

-- exception_processing is set, and any state.
abbrev pub Busy : Bool → Type 0
Busy flag = flag ≡ true

abbrev pub Any : Bool → Type 0
Any flag = Unit {0}

-- The action ends with a value, from a state in which exception_processing is set.
record Leaves {B A : Type 0} (m : Machine B A) : Type 0 where
  value : (s : CpuCore × B) → Stable Busy s.0 → (x : A) × ((m s).0 ≡ ok x)
  kept : (s : CpuCore × B) → Stable Busy s.0 → Stable Any (m s).1.0

module _ {B : Type 0} where
  Finishes-Leaves : {A : Type 0} {m : Machine B A} → Finishes (Stable Any) m → Leaves m
  Finishes-Leaves h = record {
    value = λ s p. h.value s (record { even = p.even; flag = tt });
    kept = λ s p. h.kept s (record { even = p.even; flag = tt });
  }

  bind-Leaves :
      {A C : Type 0} {m : Machine B A} {f : A → Machine B C}
      → Finishes (Stable Busy) m
      → ((x : A) → Leaves (f x))
      → Leaves (m >>= f)
  bind-Leaves {m = m} h k = record {
    value = λ s p. let (x, e) = h.value s p in rw (◌>>=◌, e) ((k x).value (m s).1 (h.kept s p));
    kept = λ s p. let (x, e) = h.value s p in rw (◌>>=◌, e) ((k x).kept (m s).1 (h.kept s p));
  }

  -- The action sets exception_processing first.
  start-Finishes :
      {A : Type 0} {m : Machine B A}
      → Leaves m
      → Finishes (Stable Any) (modify (λ c. record c { exception_processing = true }) >> m)
  start-Finishes h = record {
    value = λ s p. h.value _ (record { even = p.even; flag = refl });
    kept = λ s p. h.kept _ (record { even = p.even; flag = refl });
  }

module _ {B : Type 0} (basic : BasicBus B) (bus : AddressBus B) (inner : Faults B) where
  -- A bus error or an exception while exception_processing is set halts the processor, however deep.
  trigger_bus_error-Busy :
      (at : ℕ) (w i : Bool) (size : ℕ)
      → Finishes (Stable Busy) (trigger_bus_error basic bus inner at w i size)
  unfolding trigger_bus_error
  trigger_bus_error-Busy at w i size = record {
    value = λ s p. elim (Bool-cases (faulted s.0)) [
      | inl e ↦ rw (e, trigger_bus_error) (tt, refl)
      | inr e ↦ rw (e, trigger_bus_error, p.flag) (tt, refl)
    ];
    kept = λ s p. elim (Bool-cases (faulted s.0)) [
      | inl e ↦ rw (e, trigger_bus_error) p
      | inr e ↦ rw (e, trigger_bus_error, p.flag) (record { even = p.even; flag = refl })
    ];
  }

  take_exception-Busy : (vector : ℕ) → Finishes (Stable Busy) (take_exception bus inner vector)
  unfolding take_exception
  take_exception-Busy vector = record {
    value = λ s p. rw (take_exception, p.flag) (0, refl);
    kept = λ s p. rw (take_exception, p.flag) (record { even = p.even; flag = refl });
  }

  -- From any state, when the faults inside come to an end while exception_processing is set.
  module _ (h : Settled Busy inner)
      (odd : (a : ℕ) (w i : Bool) → Finishes (Stable Busy) (inner.address_error a w i)) where
    deliver_bus_error-Any :
        (at : ℕ) (w i : Bool) (size : ℕ)
        → Finishes (Stable Any) (deliver_bus_error basic bus inner at w i size)
    unfolding deliver_bus_error
    deliver_bus_error-Any at w i size = start-Finishes (
        bind-Leaves (gets-Finishes (λ c. c.pending_fault_cause)) λ cause.
          bind-Leaves
            (modify-Stable (λ c. record c { pending_fault_cause = none }) (λ c. refl) (λ c. refl))
            λ _.
              bind-Leaves (exception_bus_error-Finishes basic bus inner h odd at w i size cause)
                λ _. ends)
      where
        ends :
            Leaves {B = B} (modify (λ c. resume_here (record c { exception_processing = false })))
        ends = record {
          value = λ s p. (tt, refl);
          kept = λ s p. record { even = p.even; flag = tt };
        }

    trigger_bus_error-Any :
        (at : ℕ) (w i : Bool) (size : ℕ)
        → Finishes (Stable Any) (trigger_bus_error basic bus inner at w i size)
    unfolding trigger_bus_error
    trigger_bus_error-Any at w i size = unless_faulted-Finishes tt (
        bind-Finishes cpu-Finishes λ c.
          if-Finishes c.exception_processing double_fault-Finishes
            (roll_back-Finishes >>> deliver_bus_error-Any at w i size))

    take_exception-Any : (vector : ℕ) → Finishes (Stable Any) (take_exception bus inner vector)
    unfolding take_exception
    take_exception-Any vector = bind-Finishes cpu-Finishes λ c.
        if-Finishes c.exception_processing (double_fault-Finishes >>> pure-Finishes 0) (
          start-Finishes (
            bind-Leaves (gets-Finishes get_sr) λ old_sr. bind-Leaves enter_supervisor-Finishes λ _.
              bind-Leaves (gets-Finishes (λ c. if stacks_next_pc vector then c.pc else c.ppc))
                λ next.
                  bind-Leaves (exception_frame-Finishes bus inner h odd vector next old_sr)
                    λ _. bind-Leaves (jump_vector-Finishes bus inner h vector) λ _. ends))
      where
        ends : Leaves {B = B} (
            modify (λ c. record c { exception_processing = false })
            >> pure (exception_cycles vector))
        ends = record {
          value = λ s p. (exception_cycles vector, refl);
          kept = λ s p. record { even = p.even; flag = tt };
        }

module _ {B : Type 0} (basic : BasicBus B) (bus : AddressBus B) where
  Busy-Settled : (depth : ℕ) → Settled Busy (faults_to basic bus (suc depth))
  unfolding faults_to
  Busy-Settled depth = record {
    bus_error = trigger_bus_error-Busy basic bus (faults_to basic bus depth);
    exception = take_exception-Busy basic bus (faults_to basic bus depth);
  }

  Busy-address_error :
      (depth at : ℕ) (w i : Bool)
      → Finishes (Stable Busy) ((faults_to basic bus (suc (suc depth))).address_error at w i)
  unfolding faults_to
  Busy-address_error depth at w i =
      trigger_address_error-Finishes basic bus (faults_to basic bus (suc depth))
        (Busy-Settled depth) at w i

  pub Any-Settled : (depth : ℕ) → Settled Any (faults_to basic bus (suc (suc (suc depth))))
  unfolding faults_to
  Any-Settled depth =
      let inner = faults_to basic bus (suc (suc depth)) in
      record {
        bus_error =
            trigger_bus_error-Any basic bus inner (Busy-Settled (suc depth))
              (Busy-address_error depth);
        exception =
            take_exception-Any basic bus inner (Busy-Settled (suc depth))
              (Busy-address_error depth);
      }

  pub Any-address_error :
      (depth at : ℕ) (w i : Bool)
      → Finishes
          (Stable Any)
          ((faults_to basic bus (suc (suc (suc (suc depth))))).address_error at w i)
  unfolding faults_to
  Any-address_error depth at w i =
      trigger_address_error-Finishes basic bus (faults_to basic bus (suc (suc (suc depth))))
        (Any-Settled depth) at w i
