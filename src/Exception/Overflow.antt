-- ===== src/Exception/Overflow.antt =====
-- src/core/cpu.rs and src/core/exceptions.rs: an address error of a 68010 whose vector base is odd.
use m68k_rs.Exception.Nested.{address_error_stack-Finishes}
use m68k_rs.Base.{
  ℕ, zero, suc, ◌*◌, ◌%◌, ◌≡◌, refl, Bool, true, false, ◌!=◌, bit_and, u32, wrapping_add,
  get_bit-and, bit_and_mask, some, arith,
}
use m68k_rs.Base.Results.{err, pure, ◌>>=◌}
use m68k_rs.Types.{m68010}
use m68k_rs.Bus.Interface.{BasicBus, AddressBus}
use m68k_rs.Cpu.State.{CpuCore, address}
use m68k_rs.Cpu.Stack.{set_s_flag, backup_sp, restore_sp, set_sm_flag_nosp}
use m68k_rs.Cpu.Status.{get_sr, set_sr_noint_nosp, set_sr_flags, set_ccr_internal, sm_of}
use m68k_rs.Exception.Machine.{Machine, modify, faulted, unless_faulted, Faults, stack_overflow}
use m68k_rs.Exception.Memory.{is_odd_access, read_32, read_32_at, resume_here}
use m68k_rs.Exception.Stack.{jump_at, jump_vector}
use m68k_rs.Exception.Frames.{status_word, function_code}
use m68k_rs.Exception.Faults.{
  enter_supervisor, roll_back, exception_address_error, trigger_address_error, faults_to,
}
use m68k_rs.Exception.Finishes.{Finishes, cpu-Finishes, gets-Finishes, modify-Finishes}

-- A 68010 that executes, whose vector base and first address line are odd.
pub record IsLost (c : CpuCore) : Type 0 where
  pub type : c.cpu_type ≡ m68010
  pub odd : c.vbr % 2 ≡ 1
  pub line : c.address_mask % 2 ≡ 1
  pub running : faulted c ≡ false

-- From such a state the action runs into the bound on the nesting.
record Overflows {B A : Type 0} (m : Machine B A) : Type 0 where
  deep : (s : CpuCore × B) → IsLost s.0 → (m s).0 ≡ err stack_overflow

IsLost-dar : (c : CpuCore) (dar : ℕ → ℕ) → IsLost c → IsLost (record c { dar = dar })
IsLost-dar c dar h = record { type = h.type; odd = h.odd; line = h.line; running = h.running }

odd_vector : (vector vbr : ℕ) → vbr % 2 ≡ 1 → wrapping_add (u32 (vector * 4)) vbr % 2 ≡ 1
odd_vector vector vbr e = omega arith

odd_masked : (x m : ℕ) → x % 2 ≡ 1 → m % 2 ≡ 1 → bit_and x m % 2 ≡ 1
odd_masked x m e e' = omega (arith, get_bit-and 0 x m)

lost-is_odd_access : (c : CpuCore) (x : ℕ) → IsLost c → x % 2 ≡ 1 → is_odd_access c x ≡ true
unfolding is_odd_access
lost-is_odd_access c x h e = rw (h.type, bit_and_mask 1 x, is_odd_access, e) refl

module _ {B : Type 0} where
  first-Overflows :
      {A C : Type 0} {m : Machine B A} (f : A → Machine B C) → Overflows m → Overflows (m >>= f)
  first-Overflows f h = record { deep = λ s p. rw (◌>>=◌, h.deep s p) refl }

  rest-Overflows :
      {A C : Type 0} {m : Machine B A} {f : A → Machine B C}
      → Finishes IsLost m
      → ((x : A) → Overflows (f x))
      → Overflows (m >>= f)
  rest-Overflows {m = m} h k = record {
    deep = λ s p. let (x, e) = h.value s p in rw (◌>>=◌, e) ((k x).deep (m s).1 (h.kept s p));
  }

  enter_supervisor-Finishes : Finishes {B = B} IsLost (modify enter_supervisor)
  unfolding enter_supervisor set_s_flag backup_sp restore_sp
  enter_supervisor-Finishes =
      modify-Finishes enter_supervisor
        λ c h. record { type = h.type; odd = h.odd; line = h.line; running = h.running }

  roll_back-Finishes : Finishes {B = B} IsLost (modify roll_back)
  unfolding roll_back set_sr_noint_nosp set_sr_flags set_ccr_internal sm_of set_sm_flag_nosp
  roll_back-Finishes =
      modify-Finishes roll_back
        λ c h. record { type = h.type; odd = h.odd; line = h.line; running = h.running }

  module _ (bus : AddressBus B) (faults : Faults B)
      (h : (a : ℕ) (w i : Bool) → Overflows (faults.address_error a w i)) where
    read_32-Overflows :
        (s : CpuCore × B) (addr : ℕ)
        → IsLost s.0
        → addr % 2 ≡ 1
        → (read_32 bus faults addr s).0 ≡ err stack_overflow
    unfolding read_32 read_32_at address
    read_32-Overflows s addr p e =
        rw
          (
            read_32,
            p.running,
            unless_faulted,
            lost-is_odd_access s.0 (address s.0 addr) p (odd_masked addr s.0.address_mask e p.line),
          )
          ((first-Overflows (λ _. pure 0) (h (address s.0 addr) false false)).deep s p)

    jump_at-Overflows : (addr : ℕ) → addr % 2 ≡ 1 → Overflows (jump_at bus faults addr)
    unfolding jump_at
    jump_at-Overflows addr e = record {
      deep = λ s p. rw (jump_at, ◌>>=◌, read_32-Overflows s addr p e) refl;
    }

    jump_vector-Overflows : (vector : ℕ) → Overflows (jump_vector bus faults vector)
    unfolding jump_vector
    jump_vector-Overflows vector = record {
      deep = λ s p.
          (jump_at-Overflows (wrapping_add (u32 (vector * 4)) s.0.vbr)
              (odd_vector vector s.0.vbr p.odd)).deep
            (
              record s.0 {
                loop_mode = false;
                last_exception_vector = some vector;
                instruction_exception_vector = some vector;
              },
              s.1,
            )
            (record { type = p.type; odd = p.odd; line = p.line; running = p.running });
    }

    module _ (basic : BasicBus B) where
      exception_address_error-Overflows :
          (at : ℕ) (w i : Bool) → Overflows (exception_address_error basic bus faults at w i)
      unfolding exception_address_error
      exception_address_error-Overflows at w i = rest-Overflows (gets-Finishes get_sr) λ old_sr.
          rest-Overflows enter_supervisor-Finishes λ _. rest-Overflows cpu-Finishes λ c.
            rest-Overflows
              (address_error_stack-Finishes IsLost-dar basic c.cpu_type
                (status_word (function_code (bit_and old_sr 0x2000 != 0) i) w i) at old_sr)
              λ _. first-Overflows (λ _. pure 50) (jump_vector-Overflows 3)

      trigger_address_error-Overflows :
          (at : ℕ) (w i : Bool) → Overflows (trigger_address_error basic bus faults at w i)
      unfolding trigger_address_error
      trigger_address_error-Overflows at w i = record {
        deep = λ s p.
            rw (trigger_address_error, p.running, unless_faulted)
              ((rest-Overflows roll_back-Finishes λ _.
                  first-Overflows (λ _. modify resume_here)
                    (exception_address_error-Overflows at w i)).deep
                s p);
      }

module _ {B : Type 0} (basic : BasicBus B) (bus : AddressBus B) where
  overflow :
      (depth at : ℕ) (w i : Bool) → Overflows ((faults_to basic bus depth).address_error at w i)
  unfolding faults_to
  overflow zero at w i = record { deep = λ s p. refl }
  overflow (suc depth) at w i =
      trigger_address_error-Overflows bus (faults_to basic bus depth) (overflow depth) basic at w i

  -- An address error of a 68010 whose vector base is odd never ends: to whatever depth its faults are
  -- followed, the fetch of the vector faults again, when the first address line is connected and the
  -- processor executes.
  pub address_error-endless :
      (depth at : ℕ) (w i : Bool) (s : CpuCore × B)
      → IsLost s.0
      → ((faults_to basic bus depth).address_error at w i s).0 ≡ err stack_overflow
  address_error-endless depth at w i s p = (overflow depth at w i).deep s p
