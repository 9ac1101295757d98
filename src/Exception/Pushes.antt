-- ===== src/Exception/Pushes.antt =====
-- src/core/execute.rs and src/core/exceptions.rs: the stack, the jump through a vector and the stack
-- frames come to an end when the faults that they can raise do.
use m68k_rs.Base.{
  ℕ, zero, suc, ◌*◌, ◌%◌, ◌≡◌, refl, inl, inr, Bool, none, some, wrapping_add, wrapping_sub, u32,
  arith, false, true, not, bit_and, ◌!=◌, ◌||◌,
}
use m68k_rs.Bus.Interface.{BasicBus, AddressBus}
use m68k_rs.Cpu.State.{CpuCore, update, address}
use m68k_rs.Exception.Machine.{Machine, faulted, Faults}
use m68k_rs.Exception.Stack.{
  grow, fake_push_16_raw, fake_push_32_raw, push_16_raw, push_32_raw, push_16, push_32,
  prefetch_read, prefetch_first, prefetch_second, jump_at, jump_vector, prefetch_enabled,
}
use m68k_rs.Exception.Frames.{times}
use m68k_rs.Exception.Finishes.{
  Stable, Finishes, pure-Finishes, cpu-Finishes, gets-Finishes, modify-Stable, transfer-Finishes,
  write_raw-Finishes, modify-Finishes, bind-Finishes, gets_bind-Finishes, then-Finishes,
  if-Finishes, option-Finishes, result-Finishes,
}
use m68k_rs.Exception.Accesses.{
  Settled, Admits, read_32-Finishes, write_16-Finishes, write_32-Finishes,
}

pub Stable-dar :
    {q : Bool → Type 0} (c : CpuCore) (dar : ℕ → ℕ) → Stable q c → Stable q (record c { dar = dar })
Stable-dar c dar h = record { even = h.even; flag = h.flag }

-- A property that the registers do not decide.
module _ {B : Type 0} {P : CpuCore → Type 0}
    (k : (c : CpuCore) (dar : ℕ → ℕ) → P c → P (record c { dar = dar })) where
  pub grow-Finishes : (n : ℕ) → Finishes {B = B} P (grow n)
  grow-Finishes n =
      then-Finishes
        (modify-Finishes (λ c. record c { dar = update c.dar 15 (wrapping_sub (c.dar 15) n) })
          (λ c h. k c _ h))
        (gets-Finishes (λ c. c.dar 15))

  pub fake_push_16-Finishes : Finishes {B = B} P fake_push_16_raw
  fake_push_16-Finishes =
      modify-Finishes (λ c. record c { dar = update c.dar 15 (wrapping_sub (c.dar 15) 2) })
        (λ c h. k c _ h)

  pub fake_push_32-Finishes : Finishes {B = B} P fake_push_32_raw
  fake_push_32-Finishes =
      modify-Finishes (λ c. record c { dar = update c.dar 15 (wrapping_sub (c.dar 15) 4) })
        (λ c h. k c _ h)

  pub times-Finishes : (n : ℕ) (m : Machine B (Unit {0})) → Finishes P m → Finishes P (times n m)
  unfolding times
  times-Finishes zero m h = pure-Finishes tt
  times-Finishes (suc n) m h = then-Finishes h (times-Finishes n m h)

  module _ (basic : BasicBus B) where
    pub push_16_raw-Finishes : (value : ℕ) → Finishes P (push_16_raw basic value)
    unfolding push_16_raw
    push_16_raw-Finishes value = bind-Finishes (grow-Finishes 2) λ sp.
        bind-Finishes cpu-Finishes
          λ c. write_raw-Finishes (λ b. basic.write_word b (address c sp) value)

    pub push_32_raw-Finishes : (value : ℕ) → Finishes P (push_32_raw basic value)
    unfolding push_32_raw
    push_32_raw-Finishes value = bind-Finishes (grow-Finishes 4) λ sp.
        bind-Finishes cpu-Finishes
          λ c. write_raw-Finishes (λ b. basic.write_long b (address c sp) value)

module _ {B : Type 0} {q : Bool → Type 0} where
  module _ (bus : AddressBus B) (faults : Faults B) (h : Settled q faults) where
    prefetch_read-Finishes : (addr : ℕ) → Finishes (Stable q) (prefetch_read bus faults addr)
    unfolding prefetch_read
    prefetch_read-Finishes addr = bind-Finishes (gets-Finishes (λ c. address c addr)) λ a.
        bind-Finishes (transfer-Finishes (bus.try_read_word a)) λ r.
          result-Finishes r (λ v. pure-Finishes (some v))
            (λ f. then-Finishes (h.bus_error a false true 2) (pure-Finishes none))

    prefetch_first-Finishes : Finishes (Stable q) (prefetch_first bus faults)
    unfolding prefetch_first
    prefetch_first-Finishes = bind-Finishes cpu-Finishes λ c.
        if-Finishes (not (prefetch_enabled c)) (pure-Finishes tt) (
          then-Finishes
            (modify-Stable (λ c. record c { prefetch_count = 0 }) (λ c. refl) (λ c. refl))
            (if-Finishes (bit_and c.pc 1 != 0) (pure-Finishes tt) (
              bind-Finishes (prefetch_read-Finishes c.pc) λ word.
                option-Finishes word (pure-Finishes tt) (λ w.
                  modify-Stable
                    (λ c. record c { prefetch_queue = (w, c.prefetch_queue.1); prefetch_count = 1 })
                    (λ c. refl) (λ c. refl)))))

    prefetch_second-Finishes : Finishes (Stable q) (prefetch_second bus faults)
    unfolding prefetch_second
    prefetch_second-Finishes = bind-Finishes cpu-Finishes λ c.
        if-Finishes (not (prefetch_enabled c) || c.prefetch_count != 1) (pure-Finishes tt) (
          if-Finishes (bit_and c.pc 1 != 0 || faulted c) (pure-Finishes tt) (
            bind-Finishes (prefetch_read-Finishes (wrapping_add c.pc 2)) λ word.
              option-Finishes word (pure-Finishes tt) (λ w.
                modify-Stable
                  (λ c. record c { prefetch_queue = (c.prefetch_queue.0, w); prefetch_count = 2 })
                  (λ c. refl) (λ c. refl))))

    jump_at-Finishes :
        (addr : ℕ) → Admits q faults addr → Finishes (Stable q) (jump_at bus faults addr)
    unfolding jump_at
    jump_at-Finishes addr admitted =
        bind-Finishes (read_32-Finishes bus faults h addr admitted) λ target.
          then-Finishes
            (then-Finishes (modify-Stable (λ c. record c { pc = target }) (λ c. refl) (λ c. refl))
              prefetch_first-Finishes)
            prefetch_second-Finishes

    vector_even : (vector vbr : ℕ) → vbr % 2 ≡ 0 → wrapping_add (u32 (vector * 4)) vbr % 2 ≡ 0
    vector_even vector vbr e = omega arith

    pub jump_vector-Finishes : (vector : ℕ) → Finishes (Stable q) (jump_vector bus faults vector)
    unfolding jump_vector
    jump_vector-Finishes vector =
        then-Finishes
          (modify-Stable
            (λ c. record c {
              loop_mode = false;
              last_exception_vector = some vector;
              instruction_exception_vector = some vector;
            })
            (λ c. refl) (λ c. refl))
          (gets_bind-Finishes (λ c. wrapping_add (u32 (vector * 4)) c.vbr) (jump_at bus faults)
            λ c stable. jump_at-Finishes _ (inr (vector_even vector c.vbr stable.even)))

    module _ (odd : (a : ℕ) (w i : Bool) → Finishes (Stable q) (faults.address_error a w i)) where
      pub push_16-Finishes : (value : ℕ) → Finishes (Stable q) (push_16 bus faults value)
      unfolding push_16
      push_16-Finishes value =
          bind-Finishes (grow-Finishes Stable-dar 2)
            λ sp. write_16-Finishes bus faults h sp value (inl odd)

      pub push_32-Finishes : (value : ℕ) → Finishes (Stable q) (push_32 bus faults value)
      unfolding push_32
      push_32-Finishes value =
          bind-Finishes (grow-Finishes Stable-dar 4)
            λ sp. write_32-Finishes bus faults h sp value (inl odd)
