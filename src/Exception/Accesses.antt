-- ===== src/Exception/Accesses.antt =====
-- src/core/cpu.rs: the accesses to memory come to an end when the faults that they can raise do.
use m68k_rs.Base.{
  ℕ, ◌%◌, ◌≡◌, refl, ◌⊎◌, inl, inr, bit_and, Bool, true, false, ◌&&◌, none, some, if◌then◌else◌,
  wrapping_add, get_bit-and, bit_and_mask, arith,
}
use m68k_rs.Base.Results.{Action}
use m68k_rs.Bus.Interface.{BusFault, AddressBus}
use m68k_rs.Cpu.State.{CpuCore, address}
use m68k_rs.Mmu.Fault.{
  MmuFault, MmuFaultKind, configuration_error, illegal_operation, access_level_violation,
  table_bus_error,
}
use m68k_rs.Exception.Machine.{Machine, Faults}
use m68k_rs.Exception.Memory.{
  is_odd_access, word_aligned, resume_here, mmu_exception, dispatch_mmu_fault, handle_mmu_fault,
  translated, overridden, suppressed, read_at, write_at, read_8, read_16, read_32, write_8,
  write_16, write_32, read_24, write_24, read_24_at, write_24_at, read_16_at, read_32_at,
  write_16_at, write_32_at,
}
use m68k_rs.Exception.Finishes.{
  Stable, Finishes, pure-Finishes, cpu-Finishes, gets-Finishes, modify-Stable, transfer-Finishes,
  bind-Finishes, gets_bind-Finishes, then-Finishes, if-Finishes, unless_faulted-Finishes,
  translate-Stable, option-Finishes, result-Finishes,
}

-- The faults that an access at an even address can raise come to an end.
pub record Settled {B : Type 0} (q : Bool → Type 0) (faults : Faults B) : Type 0 where
  pub bus_error :
      (address : ℕ) (write instruction : Bool) (size : ℕ)
      → Finishes (Stable q) (faults.bus_error address write instruction size)
  pub exception : (vector : ℕ) → Finishes (Stable q) (faults.exception vector)

-- An access at an odd address raises a fault that ends, or the address is even.
abbrev pub Admits : {B : Type 0} → (Bool → Type 0) → Faults B → ℕ → Type 0
Admits q faults addr =
    ((address : ℕ) (write instruction : Bool)
      → Finishes (Stable q) (faults.address_error address write instruction))
    ⊎ (addr % 2 ≡ 0)

even_masked : (x m : ℕ) → x % 2 ≡ 0 → bit_and x m % 2 ≡ 0
even_masked x m h = omega (arith, get_bit-and 0 x m)

even-is_odd_access : (c : CpuCore) (x : ℕ) → x % 2 ≡ 0 → is_odd_access c x ≡ false
unfolding is_odd_access
even-is_odd_access c x h = rw (bit_and_mask 1 x, is_odd_access, h) (both (word_aligned c.cpu_type))
  where
    both : (t : Bool) → t && false ≡ false
    both true = refl
    both false = refl

module _ {B : Type 0} {q : Bool → Type 0} (bus : AddressBus B) (faults : Faults B)
    (h : Settled q faults) where
  dispatch-Finishes :
      (kind : MmuFaultKind) (fault : MmuFault) (w i : Bool) (size : ℕ)
      → fault.kind ≡ kind
      → Finishes (Stable q) (dispatch_mmu_fault bus faults fault w i size)
  unfolding dispatch_mmu_fault mmu_exception
  dispatch-Finishes table_bus_error fault w i size e =
      rw (dispatch_mmu_fault, e) (h.bus_error fault.address w i size)
  dispatch-Finishes configuration_error fault w i size e =
      rw (dispatch_mmu_fault, e)
        (then-Finishes (h.exception _) (modify-Stable resume_here (λ c. refl) (λ c. refl)))
  dispatch-Finishes illegal_operation fault w i size e =
      rw (dispatch_mmu_fault, e)
        (then-Finishes (h.exception _) (modify-Stable resume_here (λ c. refl) (λ c. refl)))
  dispatch-Finishes access_level_violation fault w i size e =
      rw (dispatch_mmu_fault, e) (h.bus_error fault.address w i size)

  handle_mmu_fault-Finishes :
      (fault : MmuFault) (w i : Bool) (size : ℕ)
      → Finishes (Stable q) (handle_mmu_fault bus faults fault w i size)
  unfolding handle_mmu_fault
  handle_mmu_fault-Finishes fault w i size =
      then-Finishes
        (then-Finishes
          (modify-Stable (λ c. record c { pending_fault_cause = some fault.cause }) (λ c. refl)
            (λ c. refl))
          (dispatch-Finishes fault.kind fault w i size refl))
        (modify-Stable (λ c. record c { mmu_fc_override = none }) (λ c. refl) (λ c. refl))

  translated-Finishes :
      (addr : ℕ) (w : Bool) (size : ℕ) → Finishes (Stable q) (translated bus faults addr w size)
  unfolding translated
  translated-Finishes addr w size = bind-Finishes cpu-Finishes λ c.
      if-Finishes _
        (bind-Finishes (translate-Stable bus addr w _ false) λ r.
          result-Finishes r (λ p. gets-Finishes (λ c'. some (address c' p)))
            (λ f. then-Finishes (handle_mmu_fault-Finishes f w false size) (pure-Finishes none)))
        (pure-Finishes (some addr))

  read_at-Finishes :
      (size : ℕ) (cut : ℕ → ℕ) (try_read : ℕ → Action B BusFault ℕ) (addr : ℕ)
      → Finishes (Stable q) (read_at bus faults size cut try_read addr)
  unfolding read_at
  read_at-Finishes size cut try_read addr = bind-Finishes cpu-Finishes λ c.
      option-Finishes (overridden c addr)
        (bind-Finishes (translated-Finishes addr false size) λ p.
          option-Finishes p (pure-Finishes 0) λ phys.
            bind-Finishes (transfer-Finishes (try_read phys)) λ r.
              result-Finishes r (λ v. pure-Finishes v)
                (λ f. then-Finishes (h.bus_error phys false false size) (pure-Finishes 0)))
        (λ v.
          then-Finishes
            (modify-Stable (λ c. record c { mmu_read_override = none }) (λ c. refl) (λ c. refl))
            (pure-Finishes (cut v)))

  write_at-Finishes :
      (size value : ℕ) (try_write : ℕ → Action B BusFault (Unit {0})) (addr : ℕ)
      → Finishes (Stable q) (write_at bus faults size value try_write addr)
  unfolding write_at
  write_at-Finishes size value try_write addr = bind-Finishes cpu-Finishes λ c.
      if-Finishes (suppressed c addr)
        (modify-Stable (λ c. record c { mmu_write_suppress = none }) (λ c. refl) (λ c. refl))
        (bind-Finishes
          (then-Finishes
            (modify-Stable (λ c. record c { pending_fault_wdata = value }) (λ c. refl) (λ c. refl))
            (translated-Finishes addr true size))
          λ p. option-Finishes p (pure-Finishes tt) λ phys.
            bind-Finishes (transfer-Finishes (try_write phys)) λ r.
              result-Finishes r (λ v. pure-Finishes tt) (λ f. h.bus_error phys true false size))

  pub read_8-Finishes : (addr : ℕ) → Finishes (Stable q) (read_8 bus faults addr)
  unfolding read_8
  read_8-Finishes addr =
      unless_faulted-Finishes 0
        (bind-Finishes (gets-Finishes (λ c. address c addr)) (read_at-Finishes _ _ _))

  pub write_8-Finishes : (addr value : ℕ) → Finishes (Stable q) (write_8 bus faults addr value)
  unfolding write_8
  write_8-Finishes addr value =
      unless_faulted-Finishes tt
        (bind-Finishes (gets-Finishes (λ c. address c addr)) (write_at-Finishes _ _ _))

  -- The address on the bus of an address that admits the access.
  Admits-address :
      (c : CpuCore) (addr : ℕ) → Admits q faults addr → Admits q faults (address c addr)
  unfolding address
  Admits-address c addr (inl k) = inl k
  Admits-address c addr (inr e) = inr (even_masked addr c.address_mask e)

  Admits-next : (addr : ℕ) → Admits q faults addr → Admits q faults (wrapping_add addr 2)
  Admits-next addr (inl k) = inl k
  Admits-next addr (inr e) = inr (omega arith)

  -- The test for an odd address, before an access that ends.
  odd-Finishes :
      {A : Type 0} (c : CpuCore) (addr : ℕ) {m n : Machine B A}
      → Admits q faults addr
      → (((a : ℕ) (w i : Bool) → Finishes (Stable q) (faults.address_error a w i))
          → Finishes (Stable q) m)
      → Finishes (Stable q) n
      → Finishes (Stable q) (if is_odd_access c addr then m else n)
  odd-Finishes c addr (inl k) h h' = if-Finishes (is_odd_access c addr) (h k) h'
  odd-Finishes c addr (inr e) h h' = rw (even-is_odd_access c addr e) h'

  read_16_at-Finishes :
      (addr : ℕ) → Admits q faults addr → Finishes (Stable q) (read_16_at bus faults addr)
  unfolding read_16_at
  read_16_at-Finishes addr admitted = bind-Finishes cpu-Finishes λ c.
      odd-Finishes c addr admitted (λ k. then-Finishes (k _ false false) (pure-Finishes 0))
        (if-Finishes _
          (bind-Finishes (read_8-Finishes _) λ hi.
            unless_faulted-Finishes 0 (bind-Finishes (read_8-Finishes _) λ lo. pure-Finishes _))
          (read_at-Finishes _ _ _ _))

  pub read_16-Finishes :
      (addr : ℕ) → Admits q faults addr → Finishes (Stable q) (read_16 bus faults addr)
  unfolding read_16
  read_16-Finishes addr admitted = unless_faulted-Finishes 0 (
      gets_bind-Finishes (λ c. address c addr) (read_16_at bus faults)
        λ c stable. read_16_at-Finishes _ (Admits-address c addr admitted))

  read_32_at-Finishes :
      (addr : ℕ) → Admits q faults addr → Finishes (Stable q) (read_32_at bus faults addr)
  unfolding read_32_at
  read_32_at-Finishes addr admitted = bind-Finishes cpu-Finishes λ c.
      odd-Finishes c addr admitted (λ k. then-Finishes (k _ false false) (pure-Finishes 0))
        (if-Finishes _
          (bind-Finishes (read_16-Finishes _ admitted) λ hi.
            unless_faulted-Finishes 0
              (bind-Finishes (read_16-Finishes _ (Admits-next _ admitted)) λ lo. pure-Finishes _))
          (read_at-Finishes _ _ _ _))

  pub read_32-Finishes :
      (addr : ℕ) → Admits q faults addr → Finishes (Stable q) (read_32 bus faults addr)
  unfolding read_32
  read_32-Finishes addr admitted = unless_faulted-Finishes 0 (
      gets_bind-Finishes (λ c. address c addr) (read_32_at bus faults)
        λ c stable. read_32_at-Finishes _ (Admits-address c addr admitted))

  write_16_at-Finishes :
      (value addr : ℕ)
      → Admits q faults addr
      → Finishes (Stable q) (write_16_at bus faults value addr)
  unfolding write_16_at
  write_16_at-Finishes value addr admitted = bind-Finishes cpu-Finishes λ c.
      odd-Finishes c addr admitted (λ k. k _ true false)
        (if-Finishes _
          (then-Finishes (write_8-Finishes _ _) (unless_faulted-Finishes tt (write_8-Finishes _ _)))
          (write_at-Finishes _ _ _ _))

  pub write_16-Finishes :
      (addr value : ℕ) → Admits q faults addr → Finishes (Stable q) (write_16 bus faults addr value)
  unfolding write_16
  write_16-Finishes addr value admitted = unless_faulted-Finishes tt (
      gets_bind-Finishes (λ c. address c addr) (write_16_at bus faults value)
        λ c stable. write_16_at-Finishes value _ (Admits-address c addr admitted))

  write_32_at-Finishes :
      (value addr : ℕ)
      → Admits q faults addr
      → Finishes (Stable q) (write_32_at bus faults value addr)
  unfolding write_32_at
  write_32_at-Finishes value addr admitted = bind-Finishes cpu-Finishes λ c.
      odd-Finishes c addr admitted (λ k. k _ true false)
        (if-Finishes _
          (then-Finishes (write_16-Finishes _ _ admitted)
            (unless_faulted-Finishes tt (write_16-Finishes _ _ (Admits-next _ admitted))))
          (write_at-Finishes _ _ _ _))

  pub write_32-Finishes :
      (addr value : ℕ) → Admits q faults addr → Finishes (Stable q) (write_32 bus faults addr value)
  unfolding write_32
  write_32-Finishes addr value admitted = unless_faulted-Finishes tt (
      gets_bind-Finishes (λ c. address c addr) (write_32_at bus faults value)
        λ c stable. write_32_at-Finishes value _ (Admits-address c addr admitted))

  -- An access of three bytes has no test of its own for an odd address; that of its first word, when
  -- it straddles a page, comes to an end.
  module _ (odd : (a : ℕ) (w i : Bool) → Finishes (Stable q) (faults.address_error a w i)) where
    read_24_at-Finishes : (addr : ℕ) → Finishes (Stable q) (read_24_at bus faults addr)
    unfolding read_24_at
    read_24_at-Finishes addr = bind-Finishes cpu-Finishes λ c.
        if-Finishes _
          (bind-Finishes (read_16-Finishes _ (inl odd)) λ hi.
            unless_faulted-Finishes 0 (bind-Finishes (read_8-Finishes _) λ lo. pure-Finishes _))
          (read_at-Finishes _ _ _ _)

    pub read_24-Finishes : (addr : ℕ) → Finishes (Stable q) (read_24 bus faults addr)
    unfolding read_24
    read_24-Finishes addr = unless_faulted-Finishes 0 (
        gets_bind-Finishes (λ c. address c addr) (read_24_at bus faults)
          λ c stable. read_24_at-Finishes _)

    write_24_at-Finishes :
        (value addr : ℕ) → Finishes (Stable q) (write_24_at bus faults value addr)
    unfolding write_24_at
    write_24_at-Finishes value addr = bind-Finishes cpu-Finishes λ c.
        if-Finishes _
          (then-Finishes (write_16-Finishes _ _ (inl odd))
            (unless_faulted-Finishes tt (write_8-Finishes _ _)))
          (write_at-Finishes _ _ _ _)

    pub write_24-Finishes : (addr value : ℕ) → Finishes (Stable q) (write_24 bus faults addr value)
    unfolding write_24
    write_24-Finishes addr value = unless_faulted-Finishes tt (
        gets_bind-Finishes (λ c. address c addr) (write_24_at bus faults value)
          λ c stable. write_24_at-Finishes value _)
