-- ===== src/Exception/Memory.antt =====
-- src/core/cpu.rs and src/core/execute.rs: the reads and writes of the data space, the stack, and the
-- fetches of the prefetch queue. `flush_sync`, which reports clocks to the host, is left out.
use m68k_rs.Base.{
  ℕ, ◌-◌, ◌*◌, ◌/◌, ◌^◌, min, max, bit_and, bit_or, Bool, true, false, ◌&&◌, ◌||◌, ◌==◌, ◌!=◌, ltb,
  u8, u16, wrapping_add, if◌then◌else◌, Option, none, some,
}
use m68k_rs.Base.Results.{ok, err, Action, pure, ◌>>=◌, ◌>>◌}
use m68k_rs.Types.{CpuType, m68000, m68010, scc68070}
use m68k_rs.Bus.Interface.{BusFault, AddressBus, try_read_three_bytes, try_write_three_bytes}
use m68k_rs.Cpu.State.{CpuCore, address, is_040, is_060, run_mode_berr_aerr_reset}
use m68k_rs.Cpu.Status.{is_supervisor, get_sr}
use m68k_rs.Mmu.Fault.{
  MmuFault, configuration_error, illegal_operation, access_level_violation, table_bus_error,
}
use m68k_rs.Mmu.Translation.{translate_address}
use m68k_rs.Exception.Machine.{
  Machine, cpu, gets, modify, outcome, transfer, unless_faulted, Faults,
}

unfoldable pub mmu_page_mask : CpuCore → ℕ
mmu_page_mask c =
    if is_040 c || is_060 c
    then (if bit_and c.mmu_tc 0x4000 != 0 then 0x1fff else 0xfff)
    else 2 ^ min 15 (max 8 (bit_and (c.mmu_tc / 2 ^ 20) 0xf)) - 1

abbrev pub mmu_on : CpuCore → Bool
mmu_on c = c.has_pmmu && c.pmmu_enabled

-- The models that fault on an odd word.
abbrev pub word_aligned : CpuType → Bool
word_aligned m68000 = true
word_aligned m68010 = true
word_aligned scc68070 = true
word_aligned _ = false

unfoldable pub is_odd_access : CpuCore → ℕ → Bool
is_odd_access c addr = word_aligned c.cpu_type && bit_and addr 1 != 0

-- A word that straddles a page, and a longer operand whose first byte is among the last `n` of its
-- page.
unfoldable pub at_page_end : CpuCore → ℕ → Bool
unfolding mmu_page_mask
at_page_end c addr = mmu_on c && bit_and addr (mmu_page_mask c) == mmu_page_mask c

unfoldable pub straddles : CpuCore → ℕ → ℕ → Bool
unfolding mmu_page_mask
straddles c n addr = mmu_on c && ltb (mmu_page_mask c - n) (bit_and addr (mmu_page_mask c))

-- `mmu_read_override` and `mmu_write_suppress`, against the address of an access.
unfoldable pub overridden : CpuCore → ℕ → Option ℕ
overridden c addr = elim c.mmu_read_override [
  | some (a, v) ↦ if a == addr then some v else none
  | none ↦ none
]

unfoldable pub suppressed : CpuCore → ℕ → Bool
suppressed c addr = elim c.mmu_write_suppress [ some a ↦ a == addr | none ↦ false ]

-- The state that a handler is entered with.
abbrev pub resume_here : CpuCore → CpuCore
resume_here c = record c {
  fault_resume = some (c.pc, get_sr c, c.dar);
  run_mode = run_mode_berr_aerr_reset;
}

abbrev pub mmu_configuration_error : ℕ
mmu_configuration_error = 56

abbrev pub mmu_illegal_operation_error : ℕ
mmu_illegal_operation_error = 57

module _ {B : Type 0} (bus : AddressBus B) (faults : Faults B) where
  unfoldable pub mmu_exception : ℕ → Machine B (Unit {0})
  mmu_exception vector = do faults.exception vector; modify resume_here

  unfoldable pub dispatch_mmu_fault : MmuFault → Bool → Bool → ℕ → Machine B (Unit {0})
  unfolding mmu_exception
  dispatch_mmu_fault fault write instruction size = elim fault.kind [
    | table_bus_error ↦ faults.bus_error fault.address write instruction size
    | configuration_error ↦ mmu_exception mmu_configuration_error
    | illegal_operation ↦ mmu_exception mmu_illegal_operation_error
    | access_level_violation ↦ faults.bus_error fault.address write instruction size
  ]

  unfoldable pub handle_mmu_fault : MmuFault → Bool → Bool → ℕ → Machine B (Unit {0})
  unfolding dispatch_mmu_fault
  handle_mmu_fault fault write instruction size = do
    modify (λ c. record c { pending_fault_cause = some fault.cause })
    dispatch_mmu_fault fault write instruction size
    modify (λ c. record c { mmu_fc_override = none })

  -- The physical address of an access, or `none` after a fault.
  unfoldable pub translated : ℕ → Bool → ℕ → Machine B (Option ℕ)
  unfolding handle_mmu_fault
  translated addr write size = do
    c ← cpu
    if mmu_on c
        then (do
          r ← outcome (translate_address bus addr write (is_supervisor c) false)
          elim r [
            | ok p ↦ gets (λ c'. some (address c' p))
            | err f ↦ (do handle_mmu_fault f write false size; pure none)
          ])
        else pure (some addr)

  -- A read of `size` bytes that does not straddle a page.
  unfoldable pub read_at : ℕ → (ℕ → ℕ) → (ℕ → Action B BusFault ℕ) → ℕ → Machine B ℕ
  unfolding translated
  read_at size cut try_read addr = do
    c ← cpu
    elim (overridden c addr) [
      | some v ↦ (do modify (λ c. record c { mmu_read_override = none }); pure (cut v))
      | none ↦ (do
        p ← translated addr false size
        elim p [
          | none ↦ pure 0
          | some phys ↦ (do
            r ← transfer (try_read phys)
            elim r [ ok v ↦ pure v | err f ↦ (do faults.bus_error phys false false size; pure 0) ])
        ])
    ]

  -- A write of `size` bytes that does not straddle a page.
  unfoldable pub write_at : ℕ → ℕ → (ℕ → Action B BusFault (Unit {0})) → ℕ → Machine B (Unit {0})
  unfolding translated
  write_at size value try_write addr = do
    c ← cpu
    if suppressed c addr then modify (λ c. record c { mmu_write_suppress = none }) else (do
      modify (λ c. record c { pending_fault_wdata = value })
      p ← translated addr true size
      elim p [
        | none ↦ pure tt
        | some phys ↦ (do
          r ← transfer (try_write phys)
          elim r [ ok _ ↦ pure tt | err f ↦ faults.bus_error phys true false size ])
      ])

  unfoldable pub read_8 : ℕ → Machine B ℕ
  unfolding read_at
  read_8 addr0 =
      unless_faulted 0 (do addr ← gets (λ c. address c addr0); read_at 1 u8 bus.try_read_byte addr)

  -- `read_16`, after the address is masked.
  unfoldable pub read_16_at : ℕ → Machine B ℕ
  unfolding read_at read_8
  read_16_at addr = do
    c ← cpu
    if is_odd_access c addr
        then (do faults.address_error addr false false; pure 0)
        else if at_page_end c addr
        then (do
          hi ← read_8 addr
          unless_faulted 0 (do lo ← read_8 (wrapping_add addr 1); pure (bit_or (hi * 2 ^ 8) lo)))
        else read_at 2 u16 bus.try_read_word addr

  unfoldable pub read_16 : ℕ → Machine B ℕ
  unfolding read_16_at
  read_16 addr0 = unless_faulted 0 (do addr ← gets (λ c. address c addr0); read_16_at addr)

  -- `read_32`, after the address is masked.
  unfoldable pub read_32_at : ℕ → Machine B ℕ
  unfolding read_at read_16
  read_32_at addr = do
    c ← cpu
    if is_odd_access c addr
        then (do faults.address_error addr false false; pure 0)
        else if straddles c 3 addr
        then (do
          hi ← read_16 addr
          unless_faulted 0 (do lo ← read_16 (wrapping_add addr 2); pure (bit_or (hi * 2 ^ 16) lo)))
        else read_at 4 (λ v. v) bus.try_read_long addr

  unfoldable pub read_32 : ℕ → Machine B ℕ
  unfolding read_32_at
  read_32 addr0 = unless_faulted 0 (do addr ← gets (λ c. address c addr0); read_32_at addr)

  -- `read_24`, after the address is masked.
  unfoldable pub read_24_at : ℕ → Machine B ℕ
  unfolding read_at read_16 read_8 try_read_three_bytes
  read_24_at addr = do
    c ← cpu
    if straddles c 2 addr
        then (do
          hi ← read_16 addr
          unless_faulted 0 (do lo ← read_8 (wrapping_add addr 2); pure (bit_or (hi * 2 ^ 8) lo)))
        else read_at 3 (bit_and 0xff_ffff)
            (λ a. do v ← try_read_three_bytes bus a; pure (bit_and v 0xff_ffff)) addr

  unfoldable pub read_24 : ℕ → Machine B ℕ
  unfolding read_24_at
  read_24 addr0 = unless_faulted 0 (do addr ← gets (λ c. address c addr0); read_24_at addr)

  unfoldable pub write_8 : ℕ → ℕ → Machine B (Unit {0})
  unfolding write_at
  write_8 addr0 value = unless_faulted tt (do
    addr ← gets (λ c. address c addr0)
    write_at 1 value (λ a. bus.try_write_byte a value) addr)

  -- `write_16`, after the address is masked.
  unfoldable pub write_16_at : ℕ → ℕ → Machine B (Unit {0})
  unfolding write_at write_8
  write_16_at value addr = do
    c ← cpu
    if is_odd_access c addr
        then faults.address_error addr true false
        else if at_page_end c addr
        then (do
          write_8 addr (u8 (value / 2 ^ 8))
          unless_faulted tt (write_8 (wrapping_add addr 1) (u8 value)))
        else write_at 2 value (λ a. bus.try_write_word a value) addr

  unfoldable pub write_16 : ℕ → ℕ → Machine B (Unit {0})
  unfolding write_16_at
  write_16 addr0 value =
      unless_faulted tt (do addr ← gets (λ c. address c addr0); write_16_at value addr)

  -- `write_32`, after the address is masked.
  unfoldable pub write_32_at : ℕ → ℕ → Machine B (Unit {0})
  unfolding write_at write_16
  write_32_at value addr = do
    c ← cpu
    if is_odd_access c addr
        then faults.address_error addr true false
        else if straddles c 3 addr
        then (do
          write_16 addr (u16 (value / 2 ^ 16))
          unless_faulted tt (write_16 (wrapping_add addr 2) (u16 value)))
        else write_at 4 value (λ a. bus.try_write_long a value) addr

  unfoldable pub write_32 : ℕ → ℕ → Machine B (Unit {0})
  unfolding write_32_at
  write_32 addr0 value =
      unless_faulted tt (do addr ← gets (λ c. address c addr0); write_32_at value addr)

  -- `write_24`, after the address is masked.
  unfoldable pub write_24_at : ℕ → ℕ → Machine B (Unit {0})
  unfolding write_at write_16 write_8 try_write_three_bytes
  write_24_at value addr = do
    c ← cpu
    if straddles c 2 addr
        then (do
          write_16 addr (u16 (value / 2 ^ 8))
          unless_faulted tt (write_8 (wrapping_add addr 2) (u8 value)))
        else write_at 3 (bit_and value 0xff_ffff)
            (λ a. try_write_three_bytes bus a (bit_and value 0xff_ffff)) addr

  unfoldable pub write_24 : ℕ → ℕ → Machine B (Unit {0})
  unfolding write_24_at
  write_24 addr0 value =
      unless_faulted tt (do addr ← gets (λ c. address c addr0); write_24_at value addr)
