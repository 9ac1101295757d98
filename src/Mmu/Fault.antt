-- ===== src/Mmu/Fault.antt =====
-- src/mmu/mod.rs: the faults of a translation, with the helpers of src/mmu/translation.rs that make
-- them.
use m68k_rs.Base.{ℕ}
use m68k_rs.Base.Results.{ok, err, Action}
use m68k_rs.Bus.Interface.{BusFault, bus_error, AddressBus}

pub data MmuFaultKind : Type 0 where
  configuration_error illegal_operation access_level_violation table_bus_error : MmuFaultKind

pub data MmuFaultCause : Type 0 where
  pointer_a pointer_b indirect page_fault write_protect supervisor_protect : MmuFaultCause
  table_walk_bus_error access_bus_error : MmuFaultCause

pub record MmuFault : Type 0 where
  pub kind : MmuFaultKind
  pub address : ℕ
  pub cause : MmuFaultCause

abbrev pub buserr : ℕ → MmuFault
buserr address = record { kind = table_bus_error; address = address; cause = table_walk_bus_error }

abbrev pub access_fault_cause : ℕ → MmuFaultCause → MmuFault
access_fault_cause address cause = record {
  kind = access_level_violation;
  address = address;
  cause = cause;
}

abbrev pub access_fault : ℕ → MmuFault
access_fault address = access_fault_cause address page_fault

abbrev pub config_fault : ℕ → MmuFault
config_fault address = record { kind = configuration_error; address = address; cause = page_fault }

-- The fault of a descriptor fetch at `addr`.
fetch_fault : ℕ → BusFault → MmuFault
fetch_fault addr f = elim f.kind [ bus_error ↦ buserr f.address ]

unfoldable pub read_u32_phys : {B : Type 0} → AddressBus B → ℕ → Action B MmuFault ℕ
unfolding fetch_fault
read_u32_phys bus addr b =
    let (r, b') = bus.try_read_long addr b in
    elim r [ ok value ↦ (ok value, b') | err f ↦ (err (fetch_fault addr f), b') ]
