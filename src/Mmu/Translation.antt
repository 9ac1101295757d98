-- ===== src/Mmu/Translation.antt =====
-- src/mmu/translation.rs and src/mmu/mod.rs, `translate` and `translate_address`: the choice between
-- the identity, the transparent registers and the table walks.
pub mod Laws
pub mod Kept
mod Examples
use m68k_rs.Base.{
  ℕ, bit_and, Bool, true, false, not, ◌||◌, ◌==◌, ◌!=◌, Option, none, some, if◌then◌else◌,
}
use m68k_rs.Base.Results.{Result, ok, err, Action}
use m68k_rs.Bus.Interface.{AddressBus}
use m68k_rs.Cpu.State.{CpuCore, is_040, is_060}
use m68k_rs.Mmu.Fault.{MmuFault}
use m68k_rs.Mmu.Ttr.{check_transparent_translation}
use m68k_rs.Mmu.Table040.{translate_040}
use m68k_rs.Mmu.Table030.{translate_030}

-- The mode and the kind of an access, which MOVES overrides by a function code.
pub access_mode : CpuCore → Bool → Bool → Bool × Bool
access_mode c supervisor instruction = elim c.mmu_fc_override [
  | some fc ↦ (bit_and fc 4 != 0, bit_and fc 3 == 2)
  | none ↦ (supervisor, instruction)
]

module _ {B : Type 0} (bus : AddressBus B) where
  pub translate_tables : ℕ → Bool → Bool → Bool → Action (CpuCore × B) MmuFault ℕ
  translate_tables logical write supervisor instruction (c, b) =
      if is_040 c || is_060 c
      then translate_040 bus logical write supervisor (c, b)
      else (let (r, b') = translate_030 bus c logical write supervisor instruction b in
          (r, (c, b')))

  pub translate : ℕ → Bool → Bool → Bool → Action (CpuCore × B) MmuFault ℕ
  unfolding translate_tables access_mode
  translate logical write supervisor instruction (c, b) =
      if not c.pmmu_enabled || not c.has_pmmu
      then (ok logical, (c, b))
      else (let mode = access_mode c supervisor instruction in
          elim (check_transparent_translation c logical write mode.1) [
            | some phys ↦ (ok phys, (c, b))
            | none ↦ translate_tables logical write mode.0 mode.1 (c, b)
          ])

  unfoldable pub translate_address : ℕ → Bool → Bool → Bool → Action (CpuCore × B) MmuFault ℕ
  translate_address = translate
