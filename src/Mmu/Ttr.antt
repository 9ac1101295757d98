-- ===== src/Mmu/Ttr.antt =====
-- src/mmu/ttr.rs: the transparent translation registers.
pub mod Laws
pub mod Access
mod Examples
use m68k_rs.Base.{
  ℕ, ◌+◌, ◌-◌, ◌*◌, ◌/◌, ◌%◌, ◌^◌, bit_and, Bool, true, false, not, ◌&&◌, ◌||◌, Option, none, some,
  ◌==◌, ◌!=◌, if◌then◌else◌, not_u32, u8,
}
use m68k_rs.Types.{CpuType, m68030, m68ec040, m68lc040, m68040}
use m68k_rs.Cpu.State.{CpuCore}
use m68k_rs.Cpu.Status.{is_supervisor}

abbrev pub ttr_enable : ℕ
ttr_enable = 0x8000

abbrev pub ttr_base_mask : ℕ
ttr_base_mask = 0xff00_0000

-- `!x` on a byte.
abbrev pub not_u8 : ℕ → ℕ
not_u8 x = 0xff - x

-- The comparison of the high byte of the address, that both formats make.
pub address_matches : ℕ → ℕ → Bool
address_matches ttr addr =
    let base = bit_and ttr ttr_base_mask / 2 ^ 24 in
    let addr_mask = bit_and (ttr / 2 ^ 16) 0xff in
    let addr_high = bit_and (addr / 2 ^ 24) 0xff in
    bit_and addr_high (not_u32 addr_mask) == bit_and base (not_u32 addr_mask)

pub code_matches : ℕ → ℕ → Bool
code_matches ttr fc =
    let fc_base = u8 (bit_and (ttr / 2 ^ 8) 7) in
    let fc_mask = u8 (bit_and (ttr / 2 ^ 2) 7) in
    bit_and fc (not_u8 fc_mask) == bit_and fc_base (not_u8 fc_mask)

pub ttr_matches : ℕ → ℕ → ℕ → Bool → Bool
unfolding address_matches code_matches
ttr_matches ttr addr fc write =
    if bit_and ttr ttr_enable == 0 then false else address_matches ttr addr && code_matches ttr fc

-- The S-field of a 68040 register: 0 is user, 1 is supervisor, 2 and 3 are both.
pub privilege_matches : ℕ → Bool → Bool
privilege_matches ttr supervisor =
    let s = bit_and (ttr / 2 ^ 13) 3 in
    if s == 0 then not supervisor else if s == 1 then supervisor else true

pub ttr_matches_040 : ℕ → ℕ → Bool → Bool
unfolding address_matches privilege_matches
ttr_matches_040 ttr addr supervisor =
    if bit_and ttr ttr_enable == 0
    then false
    else if not (address_matches ttr addr)
    then false
    else privilege_matches ttr supervisor

unfoldable pub compute_function_code : CpuCore → Bool → ℕ
compute_function_code c instruction = elim c.mmu_fc_override [
  | some fc ↦ fc
  | none ↦ if is_supervisor c then (if instruction then 6 else 5) else if instruction then 2 else 1
]

-- The register formats of the processor models.
pub data TtrFormat : Type 0 where
  shared_030 split_040 no_ttr : TtrFormat

pub ttr_format : CpuType → TtrFormat
ttr_format m68030 = shared_030
ttr_format m68ec040 = split_040
ttr_format m68lc040 = split_040
ttr_format m68040 = split_040
ttr_format _ = no_ttr

unfoldable pub check_transparent_translation : CpuCore → ℕ → Bool → Bool → Option ℕ
unfolding ttr_matches ttr_matches_040 compute_function_code ttr_format
check_transparent_translation c addr write instruction =
    let fc = compute_function_code c instruction in
    elim (ttr_format c.cpu_type) [
      | shared_030 ↦
          if ttr_matches c.mmu_tt0 addr fc write
          then some addr
          else if ttr_matches c.mmu_tt1 addr fc write
          then some addr
          else none
      | split_040 ↦
          let supervisor = bit_and fc 4 != 0 in
          if instruction
          then (if ttr_matches_040 c.itt0 addr supervisor
              then some addr
              else if ttr_matches_040 c.itt1 addr supervisor
              then some addr
              else none)
          else if ttr_matches_040 c.dtt0 addr supervisor
          then some addr
          else if ttr_matches_040 c.dtt1 addr supervisor
          then some addr
          else none
      | no_ttr ↦ none
    ]
