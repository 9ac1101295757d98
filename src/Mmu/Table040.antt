-- ===== src/Mmu/Table040.antt =====
-- src/mmu/translation.rs, `translate_040`: the three-level tables of the 68040 and the 68060.
pub mod Walk
pub mod Coherent
pub mod Examples
use m68k_rs.Base.{
  ℕ, ◌+◌, ◌-◌, ◌*◌, ◌/◌, ◌^◌, bit_and, bit_or, Bool, not, ◌&&◌, none, some, ◌==◌, ◌!=◌, ltb,
  if◌then◌else◌, not_u32, wrapping_add,
}
use m68k_rs.Base.Results.{Result, ok, err, Action, pure, raise_if, ◌>>=◌, ◌>>◌}
use m68k_rs.Bus.Interface.{AddressBus}
use m68k_rs.Cpu.State.{CpuCore}
use m68k_rs.Mmu.Atc.{lookup, insert}
use m68k_rs.Mmu.Fault.{
  MmuFault, MmuFaultCause, pointer_a, pointer_b, indirect, page_fault, write_protect,
  supervisor_protect, access_fault_cause, read_u32_phys,
}

unfoldable pub page_bits : CpuCore → ℕ
page_bits c = if bit_and c.mmu_tc 0x4000 != 0 then 13 else 12

abbrev pub page_mask : CpuCore → ℕ
page_mask c = 2 ^ page_bits c - 1

-- The descriptors of the three levels, an indirect page descriptor followed.
pub record Descriptors : Type 0 where
  pub root_desc : ℕ
  pub ptr_desc : ℕ
  pub page_desc : ℕ

-- The places in the three tables that a logical address names.
pub record Indices : Type 0 where
  pub root_idx : ℕ
  pub ptr_idx : ℕ
  pub page_idx : ℕ
  pub page_table_mask : ℕ

unfoldable pub indices : CpuCore → ℕ → Indices
indices c logical = record {
  root_idx = bit_and (logical / 2 ^ 25) 0x7f;
  ptr_idx = bit_and (logical / 2 ^ 18) 0x7f;
  page_idx =
      if page_bits c == 13
      then bit_and (logical / 2 ^ 13) 0x1f
      else bit_and (logical / 2 ^ 12) 0x3f;
  page_table_mask = if page_bits c == 13 then 0xffff_ff80 else 0xffff_ff00;
}

module _ {B : Type 0} (bus : AddressBus B) where
  -- A page descriptor that is indirect names the real one.
  unfoldable pub follow : ℕ → Action B MmuFault ℕ
  follow page_desc =
      if bit_and page_desc 3 == 2
      then read_u32_phys bus (bit_and page_desc 0xffff_fffc)
      else pure page_desc

  unfoldable pub fetch_040 : ℕ → Indices → ℕ → Action B MmuFault Descriptors
  unfolding follow
  fetch_040 root i logical = do
    root_desc ← read_u32_phys bus (wrapping_add (bit_and root 0xffff_fe00) (i.root_idx * 4))
    raise_if (ltb (bit_and root_desc 3) 2) (access_fault_cause logical pointer_a)
    ptr_desc ← read_u32_phys bus (wrapping_add (bit_and root_desc 0xffff_fe00) (i.ptr_idx * 4))
    raise_if (ltb (bit_and ptr_desc 3) 2) (access_fault_cause logical pointer_b)
    first ← read_u32_phys bus (wrapping_add (bit_and ptr_desc i.page_table_mask) (i.page_idx * 4))
    page_desc ← follow first
    raise_if (bit_and page_desc 3 == 0)
        (access_fault_cause logical (if bit_and first 3 == 2 then indirect else page_fault))
    pure (record { root_desc = root_desc; ptr_desc = ptr_desc; page_desc = page_desc })

-- A page with what its descriptors admit: W accumulates, S is that of the page descriptor.
pub record Page : Type 0 where
  pub phys_page : ℕ
  pub write_protected : Bool
  pub supervisor_only : Bool

unfoldable pub page_of : CpuCore → Descriptors → Page
page_of c d = record {
  phys_page = bit_and d.page_desc (not_u32 (page_mask c));
  write_protected = bit_and (bit_or (bit_or d.root_desc d.ptr_desc) d.page_desc) 0x4 != 0;
  supervisor_only = bit_and d.page_desc 0x80 != 0;
}

abbrev pub root_pointer : CpuCore → Bool → ℕ
root_pointer c supervisor = if supervisor then c.mmu_srp_aptr else c.mmu_crp_aptr

-- The walk with its protection checks, up to the page that is cached.
module _ {B : Type 0} (bus : AddressBus B) where
  unfoldable pub walk_040 : CpuCore → ℕ → Bool → Bool → Action B MmuFault Page
  walk_040 c logical write supervisor = do
    d ← fetch_040 bus (root_pointer c supervisor) (indices c logical) logical
    let page = page_of c d
    raise_if (write && page.write_protected) (access_fault_cause logical write_protect)
    raise_if (not supervisor && page.supervisor_only)
        (access_fault_cause logical supervisor_protect)
    pure page

  -- The state is the processor, of which the cache changes, and the bus.
  unfoldable pub translate_040 : ℕ → Bool → Bool → Action (CpuCore × B) MmuFault ℕ
  translate_040 logical write supervisor (c, b) =
      let page_frame = logical / 2 ^ page_bits c in
      let offset = bit_and logical (page_mask c) in
      elim (lookup c.atc page_frame supervisor write) [
        | some phys_page ↦ (ok (bit_or phys_page offset), (c, b))
        | none ↦
            let (r, b') = walk_040 c logical write supervisor b in
            elim r [
              | ok page ↦ (
                ok (bit_or page.phys_page offset),
                (
                  record c {
                    atc =
                        insert c.atc page_frame supervisor page.phys_page page.write_protected
                          page.supervisor_only;
                  },
                  b',
                ),
              )
              | err e ↦ (err e, (c, b'))
            ]
      ]
