-- ===== src/Mmu/Table030.antt =====
-- src/mmu/translation.rs: the programmable table walk of the 68030, and what translation and PTEST
-- make of it.
pub mod Levels
pub mod Kept
pub mod Probe
mod Examples
use m68k_rs.Base.{
  ℕ, ◌+◌, ◌-◌, ◌*◌, ◌/◌, ◌%◌, ◌^◌, bit_and, bit_or, Bool, true, false, not, ◌&&◌, ◌||◌, ◌==◌, ◌!=◌,
  leb, if◌then◌else◌, u8, wrapping_add, some, none, Option,
}
use mathlib.Core.List.{List, [], ◌∷◌}
use m68k_rs.Base.Results.{Result, ok, err, Action, pure, raise, ◌>>=◌}
use m68k_rs.Bus.Interface.{AddressBus}
use m68k_rs.Cpu.State.{CpuCore}
use m68k_rs.Mmu.Fault.{
  MmuFault, MmuFaultCause, write_protect, supervisor_protect, buserr, access_fault,
  access_fault_cause, config_fault, read_u32_phys,
}
use m68k_rs.Mmu.Fault
use m68k_rs.Mmu.Ttr.{ttr_matches}

pub record Desc030 : Type 0 where
  pub dt : ℕ
  pub field : ℕ
  pub wp : Bool
  pub sup : Bool

pub data Walk030End : Type 0 where
  page : ℕ → ℕ → Walk030End
  invalid : Bool → Walk030End
  level_stop : Walk030End
  bus_err : ℕ → Walk030End
  config : Walk030End

pub record Walk030 : Type 0 where
  pub end : Walk030End
  pub wp : Bool
  pub sup : Bool
  pub levels : ℕ
  pub desc_addr : ℕ

-- A configured level: the function code, or a number of bits of the address.
pub data Level : Type 0 where
  function_code : Level
  address_bits : ℕ → Level

-- The variables of the walk's loop, with the protection bits and the count of descriptors that it
-- gathers.
pub record WalkState : Type 0 where
  pub ptr : ℕ
  pub long : Bool
  pub consumed : ℕ
  pub wp : Bool
  pub sup : Bool
  pub levels : ℕ
  pub desc_addr : ℕ

-- TIA to TID, up to the first that is 0.
pub address_levels : List ℕ → List Level
address_levels [] = []
address_levels (bits ∷ rest) = if bits == 0 then [] else address_bits bits ∷ address_levels rest

pub levels_of : ℕ → List Level
unfolding address_levels
levels_of tc =
    let address_indexed = address_levels (
      bit_and (tc / 2 ^ 12) 0xf
      ∷ bit_and (tc / 2 ^ 8) 0xf
      ∷ bit_and (tc / 2 ^ 4) 0xf
      ∷ bit_and tc 0xf
      ∷ []) in
    if bit_and tc 0x0100_0000 != 0 then function_code ∷ address_indexed else address_indexed

-- `wrapping_shl` takes the shift modulo 32.
pub top_index : ℕ → ℕ → ℕ → ℕ
top_index addr left_shift bits = addr * 2 ^ (left_shift % 32) % 2 ^ 32 / 2 ^ (32 - bits)

pub index_of : Level → ℕ → ℕ → ℕ → ℕ
unfolding top_index
index_of function_code logical fc consumed = fc
index_of (address_bits bits) logical fc consumed = top_index logical consumed bits

pub consumed_by : Level → ℕ → ℕ
consumed_by function_code consumed = consumed
consumed_by (address_bits bits) consumed = consumed + bits

-- A walk that stops where it is.
abbrev pub stop : WalkState → Walk030End → Walk030
stop s e = record { end = e; wp = s.wp; sup = s.sup; levels = s.levels; desc_addr = s.desc_addr }

-- The protection bits of a descriptor accumulate.
abbrev pub protect : WalkState → Desc030 → WalkState
protect s d = record s { wp = s.wp || d.wp; sup = s.sup || d.sup }

-- To the next table.
abbrev pub descend : Desc030 → WalkState → WalkState
descend d s = record (protect s d) { ptr = bit_and d.field 0xffff_fff0; long = d.dt == 3 }

-- One round: the walk ends, or it has fetched a pointer.
pub data Step : Type 0 where
  done : Walk030 → Step
  pointer : Desc030 → WalkState → Step

-- What a fetched descriptor is.
pub examine : WalkState → Desc030 → Step
examine s d =
    if d.dt == 0
    then done (stop s (invalid false))
    else if d.dt == 1
    then done (stop (protect s d) (page d.field s.consumed))
    else pointer d s

-- The root pointer: SRP for the supervisor when SRE is set, and CRP otherwise.
abbrev pub use_srp : CpuCore → ℕ → Bool
use_srp c fc = bit_and c.mmu_tc 0x0200_0000 != 0 && bit_and fc 4 != 0

abbrev pub root_aptr : CpuCore → ℕ → ℕ
root_aptr c fc = if use_srp c fc then c.mmu_srp_aptr else c.mmu_crp_aptr

abbrev pub root_limit : CpuCore → ℕ → ℕ
root_limit c fc = if use_srp c fc then c.mmu_srp_limit else c.mmu_crp_limit

-- Whether the root table has long descriptors. `none` is a root that is not usable.
pub root_format : ℕ → Option Bool
root_format limit =
    let dt = bit_and limit 3 in if dt == 2 then some false else if dt == 3 then some true else none

unfoldable pub start_state : CpuCore → ℕ → Bool → WalkState
start_state c aptr long = record {
  ptr = bit_and aptr 0xffff_fff0;
  long = long;
  consumed = bit_and (c.mmu_tc / 2 ^ 16) 0xf;
  wp = false;
  sup = false;
  levels = 0;
  desc_addr = aptr;
}

module _ {B : Type 0} (bus : AddressBus B) where
  pub read_desc_030 : ℕ → ℕ → Bool → Action B MmuFault Desc030
  read_desc_030 base index true = do
    let at = wrapping_add base (index * 8)
    hi ← read_u32_phys bus at
    lo ← read_u32_phys bus (wrapping_add at 4)
    pure (record {
      dt = bit_and hi 3;
      field = lo;
      wp = bit_and hi 0x4 != 0;
      sup = bit_and hi 0x100 != 0;
    })
  read_desc_030 base index false = do
    e ← read_u32_phys bus (wrapping_add base (index * 4))
    pure (record { dt = bit_and e 3; field = e; wp = bit_and e 0x4 != 0; sup = false })

  -- A round that the limit does not stop.
  pub fetch_030 : ℕ → ℕ → Level → WalkState → B → Step × B
  unfolding index_of consumed_by
  fetch_030 logical fc level s b =
      let index = index_of level logical fc s.consumed in
      let s1 = record s {
        consumed = consumed_by level s.consumed;
        desc_addr = wrapping_add s.ptr (index * (if s.long then 8 else 4));
      } in
      let (r, b') = read_desc_030 s.ptr index s.long b in
      (
        elim r [
          | ok d ↦ examine (record s1 { levels = s.levels + 1 }) d
          | err f ↦ done (stop s1 (bus_err f.address))
        ],
        b',
      )

  pub step_030 : ℕ → ℕ → ℕ → Level → WalkState → B → Step × B
  step_030 logical fc max_levels level s b =
      if leb max_levels s.levels
      then (done (stop s level_stop), b)
      else fetch_030 logical fc level s b

  -- A pointer where no level is left names the page descriptor.
  pub indirect_030 : Desc030 → WalkState → B → Walk030 × B
  indirect_030 d s b =
      let s1 = record s { desc_addr = bit_and d.field 0xffff_fffc } in
      let (r, b') = read_desc_030 s1.desc_addr 0 (d.dt == 3) b in
      (
        elim r [
          | ok t ↦ stop (protect s1 t) (if t.dt == 1 then page t.field s.consumed else invalid true)
          | err f ↦ stop s1 (bus_err f.address)
        ],
        b',
      )

  -- What follows a round, if it has fetched a pointer.
  abbrev pub resume : (Desc030 → WalkState → B → Walk030 × B) → Step → B → Walk030 × B
  resume next (done w) b = (w, b)
  resume next (pointer d s) b = next d s b

  -- The rounds, the current level and those after it.
  pub walk_levels : ℕ → ℕ → ℕ → Level → List Level → WalkState → B → Walk030 × B
  unfolding step_030 indirect_030
  walk_levels logical fc max_levels level [] s b =
      let (r, b') = step_030 logical fc max_levels level s b in resume indirect_030 r b'
  walk_levels logical fc max_levels level (next ∷ rest) s b =
      let (r, b') = step_030 logical fc max_levels level s b in
      resume (λ d s' b''. walk_levels logical fc max_levels next rest (descend d s') b'') r b'

  pub start_levels : ℕ → ℕ → ℕ → List Level → WalkState → B → Walk030 × B
  unfolding walk_levels
  start_levels logical fc max_levels [] s b = (stop s config, b)
  start_levels logical fc max_levels (level ∷ rest) s b =
      walk_levels logical fc max_levels level rest s b

  unfoldable pub walk_030 : CpuCore → ℕ → ℕ → ℕ → B → Walk030 × B
  unfolding start_levels levels_of root_format
  walk_030 c logical fc max_levels b = elim (root_format (root_limit c fc)) [
    | some long ↦
        start_levels logical fc max_levels (levels_of c.mmu_tc)
          (start_state c (root_aptr c fc) long) b
    | none ↦ (stop (start_state c (root_aptr c fc) false) config, b)
  ]

-- The address bits that the walk left over.
pub low_bits : ℕ → ℕ → ℕ
low_bits addr shift = if leb 32 shift then 0 else addr * 2 ^ shift % 2 ^ 32 / 2 ^ shift

abbrev pub function_code_of : Bool → Bool → ℕ
function_code_of supervisor instruction =
    if supervisor then (if instruction then 6 else 5) else if instruction then 2 else 1

-- The outcome of a finished walk for an access.
pub finish_030 : ℕ → Bool → Bool → Walk030 → Result MmuFault ℕ
unfolding low_bits
finish_030 logical write supervisor w = elim w.end [
  | page field consumed ↦
      if w.sup && not supervisor
      then err (access_fault_cause logical supervisor_protect)
      else if write && w.wp
      then err (access_fault_cause logical write_protect)
      else ok (wrapping_add (low_bits logical consumed) (bit_and field 0xffff_ff00))
  | invalid indirect ↦
      if indirect
      then err (access_fault_cause logical MmuFaultCause.indirect)
      else err (access_fault logical)
  | level_stop ↦ err (config_fault logical)
  | bus_err at ↦ err (buserr at)
  | config ↦ err (config_fault logical)
]

module _ {B : Type 0} (bus : AddressBus B) where
  unfoldable pub translate_030 : CpuCore → ℕ → Bool → Bool → Bool → Action B MmuFault ℕ
  unfolding walk_030 finish_030
  translate_030 c logical write supervisor instruction b =
      let (w, b') =
        walk_030 bus c logical (function_code_of supervisor instruction) 0xffff_ffff b in
      (finish_030 logical write supervisor w, b')

-- MMUSR with the bits for how the walk ended.
pub end_bits : Walk030End → ℕ → ℕ
end_bits (page field consumed) sr = sr
end_bits (invalid indirect) sr = bit_or sr 0x400
end_bits level_stop sr = sr
end_bits (bus_err at) sr = bit_or sr 0x8000
end_bits config sr = bit_or sr 0x8000

-- MMUSR and the address that PTEST hands back.
pub mmusr : ℕ → Walk030 → ℕ
unfolding end_bits
mmusr fc w =
    let n = bit_and w.levels 7 in
    let with_w = if w.wp then bit_or n 0x800 else n in
    let with_s = if w.sup && bit_and fc 4 == 0 then bit_or with_w 0x2000 else with_w in
    end_bits w.end with_s

pub ptest_030 : {B : Type 0} → AddressBus B → CpuCore → ℕ → ℕ → Bool → ℕ → B → (ℕ × ℕ) × B
unfolding walk_030 mmusr
ptest_030 bus c logical fc write level b =
    let transparent =
      ttr_matches c.mmu_tt0 logical (u8 fc) write || ttr_matches c.mmu_tt1 logical (u8 fc) write in
    let (w, b') = walk_030 bus c logical fc level b in
    if level == 0
    then ((if transparent then 0x40 else 0, 0), b)
    else ((mmusr fc w, w.desc_addr), b')
