-- ===== src/BranchCache.antt =====
-- src/core/timing_060.rs, `BranchCache060`: the 68060's 256-entry branch cache.
pub mod Laws
mod Examples
use m68k_rs.Base.{
  ℕ, ◌+◌, ◌-◌, ◌/◌, bit_and, bit_or, min, Bool, true, false, ◌&&◌, Option, none, some, ◌==◌, ◌!=◌,
  leb, if◌then◌else◌,
}

-- `BranchCache060`: two vectors of 256, as functions of the slot. A state byte holds a valid bit
-- (`BC_VALID`), the mode of allocation (`BC_USER`), and a two-bit counter (`BC_COUNTER`).
pub record BranchCache060 : Type 0 where
  pub tags : ℕ → ℕ
  pub state : ℕ → ℕ

-- A write to one slot.
abbrev pub set_slot : (ℕ → ℕ) → ℕ → ℕ → ℕ → ℕ
set_slot t i v j = if j == i then v else t j

-- `default`.
unfoldable pub empty : BranchCache060
empty = record { tags = λ i. 0; state = λ i. 0 }

abbrev pub slot : ℕ → ℕ
slot pc = bit_and (pc / 2) 0xff

unfoldable pub clear_all : BranchCache060 → BranchCache060
clear_all c = record c { state = λ i. 0 }

unfoldable pub clear_user : BranchCache060 → BranchCache060
clear_user c = record c { state = λ i. if bit_and (c.state i) 8 != 0 then 0 else c.state i }

unfoldable pub predict : BranchCache060 → ℕ → Option Bool
predict c pc =
    let s = c.state (slot pc) in
    if bit_and s 4 != 0 && c.tags (slot pc) == pc then some (leb 2 (bit_and s 3)) else none

-- `!BC_COUNTER` on a byte is 0xfc.
unfoldable pub update : BranchCache060 → ℕ → Bool → Bool → BranchCache060
update c pc taken user =
    let i = slot pc in
    let s = c.state i in
    let counter = bit_and s 3 in
    let counter' = if taken then min (counter + 1) 3 else counter - 1 in
    if bit_and s 4 != 0 && c.tags i == pc
    then record c { state = set_slot c.state i (bit_or (bit_and s 0xfc) counter') }
    else if taken
    then record {
      tags = set_slot c.tags i pc;
      state = set_slot c.state i (bit_or (bit_or 4 (if user then 8 else 0)) 2);
    }
    else c
