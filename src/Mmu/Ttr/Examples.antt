-- ===== src/Mmu/Ttr/Examples.antt =====
-- Registers that cover an address for a mode.
use m68k_rs.Base.{true, false, ◌≡◌, ◌↔◌, arith}
use m68k_rs.Mmu.Ttr.{ttr_matches, ttr_matches_040}
use m68k_rs.Mmu.Ttr.Laws.{
  Enabled, AddressCovered, CodeCovered, PrivilegeCovered, ttr_matches_lem, ttr_matches_040_lem,
}

ttr_matches_example :
    (ttr_matches 0x400f_801c 0x4f00_0000 5 false ≡ true)
    ↔ (Enabled 0x400f_801c × (AddressCovered 0x400f_801c 0x4f00_0000 × CodeCovered 0x400f_801c 5))
ttr_matches_example = ttr_matches_lem 0x400f_801c 0x4f00_0000 5 false (omega arith)

ttr_matches_040_example : (ttr_matches_040 0x400f_c000 0x4f00_0000 true ≡ true) ↔ (
    Enabled 0x400f_c000
    × (AddressCovered 0x400f_c000 0x4f00_0000 × PrivilegeCovered 0x400f_c000 true))
ttr_matches_040_example = ttr_matches_040_lem 0x400f_c000 0x4f00_0000 true
