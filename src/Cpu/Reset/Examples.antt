-- ===== src/Cpu/Reset/Examples.antt =====
-- A reset out of master mode.
use m68k_rs.Base.{ℕ, Bool, none, ◌≡◌, refl, inr}
use m68k_rs.Mmu.Atc.{lookup}
use m68k_rs.Mmu.Ttr.{check_transparent_translation}
use m68k_rs.BranchCache.{predict}
use m68k_rs.Cpu.Stack.{get_usp}
use m68k_rs.Cpu.Status.{get_sr}
use m68k_rs.Cpu.Reset.{pulse_reset}
use m68k_rs.Cpu.Reset.Laws.{pulse_reset_lem}
use m68k_rs.Scenarios.{kernel}

pulse_reset_example :
    (get_sr (pulse_reset kernel) ≡ 0x2704)
    × ((page : ℕ) (supervisor write : Bool)
        → lookup (pulse_reset kernel).atc page supervisor write ≡ none)
    × ((addr : ℕ) (write instruction : Bool)
        → check_transparent_translation (pulse_reset kernel) addr write instruction ≡ none)
    × ((pc : ℕ) → predict (pulse_reset kernel).branch_cache pc ≡ none)
    × ((pulse_reset kernel).prefetch_count ≡ 0)
    × (get_usp (pulse_reset kernel) ≡ get_usp kernel)
pulse_reset_example = pulse_reset_lem kernel (record { s = inr refl; m = inr refl })
