-- ===== src/Cpu/Reset/Laws.antt =====
-- The state after a reset.
use m68k_rs.Base.{ℕ, Bool, none, ◌≡◌, refl, arith}
use m68k_rs.Mmu.Atc.{lookup}
use m68k_rs.Mmu.Atc.Laws.{lookup-flush_all}
use m68k_rs.Mmu.Ttr.{check_transparent_translation}
use m68k_rs.Mmu.Ttr.Access.{check_transparent_translation-Cleared}
use m68k_rs.BranchCache.{predict, clear_all}
use m68k_rs.Cpu.State.{CpuCore}
use m68k_rs.Cpu.Stack.{get_usp, sp_index}
use m68k_rs.Cpu.Status.{get_sr}
use m68k_rs.Cpu.Control.Laws.{Modes}
use m68k_rs.Cpu.Reset.{pulse_reset, reset_cleared}

reset-get_sr : (c : CpuCore) → get_sr (pulse_reset c) ≡ 0x2704
unfolding get_sr pulse_reset
reset-get_sr c = refl

reset-lookup :
    (c : CpuCore) (page : ℕ) (supervisor write : Bool)
    → lookup (pulse_reset c).atc page supervisor write ≡ none
unfolding pulse_reset
reset-lookup c page supervisor write = lookup-flush_all c.atc page supervisor write

reset-predict : (c : CpuCore) (pc : ℕ) → predict (pulse_reset c).branch_cache pc ≡ none
unfolding pulse_reset clear_all predict
reset-predict c pc = refl

reset-check :
    (c : CpuCore) (addr : ℕ) (write instruction : Bool)
    → check_transparent_translation (pulse_reset c) addr write instruction ≡ none
unfolding pulse_reset
reset-check c addr write instruction =
    check_transparent_translation-Cleared (pulse_reset c) addr write instruction
      (record { tt0 = refl; tt1 = refl; i0 = refl; i1 = refl; d0 = refl; d1 = refl })

reset-prefetch_count : (c : CpuCore) → (pulse_reset c).prefetch_count ≡ 0
unfolding pulse_reset
reset-prefetch_count c = refl

reset-get_usp : (c : CpuCore) → Modes c → get_usp (pulse_reset c) ≡ get_usp c
unfolding pulse_reset get_usp reset_cleared sp_index
reset-get_usp c h = ground arith

-- After a reset the processor is in interrupt-free supervisor mode with only Z set, no cached
-- translation, transparent register or branch prediction survives, the prefetch queue is empty, and
-- USP is what it was. S was 0 or 4 and M was 0 or 2.
pub pulse_reset_lem :
    (c : CpuCore)
    → Modes c
    → (get_sr (pulse_reset c) ≡ 0x2704)
      × ((page : ℕ) (supervisor write : Bool)
          → lookup (pulse_reset c).atc page supervisor write ≡ none)
      × ((addr : ℕ) (write instruction : Bool)
          → check_transparent_translation (pulse_reset c) addr write instruction ≡ none)
      × ((pc : ℕ) → predict (pulse_reset c).branch_cache pc ≡ none)
      × ((pulse_reset c).prefetch_count ≡ 0)
      × (get_usp (pulse_reset c) ≡ get_usp c)
pulse_reset_lem c h = (
  reset-get_sr c,
  reset-lookup c,
  reset-check c,
  reset-predict c,
  reset-prefetch_count c,
  reset-get_usp c h,
)
