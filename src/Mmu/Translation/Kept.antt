-- ===== src/Mmu/Translation/Kept.antt =====
-- src/mmu/translation.rs: what a translation leaves of the processor.
use m68k_rs.Base.{ℕ, ◌≡◌, refl, inl, inr, Bool, not, ◌||◌, Bool-cases, Option-cases}
use m68k_rs.Bus.Interface.{AddressBus}
use m68k_rs.Cpu.State.{CpuCore, is_040, is_060}
use m68k_rs.Mmu.Ttr.{check_transparent_translation}
use m68k_rs.Mmu.Table040.Coherent.{translate_040-cpu}
use m68k_rs.Mmu.Translation.{access_mode, translate_tables, translate, translate_address}

module _ {B : Type 0} (bus : AddressBus B) (l : ℕ) (w s : Bool) (c : CpuCore) (b : B) where
  tables-cpu :
      (i : Bool)
      → let c' = (translate_tables bus l w s i (c, b)).1.0 in c' ≡ record c { atc = c'.atc }
  unfolding translate_tables
  tables-cpu i = elim (Bool-cases (is_040 c || is_060 c)) [
    | inl new ↦ rw (new, translate_tables) (translate_040-cpu bus c b l w s)
    | inr old ↦ rw (old, translate_tables) refl
  ]

module _ {B : Type 0} (bus : AddressBus B) (l : ℕ) (w s i : Bool) (c : CpuCore) (b : B) where
  -- Of the processor only the cache changes.
  pub translate_address-cpu :
      let c' = (translate_address bus l w s i (c, b)).1.0 in c' ≡ record c { atc = c'.atc }
  unfolding translate_address translate
  translate_address-cpu = elim (Bool-cases (not c.pmmu_enabled || not c.has_pmmu)) [
    | inl off ↦ rw (off, translate) refl
    | inr on ↦ elim (Option-cases (check_transparent_translation c l w (access_mode c s i).1)) [
      | inl miss ↦
          rw (on, translate, miss)
            (tables-cpu bus l w (access_mode c s i).0 c b (access_mode c s i).1)
      | inr (p, hit) ↦ rw (on, translate, hit) refl
    ]
  ]
