-- ===== src/Mmu/Table030/Kept.antt =====
-- src/mmu/translation.rs: a 68030 walk on a bus whose reads leave it as it is.
use m68k_rs.Base.{
  ℕ, ◌≡◌, refl, ◌∙◌, inl, inr, Bool, true, false, Bool-cases, Option-cases, bit_and, leb, ◌==◌,
}
use mathlib.Core.List.{List, [], ◌∷◌}
use m68k_rs.Base.Results.{Keeps, bind-Keeps, pure-Keeps}
use m68k_rs.Bus.Interface.{AddressBus, IsQuiet}
use m68k_rs.Cpu.State.{CpuCore}
use m68k_rs.Mmu.Table040.Walk.{read_u32_phys-Keeps}
use m68k_rs.Mmu.Table030.{
  Desc030, Walk030, Level, WalkState, Step, done, pointer, read_desc_030, index_of, fetch_030,
  step_030, indirect_030, resume, walk_levels, start_levels, descend, walk_030, root_format,
  root_limit, translate_030,
}

module _ {B : Type 0} (bus : AddressBus B) (h : IsQuiet bus) where
  read_desc_030-Keeps : (base index : ℕ) (long : Bool) → Keeps (read_desc_030 bus base index long)
  unfolding read_desc_030
  read_desc_030-Keeps base index true =
      search (bind-Keeps, pure-Keeps, read_u32_phys-Keeps bus h) depth 20
  read_desc_030-Keeps base index false =
      search (bind-Keeps, pure-Keeps, read_u32_phys-Keeps bus h) depth 20

  module _ (logical fc m : ℕ) where
    step-bus : (level : Level) (s : WalkState) (b : B) → (step_030 bus logical fc m level s b).1 ≡ b
    unfolding step_030 fetch_030
    step-bus level s b = elim (Bool-cases (leb m s.levels)) [
      | inl full ↦ rw (full, step_030) refl
      | inr more ↦
          rw (more, step_030)
            ((read_desc_030-Keeps s.ptr (index_of level logical fc s.consumed) s.long).kept b)
    ]

    indirect-bus : (d : Desc030) (s : WalkState) (b : B) → (indirect_030 bus d s b).1 ≡ b
    unfolding indirect_030
    indirect-bus d s b = (read_desc_030-Keeps (bit_and d.field 0xffff_fffc) 0 (d.dt == 3)).kept b

    resume-bus :
        (f : Desc030 → WalkState → B → Walk030 × B) (r : Step) (b : B)
        → ((d : Desc030) (s : WalkState) (b : B) → (f d s b).1 ≡ b)
        → (resume bus f r b).1 ≡ b
    resume-bus f (done w) b k = refl
    resume-bus f (pointer d s) b k = k d s b

    walk-bus :
        (level : Level) (rest : List Level) (s : WalkState) (b : B)
        → (walk_levels bus logical fc m level rest s b).1 ≡ b
    unfolding walk_levels
    walk-bus level [] s b =
        resume-bus _ (step_030 bus logical fc m level s b).0 _ indirect-bus ∙ step-bus level s b
    walk-bus level (next ∷ rest) s b =
        resume-bus _ (step_030 bus logical fc m level s b).0 _
          (λ d s' b'. walk-bus next rest (descend d s') b')
        ∙ step-bus level s b

    start-bus :
        (levels : List Level) (s : WalkState) (b : B)
        → (start_levels bus logical fc m levels s b).1 ≡ b
    unfolding start_levels
    start-bus [] s b = refl
    start-bus (level ∷ rest) s b = walk-bus level rest s b

    pub walk_030-bus : (c : CpuCore) (b : B) → (walk_030 bus c logical fc m b).1 ≡ b
    unfolding walk_030
    walk_030-bus c b = elim (Option-cases (root_format (root_limit c fc))) [
      | inl bad ↦ rw (bad, walk_030) refl
      | inr (long, e) ↦ rw (e, walk_030) (start-bus _ _ b)
    ]

  pub translate_030-bus :
      (c : CpuCore) (logical : ℕ) (write supervisor instruction : Bool) (b : B)
      → (translate_030 bus c logical write supervisor instruction b).1 ≡ b
  unfolding translate_030
  translate_030-bus c logical write s i b = walk_030-bus logical _ _ c b
