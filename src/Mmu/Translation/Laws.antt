-- ===== src/Mmu/Translation/Laws.antt =====
-- src/mmu/translation.rs: translation against the tables alone.
use mathlib.Core.Path.{subst}
use m68k_rs.Mmu.Table030.Kept.{translate_030-bus}
use m68k_rs.Base.{
  ℕ, ◌<◌, ◌^◌, ◌≡◌, refl, ap, inl, inr, Bool, not, ◌||◌, none, some, Option-cases, Bool-cases,
  if◌then◌else◌, arith,
}
use mathlib.Core.List.{List, [], ◌∷◌, map}
use m68k_rs.Base.Results.{Result, ok, map_ok}
use m68k_rs.Bus.Interface.{AddressBus, IsQuiet}
use m68k_rs.Cpu.State.{CpuCore, is_040, is_060}
use m68k_rs.Mmu.Atc.{Atc, flush_all}
use m68k_rs.Mmu.Fault.{MmuFault}
use m68k_rs.Mmu.Ttr.{check_transparent_translation, compute_function_code}
use m68k_rs.Mmu.Table040.{walk_040, page_of, page_bits, indices}
use m68k_rs.Mmu.Table040.Coherent.{
  IsCoherent, at_offset, translate_040-IsCoherent, flushed-IsCoherent, translate_040-cpu,
}
use m68k_rs.Mmu.Table030.{translate_030, walk_030, start_state}
use m68k_rs.Mmu.Translation.{access_mode, translate_tables, translate}

pub record Access : Type 0 where
  pub logical : ℕ
  pub write : Bool
  pub supervisor : Bool
  pub instruction : Bool

module _ {B : Type 0} (bus : AddressBus B) where
  -- What an access is translated to with no cache: by the registers and the tables alone.
  pub uncached_tables : CpuCore → B → ℕ → Bool → Bool → Bool → Result MmuFault ℕ
  uncached_tables c b logical write supervisor instruction =
      if is_040 c || is_060 c
      then map_ok (at_offset c logical) (walk_040 bus c logical write supervisor b).0
      else (translate_030 bus c logical write supervisor instruction b).0

  pub uncached : CpuCore → B → Access → Result MmuFault ℕ
  unfolding uncached_tables
  uncached c b x =
      if not c.pmmu_enabled || not c.has_pmmu
      then ok x.logical
      else (let mode = access_mode c x.supervisor x.instruction in
          elim (check_transparent_translation c x.logical x.write mode.1) [
            | some phys ↦ ok phys
            | none ↦ uncached_tables c b x.logical x.write mode.0 mode.1
          ])

  -- What holds after a translation: the result is the uncached one, and the cache still agrees with
  -- the tables, in a processor that is otherwise as it was, on a bus that is as it was.
  pub record Translated (c : CpuCore) (b : B) (expected : Result MmuFault ℕ)
      (out : Result MmuFault ℕ × (CpuCore × B)) : Type 0 where
    pub result : out.0 ≡ expected
    pub coherent : IsCoherent bus out.1.0 b
    pub cpu : out.1.0 ≡ record c { atc = out.1.0.atc }
    pub memory : out.1.1 ≡ b

  module _ (quiet : IsQuiet bus) (c : CpuCore) (b : B) (h : IsCoherent bus c b) where
    -- Where the processor and the bus are left as they are.
    untouched : (r : Result MmuFault ℕ) → Translated c b r (r, (c, b))
    untouched r = record { result = refl; coherent = h; cpu = refl; memory = refl }

    tables-Translated :
        (logical : ℕ) (write supervisor instruction : Bool)
        → logical < 2 ^ 32
        → Translated c b
            (uncached_tables c b logical write supervisor instruction)
            (translate_tables bus logical write supervisor instruction (c, b))
    unfolding translate_tables uncached_tables
    tables-Translated l w s i small = elim (Bool-cases (is_040 c || is_060 c)) [
      | inl fixed ↦
          let t = translate_040-IsCoherent bus c b l w s quiet h small in
          rw (fixed, translate_tables, uncached_tables)
            (record {
              result = t.0;
              coherent = t.1;
              cpu = translate_040-cpu bus c b l w s;
              memory = t.2;
            })
      | inr programmed ↦
          rw
            (programmed, translate_tables, uncached_tables, translate_030-bus bus quiet c l w s i b)
            (untouched _)
    ]

    -- The cache cannot be seen: with a cache that agrees with the tables, and on a bus whose reads
    -- leave it as it is, an access to a 32-bit address is translated as by the registers and the
    -- tables alone. The cache agrees with the tables afterwards, and neither the rest of the processor
    -- nor the bus changes.
    pub translate-uncached :
        (x : Access)
        → x.logical < 2 ^ 32
        → Translated c b
            (uncached c b x)
            (translate bus x.logical x.write x.supervisor x.instruction (c, b))
    unfolding translate uncached
    translate-uncached x small = elim (Bool-cases (not c.pmmu_enabled || not c.has_pmmu)) [
      | inl off ↦ rw (off, translate, uncached) (untouched _)
      | inr on ↦
          let mode = access_mode c x.supervisor x.instruction in
          elim (Option-cases (check_transparent_translation c x.logical x.write mode.1)) [
            | inl walk ↦
                rw (on, walk, translate, uncached)
                  (tables-Translated x.logical x.write mode.0 mode.1 small)
            | inr (p, e) ↦ rw (on, e, translate, uncached) (untouched _)
          ]
    ]

  -- Only the cache differs.
  uncached-atc :
      (c : CpuCore) (t : Atc) (b : B) (x : Access)
      → uncached (record c { atc = t }) b x ≡ uncached c b x
  unfolding uncached uncached_tables access_mode check_transparent_translation compute_function_code
      is_040 is_060 walk_040 page_of page_bits indices translate_030 walk_030 start_state
  uncached-atc c t b x = refl

  -- The results of a run of accesses, one after the other.
  pub translate_all : List Access → CpuCore × B → List (Result MmuFault ℕ)
  translate_all [] s = []
  translate_all (x ∷ xs) s =
      let (r, s') = translate bus x.logical x.write x.supervisor x.instruction s in
      r ∷ translate_all xs s'

  abbrev pub AllSmall : List Access → Type 0
  AllSmall [] = Unit
  AllSmall (x ∷ xs) = (x.logical < 2 ^ 32) × AllSmall xs

  translate_all_from :
      (quiet : IsQuiet bus) (c : CpuCore) (b : B) (xs : List Access) (t : Atc)
      → IsCoherent bus (record c { atc = t }) b
      → AllSmall xs
      → translate_all xs (record c { atc = t }, b) ≡ map (uncached c b) xs
  unfolding translate_all
  translate_all_from quiet c b [] t h small = refl
  translate_all_from quiet c b (x ∷ xs) t h small =
      let c' = record c { atc = t } in
      let r = translate-uncached quiet c' b h x small.0 in
      let out = translate bus x.logical x.write x.supervisor x.instruction (c', b) in
      let state : out.1 ≡ (record c { atc = out.1.0.atc }, b) = ground (arith, r.cpu, r.memory) in
      let rest =
        translate_all_from quiet c b xs out.1.0.atc
          (subst (λ p. IsCoherent bus p b) r.cpu r.coherent) small.1 in
      cc (r.result, uncached-atc c t b x, ap (translate_all xs) state, rest)

  -- From a flushed cache every access of a run is translated as by the registers and the tables
  -- alone, whatever the accesses before it have put in the cache. The addresses have 32 bits, and
  -- the reads of the bus leave it as it is.
  pub translate_all-uncached :
      (c : CpuCore) (b : B) (a : Atc) (xs : List Access)
      → IsQuiet bus
      → AllSmall xs
      → translate_all xs (record c { atc = flush_all a }, b) ≡ map (uncached c b) xs
  translate_all-uncached c b a xs quiet small =
      translate_all_from quiet c b xs (flush_all a) (flushed-IsCoherent bus c a b) small
