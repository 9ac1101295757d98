-- ===== src/Mmu/Table040/Coherent.antt =====
-- src/mmu/translation.rs: the cache of the 68040 against its tables.
use m68k_rs.Base.{
  ℕ, ◌/◌, ◌^◌, ◌<◌, ◌≡◌, refl, sym, ◌∙◌, inl, inr, bit_and, bit_or, Bool, true, false, ◌&&◌, ◌==◌,
  Bool-cases, some, none, arith, eqb, Option-cases,
}
use mathlib.Core.Option.{some-injective, none-ne-some}
use m68k_rs.Base.Results.{ok, err, Result-cases, map_ok}
use m68k_rs.Bus.Interface.{AddressBus, IsQuiet}
use m68k_rs.Cpu.State.{CpuCore}
use m68k_rs.Mmu.Atc.{lookup, insert, index, Atc, flush_all}
use m68k_rs.Mmu.Atc.Laws.{allowed, lookup-insert, lookup-flush_all}
use m68k_rs.Mmu.Fault.{MmuFault}
use m68k_rs.Mmu.Table040.{
  Page, page_bits, page_mask, indices, page_of, root_pointer, walk_040, translate_040,
}
use m68k_rs.Mmu.Table040.Walk.{
  indices-page, fetch_040-logical, walk_040_page, page_walk_040, walk_040-Keeps, page_bits-cases,
}

abbrev frame : CpuCore → ℕ → ℕ
frame c l = l / 2 ^ page_bits c

frame-lt : (c : CpuCore) (l : ℕ) → l < 2 ^ 32 → frame c l < 2 ^ 31
frame-lt c l h = elim (page_bits-cases c) [
  | inl small ↦ rw small (omega arith)
  | inr large ↦ rw large (omega arith)
]

both : (f g : ℕ) (s t a : Bool) → ((f == g && eqb s t) && a) ≡ true → (f ≡ g) × (s ≡ t) × (a ≡ true)
both f g true true true h = ground arith
both f g true false a h = ground arith
both f g false true a h = ground arith
both f g false false true h = ground arith
both f g true true false h = ground arith
both f g false false false h = ground arith

-- The physical address of `l` in a page.
abbrev pub at_offset : CpuCore → ℕ → Page → ℕ
at_offset c l page = bit_or page.phys_page (bit_and l (page_mask c))

module _ {B : Type 0} (bus : AddressBus B) where
  -- Each lookup that hits is what the walk through the tables would give.
  abbrev pub IsCoherent : CpuCore → B → Type 0
  IsCoherent c b =
      (l : ℕ) (write supervisor : Bool) (p : ℕ)
      → l < 2 ^ 32
      → lookup c.atc (frame c l) supervisor write ≡ some p
      → (page : Page) × (walk_040 bus c l write supervisor b ≡ (ok page, b)) × (page.phys_page ≡ p)

  -- What one walk found holds for every address of the page, and for every access that it admits.
  same_page :
      (c : CpuCore) (b : B) (l l' : ℕ) (w w' s : Bool) (page : Page)
      → frame c l ≡ frame c l'
      → walk_040 bus c l w s b ≡ (ok page, b)
      → allowed page.write_protected page.supervisor_only s w' ≡ true
      → walk_040 bus c l' w' s b ≡ (ok page, b)
  same_page c b l l' w w' s page e h a =
      let (d, f, g, _) = walk_040_page bus c l w s b b page h in
      let f' = fetch_040-logical bus (root_pointer c s) (indices c l) l l' b b d f in
      rw g (page_walk_040 bus c l' w' s b b d (rw (sym (indices-page c l l' e)) f') (rw (sym g) a))

  cached : CpuCore → ℕ → Bool → Page → CpuCore
  cached c l s page = record c {
    atc = insert c.atc (frame c l) s page.phys_page page.write_protected page.supervisor_only;
  }

  cached-IsCoherent :
      (c : CpuCore) (b : B) (l : ℕ) (w s : Bool) (page : Page)
      → l < 2 ^ 32
      → IsCoherent c b
      → walk_040 bus c l w s b ≡ (ok page, b)
      → IsCoherent (cached c l s page) b
  unfolding cached page_bits walk_040 page_of indices
  cached-IsCoherent c b l w s page small h e l' w' s' p small' hit =
      let found =
        rw
          (lookup-insert c.atc (frame c l') (frame c l) s' s w' page.phys_page page.write_protected
            page.supervisor_only (frame-lt c l' small') (frame-lt c l small))
          at hit in
      elim (Bool-cases (index (frame c l') == index (frame c l))) [
        | inl slot ↦
            elim (Bool-cases (
              (frame c l' == frame c l && eqb s' s)
              && allowed page.write_protected page.supervisor_only s' w')) [
                | inl all ↦
                    let (f, t, a) = both (frame c l') (frame c l) s' s _ all in
                    (
                      page,
                      rw t (same_page c b l l' w w' s page (sym f) e (rw t at a)),
                      some-injective _ _ (rw (slot, all) at found),
                    )
                | inr miss ↦ absurd (none-ne-some p (rw (slot, miss) at found))
              ]
        | inr apart ↦ h l' w' s' p small' (rw apart at found)
      ]

  module _ (c : CpuCore) (b : B) (l : ℕ) (w s : Bool) where
    hit_output :
        (p : ℕ)
        → lookup c.atc (frame c l) s w ≡ some p
        → translate_040 bus l w s (c, b) ≡ (ok (bit_or p (bit_and l (page_mask c))), (c, b))
    unfolding translate_040
    hit_output p e = rw (e, translate_040) refl

    walk_output :
        (page : Page)
        → lookup c.atc (frame c l) s w ≡ none
        → walk_040 bus c l w s b ≡ (ok page, b)
        → translate_040 bus l w s (c, b) ≡ (ok (at_offset c l page), (cached c l s page, b))
    unfolding translate_040 cached
    walk_output page e f = ground arith

    fault_output :
        (x : MmuFault)
        → lookup c.atc (frame c l) s w ≡ none
        → walk_040 bus c l w s b ≡ (err x, b)
        → translate_040 bus l w s (c, b) ≡ (err x, (c, b))
    unfolding translate_040
    fault_output x e f = ground arith

  -- On a bus whose reads leave it as it is, and with a cache that agrees with the tables, translation
  -- of a 32-bit address gives what the walk through the tables gives, page or fault, and the cache
  -- agrees with the tables afterwards. The bus is as it was.
  pub translate_040-IsCoherent :
      (c : CpuCore) (b : B) (l : ℕ) (write supervisor : Bool)
      → IsQuiet bus
      → IsCoherent c b
      → l < 2 ^ 32
      → let out = translate_040 bus l write supervisor (c, b) in
        (out.0 ≡ map_ok (at_offset c l) (walk_040 bus c l write supervisor b).0)
        × IsCoherent out.1.0 b
        × (out.1.1 ≡ b)
  translate_040-IsCoherent c b l w s q h small =
      let kept = (walk_040-Keeps bus q c l w s).kept b in
      elim (Option-cases (lookup c.atc (frame c l) s w)) [
        | inl miss ↦ elim (Result-cases (walk_040 bus c l w s b).0) [
          | inl (page, e) ↦
              let walked : walk_040 bus c l w s b ≡ (ok page, b) = ground arith in
              rw (walk_output c b l w s page miss walked, e)
                (refl, cached-IsCoherent c b l w s page small h walked, refl)
          | inr (x, e) ↦
              let walked : walk_040 bus c l w s b ≡ (err x, b) = ground arith in
              rw (fault_output c b l w s x miss walked, e) (refl, h, refl)
        ]
        | inr (p, hit) ↦
            let (page, e, f) = h l w s p small hit in
            rw (hit_output c b l w s p hit, e, sym f) (refl, h, refl)
      ]

  -- The cache agrees with any tables once it is flushed.
  pub flushed-IsCoherent :
      (c : CpuCore) (a : Atc) (b : B) → IsCoherent (record c { atc = flush_all a }) b
  unfolding page_bits
  flushed-IsCoherent c a b l w s p small hit =
      absurd (none-ne-some p (sym (lookup-flush_all a (frame c l) s w) ∙ hit))

  -- Of the processor only the cache changes.
  pub translate_040-cpu :
      (c : CpuCore) (b : B) (l : ℕ) (w s : Bool)
      → let c' = (translate_040 bus l w s (c, b)).1.0 in c' ≡ record c { atc = c'.atc }
  unfolding translate_040
  translate_040-cpu c b l w s = elim (Option-cases (lookup c.atc (frame c l) s w)) [
    | inl miss ↦ elim (Result-cases (walk_040 bus c l w s b).0) [
      | inl (page, e) ↦ rw (miss, translate_040, e) refl
      | inr (x, e) ↦ rw (miss, translate_040, e) refl
    ]
    | inr (p, hit) ↦ rw (hit, translate_040) refl
  ]
