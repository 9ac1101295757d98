-- ===== src/Mmu/Ttr/Access.antt =====
-- src/mmu/ttr.rs: the transparent translation of an access.
use m68k_rs.Base.{
  ℕ, bit_and, Bool, true, false, Option, none, some, ◌!=◌, if◌then◌else◌, ◌≡◌, refl, ◌⊎◌, inl, inr,
}
use m68k_rs.Cpu.State.{CpuCore}
use m68k_rs.Mmu.Ttr.Laws.{Enabled, AddressCovered, PrivilegeCovered}
use m68k_rs.Mmu.Ttr.{
  TtrFormat, ttr_matches, ttr_matches_040, check_transparent_translation, compute_function_code,
  ttr_format, shared_030, split_040, no_ttr,
}

abbrev has_value : Option ℕ → Bool
has_value none = false
has_value (some x) = true

-- The registers that an access of a 68040 is checked against.
pub Covered040 : ℕ → ℕ → Bool → Type 0
Covered040 ttr addr supervisor =
    Enabled ttr × (AddressCovered ttr addr × PrivilegeCovered ttr supervisor)

identity_or_none :
    (p q : Bool) (addr : ℕ)
    → ((if p then some addr else if q then some addr else none) ≡ some addr)
      ⊎ ((if p then some addr else if q then some addr else none) ≡ none)
identity_or_none true q addr = inl refl
identity_or_none false true addr = inl refl
identity_or_none false false addr = inr refl

TtrFormat-cases : (f : TtrFormat) → (f ≡ shared_030) ⊎ ((f ≡ split_040) ⊎ (f ≡ no_ttr))
TtrFormat-cases shared_030 = inl refl
TtrFormat-cases split_040 = inr (inl refl)
TtrFormat-cases no_ttr = inr (inr refl)

identity_040 :
    (c : CpuCore) (addr : ℕ) (write instruction : Bool)
    → ttr_format c.cpu_type ≡ split_040
    → (check_transparent_translation c addr write instruction ≡ some addr)
      ⊎ (check_transparent_translation c addr write instruction ≡ none)
unfolding check_transparent_translation
identity_040 c addr write true e =
    let supervisor = bit_and (compute_function_code c true) 4 != 0 in
    rw (check_transparent_translation, e)
      (identity_or_none (ttr_matches_040 c.itt0 addr supervisor)
        (ttr_matches_040 c.itt1 addr supervisor) addr)
identity_040 c addr write false e =
    let supervisor = bit_and (compute_function_code c false) 4 != 0 in
    rw (check_transparent_translation, e)
      (identity_or_none (ttr_matches_040 c.dtt0 addr supervisor)
        (ttr_matches_040 c.dtt1 addr supervisor) addr)

-- A register of 0 is disabled.
nothing_matches :
    (p q : Bool) (addr : ℕ)
    → p ≡ false
    → q ≡ false
    → (if p then some addr else if q then some addr else none) ≡ none
nothing_matches p q addr e f = rw (e, f) refl

zero_disabled : (ttr addr fc : ℕ) (write : Bool) → ttr ≡ 0 → ttr_matches ttr addr fc write ≡ false
unfolding ttr_matches
zero_disabled ttr addr fc write e = rw e refl

zero_disabled_040 :
    (ttr addr : ℕ) (supervisor : Bool) → ttr ≡ 0 → ttr_matches_040 ttr addr supervisor ≡ false
unfolding ttr_matches_040
zero_disabled_040 ttr addr supervisor e = rw e refl

-- The six registers are 0.
pub record Cleared (c : CpuCore) : Type 0 where
  pub tt0 : c.mmu_tt0 ≡ 0
  pub tt1 : c.mmu_tt1 ≡ 0
  pub i0 : c.itt0 ≡ 0
  pub i1 : c.itt1 ≡ 0
  pub d0 : c.dtt0 ≡ 0
  pub d1 : c.dtt1 ≡ 0

check_040-Cleared :
    (c : CpuCore) (addr : ℕ) (write instruction : Bool)
    → Cleared c
    → ttr_format c.cpu_type ≡ split_040
    → check_transparent_translation c addr write instruction ≡ none
unfolding check_transparent_translation
check_040-Cleared c addr write true h e =
    let supervisor = bit_and (compute_function_code c true) 4 != 0 in
    rw (check_transparent_translation, e)
      (nothing_matches (ttr_matches_040 c.itt0 addr supervisor)
        (ttr_matches_040 c.itt1 addr supervisor) addr
        (zero_disabled_040 c.itt0 addr supervisor h.i0)
        (zero_disabled_040 c.itt1 addr supervisor h.i1))
check_040-Cleared c addr write false h e =
    let supervisor = bit_and (compute_function_code c false) 4 != 0 in
    rw (check_transparent_translation, e)
      (nothing_matches (ttr_matches_040 c.dtt0 addr supervisor)
        (ttr_matches_040 c.dtt1 addr supervisor) addr
        (zero_disabled_040 c.dtt0 addr supervisor h.d0)
        (zero_disabled_040 c.dtt1 addr supervisor h.d1))

pub check_transparent_translation-Cleared :
    (c : CpuCore) (addr : ℕ) (write instruction : Bool)
    → Cleared c
    → check_transparent_translation c addr write instruction ≡ none
unfolding check_transparent_translation
check_transparent_translation-Cleared c addr write instruction h =
    let fc = compute_function_code c instruction in
    elim (TtrFormat-cases (ttr_format c.cpu_type)) [
      | inl shared ↦
          rw (check_transparent_translation, shared)
            (nothing_matches (ttr_matches c.mmu_tt0 addr fc write)
              (ttr_matches c.mmu_tt1 addr fc write) addr
              (zero_disabled c.mmu_tt0 addr fc write h.tt0)
              (zero_disabled c.mmu_tt1 addr fc write h.tt1))
      | inr rest ↦ elim rest [
        | inl split ↦ check_040-Cleared c addr write instruction h split
        | inr other ↦ rw (check_transparent_translation, other) refl
      ]
    ]
