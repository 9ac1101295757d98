-- ===== src/Mmu/Table040/Walk.antt =====
-- src/mmu/translation.rs: the table walk of the 68040, by the pages of the logical addresses.
use m68k_rs.Base.{
  ℕ, ◌/◌, ◌^◌, ◌≡◌, refl, ◌⊎◌, inl, inr, bit_and, Bool, true, ◌!=◌, ◌==◌, Bool-cases, arith,
}
use m68k_rs.Base.Results.{ok, Result-cases, Keeps, if-Keeps, bind-Keeps, pure-Keeps, raise_if-Keeps}
use m68k_rs.Bus.Interface.{AddressBus, IsQuiet}
use m68k_rs.Cpu.State.{CpuCore}
use m68k_rs.Mmu.Atc.Laws.{allowed}
use m68k_rs.Mmu.Fault.{read_u32_phys}
use m68k_rs.Mmu.Table040.{
  Descriptors, Indices, Page, page_bits, indices, follow, fetch_040, page_of, root_pointer,
  walk_040,
}

pub page_bits-cases : (c : CpuCore) → (page_bits c ≡ 12) ⊎ (page_bits c ≡ 13)
unfolding page_bits
page_bits-cases c = elim (Bool-cases (bit_and c.mmu_tc 0x4000 != 0)) [
  | inl large ↦ inr (rw large refl)
  | inr small ↦ inl (rw small refl)
]

upper_parts :
    (l l' : ℕ)
    → l / 2 ^ 12 ≡ l' / 2 ^ 12
    → (l / 2 ^ 25 ≡ l' / 2 ^ 25) × (l / 2 ^ 18 ≡ l' / 2 ^ 18) × (l / 2 ^ 13 ≡ l' / 2 ^ 13)
upper_parts l l' e = (omega arith, omega arith, omega arith)

upper_parts_large :
    (l l' : ℕ) → l / 2 ^ 13 ≡ l' / 2 ^ 13 → (l / 2 ^ 25 ≡ l' / 2 ^ 25) × (l / 2 ^ 18 ≡ l' / 2 ^ 18)
upper_parts_large l l' e = (omega arith, omega arith)

-- Addresses of one page have the same places in the tables.
pub indices-page :
    (c : CpuCore) (l l' : ℕ)
    → l / 2 ^ page_bits c ≡ l' / 2 ^ page_bits c
    → indices c l ≡ indices c l'
unfolding indices
indices-page c l l' e = elim (page_bits-cases c) [
  | inl small ↦ let f = rw small at e in let q = upper_parts l l' f in rw small (cc (q.0, q.1, f))
  | inr large ↦
      let f = rw large at e in let q = upper_parts_large l l' f in rw large (cc (q.0, q.1, f))
]

module _ {B : Type 0} (bus : AddressBus B) where
  -- The address itself is only reported by faults.
  pub fetch_040-logical :
      (root : ℕ) (i : Indices) (l l' : ℕ) (b b' : B) (d : Descriptors)
      → fetch_040 bus root i l b ≡ (ok d, b')
      → fetch_040 bus root i l' b ≡ (ok d, b')
  unfolding fetch_040
  fetch_040-logical root i l l' b b' d e = ground arith

  -- A walk that ends in a page, by the descriptors that it fetched.
  pub walk_040_page :
      (c : CpuCore) (l : ℕ) (w s : Bool) (b b' : B) (page : Page)
      → walk_040 bus c l w s b ≡ (ok page, b')
      → (d : Descriptors) × (fetch_040 bus (root_pointer c s) (indices c l) l b ≡ (ok d, b'))
        × (page ≡ page_of c d)
        × (allowed page.write_protected page.supervisor_only s w ≡ true)
  unfolding walk_040
  walk_040_page c l w s b b' page e =
      let fetched = fetch_040 bus (root_pointer c s) (indices c l) l b in
      elim (Result-cases fetched.0) [
        | inl (d, q) ↦ (d, ground arith, ground arith, ground arith)
        | inr (f, q) ↦ absurd (ground arith)
      ]

  pub page_walk_040 :
      (c : CpuCore) (l : ℕ) (w s : Bool) (b b' : B) (d : Descriptors)
      → fetch_040 bus (root_pointer c s) (indices c l) l b ≡ (ok d, b')
      → allowed (page_of c d).write_protected (page_of c d).supervisor_only s w ≡ true
      → walk_040 bus c l w s b ≡ (ok (page_of c d), b')
  unfolding walk_040
  page_walk_040 c l w s b b' d e a = ground arith

module _ {B : Type 0} (bus : AddressBus B) (h : IsQuiet bus) where
  pub read_u32_phys-Keeps : (address : ℕ) → Keeps (read_u32_phys bus address)
  unfolding read_u32_phys
  read_u32_phys-Keeps address = record { kept = λ b. ground (arith, (h.quiet address).kept b) }

  follow-Keeps : (page_desc : ℕ) → Keeps (follow bus page_desc)
  unfolding follow
  follow-Keeps page_desc =
      if-Keeps (bit_and page_desc 3 == 2) _ _ (read_u32_phys-Keeps _) (pure-Keeps page_desc)

  fetch_040-Keeps : (root : ℕ) (i : Indices) (l : ℕ) → Keeps (fetch_040 bus root i l)
  unfolding fetch_040
  fetch_040-Keeps root i l =
      search (bind-Keeps, raise_if-Keeps, pure-Keeps, read_u32_phys-Keeps, follow-Keeps) depth 20

  pub walk_040-Keeps : (c : CpuCore) (l : ℕ) (w s : Bool) → Keeps (walk_040 bus c l w s)
  unfolding walk_040
  walk_040-Keeps c l w s = search (bind-Keeps, raise_if-Keeps, pure-Keeps, fetch_040-Keeps) depth 20
