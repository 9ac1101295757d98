-- ===== src/Mmu/Table030/Levels.antt =====
-- src/mmu/translation.rs: the number of descriptors that a 68030 walk fetches.
use m68k_rs.Base.{
  ℕ, suc, ◌+◌, ◌≤◌, ◌<◌, ◌≡◌, refl, sym, ◌∙◌, ◌⊎◌, inl, inr, Bool, true, false, leb, ◌==◌, bit_and,
  Bool-cases, if◌then◌else◌, arith, ap, Option-cases,
}
use mathlib.Core.List.{List, [], ◌∷◌}
use m68k_rs.Base.Results.{Result-cases}
use m68k_rs.Bus.Interface.{AddressBus}
use m68k_rs.Cpu.State.{CpuCore}
use m68k_rs.Mmu.Table030.{
  Desc030, Walk030, Walk030End, page, invalid, level_stop, Level, WalkState, Step, done, pointer,
  address_levels, levels_of, examine, step_030, indirect_030, walk_levels, start_levels, walk_030,
  stop, fetch_030, read_desc_030, index_of, descend, resume, root_format, root_limit, root_aptr,
  start_state,
}

abbrev pub length : List Level → ℕ
length [] = 0
length (x ∷ xs) = suc (length xs)

-- At most one level for the function code and four for the address.
pub length-levels_of : (tc : ℕ) → length (levels_of tc) ≤ 5
unfolding levels_of address_levels
length-levels_of tc = ground arith

abbrev pub is_stop : Walk030End → Bool
is_stop level_stop = true
is_stop _ = false

-- What a round leaves: a finished walk, or a pointer with one more descriptor counted.
abbrev Counts : ℕ → Step → Type 0
Counts n (done w) = (w.levels ≤ suc n) × (is_stop w.end ≡ false)
Counts n (pointer d s) = s.levels ≡ suc n

-- A finished walk of at most `k` descriptors that the limit did not stop.
abbrev pub Counted : ℕ → Walk030 → Type 0
Counted k w = (w.levels ≤ k) × (is_stop w.end ≡ false)

page_or_invalid :
    (t : Bool) (field consumed : ℕ)
    → is_stop (if t then page field consumed else invalid true) ≡ false
page_or_invalid true field consumed = refl
page_or_invalid false field consumed = refl

examine-Counts : (n : ℕ) (s : WalkState) (d : Desc030) → s.levels ≡ suc n → Counts n (examine s d)
unfolding examine
examine-Counts n s d e = elim (Bool-cases (d.dt == 0)) [
  | inl zero_dt ↦ rw zero_dt (omega arith, refl)
  | inr more ↦ elim (Bool-cases (d.dt == 1)) [
    | inl one_dt ↦ rw (more, one_dt) (omega arith, refl)
    | inr table ↦ rw (more, table) e
  ]
]

Step-cases :
    (r : Step)
    → ((w : Walk030) × (r ≡ done w)) ⊎ ((d : Desc030) × (s : WalkState) × (r ≡ pointer d s))
Step-cases (done w) = inl (w, refl)
Step-cases (pointer d s) = inr (d, s, refl)

module _ {B : Type 0} (bus : AddressBus B) (logical fc : ℕ) where
  fetch-Counts :
      (level : Level) (s : WalkState) (b : B)
      → Counts s.levels (fetch_030 bus logical fc level s b).0
  unfolding fetch_030
  fetch-Counts level s b =
      elim (Result-cases
        (read_desc_030 bus s.ptr (index_of level logical fc s.consumed) s.long b).0) [
          | inl (d, e) ↦ rw (e, fetch_030) (examine-Counts s.levels _ d (omega arith))
          | inr (f, e) ↦ rw (e, fetch_030) (omega arith, refl)
        ]

  indirect_030-levels :
      (d : Desc030) (s : WalkState) (b : B) → (indirect_030 bus d s b).0.levels ≡ s.levels
  unfolding indirect_030
  indirect_030-levels d s b =
      elim (Result-cases (read_desc_030 bus (bit_and d.field 0xffff_fffc) 0 (d.dt == 3) b).0) [
        | inl (t, e) ↦ rw (e, indirect_030) refl
        | inr (f, e) ↦ rw (e, indirect_030) refl
      ]

  indirect_030-end :
      (d : Desc030) (s : WalkState) (b : B) → is_stop (indirect_030 bus d s b).0.end ≡ false
  unfolding indirect_030
  indirect_030-end d s b =
      elim (Result-cases (read_desc_030 bus (bit_and d.field 0xffff_fffc) 0 (d.dt == 3) b).0) [
        | inl (t, e) ↦ rw (e, indirect_030) (page_or_invalid (t.dt == 1) t.field s.consumed)
        | inr (f, e) ↦ rw (e, indirect_030) refl
      ]

  step_full :
      (m : ℕ) (level : Level) (s : WalkState) (b : B)
      → leb m s.levels ≡ true
      → step_030 bus logical fc m level s b ≡ (done (stop s level_stop), b)
  unfolding step_030
  step_full m level s b e = ground arith

  step_fetch :
      (m : ℕ) (level : Level) (s : WalkState) (b : B)
      → s.levels < m
      → step_030 bus logical fc m level s b ≡ fetch_030 bus logical fc level s b
  unfolding step_030
  step_fetch m level s b h = ground arith

  step-Counts :
      (m : ℕ) (level : Level) (s : WalkState) (b : B)
      → s.levels < m
      → Counts s.levels (step_030 bus logical fc m level s b).0
  step-Counts m level s b h = rw (step_fetch m level s b h) (fetch-Counts level s b)

  step_unlimited :
      (m m' : ℕ) (level : Level) (s : WalkState) (b : B)
      → s.levels < m
      → s.levels < m'
      → step_030 bus logical fc m level s b ≡ step_030 bus logical fc m' level s b
  step_unlimited m m' level s b h h' = step_fetch m level s b h ∙ sym (step_fetch m' level s b h')

  -- Two continuations that agree on the pointers that a round can fetch.
  resume_same :
      {f g : Desc030 → WalkState → B → Walk030 × B} (r : Step) (b : B) (n : ℕ)
      → Counts n r
      → ((d : Desc030) (s : WalkState) (b : B) → s.levels ≡ suc n → f d s b ≡ g d s b)
      → resume bus f r b ≡ resume bus g r b
  resume_same (done w) b n c h = refl
  resume_same (pointer d s) b n c h = h d s b c

  resume-Counted :
      (f : Desc030 → WalkState → B → Walk030 × B) (r : Step) (b : B) (n k : ℕ)
      → suc n ≤ k
      → Counts n r
      → ((d : Desc030) (s : WalkState) (b : B) → s.levels ≡ suc n → Counted k (f d s b).0)
      → Counted k (resume bus f r b).0
  resume-Counted f (done w) b n k h c g = (omega arith, c.1)
  resume-Counted f (pointer d s) b n k h c g = g d s b c

  -- A walk with room for its levels fetches at most one descriptor for each, and is not stopped.
  walk_levels-Counted :
      (m : ℕ) (level : Level) (rest : List Level) (s : WalkState) (b : B)
      → s.levels + suc (length rest) ≤ m
      → Counted (s.levels + suc (length rest)) (walk_levels bus logical fc m level rest s b).0
  unfolding walk_levels
  walk_levels-Counted m level [] s b h =
      resume-Counted _ (step_030 bus logical fc m level s b).0
        (step_030 bus logical fc m level s b).1 s.levels (s.levels + suc 0) (omega arith)
        (step-Counts m level s b (omega arith))
        (λ d s' b' c. (omega (arith, indirect_030-levels d s' b'), indirect_030-end d s' b'))
  walk_levels-Counted m level (next ∷ rest) s b h =
      resume-Counted _ (step_030 bus logical fc m level s b).0
        (step_030 bus logical fc m level s b).1 s.levels (s.levels + suc (length (next ∷ rest)))
        (omega arith) (step-Counts m level s b (omega arith))
        (λ d s' b' c.
          let r = walk_levels-Counted m next rest (descend d s') b' (omega arith) in
          (omega arith, r.1))

  -- A limit that leaves room for every level changes nothing.
  walk_levels_unlimited :
      (m m' : ℕ) (level : Level) (rest : List Level) (s : WalkState) (b : B)
      → s.levels + suc (length rest) ≤ m
      → s.levels + suc (length rest) ≤ m'
      → walk_levels bus logical fc m level rest s b ≡ walk_levels bus logical fc m' level rest s b
  unfolding walk_levels
  walk_levels_unlimited m m' level [] s b h h' =
      ap (λ t. resume bus (indirect_030 bus) t.0 t.1)
        (step_unlimited m m' level s b (omega arith) (omega arith))
  walk_levels_unlimited m m' level (next ∷ rest) s b h h' =
      ap
        (λ t.
          resume bus (λ d s' b'. walk_levels bus logical fc m next rest (descend d s') b') t.0 t.1)
        (step_unlimited m m' level s b (omega arith) (omega arith))
      ∙ resume_same (step_030 bus logical fc m' level s b).0
          (step_030 bus logical fc m' level s b).1 s.levels (step-Counts m' level s b (omega arith))
          (λ d s' b' c.
            walk_levels_unlimited m m' next rest (descend d s') b' (omega arith) (omega arith))

  start_levels-Counted :
      (m : ℕ) (levels : List Level) (s : WalkState) (b : B)
      → s.levels ≡ 0
      → length levels ≤ 5
      → 5 ≤ m
      → Counted 5 (start_levels bus logical fc m levels s b).0
  unfolding start_levels
  start_levels-Counted m [] s b z h k = (omega arith, refl)
  start_levels-Counted m (level ∷ rest) s b z h k =
      let r = walk_levels-Counted m level rest s b (omega arith) in (omega arith, r.1)

  start_levels_unlimited :
      (m m' : ℕ) (levels : List Level) (s : WalkState) (b : B)
      → s.levels ≡ 0
      → length levels ≤ 5
      → 5 ≤ m
      → 5 ≤ m'
      → start_levels bus logical fc m levels s b ≡ start_levels bus logical fc m' levels s b
  unfolding start_levels
  start_levels_unlimited m m' [] s b z h k k' = refl
  start_levels_unlimited m m' (level ∷ rest) s b z h k k' =
      walk_levels_unlimited m m' level rest s b (omega arith) (omega arith)

  -- With a limit of five descriptors or more a walk comes to an end of its own: it counts at most five
  -- descriptors, the target of an indirect one aside, and the limit does not stop it.
  pub walk_030-Counted :
      (c : CpuCore) (m : ℕ) (b : B) → 5 ≤ m → Counted 5 (walk_030 bus c logical fc m b).0
  unfolding walk_030 start_state
  walk_030-Counted c m b k = elim (Option-cases (root_format (root_limit c fc))) [
    | inl bad ↦ rw (bad, walk_030) (omega arith, refl)
    | inr (long, e) ↦
        rw (e, walk_030)
          (start_levels-Counted m (levels_of c.mmu_tc) (start_state c (root_aptr c fc) long) b refl
            (length-levels_of c.mmu_tc) k)
  ]

  pub walk_030_unlimited :
      (c : CpuCore) (m m' : ℕ) (b : B)
      → 5 ≤ m
      → 5 ≤ m'
      → walk_030 bus c logical fc m b ≡ walk_030 bus c logical fc m' b
  unfolding walk_030 start_state
  walk_030_unlimited c m m' b k k' = elim (Option-cases (root_format (root_limit c fc))) [
    | inl bad ↦ rw (bad, walk_030) refl
    | inr (long, e) ↦
        rw (e, walk_030)
          (start_levels_unlimited m m' (levels_of c.mmu_tc) (start_state c (root_aptr c fc) long) b
            refl (length-levels_of c.mmu_tc) k k')
  ]
