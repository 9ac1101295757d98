-- ===== src/BranchCache/Laws.antt =====
-- The branch cache as saturating counters by branch.
use m68k_rs.Base.{
  ℕ, ◌+◌, ◌-◌, ◌*◌, ◌/◌, ◌%◌, ◌^◌, ◌<◌, bit_and, bit_or, min, Bool, true, false, ◌&&◌, Option, none,
  some, ◌==◌, ◌!=◌, leb, if◌then◌else◌, ◌≡◌, refl, ap, ◌∙◌, sym, arith, bit_and_mask, bit_and_pow,
  bit_and_field, bit_or_fields, Bool-cases, inl, inr,
}
use mathlib.Core.List.{List, [], ◌∷◌}
use m68k_rs.BranchCache.{BranchCache060, slot, predict, update, set_slot}

-- The counter of a branch that has an entry.
pub strength : BranchCache060 → ℕ → Option ℕ
strength c pc =
    if bit_and (c.state (slot pc)) 4 != 0 && c.tags (slot pc) == pc
    then some (bit_and (c.state (slot pc)) 3)
    else none

-- A two-bit counter that saturates, which a taken branch allocates.
pub next : Option ℕ → Bool → Option ℕ
next none true = some 2
next none false = none
next (some k) true = some (min (k + 1) 3)
next (some k) false = some (k - 1)

pub decides : Option ℕ → Option Bool
decides none = none
decides (some k) = some (leb 2 k)

counter-set : (s k : ℕ) → k < 4 → bit_or (bit_and s 0xfc) k ≡ s / 4 % 64 * 4 + k
counter-set s k h = ap (λ t. bit_or t k) (bit_and_field 2 6 s) ∙ bit_or_fields 2 (s / 4 % 64) k h

counter_kept : (s k : ℕ) → k < 4 → bit_and (bit_or (bit_and s 0xfc) k) 3 ≡ k
counter_kept s k h =
    bit_and_mask 2 (bit_or (bit_and s 0xfc) k) ∙ ap (λ t. t % 4) (counter-set s k h) ∙ omega arith

valid_kept : (s k : ℕ) → k < 4 → bit_and (bit_or (bit_and s 0xfc) k) 4 ≡ bit_and s 4
valid_kept s k h =
    bit_and_pow 2 (bit_or (bit_and s 0xfc) k)
    ∙ ap (λ t. t / 2 ^ 2 % 2 * 2 ^ 2) (counter-set s k h)
    ∙ (let same : (s / 4 % 64 * 4 + k) / 4 % 2 * 4 ≡ s / 4 % 2 * 4 = omega arith in same)
    ∙ sym (bit_and_pow 2 s)

low-lt : (s : ℕ) → bit_and s 3 < 4
low-lt s = omega (arith, bit_and_mask 2 s)

same_slot : (t : ℕ → ℕ) (i v : ℕ) → set_slot t i v i ≡ v
same_slot t i v = ground arith

bump : ℕ → Bool → ℕ
bump k taken = if taken then min (k + 1) 3 else k - 1

bump-lt : (k : ℕ) (taken : Bool) → k < 4 → bump k taken < 4
unfolding bump
bump-lt k true h = omega arith
bump-lt k false h = omega arith

next-bump : (k : ℕ) (taken : Bool) → next (some k) taken ≡ some (bump k taken)
unfolding next bump
next-bump k true = refl
next-bump k false = refl

hit_update :
    (c : BranchCache060) (pc : ℕ) (taken user : Bool)
    → (bit_and (c.state (slot pc)) 4 != 0 && c.tags (slot pc) == pc) ≡ true
    → strength (update c pc taken user) pc ≡ some (bump (bit_and (c.state (slot pc)) 3) taken)
unfolding strength update bump
hit_update c pc taken user hit =
    let s = c.state (slot pc) in
    let k = bump (bit_and s 3) taken in
    let small = bump-lt (bit_and s 3) taken (low-lt s) in
    rw
      (
        hit,
        same_slot c.state (slot pc) (bit_or (bit_and s 0xfc) k),
        valid_kept s k small,
        counter_kept s k small,
        hit,
      )
      refl

miss_update :
    (c : BranchCache060) (pc : ℕ) (taken user : Bool)
    → (bit_and (c.state (slot pc)) 4 != 0 && c.tags (slot pc) == pc) ≡ false
    → strength (update c pc taken user) pc ≡ next none taken
unfolding strength update next
miss_update c pc false user miss = rw (miss, miss) refl
miss_update c pc true true miss =
    rw (miss, same_slot c.state (slot pc) 14, same_slot c.tags (slot pc) pc) (ground arith)
miss_update c pc true false miss =
    rw (miss, same_slot c.state (slot pc) 6, same_slot c.tags (slot pc) pc) (ground arith)

present :
    (c : BranchCache060) (pc : ℕ)
    → (bit_and (c.state (slot pc)) 4 != 0 && c.tags (slot pc) == pc) ≡ true
    → strength c pc ≡ some (bit_and (c.state (slot pc)) 3)
unfolding strength
present c pc hit = rw hit refl

absent :
    (c : BranchCache060) (pc : ℕ)
    → (bit_and (c.state (slot pc)) 4 != 0 && c.tags (slot pc) == pc) ≡ false
    → strength c pc ≡ none
unfolding strength
absent c pc miss = rw miss refl

strength-update :
    (c : BranchCache060) (pc : ℕ) (taken user : Bool)
    → strength (update c pc taken user) pc ≡ next (strength c pc) taken
strength-update c pc taken user =
    elim (Bool-cases (bit_and (c.state (slot pc)) 4 != 0 && c.tags (slot pc) == pc)) [
      | inl hit ↦
          hit_update c pc taken user hit
          ∙ sym (next-bump (bit_and (c.state (slot pc)) 3) taken)
          ∙ ap (λ t. next t taken) (sym (present c pc hit))
      | inr miss ↦
          miss_update c pc taken user miss ∙ ap (λ t. next t taken) (sym (absent c pc miss))
    ]

predict-strength : (c : BranchCache060) (pc : ℕ) → predict c pc ≡ decides (strength c pc)
unfolding predict strength decides
predict-strength c pc =
    elim (Bool-cases (bit_and (c.state (slot pc)) 4 != 0 && c.tags (slot pc) == pc)) [
      | inl hit ↦ rw hit refl
      | inr miss ↦ rw miss refl
    ]

-- A run of the branch `pc` with its outcomes, each with the mode it was executed in.
pub run : BranchCache060 → ℕ → List (Bool × Bool) → BranchCache060
run c pc [] = c
run c pc ((taken, user) ∷ rest) = run (update c pc taken user) pc rest

pub counts : Option ℕ → List (Bool × Bool) → Option ℕ
counts k [] = k
counts k ((taken, user) ∷ rest) = counts (next k taken) rest

-- The table refines a saturating two-bit counter for each branch: after any run of a branch the
-- prediction is the one that its counter makes, which starts absent or at its present value, is
-- allocated at 2 by a taken branch, and predicts taken from 2 on.
pub predict-run :
    (c : BranchCache060) (pc : ℕ) (outcomes : List (Bool × Bool))
    → predict (run c pc outcomes) pc ≡ decides (counts (strength c pc) outcomes)
unfolding run counts
predict-run c pc [] = predict-strength c pc
predict-run c pc ((taken, user) ∷ rest) =
    predict-run (update c pc taken user) pc rest
    ∙ ap (λ t. decides (counts t rest)) (strength-update c pc taken user)
