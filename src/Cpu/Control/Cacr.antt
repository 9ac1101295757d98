-- ===== src/Cpu/Control/Cacr.antt =====
-- The bits of CACR: those that a model keeps, those that start an invalidation, and what the 68060
-- does to its branch cache.
use m68k_rs.Base.{
  ℕ, zero, suc, ◌^◌, ◌<◌, ◌≤◌, min, max, bit_and, bit_or, Bool, true, false, ◌&&◌, ◌||◌, ◌==◌,
  if◌then◌else◌, ◌≡◌, ap, ◌∙◌, ◌⊎◌, arith, ltb, ltb_iff, ==_iff, get_bit, get_bit-and, get_bit-or,
  bit_and_pow, digit_past, inl, inr, Bool-cases,
}
use m68k_rs.Types.{CpuType, m68ec020, m68020, m68ec030, m68030, m68060}
use m68k_rs.BranchCache.{BranchCache060, clear_all, clear_user}
use m68k_rs.Cpu.State.{CpuCore}
use m68k_rs.Cpu.Control.{cacr_persist, cacr_strobes, branch_strobes}

-- The bits that read back: EI and FI on the 68020; these with IBE, ED, FD, DBE and WA on the 68030;
-- FIC, NAI, EIC, EBC, FOC, DPI, ESB, NAD and EDC on the 68060; IE and DE on the others.
unfoldable pub is_kept : CpuType → ℕ → Bool
is_kept m68ec020 k = k == 0 || k == 1
is_kept m68020 k = k == 0 || k == 1
is_kept m68ec030 k = k == 0 || k == 1 || k == 4 || k == 8 || k == 9 || k == 12 || k == 13
is_kept m68030 k = k == 0 || k == 1 || k == 4 || k == 8 || k == 9 || k == 12 || k == 13
is_kept m68060 k =
    k == 13 || k == 14 || k == 15 || k == 23 || k == 27 || k == 28 || k == 29 || k == 30 || k == 31
is_kept _ k = k == 15 || k == 31

-- The write-only bits that ask the host for an invalidation: CEI and CI on the 68020, these with CED
-- and CD on the 68030, and none on the others.
unfoldable pub is_strobe : CpuType → ℕ → Bool
is_strobe m68ec020 k = k == 2 || k == 3
is_strobe m68020 k = k == 2 || k == 3
is_strobe m68ec030 k = k == 2 || k == 3 || k == 10 || k == 11
is_strobe m68030 k = k == 2 || k == 3 || k == 10 || k == 11
is_strobe _ k = false

abbrev digit : Bool → ℕ
digit b = if b then 1 else 0

all_below : ℕ → (ℕ → Bool) → Bool
all_below zero p = true
all_below (suc n) p = p n && all_below n p

all_below-at : (n : ℕ) (p : ℕ → Bool) → all_below n p ≡ true → (k : ℕ) → k < n → p k ≡ true
unfolding all_below
all_below-at zero p e k h = absurd (omega arith)
all_below-at (suc n) p e k h =
    let (here, rest) = both (p n) (all_below n p) e in
    elim (last_or_below n k h) [
      | inl last ↦ ap p last ∙ here
      | inr below ↦ all_below-at n p rest k below
    ]
  where
    both : (a b : Bool) → a && b ≡ true → (a ≡ true) × (b ≡ true)
    both a b e = ground arith

    last_or_below : (n k : ℕ) → k < suc n → (k ≡ n) ⊎ (k < n)
    last_or_below n k h = ground arith

-- A mask of 32 bits is the bits that a test of each of them finds.
mask_digits :
    (m : ℕ) (p : ℕ → Bool)
    → m < 2 ^ 32
    → all_below 32 (λ k. get_bit k m == digit (p k)) ≡ true
    → ((k : ℕ) → 32 ≤ k → p k ≡ false)
    → (k : ℕ) → get_bit k m ≡ digit (p k)
mask_digits m p small e past k = elim (Bool-cases (ltb k 32)) [
  | inl below ↦
      (==_iff (get_bit k m) (digit (p k))).0 (all_below-at 32 _ e k ((ltb_iff k 32).0 below))
  | inr above ↦
      let far : 32 ≤ k = ground (arith, above) in rw (past k far) (digit_past 32 k m small far)
]

persist_test :
    (t : CpuType)
    → (cacr_persist t < 2 ^ 32)
      × (all_below 32 (λ k. get_bit k (cacr_persist t) == digit (is_kept t k)) ≡ true)
unfolding cacr_persist is_kept all_below
persist_test t = ground arith

cacr_persist-digits : (t : CpuType) (k : ℕ) → get_bit k (cacr_persist t) ≡ digit (is_kept t k)
unfolding is_kept
cacr_persist-digits t k =
    let (small, same) = persist_test t in
    mask_digits (cacr_persist t) (is_kept t) small same (λ k h. ground arith) k

strobes_test :
    (t : CpuType)
    → (cacr_strobes t < 2 ^ 32)
      × (all_below 32 (λ k. get_bit k (cacr_strobes t) == digit (is_strobe t k)) ≡ true)
unfolding cacr_strobes is_strobe all_below
strobes_test t = ground arith

cacr_strobes-digits : (t : CpuType) (k : ℕ) → get_bit k (cacr_strobes t) ≡ digit (is_strobe t k)
unfolding is_strobe
cacr_strobes-digits t k =
    let (small, same) = strobes_test t in
    mask_digits (cacr_strobes t) (is_strobe t) small same (λ k h. ground arith) k

-- Masking with the bits of a test keeps those bits.
kept_digit : (a m : ℕ) (b : Bool) → a ≤ 1 → m ≡ digit b → min a m ≡ (if b then a else 0)
kept_digit a m b h e = ground arith

added_digit :
    (p a m : ℕ) (b : Bool) → a ≤ 1 → m ≡ digit b → max p (min a m) ≡ (if b then max p a else p)
added_digit p a m b h e = ground arith

pub kept_bits :
    (t : CpuType) (value k : ℕ)
    → get_bit k (bit_and value (cacr_persist t)) ≡ (if is_kept t k then get_bit k value else 0)
kept_bits t value k =
    get_bit-and k value (cacr_persist t)
    ∙ kept_digit (get_bit k value) (get_bit k (cacr_persist t)) (is_kept t k) (omega arith)
        (cacr_persist-digits t k)

pub pending_bits :
    (t : CpuType) (pending value k : ℕ)
    → get_bit k (bit_or pending (bit_and value (cacr_strobes t)))
      ≡ (if is_strobe t k then max (get_bit k pending) (get_bit k value) else get_bit k pending)
pending_bits t pending value k =
    get_bit-or k pending (bit_and value (cacr_strobes t))
    ∙ ap (max (get_bit k pending)) (get_bit-and k value (cacr_strobes t))
    ∙ added_digit (get_bit k pending) (get_bit k value) (get_bit k (cacr_strobes t)) (is_strobe t k)
        (omega arith) (cacr_strobes-digits t k)

-- CABC (bit 22) and a fall of EBC (bit 23) clear the branch cache, and CUBC (bit 21) its user entries.
pub branch_cache_after : BranchCache060 → ℕ → ℕ → BranchCache060
branch_cache_after cache before value =
    if get_bit 22 value == 1 || (get_bit 23 before == 1 && get_bit 23 value == 0)
    then clear_all cache
    else if get_bit 21 value == 1
    then clear_user cache
    else cache

pub branch_strobes-bits :
    (c : CpuCore) (value : ℕ)
    → branch_strobes c value ≡ branch_cache_after c.branch_cache c.cacr value
unfolding branch_strobes branch_cache_after clear_all clear_user
branch_strobes-bits c value =
    rw (bit_and_pow 22 value, bit_and_pow 21 value, bit_and_pow 23 value, bit_and_pow 23 c.cacr)
      (ground arith)
