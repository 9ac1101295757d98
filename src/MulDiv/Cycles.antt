-- ===== src/MulDiv/Cycles.antt =====
-- src/core/instructions/mul_div.rs: the cycle counts of DIVU and DIVS by the size of the quotient.
use m68k_rs.Base.{
  ℕ, zero, suc, ◌+◌, ◌*◌, ◌/◌, ◌^◌, ◌<◌, ◌≤◌, leb, ◌≡◌, arith, u16, u32, ◌↔◌, inl, inr, Bool-cases,
  if◌then◌else◌,
}
use native.Mathlib.Nat.{suc-mul, le-div_iff_mul-le, mul_comm}
use m68k_rs.MulDiv.{
  divu_loop, divu_cycles, divu_clocks, divu_dividend, divs_clocks, divs_loop, divs_base,
  divs_cycles, abs_long, abs_word,
}

divu_clocks-range : (h x m : ℕ) → (m ≤ divu_clocks h x m) × (divu_clocks h x m ≤ m + 2)
divu_clocks-range h x m = ground arith

divs_clocks-range : (q m : ℕ) → (m ≤ divs_clocks q m) × (divs_clocks q m ≤ m + 1)
divs_clocks-range q m = ground arith

-- A round that takes at most `k` clocks before rounds that take at most `k` each.
add_round :
    (n k m next r : ℕ)
    → (m ≤ next) × (next ≤ m + k)
    → (next ≤ r) × (r ≤ next + n * k)
    → (m ≤ r) × (r ≤ m + suc n * k)
add_round n k m next r p q = omega (arith, suc-mul n k)

divu_loop-range : (n h x m : ℕ) → (m ≤ divu_loop n h x m) × (divu_loop n h x m ≤ m + n * 2)
unfolding divu_loop
divu_loop-range zero h x m = (omega arith, omega arith)
divu_loop-range (suc n) h x m =
    add_round n 2 m (divu_clocks h x m) (divu_loop (suc n) h x m) (divu_clocks-range h x m)
      (divu_loop-range n h (divu_dividend h x) (divu_clocks h x m))

divs_loop-range : (n q m : ℕ) → (m ≤ divs_loop n q m) × (divs_loop n q m ≤ m + n * 1)
unfolding divs_loop
divs_loop-range zero q m = (omega arith, omega arith)
divs_loop-range (suc n) q m =
    add_round n 1 m (divs_clocks q m) (divs_loop (suc n) q m) (divs_clocks-range q m)
      (divs_loop-range n (u16 (q * 2)) (divs_clocks q m))

-- The test for early overflow is about the quotient.
early_test : (x y : ℕ) → 0 < y → (y ≤ x / 2 ^ 16) ↔ (2 ^ 16 ≤ x / y)
early_test x y h =
    let left = le-div_iff_mul-le {k = 2 ^ 16} {x = y} {y = x} (omega arith) in
    let right = le-div_iff_mul-le {k = y} {x = 2 ^ 16} {y = x} h in
    (
      λ e. right.1 (omega (arith, left.0 e, mul_comm y (2 ^ 16))),
      λ e. left.1 (omega (arith, right.0 e, mul_comm y (2 ^ 16))),
    )

-- DIVU on the 68000, with a divisor other than 0: it takes 10 clocks exactly when the quotient does
-- not fit in 16 bits, and otherwise from 76 to 136, within the 140 that the other processors are
-- charged.
pub divu_cycles_lem :
    (dividend divisor : ℕ)
    → 0 < divisor
    → let clocks = divu_cycles dividend divisor in
      ((clocks ≡ 10) ↔ (2 ^ 16 ≤ dividend / divisor))
      × ((76 ≤ clocks) ↔ (dividend / divisor < 2 ^ 16))
      × (clocks ≤ 136)
unfolding divu_cycles
divu_cycles_lem x y h =
    let rounds = divu_loop-range 15 (u32 (y * 2 ^ 16)) x 38 in
    let early = early_test x y h in
    elim (Bool-cases (leb y (x / 2 ^ 16))) [
      | inl fits ↦ rw fits (ground (arith, early.0))
      | inr over ↦ rw over (ground (arith, early.1, rounds))
    ]

divs_base-range : (x y : ℕ) → (60 ≤ divs_base x y) × (divs_base x y ≤ 63)
divs_base-range x y = ground arith

-- DIVS on the 68000, with a divisor other than 0: when the quotient of the absolute values does not
-- fit in 16 bits it takes 16 clocks, or 18 if the dividend is negative, and it takes 18 or fewer only
-- then; otherwise it takes from 120 to 156, within the 158 that the other processors are charged.
pub divs_cycles_lem :
    (dividend divisor : ℕ)
    → 0 < abs_word divisor
    → let clocks = divs_cycles dividend divisor in
      let quotient = abs_long dividend / abs_word divisor in
      ((clocks ≤ 18) ↔ (2 ^ 16 ≤ quotient))
      × ((120 ≤ clocks) ↔ (quotient < 2 ^ 16))
      × (2 ^ 16 ≤ quotient → clocks ≡ (if leb (2 ^ 31) dividend then 18 else 16))
      × ((16 ≤ clocks) × (clocks ≤ 156))
unfolding divs_cycles
divs_cycles_lem x y h =
    let rounds = divs_loop-range 15 (u16 (abs_long x / abs_word y)) (divs_base x y) in
    let base = divs_base-range x y in
    let early = early_test (abs_long x) (abs_word y) h in
    elim (Bool-cases (leb (abs_word y) (abs_long x / 2 ^ 16))) [
      | inl fits ↦ rw fits (ground (arith, early.0))
      | inr over ↦ rw over (ground (arith, early.1, rounds, base))
    ]
