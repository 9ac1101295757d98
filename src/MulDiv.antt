-- ===== src/MulDiv.antt =====
-- src/core/instructions/mul_div.rs: the cycle counts of DIVU and DIVS on the 68000. A signed operand
-- is kept as its bits.
pub mod Cycles
mod Examples
use m68k_rs.Base.{
  ℕ, zero, suc, ◌+◌, ◌-◌, ◌*◌, ◌/◌, ◌%◌, ◌^◌, Bool, ltb, leb, if◌then◌else◌, wrapping_sub, u16, u32,
}

-- A round of restoring division: it shifts the dividend, subtracts the divisor where a digit moved
-- out of the top or the divisor fits, and takes 0, 1 or 2 clocks.
abbrev pub divu_dividend : ℕ → ℕ → ℕ
divu_dividend hdivisor dividend =
    let shifted = u32 (dividend * 2) in
    if leb (2 ^ 31) dividend
    then wrapping_sub shifted hdivisor
    else if leb hdivisor shifted
    then wrapping_sub shifted hdivisor
    else shifted

abbrev pub divu_clocks : ℕ → ℕ → ℕ → ℕ
divu_clocks hdivisor dividend mcycles =
    if leb (2 ^ 31) dividend
    then mcycles
    else if leb hdivisor (u32 (dividend * 2))
    then mcycles + 2 - 1
    else mcycles + 2

unfoldable pub divu_loop : ℕ → ℕ → ℕ → ℕ → ℕ
divu_loop zero hdivisor dividend mcycles = mcycles
divu_loop (suc n) hdivisor dividend mcycles =
    divu_loop n hdivisor (divu_dividend hdivisor dividend) (divu_clocks hdivisor dividend mcycles)

unfoldable pub divu_cycles : ℕ → ℕ → ℕ
divu_cycles dividend divisor =
    if leb divisor (dividend / 2 ^ 16)
    then 10
    else divu_loop 15 (u32 (divisor * 2 ^ 16)) dividend 38 * 2

-- Each leading digit 0 of the quotient costs a clock.
abbrev pub divs_clocks : ℕ → ℕ → ℕ
divs_clocks q mcycles = if ltb q (2 ^ 15) then mcycles + 1 else mcycles

unfoldable pub divs_loop : ℕ → ℕ → ℕ → ℕ
divs_loop zero q mcycles = mcycles
divs_loop (suc n) q mcycles = divs_loop n (u16 (q * 2)) (divs_clocks q mcycles)

-- `unsigned_abs` of 32 and of 16 bits.
unfoldable pub abs_long : ℕ → ℕ
abs_long x = if leb (2 ^ 31) x then 2 ^ 32 - x else x

unfoldable pub abs_word : ℕ → ℕ
abs_word x = if leb (2 ^ 15) x then 2 ^ 16 - x else x

-- The clocks before the rounds: a negative dividend takes one more, and a divisor that is not negative
-- saves one or costs one.
abbrev pub divs_start : ℕ → ℕ
divs_start dividend = if leb (2 ^ 31) dividend then 6 + 1 else 6

abbrev pub divs_base : ℕ → ℕ → ℕ
divs_base dividend divisor =
    let mcycles = divs_start dividend + 55 in
    if ltb divisor (2 ^ 15)
    then (if ltb dividend (2 ^ 31) then mcycles - 1 else mcycles + 1)
    else mcycles

unfoldable pub divs_cycles : ℕ → ℕ → ℕ
divs_cycles dividend divisor =
    let adivisor = abs_word divisor in
    let adividend = abs_long dividend in
    if leb adivisor (adividend / 2 ^ 16)
    then (divs_start dividend + 2) * 2
    else divs_loop 15 (u16 (adividend / adivisor)) (divs_base dividend divisor) * 2
