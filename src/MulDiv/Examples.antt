-- ===== src/MulDiv/Examples.antt =====
-- Divisions at the borders of the quotient.
use m68k_rs.Base.{if◌then◌else◌, leb, ◌/◌, ◌^◌, ◌<◌, ◌≤◌, ◌≡◌, ◌↔◌, arith, refl}
use m68k_rs.MulDiv.{divu_loop, divs_loop, divu_cycles, divs_cycles, abs_long, abs_word}
use m68k_rs.MulDiv.Cycles.{divu_cycles_lem, divs_cycles_lem}

-- A quotient of 16 digits 1 is the fastest, and 0 the slowest.
divu_cycles_ones : divu_cycles 0xfffe_0001 0xffff ≡ 76
unfolding divu_cycles divu_loop
divu_cycles_ones = refl

divu_cycles_zero : divu_cycles 0 1 ≡ 136
unfolding divu_cycles divu_loop
divu_cycles_zero = refl

divu_cycles_early : divu_cycles 0x0001_0000 1 ≡ 10
unfolding divu_cycles
divu_cycles_early = refl

-- -1 divided by -1, and by 1.
divs_cycles_negative : divs_cycles 0xffff_ffff 0xffff ≡ 154
unfolding divs_cycles divs_loop abs_long abs_word
divs_cycles_negative = refl

divs_cycles_mixed : divs_cycles 0xffff_ffff 1 ≡ 156
unfolding divs_cycles divs_loop abs_long abs_word
divs_cycles_mixed = refl

divu_cycles_example :
    ((divu_cycles 0x0012_3456 0x21 ≡ 10) ↔ (2 ^ 16 ≤ 0x0012_3456 / 0x21))
    × ((76 ≤ divu_cycles 0x0012_3456 0x21) ↔ (0x0012_3456 / 0x21 < 2 ^ 16))
    × (divu_cycles 0x0012_3456 0x21 ≤ 136)
divu_cycles_example = divu_cycles_lem 0x0012_3456 0x21 (omega arith)

-- The quotient is -40000: it does not fit in 15 digits and a sign, and the division is not stopped early.
divs_cycles_example :
    ((divs_cycles 0xffff_63c0 1 ≤ 18) ↔ (2 ^ 16 ≤ abs_long 0xffff_63c0 / abs_word 1))
    × ((120 ≤ divs_cycles 0xffff_63c0 1) ↔ (abs_long 0xffff_63c0 / abs_word 1 < 2 ^ 16))
    × (2 ^ 16 ≤ abs_long 0xffff_63c0 / abs_word 1
        → divs_cycles 0xffff_63c0 1 ≡ (if leb (2 ^ 31) 0xffff_63c0 then 18 else 16))
    × ((16 ≤ divs_cycles 0xffff_63c0 1) × (divs_cycles 0xffff_63c0 1 ≤ 156))
unfolding abs_word
divs_cycles_example = divs_cycles_lem 0xffff_63c0 1 (omega arith)
