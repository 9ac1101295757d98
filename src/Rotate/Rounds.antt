-- ===== src/Rotate/Rounds.antt =====
-- src/core/instructions/shift_rotate.rs: the loops of ROXL and ROXR, by their rounds.
use m68k_rs.Base.{
  ℕ, zero, suc, ◌+◌, ◌-◌, ◌*◌, ◌/◌, ◌%◌, ◌^◌, ◌<◌, ◌!=◌, if◌then◌else◌, u32, bit_and, bit_or,
  bit_or_fields, bit_or_comm, ◌≡◌, refl, ap, ◌∙◌, arith,
}
use m68k_rs.Types.{Size, byte, word, long, bits, mask, msb_mask, modulus}
use m68k_rs.Arith.Bits.{and-mask}
use m68k_rs.Arith.Add.{modulus-pos}
use m68k_rs.Shift.Powers.{and_one, cut}
use m68k_rs.Shift.Fill.{or_mod}
use m68k_rs.Rotate.{roxl_round, roxl_loop, roxr_round, roxr_loop}

-- An operand within its size, and X as one bit.
unfoldable pub InRange : Size → ℕ × ℕ → Type 0
InRange size (r, x) = (r < modulus size) × (x < 2)

add_bit : (r x : ℕ) → x < 2 → bit_or (r * 2) x ≡ r * 2 + x
add_bit r x h = bit_or_fields 1 r x h

doubled : (size : Size) (r : ℕ) → r * 2 % modulus size ≡ r % (modulus size / 2) * 2
doubled byte r = omega arith
doubled word r = omega arith
doubled long r = omega arith

halved :
    (size : Size) (r x : ℕ) → x < 2 → r % (modulus size / 2) * 2 + x ≡ (r * 2 + x) % modulus size
halved byte r x h = omega arith
halved word r x h = omega arith
halved long r x h = omega arith

bit_in : (size : Size) (x : ℕ) → x < 2 → x % modulus size ≡ x
bit_in byte x h = omega arith
bit_in word x h = omega arith
bit_in long x h = omega arith

-- ROXL's round shifts X in below.
roxl_low :
    (size : Size) (r x : ℕ)
    → x < 2
    → bit_and (bit_or (u32 (r * 2)) x) (mask size) ≡ (r * 2 + x) % modulus size
roxl_low size r x h =
    and-mask size (bit_or (u32 (r * 2)) x)
    ∙ or_mod size (u32 (r * 2)) x
    ∙ rw (cut size (r * 2), doubled size r, bit_in size x h)
        (add_bit (r % (modulus size / 2)) x h ∙ halved size r x h)

roxl_top :
    (size : Size) (r : ℕ)
    → r < modulus size
    → bit_and (r / 2 ^ (bits size - 1)) 1 ≡ r * 2 / modulus size
roxl_top byte r h = rw (and_one (r / 0x80)) (omega arith)
roxl_top word r h = rw (and_one (r / 0x8000)) (omega arith)
roxl_top long r h = rw (and_one (r / 0x8000_0000)) (omega arith)

x_top : (size : Size) (x : ℕ) → x < 2 → (if x != 0 then msb_mask size else 0) ≡ x * msb_mask size
x_top byte x h = ground arith
x_top word x h = ground arith
x_top long x h = ground arith

below_top :
    (size : Size) (q x : ℕ)
    → q < msb_mask size
    → bit_or (x * msb_mask size) q ≡ x * msb_mask size + q
below_top byte q x h = bit_or_fields 7 x q h
below_top word q x h = bit_or_fields 15 x q h
below_top long q x h = bit_or_fields 31 x q h

half-lt : (size : Size) (r : ℕ) → r < modulus size → r / 2 < msb_mask size
half-lt byte r h = omega arith
half-lt word r h = omega arith
half-lt long r h = omega arith

-- ROXR's round shifts X in above.
roxr_high :
    (size : Size) (r x : ℕ)
    → r < modulus size
    → x < 2
    → bit_or (r / 2) (if x != 0 then msb_mask size else 0) ≡ x * msb_mask size + r / 2
roxr_high size r x h k =
    ap (bit_or (r / 2)) (x_top size x k)
    ∙ bit_or_comm (r / 2) (x * msb_mask size)
    ∙ below_top size (r / 2) x (half-lt size r h)

top_back :
    (size : Size) (r x : ℕ)
    → r < modulus size
    → x < 2
    → r * 2 / modulus size * msb_mask size + (r * 2 + x) % modulus size / 2 ≡ r
top_back byte r x h k = omega arith
top_back word r x h k = omega arith
top_back long r x h k = omega arith

x_back : (size : Size) (r x : ℕ) → x < 2 → (r * 2 + x) % modulus size % 2 ≡ x
x_back byte r x h = omega arith
x_back word r x h = omega arith
x_back long r x h = omega arith

top-lt : (size : Size) (r : ℕ) → r < modulus size → r * 2 / modulus size < 2
top-lt byte r h = omega arith
top-lt word r h = omega arith
top-lt long r h = omega arith

roxl_round_lem :
    (size : Size) (r x : ℕ)
    → r < modulus size
    → x < 2
    → roxl_round size (r, x) ≡ ((r * 2 + x) % modulus size, r * 2 / modulus size)
unfolding roxl_round
roxl_round_lem size r x h k = rw (roxl_low size r x k, roxl_top size r h) refl

roxr_round_lem :
    (size : Size) (r x : ℕ)
    → r < modulus size
    → x < 2
    → roxr_round size (r, x) ≡ (x * msb_mask size + r / 2, r % 2)
unfolding roxr_round
roxr_round_lem size r x h k = rw (roxr_high size r x h k, and_one r) refl

pub roxl_round-InRange :
    (size : Size) (st : ℕ × ℕ) → InRange size st → InRange size (roxl_round size st)
unfolding InRange
roxl_round-InRange size (r, x) (h, k) =
    rw (roxl_round_lem size r x h k) (modulus-pos size (r * 2 + x), top-lt size r h)

round_back :
    (size : Size) (st : ℕ × ℕ) → InRange size st → roxr_round size (roxl_round size st) ≡ st
unfolding InRange
round_back size (r, x) (h, k) =
    rw
      (
        roxl_round_lem size r x h k,
        roxr_round_lem size ((r * 2 + x) % modulus size) (r * 2 / modulus size)
            (modulus-pos size (r * 2 + x)) (top-lt size r h),
        top_back size r x h k,
        x_back size r x k,
      )
      refl

pub roxl_loop-InRange :
    (size : Size) (n : ℕ) (st : ℕ × ℕ) → InRange size st → InRange size (roxl_loop size n st)
unfolding roxl_loop
roxl_loop-InRange size zero st h = h
roxl_loop-InRange size (suc n) st h =
    roxl_loop-InRange size n (roxl_round size st) (roxl_round-InRange size st h)

-- A round before the loop is a round after it.
roxl_loop-round :
    (size : Size) (n : ℕ) (st : ℕ × ℕ)
    → roxl_loop size n (roxl_round size st) ≡ roxl_round size (roxl_loop size n st)
unfolding roxl_loop
roxl_loop-round size zero st = refl
roxl_loop-round size (suc n) st = roxl_loop-round size n (roxl_round size st)

pub loop_back :
    (size : Size) (n : ℕ) (st : ℕ × ℕ)
    → InRange size st
    → roxr_loop size n (roxl_loop size n st) ≡ st
unfolding roxl_loop roxr_loop
loop_back size zero st h = refl
loop_back size (suc n) st h =
    ap (λ t. roxr_loop size n (roxr_round size t)) (roxl_loop-round size n st)
    ∙ ap (roxr_loop size n) (round_back size (roxl_loop size n st) (roxl_loop-InRange size n st h))
    ∙ loop_back size n st h
