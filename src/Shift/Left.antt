-- ===== src/Shift/Left.antt =====
-- ASL's loop against multiplication by a power of two, and ASL against LSL.
use m68k_rs.Base.{
  ℕ, zero, suc, ◌+◌, ◌*◌, ◌/◌, ◌%◌, ◌^◌, ◌<◌, ◌≤◌, Bool, true, false, not, ◌==◌, ◌!=◌, ltb, leb,
  if◌then◌else◌, u32, ◌≡◌, refl, sym, ap, arith,
}
use native.Mathlib.Nat.{pow-suc, mul-one}
use m68k_rs.Types.{Size, byte, word, long, msb_mask, modulus}
use m68k_rs.Arith.Bits.{and-mask, and-msb_mask}
use m68k_rs.Arith.Add.{modulus-pos}
use m68k_rs.Shift.{AslState, asl_round, asl_loop, asl_start}
use m68k_rs.Shift.Powers.{pow-pos}
use m68k_rs.Shift.Logical.{fits}

-- The last round comes last.
asl_loop_last :
    (size : Size) (n : ℕ) (st : AslState)
    → asl_loop size (suc n) st ≡ asl_round size (asl_loop size n st)
unfolding asl_loop
asl_loop_last size zero st = refl
asl_loop_last size (suc n) st = asl_loop_last size n (asl_round size st)

-- Whether an operand times `p` is in range as a signed number, where `y` is the unsigned product.
abbrev pub in_range : Size → Bool → ℕ → ℕ → Bool
in_range size negative y p =
    if negative then leb (modulus size * p) (y + msb_mask size) else ltb y (msb_mask size)

abbrev pub negative : Size → ℕ → Bool
negative size v = leb (msb_mask size) v

-- The loop's state when the operand has been multiplied by `p`, to `y`, in `n` rounds.
pub record After (size : Size) (v y p n : ℕ) (st : AslState) : Type 0 where
  pub result : st.result ≡ y % modulus size
  pub last : 0 < n → (st.last_bit != 0) ≡ (y / modulus size % 2 == 1)
  pub overflow : st.overflow ≡ not (in_range size (negative size v) y p)

round_result :
    (size : Size) (y : ℕ) → u32 (y % modulus size * 2) % modulus size ≡ y * 2 % modulus size
round_result byte y = omega arith
round_result word y = omega arith
round_result long y = omega arith

round_last :
    (size : Size) (y : ℕ)
    → (y % modulus size / msb_mask size % 2 * msb_mask size != 0) ≡ (y * 2 / modulus size % 2 == 1)
round_last byte y = ground arith
round_last word y = ground arith
round_last long y = ground arith

-- The top bit changes in the round exactly if the value leaves the range there.
round_overflow :
    (size : Size) (neg : Bool) (y p : ℕ)
    → 0 < p
    → y + p ≤ modulus size * p
    → (if u32 (y % modulus size * 2) / msb_mask size % 2 * msb_mask size
          != y % modulus size / msb_mask size % 2 * msb_mask size
        then true
        else not (in_range size neg y p))
      ≡ not (in_range size neg (y * 2) (p * 2))
round_overflow byte true y p h q = ground arith
round_overflow byte false y p h q = ground arith
round_overflow word true y p h q = ground arith
round_overflow word false y p h q = ground arith
round_overflow long true y p h q = ground arith
round_overflow long false y p h q = ground arith

pub product_bound : (m v p : ℕ) → v < m → v * p + p ≤ m * p
product_bound m v p h = grind arith

double : (v n : ℕ) → v * 2 ^ suc n ≡ v * 2 ^ n * 2
double v n = omega (arith, ap (λ (t : ℕ). v * t) (pow-suc 2 n))

round-After :
    (size : Size) (v y p n : ℕ) (st : AslState)
    → 0 < p
    → y + p ≤ modulus size * p
    → After size v y p n st
    → After size v (y * 2) (p * 2) (suc n) (asl_round size st)
unfolding asl_round
round-After size v y p n st some_p bound h =
    rw
      (
        h.result,
        h.overflow,
        and-mask size (u32 (y % modulus size * 2)),
        and-msb_mask size (u32 (y % modulus size * 2)),
        and-msb_mask size (y % modulus size),
      )
      (record {
        result = round_result size y;
        last = λ _. round_last size y;
        overflow = round_overflow size (negative size v) y p some_p bound;
      })

start_in_range :
    (size : Size) (v : ℕ) → v < modulus size → false ≡ not (in_range size (negative size v) v 1)
start_in_range byte v h = ground arith
start_in_range word v h = ground arith
start_in_range long v h = ground arith

start-After :
    (size : Size) (x : ℕ) → let v = x % modulus size in After size v v 1 0 (asl_start size x)
unfolding asl_start
start-After size x = rw (and-mask size x) (record {
  result = sym (fits size (x % modulus size) (modulus-pos size x));
  last = λ some_round. absurd (omega arith);
  overflow = start_in_range size (x % modulus size) (modulus-pos size x);
})

pub loop-After :
    (size : Size) (x n : ℕ)
    → let v = x % modulus size in
      After size v (v * 2 ^ n) (2 ^ n) n (asl_loop size n (asl_start size x))
unfolding asl_loop
loop-After size x zero = rw mul-one (start-After size x)
loop-After size x (suc n) =
    let v = x % modulus size in
    rw (asl_loop_last size n (asl_start size x), double v n, pow-suc 2 n)
      (round-After size v (v * 2 ^ n) (2 ^ n) n (asl_loop size n (asl_start size x)) (pow-pos n)
        (product_bound (modulus size) v (2 ^ n) (modulus-pos size x)) (loop-After size x n))
