-- ===== src/Base/Bits/Digits.antt =====
-- The binary digits of a result, and that a number is its digits.
use Prim.Native.Nat.{ℕ, zero, suc, ◌+◌, ◌/◌, ◌%◌, ◌^◌, ◌<◌, min, max}
use Prim.Native.Nat.{bit_and, bit_or, bit_xor, bit_and-bitwise}
use mathlib.Core.Path.{◌≡◌, sym, ap, ap₂, ◌∙◌}
use native.Mathlib.Nat.{pow-suc, div-div-eq-div-mul, mul_comm}
use native.Mathlib.Omega.{arith}
use m68k_rs.Base.Bits.Step.{bit_and_step, bit_or_step, bit_xor_step}

-- Digit `k` of `a`.
abbrev pub get_bit : ℕ → ℕ → ℕ
get_bit k a = a / 2 ^ k % 2

pub div-pow_suc : (k a : ℕ) → a / 2 ^ suc k ≡ a / 2 / 2 ^ k
div-pow_suc k a = rw (pow-suc 2 k, mul_comm (2 ^ k) 2) (sym (div-div-eq-div-mul a 2 (2 ^ k)))

pub get_bit-suc : (k a : ℕ) → get_bit (suc k) a ≡ get_bit k (a / 2)
get_bit-suc k a = ap (λ t. t % 2) (div-pow_suc k a)

get_bit_half : (k a h : ℕ) → a / 2 ≡ h → get_bit (suc k) a ≡ get_bit k h
get_bit_half k a h e = get_bit-suc k a ∙ ap (get_bit k) e

pub get_bit-and : (k a b : ℕ) → get_bit k (bit_and a b) ≡ min (get_bit k a) (get_bit k b)
get_bit-and zero a b = omega (arith, bit_and_step a b)
get_bit-and (suc k) a b =
    get_bit_half k (bit_and a b) (bit_and (a / 2) (b / 2)) (omega (arith, bit_and_step a b))
    ∙ get_bit-and k (a / 2) (b / 2)
    ∙ ap₂ min (sym (get_bit-suc k a)) (sym (get_bit-suc k b))

pub get_bit-or : (k a b : ℕ) → get_bit k (bit_or a b) ≡ max (get_bit k a) (get_bit k b)
get_bit-or zero a b = omega (arith, bit_or_step a b)
get_bit-or (suc k) a b =
    get_bit_half k (bit_or a b) (bit_or (a / 2) (b / 2)) (omega (arith, bit_or_step a b))
    ∙ get_bit-or k (a / 2) (b / 2)
    ∙ ap₂ max (sym (get_bit-suc k a)) (sym (get_bit-suc k b))

pub get_bit-xor : (k a b : ℕ) → get_bit k (bit_xor a b) ≡ (get_bit k a + get_bit k b) % 2
get_bit-xor zero a b = omega (arith, bit_xor_step a b)
get_bit-xor (suc k) a b =
    get_bit_half k (bit_xor a b) (bit_xor (a / 2) (b / 2)) (omega (arith, bit_xor_step a b))
    ∙ get_bit-xor k (a / 2) (b / 2)
    ∙ ap₂ (λ x y. (x + y) % 2) (sym (get_bit-suc k a)) (sym (get_bit-suc k b))

half-lt : (n a : ℕ) → a < 2 ^ suc n → a / 2 < 2 ^ n
half-lt n a h = omega (arith, pow-suc 2 n)

-- A number below `2 ^ n` is its first `n` digits.
pub get_bit_ext :
    (n a b : ℕ) → a < 2 ^ n → b < 2 ^ n → ((k : ℕ) → k < n → get_bit k a ≡ get_bit k b) → a ≡ b
get_bit_ext zero a b p q h = omega arith
get_bit_ext (suc n) a b p q h = omega (
  arith,
  h 0 (omega arith),
  get_bit_ext n (a / 2) (b / 2) (half-lt n a p) (half-lt n b q)
      λ k below. sym (get_bit-suc k a) ∙ h (suc k) (omega arith) ∙ get_bit-suc k b,
)

pub zero-bit_and : (b : ℕ) → bit_and 0 b ≡ 0
zero-bit_and b = simp bit_and-bitwise

-- The results stay within the operands' widths.
pub bit_and-lt : (n a b : ℕ) → a < 2 ^ n → bit_and a b < 2 ^ n
bit_and-lt zero zero b h = omega (arith, zero-bit_and b)
bit_and-lt zero (suc a) b h = absurd (omega arith)
bit_and-lt (suc n) a b h =
    omega (arith, bit_and_step a b, pow-suc 2 n, bit_and-lt n (a / 2) (b / 2) (half-lt n a h))

pub bit_or-lt : (n a b : ℕ) → a < 2 ^ n → b < 2 ^ n → bit_or a b < 2 ^ n
bit_or-lt zero zero zero p q = omega arith
bit_or-lt zero zero (suc b) p q = absurd (omega arith)
bit_or-lt zero (suc a) b p q = absurd (omega arith)
bit_or-lt (suc n) a b p q = omega (
  arith,
  bit_or_step a b,
  pow-suc 2 n,
  bit_or-lt n (a / 2) (b / 2) (half-lt n a p) (half-lt n b q),
)

pub bit_xor-lt : (n a b : ℕ) → a < 2 ^ n → b < 2 ^ n → bit_xor a b < 2 ^ n
bit_xor-lt zero zero zero p q = omega arith
bit_xor-lt zero zero (suc b) p q = absurd (omega arith)
bit_xor-lt zero (suc a) b p q = absurd (omega arith)
bit_xor-lt (suc n) a b p q = omega (
  arith,
  bit_xor_step a b,
  pow-suc 2 n,
  bit_xor-lt n (a / 2) (b / 2) (half-lt n a p) (half-lt n b q),
)
