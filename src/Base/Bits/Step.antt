-- ===== src/Base/Bits/Step.antt =====
-- One equation for the lowest digit of each operation, from the recursion on digits that the native
-- operation stands for.
use Prim.Native.Nat.{ℕ, zero, suc, ◌+◌, ◌-◌, ◌*◌, ◌/◌, ◌%◌, ◌≤◌, ◌<◌, min, max, differ}
use Prim.Native.Nat.{bit_and, bit_or, bit_xor}
use Prim.Native.Nat.{digits, bitwise, bit_and-bitwise, bit_or-bitwise, bit_xor-bitwise}
use mathlib.Core.Path.{◌≡◌, refl, ap, ◌∙◌}
use native.Mathlib.Nat.{add-zero, add-suc}
use native.Mathlib.Omega.{arith}

module _ (rest : ℕ → ℕ) (op : ℕ → ℕ → ℕ) where
  -- One more unit of fuel than the first operand changes nothing, and so does any surplus.
  one_more : (fuel x y : ℕ) → x ≤ fuel → digits rest op (suc fuel) x y ≡ digits rest op fuel x y
  one_more zero zero y h = refl
  one_more (suc fuel) zero y h = refl
  one_more zero (suc x) y h = absurd (omega arith)
  one_more (suc fuel) (suc x) y h = rw (one_more fuel (suc x / 2) (y / 2) (omega arith))

  surplus : (k fuel x y : ℕ) → x ≤ fuel → digits rest op (fuel + k) x y ≡ digits rest op fuel x y
  surplus zero fuel x y h = ap (λ t. digits rest op t x y) (add-zero fuel)
  surplus (suc k) fuel x y h =
      ap (λ t. digits rest op t x y) (add-suc fuel k)
      ∙ one_more (fuel + k) x y (omega arith)
      ∙ surplus k fuel x y h

  lowest_digit :
      (x y : ℕ)
      → bitwise rest op (suc x) y ≡ bitwise rest op (suc x / 2) (y / 2) * 2 + op (suc x % 2) (y % 2)
  lowest_digit x y =
      let h = suc x / 2 in
      let whole : x ≡ h + (x - h) = omega arith in
      omega (
        arith,
        ap (λ t. digits rest op t h (y / 2)) whole,
        surplus (x - h) h h (y / 2) (omega arith),
      )

pub bit_and_step : (x y : ℕ) → bit_and x y ≡ bit_and (x / 2) (y / 2) * 2 + min (x % 2) (y % 2)
bit_and_step zero y = simp bit_and-bitwise (omega arith)
bit_and_step (suc x) y = simp bit_and-bitwise (lowest_digit (λ t. 0) min x y)

pub bit_or_step : (x y : ℕ) → bit_or x y ≡ bit_or (x / 2) (y / 2) * 2 + max (x % 2) (y % 2)
bit_or_step zero y = simp bit_or-bitwise (omega arith)
bit_or_step (suc x) y = simp bit_or-bitwise (lowest_digit (λ t. t) max x y)

differ_digits : (x y : ℕ) → x < 2 → y < 2 → differ x y ≡ (x + y) % 2
differ_digits zero zero p q = refl
differ_digits zero (suc zero) p q = refl
differ_digits zero (suc (suc y)) p q = absurd (omega arith)
differ_digits (suc zero) zero p q = refl
differ_digits (suc zero) (suc zero) p q = refl
differ_digits (suc zero) (suc (suc y)) p q = absurd (omega arith)
differ_digits (suc (suc x)) y p q = absurd (omega arith)

pub bit_xor_step : (a b : ℕ) → bit_xor a b ≡ bit_xor (a / 2) (b / 2) * 2 + (a % 2 + b % 2) % 2
bit_xor_step zero b = simp bit_xor-bitwise (omega arith)
bit_xor_step (suc a) b = simp bit_xor-bitwise (
    omega (
      arith,
      lowest_digit (λ t. t) differ a b,
      differ_digits (suc a % 2) (b % 2) (omega arith) (omega arith),
    ))
