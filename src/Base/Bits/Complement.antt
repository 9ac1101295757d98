-- ===== src/Base/Bits/Complement.antt =====
-- The bits of a complement and of a quotient, and equality under a mask.
use Prim.Native.Nat.{ℕ, zero, suc, ◌+◌, ◌-◌, ◌/◌, ◌%◌, ◌^◌, ◌<◌, ◌≤◌, bit_and, min}
use native.Mathlib.Nat.{pow-suc, one-le-pow, div-one, add-zero, add-suc, pow-le-pow_right}
use native.Mathlib.Omega.{arith}
use mathlib.Core.Path.{◌≡◌, sym, ap, ◌∙◌}
use mathlib.Core.Logic.{◌↔◌, ◌⊎◌, inl, inr}
use m68k_rs.Base.Bits.Digits.{
  get_bit, get_bit-suc, get_bit-and, get_bit_ext, bit_and-lt, div-pow_suc,
}
use m68k_rs.Base.Bits.Masks.{mod-pow_suc}

half_lt : (n m : ℕ) → m < 2 ^ suc n → m / 2 < 2 ^ n
half_lt n m h = omega (arith, pow-suc 2 n)

complement_half : (n m : ℕ) → m < 2 ^ suc n → (2 ^ suc n - 1 - m) / 2 ≡ 2 ^ n - 1 - m / 2
complement_half n m h = omega (arith, pow-suc 2 n)

-- A complement in `n` bits flips each of them.
pub get_bit-complement :
    (n k m : ℕ) → k < n → m < 2 ^ n → get_bit k (2 ^ n - 1 - m) ≡ 1 - get_bit k m
get_bit-complement zero k m h p = omega arith
get_bit-complement (suc n) zero m h p = omega (arith, pow-suc 2 n, one-le-pow n 2)
get_bit-complement (suc n) (suc k) m h p =
    get_bit-suc k (2 ^ suc n - 1 - m)
    ∙ ap (get_bit k) (complement_half n m p)
    ∙ get_bit-complement n k (m / 2) (omega arith) (half_lt n m p)
    ∙ ap (λ t. 1 - t) (sym (get_bit-suc k m))

masked_bit :
    (n k a m : ℕ)
    → k < n
    → m < 2 ^ n
    → min (get_bit k a) (1 - get_bit k m) ≡ get_bit k (bit_and a (2 ^ n - 1 - m))
masked_bit n k a m h r =
    sym (get_bit-and k a (2 ^ n - 1 - m) ∙ ap (min (get_bit k a)) (get_bit-complement n k m h r))

digit_cases : (x : ℕ) → (x % 2 ≡ 0) ⊎ (x % 2 ≡ 1)
digit_cases x = ground arith

same_under :
    (k a b m : ℕ)
    → (get_bit k m ≡ 0 → get_bit k a ≡ get_bit k b)
    → min (get_bit k a) (1 - get_bit k m) ≡ min (get_bit k b) (1 - get_bit k m)
same_under k a b m h = elim (digit_cases (m / 2 ^ k)) [
  | inl z ↦ ap (λ t. min t (1 - get_bit k m)) (h z)
  | inr o ↦ rw o (omega arith)
]

-- Two numbers agree under the complement of a mask when they agree in the bits it does not have.
pub agree_outside :
    (n a b m : ℕ)
    → a < 2 ^ n
    → b < 2 ^ n
    → m < 2 ^ n
    → (bit_and a (2 ^ n - 1 - m) ≡ bit_and b (2 ^ n - 1 - m))
      ↔ ((k : ℕ) → k < n → get_bit k m ≡ 0 → get_bit k a ≡ get_bit k b)
agree_outside n a b m p q r = (
  λ e k h z.
      let left : min (get_bit k a) (1 - get_bit k m) ≡ min (get_bit k b) (1 - get_bit k m) =
        masked_bit n k a m h r ∙ ap (get_bit k) e ∙ sym (masked_bit n k b m h r) in
      omega (arith, left, z),
  λ same.
      get_bit_ext n (bit_and a (2 ^ n - 1 - m)) (bit_and b (2 ^ n - 1 - m))
        (bit_and-lt n a (2 ^ n - 1 - m) p) (bit_and-lt n b (2 ^ n - 1 - m) q)
        (λ k h.
          sym (masked_bit n k a m h r) ∙ same_under k a b m (same k h) ∙ masked_bit n k b m h r),
)

pub digit_below : (k n y : ℕ) → k < n → get_bit k (y % 2 ^ n) ≡ get_bit k y
digit_below k zero y h = omega arith
digit_below zero (suc n) y h = omega (arith, mod-pow_suc n y)
digit_below (suc k) (suc n) y h =
    get_bit-suc k (y % 2 ^ suc n)
    ∙ ap (get_bit k)
        (let half : y % 2 ^ suc n / 2 ≡ y / 2 % 2 ^ n = omega (arith, mod-pow_suc n y) in half)
    ∙ digit_below k n (y / 2) (omega arith)
    ∙ sym (get_bit-suc k y)

digit_above : (s k x : ℕ) → get_bit k (x / 2 ^ s) ≡ get_bit (k + s) x
digit_above zero k x = ap (get_bit k) (div-one x) ∙ ap (λ t. get_bit t x) (sym (add-zero k))
digit_above (suc s) k x =
    ap (get_bit k) (div-pow_suc s x)
    ∙ digit_above s k (x / 2)
    ∙ sym (get_bit-suc (k + s) x)
    ∙ ap (λ t. get_bit t x) (sym (add-suc k s))

-- The digits of a field of `n` bits from bit `s`.
pub get_bit_field : (s n k x : ℕ) → k < n → get_bit k (x / 2 ^ s % 2 ^ n) ≡ get_bit (k + s) x
get_bit_field s n k x h = digit_below k n (x / 2 ^ s) h ∙ digit_above s k x

pub digit_past : (n k a : ℕ) → a < 2 ^ n → n ≤ k → get_bit k a ≡ 0
digit_past zero zero a h p = omega arith
digit_past zero (suc k) a h p =
    get_bit-suc k a ∙ digit_past zero k (a / 2) (omega arith) (omega arith)
digit_past (suc n) zero a h p = absurd (omega arith)
digit_past (suc n) (suc k) a h p =
    get_bit-suc k a ∙ digit_past n k (a / 2) (half_lt n a h) (omega arith)

below_or_past : (k n : ℕ) → (k < n) ⊎ (n ≤ k)
below_or_past k n = ground arith

lt-wider : (n w a : ℕ) → n ≤ w → a < 2 ^ n → a < 2 ^ w
lt-wider n w a h p = omega (arith, pow-le-pow_right (let two : 0 < 2 = omega arith in two) h)

-- The same for fields of `n` bits under a complement in more bits.
pub fields_agree :
    (n w a b m : ℕ)
    → n ≤ w
    → a < 2 ^ n
    → b < 2 ^ n
    → m < 2 ^ n
    → (bit_and a (2 ^ w - 1 - m) ≡ bit_and b (2 ^ w - 1 - m))
      ↔ ((k : ℕ) → k < n → get_bit k m ≡ 0 → get_bit k a ≡ get_bit k b)
fields_agree n w a b m h p q r =
    let both =
      agree_outside w a b m (lt-wider n w a h p) (lt-wider n w b h q) (lt-wider n w m h r) in
    (
      λ e k below. both.0 e k (omega arith),
      λ same. both.1 (λ k inside z. elim (below_or_past k n) [
        | inl below ↦ same k below z
        | inr past ↦ digit_past n k a p past ∙ sym (digit_past n k b q past)
      ]),
    )
