-- ===== src/Shift/Powers.antt =====
-- Powers of two, and the sizes as powers of two.
use m68k_rs.Base.{
  ℕ, zero, suc, ◌+◌, ◌-◌, ◌*◌, ◌/◌, ◌%◌, ◌^◌, ◌<◌, ◌≤◌, ◌≡◌, refl, ap, ◌∙◌, sym, bit_and, u32,
  bit_and_mask, arith, ◌==◌, ◌!=◌, ◌&&◌,
}
use native.Mathlib.Nat.{
  pow-suc, one-le-pow, add-suc, add-zero, mul-one, mul_assoc, mul-div-mul_right, mul-div_left,
}
use native.Mathlib.Numerals.{sub-one}
use m68k_rs.Types.{Size, byte, word, long, bits, msb_mask, modulus}

pub pow_add : (a b : ℕ) → 2 ^ (a + b) ≡ 2 ^ a * 2 ^ b
pow_add a zero = rw (add-zero, mul-one) refl
pow_add a (suc b) = rw (add-suc, pow-suc 2 (a + b), pow-suc 2 b, pow_add a b, mul_assoc)

pub pow-pos : (a : ℕ) → 0 < 2 ^ a
pow-pos a = one-le-pow a 2 (omega arith)

pub modulus-pow : (size : Size) → modulus size ≡ 2 ^ bits size
modulus-pow byte = refl
modulus-pow word = refl
modulus-pow long = refl

-- A size split at `k` bits.
pub modulus-split :
    (size : Size) (k : ℕ) → k ≤ bits size → modulus size ≡ 2 ^ (bits size - k) * 2 ^ k
modulus-split size k h =
    modulus-pow size
    ∙ ap (λ t. 2 ^ t) (let whole : bits size ≡ bits size - k + k = omega arith in whole)
    ∙ pow_add (bits size - k) k

pub and_one : (x : ℕ) → bit_and x 1 ≡ x % 2
and_one x = bit_and_mask 1 x

pub cut : (size : Size) (x : ℕ) → u32 x % modulus size ≡ x % modulus size
cut byte x = omega arith
cut word x = omega arith
cut long x = omega arith

modulus_pos : (size : Size) → 0 < modulus size
modulus_pos byte = omega arith
modulus_pos word = omega arith
modulus_pos long = omega arith

even_shift : (j x : ℕ) → x * 2 ^ suc j ≡ x * 2 ^ j * 2
even_shift j x = omega (arith, ap (λ (t : ℕ). x * t) (pow-suc 2 j))

-- The bits that a left shift by `k` moves out of a size.
pub shifted_out :
    (size : Size) (k x : ℕ) → k ≤ bits size → x * 2 ^ k / modulus size ≡ x / 2 ^ (bits size - k)
shifted_out size k x h =
    rw (modulus-split size k h) (mul-div-mul_right x (2 ^ (bits size - k)) (pow-pos k))

-- A left shift by the size or more leaves a multiple of the size.
pub shifted_past :
    (size : Size) (k x : ℕ) → bits size ≤ k → x * 2 ^ k ≡ x * 2 ^ (k - bits size) * modulus size
shifted_past size k x h =
    ap (λ t. x * 2 ^ t) (let whole : k ≡ k - bits size + bits size = omega arith in whole)
    ∙ ap (λ t. x * t)
        (pow_add (k - bits size) (bits size)
          ∙ ap (λ t. 2 ^ (k - bits size) * t) (sym (modulus-pow size)))
    ∙ sym (mul_assoc x (2 ^ (k - bits size)) (modulus size))

-- A value below `2 ^ k` has nothing left after a right shift by `k`.
pub div-eq-zero : (x n : ℕ) → x < n → x / n ≡ 0
div-eq-zero x n h = grind arith

pub modulus-le : (size : Size) (k : ℕ) → bits size ≤ k → modulus size ≤ 2 ^ k
modulus-le size k h =
    let whole = shifted_past size k 1 h in
    let some_rest = pow-pos (k - bits size) in
    let times : modulus size ≤ 2 ^ (k - bits size) * modulus size = grind arith in grind arith

pub msb_mask-pow : (size : Size) → 2 ^ (bits size - 1) ≡ msb_mask size
msb_mask-pow byte = refl
msb_mask-pow word = refl
msb_mask-pow long = refl

-- What a left shift by the size or more moves out last.
pub shifted_past_out :
    (size : Size) (k x : ℕ) → bits size ≤ k → x * 2 ^ k / modulus size ≡ x * 2 ^ (k - bits size)
shifted_past_out size k x h =
    ap (λ t. t / modulus size) (shifted_past size k x h)
    ∙ mul-div_left (x * 2 ^ (k - bits size)) (modulus_pos size)

-- The lowest bit of a left shift by `j`.
pub low_bit : (j x : ℕ) → (j == 0 && x % 2 != 0) ≡ (x * 2 ^ j % 2 == 1)
low_bit zero x = rw mul-one (ground arith)
low_bit (suc j) x = ground (arith, even_shift j x)

pub pow_even : (j : ℕ) → 0 < j → 2 ^ j % 2 ≡ 0
pow_even zero h = absurd (omega arith)
pow_even (suc j) h = omega (arith, pow-suc 2 j)

pub pow-lt : (j n : ℕ) → j < n → 2 ^ j < 2 ^ n
pow-lt j n h =
    let whole : n ≡ n - suc j + suc j = omega arith in
    let product = ap (λ t. 2 ^ t) whole ∙ pow_add (n - suc j) (suc j) in
    let some_rest = pow-pos (n - suc j) in
    let less : 2 ^ j < 2 ^ suc j = omega (arith, pow-suc 2 j, pow-pos j) in
    let times : 2 ^ suc j ≤ 2 ^ (n - suc j) * 2 ^ suc j = grind arith in omega arith

pow_pred : (k : ℕ) → 0 < k → 2 ^ k ≡ 2 ^ (k - 1) * 2
pow_pred zero h = absurd (omega arith)
pow_pred (suc k) h = rw sub-one (pow-suc 2 k)

pub half-le : (size : Size) (k : ℕ) → bits size ≤ k → msb_mask size ≤ 2 ^ (k - 1)
half-le byte k h = omega (arith, modulus-le byte k h, pow_pred k (omega arith))
half-le word k h = omega (arith, modulus-le word k h, pow_pred k (omega arith))
half-le long k h = omega (arith, modulus-le long k h, pow_pred k (omega arith))
