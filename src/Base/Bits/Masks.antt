-- ===== src/Base/Bits/Masks.antt =====
-- Masks and fields as arithmetic: low masks are remainders, a single bit is a digit, `|` of fields
-- that do not overlap is a sum.
use Prim.Native.Nat.{ℕ, zero, suc, ◌+◌, ◌-◌, ◌*◌, ◌/◌, ◌%◌, ◌^◌, ◌<◌}
use Prim.Native.Nat.{bit_and, bit_or}
use mathlib.Core.Path.{◌≡◌, refl, ap, ap₂, ◌∙◌}
use native.Mathlib.Nat.{pow-suc, one-le-pow, mul-one, div-one, div-add-mod'}
use native.Mathlib.Omega.{arith}
use m68k_rs.Base.Bits.Step.{bit_and_step, bit_or_step}
use m68k_rs.Base.Bits.Digits.{get_bit, get_bit-suc, div-pow_suc}

pub bit_and-zero : (n a : ℕ) → a < 2 ^ n → bit_and a 0 ≡ 0
bit_and-zero zero zero h = refl
bit_and-zero zero (suc a) h = absurd (omega arith)
bit_and-zero (suc n) a h =
    omega
      (arith, bit_and_step a 0, pow-suc 2 n, bit_and-zero n (a / 2) (omega (arith, pow-suc 2 n)))

pub bit_or-zero : (n a : ℕ) → a < 2 ^ n → bit_or a 0 ≡ a
bit_or-zero zero zero h = refl
bit_or-zero zero (suc a) h = absurd (omega arith)
bit_or-zero (suc n) a h =
    omega (arith, bit_or_step a 0, pow-suc 2 n, bit_or-zero n (a / 2) (omega (arith, pow-suc 2 n)))

lt-pow : (a : ℕ) → a < 2 ^ a
lt-pow zero = omega arith
lt-pow (suc a) = omega (arith, lt-pow a, pow-suc 2 a)

and_zero : (a : ℕ) → bit_and a 0 ≡ 0
and_zero a = bit_and-zero a a (lt-pow a)

-- A mask whose low digit is 0, and a mask whose low digit is 1.
bit_and_even : (a m t : ℕ) → t ≡ m * 2 → bit_and a t ≡ bit_and (a / 2) m * 2
bit_and_even a m t e =
    let half : t / 2 ≡ m = omega arith in omega (arith, bit_and_step a t, ap (bit_and (a / 2)) half)

bit_and_odd : (a m t : ℕ) → t ≡ m * 2 + 1 → bit_and a t ≡ bit_and (a / 2) m * 2 + a % 2
bit_and_odd a m t e =
    let half : t / 2 ≡ m = omega arith in omega (arith, bit_and_step a t, ap (bit_and (a / 2)) half)

mul_pow_suc : (q k : ℕ) → q * 2 ^ suc k ≡ q * 2 ^ k * 2
mul_pow_suc q k = omega (arith, ap (λ (t : ℕ). q * t) (pow-suc 2 k))

half_pow : (q k : ℕ) → q * 2 ^ suc k / 2 ≡ q * 2 ^ k
half_pow q k = omega (arith, mul_pow_suc q k)

pub mod-pow_suc : (k a : ℕ) → a % 2 ^ suc k ≡ a / 2 % 2 ^ k * 2 + a % 2
mod-pow_suc k a = omega (
  arith,
  div-add-mod' a (2 ^ suc k),
  div-add-mod' (a / 2) (2 ^ k),
  mul_pow_suc (a / 2 / 2 ^ k) k,
  ap (λ t. t * 2 ^ suc k) (div-pow_suc k a),
)

-- `a & (m << k)`: only the digits from `k` on matter.
pub bit_and_shifted : (k a m : ℕ) → bit_and a (m * 2 ^ k) ≡ bit_and (a / 2 ^ k) m * 2 ^ k
bit_and_shifted zero a m = simp (mul-one, div-one)
bit_and_shifted (suc k) a m = omega (
  arith,
  bit_and_even a (m * 2 ^ k) (m * 2 ^ suc k) (mul_pow_suc m k),
  bit_and_shifted k (a / 2) m,
  ap (λ t. bit_and t m) (div-pow_suc k a),
  mul_pow_suc (bit_and (a / 2 ^ suc k) m) k,
  ap (λ t. bit_and t m * 2 ^ k) (div-pow_suc k a),
)

-- `a & (1 << k)`.
pub bit_and_pow : (k a : ℕ) → bit_and a (2 ^ k) ≡ get_bit k a * 2 ^ k
bit_and_pow zero a = omega (arith, bit_and_step a 1, and_zero (a / 2))
bit_and_pow (suc k) a = omega (
  arith,
  bit_and_even a (2 ^ k) (2 ^ suc k) (pow-suc 2 k),
  bit_and_pow k (a / 2),
  mul_pow_suc (get_bit (suc k) a) k,
  ap (λ t. t * 2 ^ k) (get_bit-suc k a),
)

-- `a & ((1 << k) - 1)`.
pub bit_and_mask : (k a : ℕ) → bit_and a (2 ^ k - 1) ≡ a % 2 ^ k
bit_and_mask zero a = omega (arith, and_zero a)
bit_and_mask (suc k) a = omega (
  arith,
  bit_and_odd a (2 ^ k - 1) (2 ^ suc k - 1) (omega (arith, pow-suc 2 k, one-le-pow k 2)),
  bit_and_mask k (a / 2),
  mod-pow_suc k a,
)

-- `(q << k) | r` when `r` fits in `k` bits.
pub bit_or_fields : (k q r : ℕ) → r < 2 ^ k → bit_or (q * 2 ^ k) r ≡ q * 2 ^ k + r
bit_or_fields zero q zero h = rw mul-one (omega (arith, bit_or-zero q q (lt-pow q)))
bit_or_fields zero q (suc r) h = absurd (omega arith)
bit_or_fields (suc k) q r h = omega (
  arith,
  bit_or_step (q * 2 ^ suc k) r,
  mul_pow_suc q k,
  bit_or_fields k q (r / 2) (omega (arith, pow-suc 2 k)),
  ap (λ t. bit_or t (r / 2)) (half_pow q k),
)

-- `a | r` when `a` has no digit below `k` and `r` none from `k` on.
pub bit_or_disjoint : (k a r : ℕ) → a % 2 ^ k ≡ 0 → r < 2 ^ k → bit_or a r ≡ a + r
bit_or_disjoint k a r e h =
    let whole : a ≡ a / 2 ^ k * 2 ^ k = omega (arith, div-add-mod' a (2 ^ k)) in
    omega (arith, bit_or_fields k (a / 2 ^ k) r h, ap (λ t. bit_or t r) whole)

-- `a & (((1 << n) - 1) << k)`: a field of `n` bits.
pub bit_and_field : (k n a : ℕ) → bit_and a ((2 ^ n - 1) * 2 ^ k) ≡ a / 2 ^ k % 2 ^ n * 2 ^ k
bit_and_field k n a =
    bit_and_shifted k a (2 ^ n - 1) ∙ ap (λ t. t * 2 ^ k) (bit_and_mask n (a / 2 ^ k))

half_mod : (n a : ℕ) → a % 2 ^ suc n / 2 ≡ a / 2 % 2 ^ n
half_mod n a = omega (arith, mod-pow_suc n a)

low_mod : (n a : ℕ) → a % 2 ^ suc n % 2 ≡ a % 2
low_mod n a = omega (arith, mod-pow_suc n a)

-- The low digits of `a | b` are those of the operands.
pub bit_or-mod : (n a b : ℕ) → bit_or a b % 2 ^ n ≡ bit_or (a % 2 ^ n) (b % 2 ^ n)
bit_or-mod zero a b = ground (arith, bit_or-zero 0 0)
bit_or-mod (suc n) a b = omega (
  arith,
  mod-pow_suc n (bit_or a b),
  bit_or_step a b,
  ap (λ t. t % 2 ^ n)
      (let half : bit_or a b / 2 ≡ bit_or (a / 2) (b / 2) = omega (arith, bit_or_step a b) in half),
  bit_or-mod n (a / 2) (b / 2),
  bit_or_step (a % 2 ^ suc n) (b % 2 ^ suc n),
  ap₂ bit_or (half_mod n a) (half_mod n b),
  low_mod n a,
  low_mod n b,
)

bit_or_comm_below : (n a b : ℕ) → a < 2 ^ n → b < 2 ^ n → bit_or a b ≡ bit_or b a
bit_or_comm_below zero zero zero p q = refl
bit_or_comm_below zero zero (suc b) p q = absurd (omega arith)
bit_or_comm_below zero (suc a) b p q = absurd (omega arith)
bit_or_comm_below (suc n) a b p q = omega (
  arith,
  bit_or_step a b,
  bit_or_step b a,
  bit_or_comm_below n (a / 2) (b / 2) (omega (arith, pow-suc 2 n)) (omega (arith, pow-suc 2 n)),
)

pub bit_or_comm : (a b : ℕ) → bit_or a b ≡ bit_or b a
bit_or_comm a b =
    bit_or_comm_below (a + b) a b (omega (arith, lt-pow (a + b))) (omega (arith, lt-pow (a + b)))

or_zero_below : (n a b : ℕ) → a < 2 ^ n → bit_or a b ≡ 0 → a ≡ 0
or_zero_below zero a b h e = omega arith
or_zero_below (suc n) a b h e = omega (
  arith,
  bit_or_step a b,
  pow-suc 2 n,
  or_zero_below n (a / 2) (b / 2) (omega (arith, pow-suc 2 n)) (omega (arith, bit_or_step a b)),
)

-- `|` is 0 only on zeros.
pub bit_or-zero_left : (a b : ℕ) → bit_or a b ≡ 0 → a ≡ 0
bit_or-zero_left a b e = or_zero_below a a b (lt-pow a) e

pub bit_or-zero_right : (a b : ℕ) → bit_or a b ≡ 0 → b ≡ 0
bit_or-zero_right a b e = bit_or-zero_left b a (bit_or_comm b a ∙ e)
