-- ===== src/Shift/Fill.antt =====
-- The ones that ASR shifts into a negative operand, and quotients of a complement.
use m68k_rs.Base.{
  ℕ, ◌+◌, ◌-◌, ◌*◌, ◌/◌, ◌%◌, ◌^◌, ◌<◌, ◌≤◌, u32, bit_or, bit_or-mod, bit_or_comm, bit_or_fields,
  ◌≡◌, refl, ap, ◌∙◌, arith,
}
use native.Mathlib.Nat.{
  add-mul-mod_self_left, mod-eq_of_lt, div-lt_iff_lt-mul, div-eq_of_lt-le, div-add-mod', mod-lt,
}
use m68k_rs.Types.{Size, byte, word, long, bits, mask, modulus}
use m68k_rs.Shift.Powers.{cut, modulus-split, pow-pos}
use m68k_rs.Shift.Logical.{fits, less_after}

-- The complement of `q * b + r` in `(q + 1 + t) * b` has quotient `t`.
pub complement_quotient : (b q r t : ℕ) → r < b → ((q + 1 + t) * b - 1 - (q * b + r)) / b ≡ t
complement_quotient b q r t h = div-eq_of_lt-le b (omega arith) (omega arith)

pub quotient-lt : (a b v : ℕ) → 0 < b → v < a * b → v / b < a
quotient-lt a b v p h = (div-lt_iff_lt-mul p).1 h

-- Division of the complement `a * b - 1 - v` by `b`.
pub complement-div : (a b v : ℕ) → 0 < b → v < a * b → (a * b - 1 - v) / b ≡ a - 1 - v / b
complement-div a b v p h =
    let below = quotient-lt a b v p h in
    let split : a ≡ v / b + 1 + (a - 1 - v / b) = omega arith in
    rw (div-add-mod' v b, ← split) at
      (complement_quotient b (v / b) (v % b) (a - 1 - v / b) (mod-lt v p))

pub ones_shifted_from :
    (a b : ℕ) → ((a + 1) * (b + 1) - 1) * (a + 1) % ((a + 1) * (b + 1)) ≡ b * (a + 1)
ones_shifted_from a b =
    let n = (a + 1) * (b + 1) in
    let less : n - 1 ≡ a * b + a + b = omega arith in
    let split : (a * b + a + b) * (a + 1) ≡ b * (a + 1) + n * a = omega arith in
    let below : b * (a + 1) < n = omega arith in
    ap (λ t. t * (a + 1) % n) less
    ∙ ap (λ t. t % n) split
    ∙ add-mul-mod_self_left (b * (a + 1)) n a
    ∙ mod-eq_of_lt below

-- `(a * b - 1) * a` modulo `a * b`.
pub ones_shifted : (a b : ℕ) → 0 < a → 0 < b → (a * b - 1) * a % (a * b) ≡ (b - 1) * a
ones_shifted a b p q =
    let ea : a - 1 + 1 ≡ a = omega arith in
    let eb : b - 1 + 1 ≡ b = omega arith in rw (ea, eb) at (ones_shifted_from (a - 1) (b - 1))

pub mask-modulus : (size : Size) → mask size ≡ modulus size - 1
mask-modulus byte = refl
mask-modulus word = refl
mask-modulus long = refl

pub or_mod :
    (size : Size) (x y : ℕ)
    → bit_or x y % modulus size ≡ bit_or (x % modulus size) (y % modulus size)
or_mod byte x y = bit_or-mod 8 x y
or_mod word x y = bit_or-mod 16 x y
or_mod long x y = bit_or-mod 32 x y

-- The ones that fill the top: `mask << (bits - k)`, cut to the size.
pub fill :
    (size : Size) (k : ℕ)
    → k ≤ bits size
    → u32 (mask size * 2 ^ (bits size - k)) % modulus size ≡ (2 ^ k - 1) * 2 ^ (bits size - k)
fill size k h =
    cut size (mask size * 2 ^ (bits size - k))
    ∙ rw (mask-modulus size, modulus-split size k h)
        (ones_shifted (2 ^ (bits size - k)) (2 ^ k) (pow-pos (bits size - k)) (pow-pos k))

pub less_one_from : (a b x : ℕ) → b * a + x ≡ a * (b + 1) - a + x
less_one_from a b x = omega arith

pub less_one : (a b x : ℕ) → 0 < b → (b - 1) * a + x ≡ a * b - a + x
less_one a b x h = let eb : b - 1 + 1 ≡ b = omega arith in rw eb at (less_one_from a (b - 1) x)

-- The result for a negative operand and a short count.
pub filled :
    (size : Size) (k v : ℕ)
    → k ≤ bits size
    → v < modulus size
    → bit_or (v / 2 ^ k) (u32 (mask size * 2 ^ (bits size - k))) % modulus size
      ≡ modulus size - 2 ^ (bits size - k) + v / 2 ^ k
filled size k v h small =
    let a = 2 ^ (bits size - k) in
    let b = 2 ^ k in
    let y = u32 (mask size * a) in
    let m = modulus-split size k h in
    let low : v / b < a = quotient-lt a b v (pow-pos k) (rw (← m) small) in
    or_mod size (v / b) y
    ∙ ap (λ t. bit_or (v / b % modulus size) t) (fill size k h)
    ∙ ap (λ t. bit_or t ((b - 1) * a)) (fits size (v / b) (less_after size k v small))
    ∙ bit_or_comm (v / b) ((b - 1) * a)
    ∙ bit_or_fields (bits size - k) (b - 1) (v / b) low
    ∙ rw m (less_one a b (v / b) (pow-pos k))
