-- ===== src/Arith/Bits.antt =====
-- The masks, sign bits and carries of each operand size as arithmetic.
use m68k_rs.Base.{
  ℕ, ◌+◌, ◌*◌, ◌/◌, ◌%◌, ◌^◌, ◌-◌, ◌<◌, min, max, bit_and, bit_or, bit_xor, leb, ltb, ℤ, signed,
  ◌≡◌, refl, arith, get_bit, get_bit-and, get_bit-or, get_bit-xor, bit_and_pow, bit_and_mask,
  not_u32,
}
use m68k_rs.Types.{Size, byte, word, long, mask, msb_mask, modulus}
use m68k_rs.Arith.{add_carry, sub_carry}

-- The signed value of an operand.
abbrev pub value : Size → ℕ → ℤ
value byte x = signed 7 x
value word x = signed 15 x
value long x = signed 31 x

pub and-mask : (size : Size) (x : ℕ) → bit_and x (mask size) ≡ x % modulus size
and-mask byte x = bit_and_mask 8 x
and-mask word x = bit_and_mask 16 x
and-mask long x = bit_and_mask 32 x

pub and-msb_mask :
    (size : Size) (x : ℕ) → bit_and x (msb_mask size) ≡ x / msb_mask size % 2 * msb_mask size
and-msb_mask byte x = bit_and_pow 7 x
and-msb_mask word x = bit_and_pow 15 x
and-msb_mask long x = bit_and_pow 31 x

signs_at :
    (k a b c : ℕ)
    → get_bit k (bit_and (bit_xor a b) (bit_xor c b))
      ≡ min ((get_bit k a + get_bit k b) % 2) ((get_bit k c + get_bit k b) % 2)
signs_at k a b c =
    rw (get_bit-and k (bit_xor a b) (bit_xor c b), get_bit-xor k a b, get_bit-xor k c b)

-- `(a ^ b) & (c ^ b) & msb`: the signs of `a` and `c` both differ from that of `b`.
pub and_xor_xor :
    (size : Size) (a b c : ℕ)
    → bit_and (bit_and (bit_xor a b) (bit_xor c b)) (msb_mask size)
      ≡ min
          ((a / msb_mask size % 2 + b / msb_mask size % 2) % 2)
          ((c / msb_mask size % 2 + b / msb_mask size % 2) % 2)
        * msb_mask size
and_xor_xor byte a b c = rw (bit_and_pow 7 (bit_and (bit_xor a b) (bit_xor c b)), signs_at 7 a b c)
and_xor_xor word a b c =
    rw (bit_and_pow 15 (bit_and (bit_xor a b) (bit_xor c b)), signs_at 15 a b c)
and_xor_xor long a b c =
    rw (bit_and_pow 31 (bit_and (bit_xor a b) (bit_xor c b)), signs_at 31 a b c)

-- Bit `k` of `(a & b) | (!c & (a | b))`, with the complement's digit given.
majority_at :
    (k a b c' : ℕ)
    → get_bit k (bit_or (bit_and a b) (bit_and c' (bit_or a b)))
      ≡ max (min (get_bit k a) (get_bit k b)) (min (get_bit k c') (max (get_bit k a) (get_bit k b)))
majority_at k a b c' = rw (
  get_bit-or k (bit_and a b) (bit_and c' (bit_or a b)),
  get_bit-and k a b,
  get_bit-and k c' (bit_or a b),
  get_bit-or k a b,
)

-- The carry is that of the true sum.
pub add_carry_lem :
    (size : Size) (s d : ℕ)
    → s < modulus size
    → d < modulus size
    → add_carry size s d ((s + d) % modulus size) ≡ leb (modulus size) (s + d)
unfolding add_carry
add_carry_lem byte s d p q = ground (arith, bit_and_pow 8 (s + d))
add_carry_lem word s d p q = ground (arith, bit_and_pow 16 (s + d))
add_carry_lem long s d p q = ground (
  arith,
  bit_and_pow 31 (bit_or (bit_and s d) (bit_and (not_u32 ((s + d) % 2 ^ 32)) (bit_or s d))),
  majority_at 31 s d (not_u32 ((s + d) % 2 ^ 32)),
)

-- The borrow is that of the true difference.
pub sub_carry_lem :
    (size : Size) (s d : ℕ)
    → s < modulus size
    → d < modulus size
    → sub_carry size s d ((d + modulus size - s) % modulus size) ≡ ltb d s
unfolding sub_carry
sub_carry_lem byte s d p q = refl
sub_carry_lem word s d p q = refl
sub_carry_lem long s d p q = ground (
  arith,
  bit_and_pow 31 (
      bit_or (bit_and s ((d + 2 ^ 32 - s) % 2 ^ 32))
        (bit_and (not_u32 d) (bit_or s ((d + 2 ^ 32 - s) % 2 ^ 32)))),
  majority_at 31 s ((d + 2 ^ 32 - s) % 2 ^ 32) (not_u32 d),
)
