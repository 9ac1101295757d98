-- ===== src/Bcd/Digits.antt =====
-- The digits of the sums and differences, in the hardware model and in that of the fixtures.
use m68k_rs.Base.{
  ℕ, ◌+◌, ◌-◌, ◌*◌, ◌/◌, ◌%◌, ◌^◌, ◌<◌, bit_and, Bool, ltb, leb, if◌then◌else◌, bit_and_mask,
  bit_and_field, bit_and_pow, ◌≡◌, ap, ◌∙◌, arith,
}
use m68k_rs.Cpu.State.{CpuCore}
use m68k_rs.Cpu.Status.{flag_c}
use m68k_rs.Bcd.{
  negate_digits, add_digits, sub_digits, sub_low, sub_raw, borrows_low, borrows, bcd_add_sst,
  bcd_sub_sst, x_in,
}

-- Two decimal digits in a byte.
pub record Decimal (n : ℕ) : Type 0 where
  pub low : n % 16 < 10
  pub high : n < 0xa0

pub decimal : ℕ → ℕ
decimal n = n / 16 * 10 + n % 16

low_nibble : (n : ℕ) → bit_and n 0xf ≡ n % 16
low_nibble n = bit_and_mask 4 n

high_nibble : (n : ℕ) → bit_and n 0xf0 ≡ n / 16 % 16 * 16
high_nibble n = bit_and_field 4 4 n

low_byte : (n : ℕ) → bit_and n 0xff ≡ n % 256
low_byte n = bit_and_mask 8 n

add_field : (n : ℕ) → bit_and n 0x3f0 ≡ n / 16 % 64 * 16
add_field n = bit_and_field 4 6 n

bit_eight : (n : ℕ) → bit_and n 0x100 ≡ n / 256 % 2 * 256
bit_eight n = bit_and_pow 8 n

bits_eight : (n : ℕ) → bit_and n 0x300 ≡ n / 256 % 4 * 256
bits_eight n = bit_and_field 8 2 n

five_bits : (n : ℕ) → bit_and n 0x1f0 ≡ n / 16 % 32 * 16
five_bits n = bit_and_field 4 5 n

-- `r` is the sum of `s`, `d` and `x` as two digits, with the carry out of them.
pub record Sum (s d x r : ℕ) (carry : Bool) : Type 0 where
  pub valid : Decimal r
  pub total : decimal r ≡ (decimal s + decimal d + x) % 100
  pub over : carry ≡ leb 100 (decimal s + decimal d + x)

-- `r` is `d` less `s` and `x` as two digits, with the borrow.
pub record Difference (s d x r : ℕ) (borrow : Bool) : Type 0 where
  pub valid : Decimal r
  pub total : decimal r ≡ (100 + decimal d - (decimal s + x)) % 100
  pub under : borrow ≡ ltb (decimal d) (decimal s + x)

ruleset masks = (low_nibble, high_nibble, low_byte, add_field, bit_eight, bits_eight, five_bits)

pub add_digits_lem :
    (s d x : ℕ)
    → Decimal s
    → Decimal d
    → x < 2
    → Sum s d x (bit_and (add_digits s d x).1 0xff) (add_digits s d x).2
unfolding add_digits decimal
add_digits_lem s d x hs hd hx = record {
  valid = record { low = simp masks (ground arith); high = simp masks (ground arith) };
  total = simp masks (ground arith);
  over = simp masks (ground arith);
}

-- The difference, less the corrections of the digits that borrowed.
corrected : ℕ → ℕ → ℕ → ℕ
corrected s d x =
    (0x200
      + d
      - (s + x)
      - (if ltb (d % 16) (s % 16 + x) then 6 else 0)
      - (if ltb d (s + x) then 0x60 else 0))
    % 256

digits-mod : (n : ℕ) → Decimal n → n % 256 ≡ n
digits-mod n h = omega arith

borrows_low_lem :
    (s d x : ℕ) → Decimal s → Decimal d → x < 2 → borrows_low s d x ≡ ltb (d % 16) (s % 16 + x)
unfolding borrows_low sub_low
borrows_low_lem s d x hs hd hx = simp masks (ground arith)

borrows_lem : (s d x : ℕ) → Decimal s → Decimal d → x < 2 → borrows s d x ≡ ltb d (s + x)
unfolding borrows
borrows_lem s d x hs hd hx = simp masks (ground arith)

sub_raw_lem :
    (s d x : ℕ) → Decimal s → Decimal d → x < 2 → sub_raw s d x ≡ (2 ^ 16 + d - (s + x)) % 2 ^ 16
unfolding sub_raw sub_low
sub_raw_lem s d x hs hd hx = simp masks (omega arith)

sub_digits-corrected :
    (s d x : ℕ)
    → Decimal s
    → Decimal d
    → x < 2
    → bit_and (sub_digits s d x).1 0xff ≡ corrected s d x
unfolding sub_digits corrected
sub_digits-corrected s d x hs hd hx =
    rw
      (
        low_byte s,
        low_byte d,
        digits-mod s hs,
        digits-mod d hd,
        borrows_low_lem s d x hs hd hx,
        borrows_lem s d x hs hd hx,
        sub_raw_lem s d x hs hd hx,
      )
      (simp low_byte (ground arith))

corrected-decimal :
    (s d x : ℕ)
    → Decimal s
    → Decimal d
    → x < 2
    → decimal (corrected s d x) ≡ (100 + decimal d - (decimal s + x)) % 100
unfolding corrected decimal
corrected-decimal s d x hs hd hx = ground arith

sst-corrected :
    (c : CpuCore) (s d : ℕ) → Decimal s → Decimal d → (bcd_sub_sst c s d).1 ≡ corrected s d (x_in c)
unfolding bcd_sub_sst corrected
sst-corrected c s d hs hd = simp masks (ground arith)

pub x_in-lt : (c : CpuCore) → x_in c < 2
x_in-lt c = ground arith

pub sub_digits_lem :
    (s d x : ℕ)
    → Decimal s
    → Decimal d
    → x < 2
    → Difference s d x (bit_and (sub_digits s d x).1 0xff) (sub_digits s d x).2
unfolding sub_digits decimal
sub_digits_lem s d x hs hd hx = record {
  valid = record { low = simp masks (ground arith); high = simp masks (ground arith) };
  total = ap decimal (sub_digits-corrected s d x hs hd hx) ∙ corrected-decimal s d x hs hd hx;
  under = simp masks (ground arith);
}

pub sst-Sum :
    (c : CpuCore) (s d : ℕ)
    → Decimal s
    → Decimal d
    → Sum s d (x_in c) (bcd_add_sst c s d).1 (flag_c (bcd_add_sst c s d).0)
unfolding bcd_add_sst decimal
sst-Sum c s d hs hd = record {
  valid = record { low = simp masks (ground arith); high = simp masks (ground arith) };
  total = simp masks (ground arith);
  over = simp masks (ground arith);
}

pub sst-Difference :
    (c : CpuCore) (s d : ℕ)
    → Decimal s
    → Decimal d
    → Difference s d (x_in c) (bcd_sub_sst c s d).1 (flag_c (bcd_sub_sst c s d).0)
unfolding bcd_sub_sst decimal
sst-Difference c s d hs hd = record {
  valid = record { low = simp masks (ground arith); high = simp masks (ground arith) };
  total = ap decimal (sst-corrected c s d hs hd) ∙ corrected-decimal s d (x_in c) hs hd (x_in-lt c);
  under = simp masks (ground arith);
}

pub negate_digits_lem :
    (d x : ℕ)
    → Decimal d
    → x < 2
    → Difference d 0 x (bit_and (negate_digits d x).1 0xff) (negate_digits d x).2
unfolding negate_digits decimal
negate_digits_lem d x hd hx = record {
  valid = record { low = simp masks (ground arith); high = simp masks (ground arith) };
  total = simp masks (ground arith);
  under = simp masks (ground arith);
}
