-- ===== src/BitField/Extract.antt =====
-- The bits of an extracted field.
use m68k_rs.Base.{
  ℕ, zero, suc, ◌+◌, ◌-◌, ◌*◌, ◌/◌, ◌%◌, ◌^◌, ◌<◌, ◌≤◌, bit_and, bit_or, u32, ltb, if◌then◌else◌,
  true, false, get_bit, get_bit-suc, bit_or_fields, bit_and_mask, digit_past, ◌⊎◌, inl, inr, ◌≡◌,
  refl, ap, ◌∙◌, arith,
}
use native.Mathlib.Nat.{pow-le-pow_right, add-zero, sub-zero, div-one}
use m68k_rs.Shift.Powers.{and_one, pow_add}
use m68k_rs.BitField.{extract_from, bf_extract_reg_msb0}

-- The bit of the register that is bit `i` of a field.
abbrev pub place : ℕ → ℕ → ℕ
place offset i = 31 - (offset + i) % 32

fits_long : (out i : ℕ) → out < 2 ^ i → i < 32 → out < 2 ^ 31
fits_long out i h k = omega (
  arith,
  pow-le-pow_right (let two : 0 < 2 = omega arith in two) (let le : i ≤ 31 = omega arith in le),
)

zero_add : (n : ℕ) → 0 + n ≡ n
zero_add n = omega arith

-- A round adds a bit below those that are there.
pushed :
    (out bit i : ℕ) → out < 2 ^ i → i < 32 → bit < 2 → bit_or (u32 (out * 2)) bit ≡ out * 2 + bit
pushed out bit i h k b =
    ap (λ t. bit_or t bit)
      (let whole : u32 (out * 2) ≡ out * 2 = omega (arith, fits_long out i h k) in whole)
    ∙ bit_or_fields 1 out bit b

pushed-lt : (out bit i : ℕ) → out < 2 ^ i → bit < 2 → out * 2 + bit < 2 ^ (i + 1)
pushed-lt out bit i h b = rw (pow_add i 1) (omega arith)

pos_mod : (x : ℕ) → bit_and x 31 ≡ x % 32
pos_mod x = bit_and_mask 5 x

-- A round of the loop.
round :
    (value offset i n out : ℕ)
    → out < 2 ^ i
    → i < 32
    → extract_from value offset i (suc n) out
      ≡ extract_from value offset (i + 1) n (out * 2 + get_bit (place offset i) value)
unfolding extract_from
round value offset i n out h k =
    rw (pos_mod (offset + i), and_one (value / 2 ^ (31 - (offset + i) % 32)))
      (ap (extract_from value offset (i + 1) n)
        (pushed out (get_bit (place offset i) value) i h k (omega arith)))

round_count : (i n : ℕ) → i + suc n ≡ i + 1 + n
round_count i n = omega arith

-- The result of the rounds stays within the width.
extract_from-lt :
    (value offset i n out : ℕ)
    → out < 2 ^ i
    → i + n ≤ 32
    → extract_from value offset i n out < 2 ^ (i + n)
unfolding extract_from
extract_from-lt value offset i zero out h k = rw (add-zero i) h
extract_from-lt value offset i (suc n) out h k =
    let bit = get_bit (place offset i) value in
    let next = out * 2 + bit in
    rw (round value offset i n out h (omega arith), round_count i n)
      (extract_from-lt value offset (i + 1) n next (pushed-lt out bit i h (omega arith))
        (omega arith))

Order-cases : (j n : ℕ) → (j < n) ⊎ ((j ≡ n) ⊎ (n < j))
Order-cases j n = ground arith

not_below : (j : ℕ) → ltb j 0 ≡ false
not_below j = ground arith

below : (j n : ℕ) → j < n → ltb j n ≡ true
below j n h = ground arith

above : (j n : ℕ) → n ≤ j → ltb j n ≡ false
above j n h = ground arith

last_step :
    (value offset i n out j : ℕ)
    → (if ltb j n
        then get_bit (place offset (i + 1 + (n - 1 - j))) value
        else get_bit (j - n) (out * 2 + get_bit (place offset i) value))
      ≡ (if ltb j (suc n)
          then get_bit (place offset (i + (suc n - 1 - j))) value
          else get_bit (j - suc n) out)
last_step value offset i n out j = elim (Order-cases j n) [
  | inl less ↦
      rw (below j n less, below j (suc n) (omega arith))
        (ap (λ t. get_bit (place offset t) value)
          (let same : i + 1 + (n - 1 - j) ≡ i + (suc n - 1 - j) = omega arith in same))
  | inr rest ↦ elim rest [
    | inl equal ↦
        rw (above j n (omega arith), below j (suc n) (omega arith))
          (ap (λ t. get_bit t (out * 2 + get_bit (place offset i) value))
              (let none : j - n ≡ 0 = omega arith in none)
            ∙ (let low : (out * 2 + get_bit (place offset i) value) / 2 ^ 0 % 2
                    ≡ get_bit (place offset i) value =
                  rw div-one (omega arith) in
                low)
            ∙ ap (λ t. get_bit (place offset t) value)
                (let same : i ≡ i + (suc n - 1 - j) = omega arith in same))
    | inr more ↦
        rw (above j n (omega arith), above j (suc n) (omega arith))
          (ap (λ t. get_bit t (out * 2 + get_bit (place offset i) value))
              (let next : j - n ≡ suc (j - suc n) = omega arith in next)
            ∙ get_bit-suc (j - suc n) (out * 2 + get_bit (place offset i) value)
            ∙ ap (get_bit (j - suc n)) (
                let half : (out * 2 + get_bit (place offset i) value) / 2 ≡ out = omega arith in
                half))
  ]
]

-- The bits that the rounds leave: below `n` those of the register, above the earlier ones.
extract_from-bit :
    (value offset i n out j : ℕ)
    → out < 2 ^ i
    → i + n ≤ 32
    → get_bit j (extract_from value offset i n out)
      ≡ (if ltb j n then get_bit (place offset (i + (n - 1 - j))) value else get_bit (j - n) out)
unfolding extract_from
extract_from-bit value offset i zero out j h k = rw (not_below j, sub-zero j) refl
extract_from-bit value offset i (suc n) out j h k =
    let bit = get_bit (place offset i) value in
    let next = out * 2 + bit in
    rw (round value offset i n out h (omega arith)) (
      extract_from-bit value offset (i + 1) n next j (pushed-lt out bit i h (omega arith))
        (omega arith)
      ∙ last_step value offset i n out j)

pub zero_digit : (j : ℕ) → get_bit j 0 ≡ 0
zero_digit j = digit_past 0 j 0 (omega arith) (omega arith)

-- Bit `j` of an extracted field, of a width of at most 32, is that of the register at its place,
-- which wraps around the end, and the field has no bit beyond its width.
pub bf_extract_reg_msb0-bit :
    (value offset width j : ℕ)
    → width ≤ 32
    → get_bit j (bf_extract_reg_msb0 value offset width)
      ≡ (if ltb j width then get_bit (place offset (width - 1 - j)) value else 0)
unfolding bf_extract_reg_msb0
bf_extract_reg_msb0-bit value offset width j h =
    rw (zero_digit (j - width), zero_add (width - 1 - j)) at
      (extract_from-bit value offset 0 width 0 j (omega arith) (omega (arith, zero_add width)))

pub bf_extract_reg_msb0-lt :
    (value offset width : ℕ) → width ≤ 32 → bf_extract_reg_msb0 value offset width < 2 ^ width
unfolding bf_extract_reg_msb0
bf_extract_reg_msb0-lt value offset width h =
    rw (zero_add width) at (extract_from-lt value offset 0 width 0 (omega arith) (omega arith))
