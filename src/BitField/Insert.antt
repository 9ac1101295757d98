-- ===== src/BitField/Insert.antt =====
-- The bits of a register with a field replaced.
use m68k_rs.Base.{
  ℕ, zero, suc, ◌+◌, ◌-◌, ◌*◌, ◌/◌, ◌%◌, ◌^◌, ◌<◌, ◌≤◌, min, max, bit_and, bit_or, not_u32, ◌==◌,
  ltb, leb, ◌&&◌, if◌then◌else◌, Bool, true, false, get_bit, get_bit-suc, get_bit-and, get_bit-or,
  get_bit-complement, bit_and-lt, bit_or-lt, bit_and_mask, digit_past, ◌⊎◌, inl, inr, Bool-cases,
  ==_iff, ◌≡◌, refl, ap, ◌∙◌, arith,
}
use native.Mathlib.Nat.{pow-suc, one-mul, zero-mul, div-one}
use m68k_rs.Shift.Powers.{and_one, pow-lt, pow_even}
use m68k_rs.BitField.{insert_from, bf_insert_reg_msb0}
use m68k_rs.BitField.Extract.{place}

div_one_mod : (x : ℕ) → get_bit 0 x ≡ x % 2
div_one_mod x = ap (λ t. t % 2) (div-one x)

one_digit : (p s : ℕ) → get_bit p (2 ^ s) ≡ (if p == s then 1 else 0)
one_digit zero zero = refl
one_digit zero (suc s) = div_one_mod (2 ^ suc s) ∙ pow_even (suc s) (omega arith) ∙ ground arith
one_digit (suc p) zero =
    get_bit-suc p 1 ∙ digit_past 0 p 0 (omega arith) (omega arith) ∙ ground arith
one_digit (suc p) (suc s) =
    get_bit-suc p (2 ^ suc s)
    ∙ ap (get_bit p) (let half : 2 ^ suc s / 2 ≡ 2 ^ s = omega (arith, pow-suc 2 s) in half)
    ∙ one_digit p s
    ∙ ground arith

bit_cases : (b : ℕ) → b < 2 → (b ≡ 0) ⊎ (b ≡ 1)
bit_cases b h = ground arith

same_zero : (b : Bool) → ◌≡◌ {A = ℕ} 0 (if b then 0 else 0)
same_zero true = refl
same_zero false = refl

moved_digit : (p s b : ℕ) → b < 2 → get_bit p (b * 2 ^ s) ≡ (if p == s then b else 0)
moved_digit p s b h = elim (bit_cases b h) [
  | inl none ↦ rw none (
      ap (get_bit p) (zero-mul (2 ^ s))
      ∙ digit_past 0 p 0 (omega arith) (omega arith)
      ∙ same_zero (p == s))
  | inr one ↦ rw one (ap (get_bit p) (one-mul (2 ^ s)) ∙ one_digit p s)
]

choose_digit :
    (t : Bool) (b v : ℕ)
    → max (min (v % 2) (1 - (if t then 1 else 0))) (if t then b else 0) ≡ (if t then b else v % 2)
choose_digit true b v = omega arith
choose_digit false b v = omega arith

-- One round sets one bit.
set_digit :
    (v b s p : ℕ)
    → v < 2 ^ 32
    → b < 2
    → s < 32
    → p < 32
    → get_bit p (bit_or (bit_and v (not_u32 (2 ^ s))) (b * 2 ^ s))
      ≡ (if p == s then b else get_bit p v)
set_digit v b s p hv hb hs hp =
    get_bit-or p (bit_and v (not_u32 (2 ^ s))) (b * 2 ^ s)
    ∙ ap (λ t. max t (get_bit p (b * 2 ^ s))) (get_bit-and p v (not_u32 (2 ^ s)))
    ∙ rw (get_bit-complement 32 p (2 ^ s) hp (pow-lt s 32 hs), one_digit p s, moved_digit p s b hb)
        (choose_digit (p == s) b (v / 2 ^ p))

-- The bit of the field that bit `p` of the register is.
abbrev pub index_at : ℕ → ℕ → ℕ
index_at offset p = (63 - p - offset) % 32

same_bit :
    (offset i p : ℕ)
    → offset < 32
    → i < 32
    → p < 32
    → (p == place offset i) ≡ (index_at offset p == i)
same_bit offset i p ho hi hp = ground arith

set-lt :
    (v b s : ℕ)
    → v < 2 ^ 32
    → b < 2
    → s < 32
    → bit_or (bit_and v (not_u32 (2 ^ s))) (b * 2 ^ s) < 2 ^ 32
set-lt v b s hv hb hs =
    bit_or-lt 32 (bit_and v (not_u32 (2 ^ s))) (b * 2 ^ s) (bit_and-lt 32 v (not_u32 (2 ^ s)) hv)
      (elim (bit_cases b hb) [
        | inl none ↦ rw none (omega (arith, zero-mul (2 ^ s)))
        | inr one ↦ rw one (omega (arith, one-mul (2 ^ s), pow-lt s 32 hs))
      ])

pos_mod : (x : ℕ) → bit_and x 31 ≡ x % 32
pos_mod x = bit_and_mask 5 x

-- The register after a round.
abbrev with_bit : ℕ → ℕ → ℕ → ℕ → ℕ → ℕ
with_bit offset width field i v =
    bit_or (bit_and v (not_u32 (2 ^ place offset i)))
      (get_bit (width - 1 - i) field * 2 ^ place offset i)

round :
    (offset width field i n v : ℕ)
    → insert_from offset width field i (suc n) v
      ≡ insert_from offset width field (i + 1) n (with_bit offset width field i v)
unfolding insert_from
round offset width field i n v =
    rw (pos_mod (offset + i), and_one (field / 2 ^ (width - 1 - i))) refl

outside : (i k : ℕ) → (leb i k && ltb k (i + 0)) ≡ false
outside i k = ground arith

joined :
    (i n k : ℕ) (f : ℕ → ℕ) (x : ℕ)
    → (if leb (i + 1) k && ltb k (i + 1 + n) then f k else if k == i then f i else x)
      ≡ (if leb i k && ltb k (i + suc n) then f k else x)
joined i n k f x = elim (Bool-cases (k == i)) [
  | inl same ↦ let e = (==_iff k i).0 same in rw e (ground arith)
  | inr apart ↦ rw apart (ground arith)
]

-- The bits after the rounds from `i` on.
insert_from-bit :
    (offset width field i n v p : ℕ)
    → offset < 32
    → i + n ≤ 32
    → v < 2 ^ 32
    → p < 32
    → get_bit p (insert_from offset width field i n v) ≡ (
        if leb i (index_at offset p) && ltb (index_at offset p) (i + n)
        then get_bit (width - 1 - index_at offset p) field
        else get_bit p v)
unfolding insert_from
insert_from-bit offset width field i zero v p ho h hv hp = rw (outside i (index_at offset p)) refl
insert_from-bit offset width field i (suc n) v p ho h hv hp =
    let b = get_bit (width - 1 - i) field in
    rw (round offset width field i n v) (
      insert_from-bit offset width field (i + 1) n (with_bit offset width field i v) p ho
        (omega arith) (set-lt v b (place offset i) hv (omega arith) (omega arith)) hp
      ∙ ap
          (λ t.
            if leb (i + 1) (index_at offset p) && ltb (index_at offset p) (i + 1 + n)
            then get_bit (width - 1 - index_at offset p) field
            else t)
          (set_digit v b (place offset i) p hv (omega arith) (omega arith) hp)
      ∙ rw (same_bit offset i p ho (omega arith) hp)
          (joined i n (index_at offset p) (λ t. get_bit (width - 1 - t) field) (get_bit p v)))

zero_start : (w k : ℕ) → (leb 0 k && ltb k (0 + w)) ≡ ltb k w
zero_start w k = ground arith

-- Bit `p` of a register into which a field was inserted is the bit of the field that has its place
-- there, and the bit it was when the field does not reach it. The offset is below 32, the width at
-- most 32, and the register one of 32 bits.
pub bf_insert_reg_msb0-bit :
    (orig offset width field p : ℕ)
    → offset < 32
    → width ≤ 32
    → orig < 2 ^ 32
    → p < 32
    → get_bit p (bf_insert_reg_msb0 orig offset width field) ≡ (
        if ltb (index_at offset p) width
        then get_bit (width - 1 - index_at offset p) field
        else get_bit p orig)
unfolding bf_insert_reg_msb0
bf_insert_reg_msb0-bit orig offset width field p ho hw hv hp =
    rw (zero_start width (index_at offset p)) at
      (insert_from-bit offset width field 0 width orig p ho (omega arith) hv hp)
