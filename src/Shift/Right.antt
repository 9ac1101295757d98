-- ===== src/Shift/Right.antt =====
-- ASR against division with rounding down.
use m68k_rs.Base.{
  ℕ, ◌+◌, ◌-◌, ◌*◌, ◌/◌, ◌%◌, ◌^◌, ◌<◌, ◌≤◌, true, false, ◌!=◌, leb, if◌then◌else◌, u32, bit_or,
  inl, inr, Bool-cases, leb→le, floor_div, pos, negsuc, ◌≡◌, refl, ◌∙◌, arith,
}
use native.Mathlib.Nat.{div-le_self}
use m68k_rs.Types.{Size, byte, word, long, bits, mask, msb_mask, modulus}
use m68k_rs.Arith.Bits.{value, and-mask, and-msb_mask}
use m68k_rs.Arith.Add.{modulus-pos}
use m68k_rs.Shift.{asr_result}
use m68k_rs.Shift.Powers.{modulus-split, modulus-le, pow-pos, div-eq-zero}
use m68k_rs.Shift.Logical.{fits, less_after}
use m68k_rs.Shift.Fill.{quotient-lt, complement-div, mask-modulus, filled}

pub sign_lem :
    (size : Size) (x : ℕ)
    → (x / msb_mask size % 2 * msb_mask size != 0) ≡ leb (msb_mask size) (x % modulus size)
sign_lem byte x = ground arith
sign_lem word x = ground arith
sign_lem long x = ground arith

pub value_negative :
    (size : Size) (v : ℕ)
    → leb (msb_mask size) v ≡ true
    → value size v ≡ negsuc (modulus size - 1 - v)
value_negative byte v h = ground arith
value_negative word v h = ground arith
value_negative long v h = ground arith

pub value_positive : (size : Size) (v : ℕ) → leb (msb_mask size) v ≡ false → value size v ≡ pos v
value_positive byte v h = ground arith
value_positive word v h = ground arith
value_positive long v h = ground arith

pub half_modulus : (size : Size) → modulus size ≡ 2 * msb_mask size
half_modulus byte = refl
half_modulus word = refl
half_modulus long = refl

pub short_count : (size : Size) (k : ℕ) → leb (bits size) k ≡ false → k ≤ bits size
short_count size k h = ground arith

pub le-mul : (a b : ℕ) → 0 < b → a ≤ a * b
le-mul a b h = grind arith

-- The filled result as the complement of a quotient.
pub short_negative :
    (size : Size) (k v : ℕ)
    → k ≤ bits size
    → v < modulus size
    → modulus size - 2 ^ (bits size - k) + v / 2 ^ k
      ≡ modulus size - 1 - (modulus size - 1 - v) / 2 ^ k
short_negative size k v h small =
    let a = 2 ^ (bits size - k) in
    let b = 2 ^ k in
    let m = modulus-split size k h in
    let inside : v < a * b = rw (← m) small in
    rw m (
      omega (
        arith,
        complement-div a b v (pow-pos k) inside,
        quotient-lt a b v (pow-pos k) inside,
        le-mul a b (pow-pos k),
      ))

-- ASR of a negative operand.
pub negative_result :
    (size : Size) (k v : ℕ)
    → v < modulus size
    → leb (msb_mask size) v ≡ true
    → (if leb (bits size) k
          then mask size
          else bit_or (v / 2 ^ k) (u32 (mask size * 2 ^ (bits size - k))))
        % modulus size
      ≡ modulus size - 1 - (modulus size - 1 - v) / 2 ^ k
negative_result size k v small neg = elim (Bool-cases (leb (bits size) k)) [
  | inl past ↦
      rw (past, mask-modulus size)
        (ground (
          arith,
          fits size (modulus size - 1),
          div-eq-zero (modulus size - 1 - v) (2 ^ k),
          modulus-le size k (leb→le _ _ past),
        ))
  | inr short ↦
      rw (short, filled size k v (short_count size k short) small)
        (short_negative size k v (short_count size k short) small)
]

-- ASR of any other operand.
pub positive_result :
    (size : Size) (k v : ℕ)
    → v < modulus size
    → (if leb (bits size) k then 0 else v / 2 ^ k) % modulus size ≡ v / 2 ^ k
positive_result size k v small = elim (Bool-cases (leb (bits size) k)) [
  | inl past ↦
      rw past
        (ground (arith, div-eq-zero v (2 ^ k), modulus-le size k (leb→le _ _ past), fits size 0))
  | inr short ↦ rw short (fits size (v / 2 ^ k) (less_after size k v small))
]

pub asr_result_sign :
    (size : Size) (k x : ℕ)
    → let v = x % modulus size in
      asr_result size k x ≡ (
        if leb (msb_mask size) v
        then modulus size - 1 - (modulus size - 1 - v) / 2 ^ k
        else v / 2 ^ k)
unfolding asr_result
asr_result_sign size k x =
    let v = x % modulus size in
    let small = modulus-pos size x in
    rw (and-msb_mask size x, and-mask size x, sign_lem size x)
      (elim (Bool-cases (leb (msb_mask size) v)) [
        | inl neg ↦ rw neg (
            and-mask size (
              if leb (bits size) k
              then mask size
              else bit_or (v / 2 ^ k) (u32 (mask size * 2 ^ (bits size - k))))
            ∙ negative_result size k v small neg)
        | inr pos' ↦ rw pos' (
            and-mask size (if leb (bits size) k then 0 else v / 2 ^ k)
            ∙ positive_result size k v small)
      ])

pub upper :
    (size : Size) (v : ℕ) → leb (msb_mask size) v ≡ true → modulus size - 1 - v < msb_mask size
upper byte v h = ground arith
upper word v h = ground arith
upper long v h = ground arith

pub lower : (size : Size) (v : ℕ) → leb (msb_mask size) v ≡ false → v < msb_mask size
lower size v h = ground arith

pub quotient_value :
    (size : Size) (n b : ℕ)
    → n < msb_mask size
    → 0 < b
    → (value size (n / b) ≡ pos (n / b)) × (value size (modulus size - 1 - n / b) ≡ negsuc (n / b))
quotient_value byte n b h p = ground (arith, div-le_self n b)
quotient_value word n b h p = ground (arith, div-le_self n b)
quotient_value long n b h p = ground (arith, div-le_self n b)

pub asr_result_lem :
    (size : Size) (k x : ℕ)
    → value size (asr_result size k x) ≡ floor_div (value size (x % modulus size)) (2 ^ k)
asr_result_lem size k x =
    let v = x % modulus size in
    let small = modulus-pos size x in
    rw (asr_result_sign size k x) (elim (Bool-cases (leb (msb_mask size) v)) [
      | inl neg ↦
          rw (neg, value_negative size v neg)
            (quotient_value size (modulus size - 1 - v) (2 ^ k) (upper size v neg) (pow-pos k)).1
      | inr pos' ↦
          rw (pos', value_positive size v pos')
            (quotient_value size v (2 ^ k) (lower size v pos') (pow-pos k)).0
    ])

pub asr_result-lt : (size : Size) (k x : ℕ) → asr_result size k x < modulus size
asr_result-lt size k x = ground (
  arith,
  asr_result_sign size k x,
  less_after size k (x % modulus size) (modulus-pos size x),
  modulus-pos size x,
)
