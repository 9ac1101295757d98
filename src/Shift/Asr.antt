-- ===== src/Shift/Asr.antt =====
-- The bit that ASR moves out last, and ASR as a whole.
use m68k_rs.Base.{
  ℕ, ◌-◌, ◌*◌, ◌/◌, ◌%◌, ◌^◌, ◌<◌, ◌≤◌, Bool, true, false, ◌==◌, ◌!=◌, leb, u32, bit_and,
  bit_and_pow, inl, inr, Bool-cases, leb→le, ==_iff, floor_div, ℤ, pos, negsuc, ◌≡◌, refl, sym,
  arith,
}
use native.Mathlib.Nat.{mod-eq_of_lt}
use m68k_rs.Types.{Size, byte, word, long, bits, msb_mask, modulus}
use m68k_rs.Arith.Bits.{value, and-mask, and-msb_mask}
use m68k_rs.Arith.Add.{modulus-pos}
use m68k_rs.Shift.{exec_asr, asr_result, asr_out}
use m68k_rs.Shift.Powers.{modulus-split, pow-pos, div-eq-zero, pow_even, pow-lt, half-le}
use m68k_rs.Shift.Logical.{fits}
use m68k_rs.Shift.Fill.{quotient-lt, complement-div}
use m68k_rs.Cpu.State.{CpuCore}
use m68k_rs.Cpu.Status.{flag_v}
use m68k_rs.Shift.Logical.{Shifted, shift_done-Shifted, shift_count, nonzero}
use m68k_rs.Shift.Right.{
  sign_lem, value_negative, value_positive, upper, lower, asr_result_lem, asr_result-lt,
}

-- Whether an integer is odd.
abbrev pub odd : ℤ → Bool
odd (pos n) = n % 2 == 1
odd (negsuc n) = n % 2 == 0

word_count : (size : Size) (k : ℕ) → leb (bits size) k ≡ false → k - 1 < 32
word_count byte k short = ground arith
word_count word k short = ground arith
word_count long k short = ground arith

below_word : (size : Size) (k : ℕ) → leb (bits size) k ≡ false → u32 (2 ^ (k - 1)) ≡ 2 ^ (k - 1)
below_word size k short =
    let below : k - 1 < 32 = word_count size k short in mod-eq_of_lt (pow-lt (k - 1) 32 below)

bit_present : (q b : ℕ) → 0 < b → (q % 2 * b != 0) ≡ (q % 2 == 1)
bit_present q b h = elim (Bool-cases (q % 2 == 1)) [
  | inl one ↦ rw one (rw ((==_iff _ _).0 one) (ground arith))
  | inr other ↦ rw other (let none_left : q % 2 ≡ 0 = ground arith in rw none_left (ground arith))
]

even_pow : (size : Size) (k : ℕ) → leb (bits size) k ≡ false → 2 ^ (bits size - (k - 1)) % 2 ≡ 0
even_pow size k short = pow_even (bits size - (k - 1)) (ground arith)

flipped : (a q : ℕ) → a % 2 ≡ 0 → q < a → ((a - 1 - q) % 2 == 0) ≡ (q % 2 == 1)
flipped a q e h = ground arith

-- One bit of an operand.
bit_out :
    (size : Size) (k v : ℕ)
    → 0 < k
    → leb (bits size) k ≡ false
    → (bit_and v (u32 (2 ^ (k - 1))) != 0) ≡ (v / 2 ^ (k - 1) % 2 == 1)
bit_out size k v p short =
    rw (below_word size k short, bit_and_pow (k - 1) v)
      (bit_present (v / 2 ^ (k - 1)) (2 ^ (k - 1)) (pow-pos (k - 1)))

-- The top digit of the complement's quotient.
complement_parity :
    (size : Size) (k v : ℕ)
    → 0 < k
    → leb (bits size) k ≡ false
    → v < modulus size
    → ((modulus size - 1 - v) / 2 ^ (k - 1) % 2 == 0) ≡ (v / 2 ^ (k - 1) % 2 == 1)
complement_parity size k v p short small =
    let a = 2 ^ (bits size - (k - 1)) in
    let b = 2 ^ (k - 1) in
    let m = modulus-split size (k - 1) (ground arith) in
    let inside : v < a * b = rw (← m) small in
    rw (m, complement-div a b v (pow-pos (k - 1)) inside)
      (flipped a (v / b) (even_pow size k short) (quotient-lt a b v (pow-pos (k - 1)) inside))

past_negative :
    (size : Size) (k v : ℕ)
    → leb (msb_mask size) v ≡ true
    → bits size ≤ k
    → true ≡ ((modulus size - 1 - v) / 2 ^ (k - 1) % 2 == 0)
past_negative size k v neg h =
    let none_left =
      div-eq-zero (modulus size - 1 - v) (2 ^ (k - 1))
        (omega (arith, upper size v neg, half-le size k h)) in
    rw none_left refl

past_positive :
    (size : Size) (k v : ℕ)
    → leb (msb_mask size) v ≡ false
    → bits size ≤ k
    → false ≡ (v / 2 ^ (k - 1) % 2 == 1)
past_positive size k v other h =
    let none_left =
      div-eq-zero v (2 ^ (k - 1)) (omega (arith, lower size v other, half-le size k h)) in
    rw none_left refl

asr_out_lem :
    (size : Size) (k x : ℕ)
    → 0 < k
    → asr_out size k x ≡ odd (floor_div (value size (x % modulus size)) (2 ^ (k - 1)))
unfolding asr_out
asr_out_lem size k x p =
    let v = x % modulus size in
    let small = modulus-pos size x in
    rw (and-msb_mask size x, sign_lem size x, and-mask size x)
      (elim (Bool-cases (leb (msb_mask size) v)) [
        | inl neg ↦
            rw (neg, value_negative size v neg)
              (elim (Bool-cases (leb (bits size) k)) [
                | inl past ↦ rw past (past_negative size k v neg (leb→le _ _ past))
                | inr short ↦
                    rw (short, bit_out size k v p short)
                      (sym (complement_parity size k v p short small))
              ])
        | inr pos' ↦
            rw (pos', value_positive size v pos')
              (elim (Bool-cases (leb (bits size) k)) [
                | inl past ↦ rw past (past_positive size k v pos' (leb→le _ _ past))
                | inr short ↦ rw short (bit_out size k v p short)
              ])
      ])

-- ASR by a count that is 1 to 63 modulo 64: the result, read as a signed number, is the operand,
-- read as a signed number, divided by the power of two and rounded down; C and X are the last bit
-- moved out, which is the sign beyond the size; V is clear; N and Z are of the result.
pub exec_asr_lem :
    (c : CpuCore) (size : Size) (shift x : ℕ)
    → 0 < shift % 64
    → let v = value size (x % modulus size) in
      let r = (exec_asr c size shift x).1 in
      (value size r ≡ floor_div v (2 ^ (shift % 64)))
      × Shifted (exec_asr c size shift x).0 size r (odd (floor_div v (2 ^ (shift % 64 - 1))))
      × (flag_v (exec_asr c size shift x).0 ≡ false)
unfolding exec_asr
exec_asr_lem c size shift x some_bits =
    let k = shift % 64 in
    let r = asr_result size k x in
    let small = asr_result-lt size k x in
    let done = shift_done-Shifted c size k r (asr_out size k x) false small in
    rw
      (
        shift_count shift,
        nonzero k some_bits,
        done.0,
        and-mask size r,
        fits size r small,
        ← asr_out_lem size k x some_bits,
      )
      (asr_result_lem size k x, done.1, done.2)
