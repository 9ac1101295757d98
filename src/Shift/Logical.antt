-- ===== src/Shift/Logical.antt =====
-- LSL and LSR against multiplication and division by a power of two.
use m68k_rs.Base.{
  ℕ, ◌-◌, ◌*◌, ◌/◌, ◌%◌, ◌^◌, ◌<◌, ◌≤◌, Bool, false, ◌==◌, ◌!=◌, leb, u32, bit_and, ◌&&◌,
  bit_and_mask, inl, inr, Bool-cases, ◌≡◌, refl, arith, leb→le, ==_iff, sym,
}
use native.Mathlib.Nat.{div-le_self}
use m68k_rs.Types.{Size, byte, word, long, bits, msb_mask, modulus}
use m68k_rs.Cpu.State.{CpuCore}
use m68k_rs.Cpu.Status.{flag_x, flag_n, flag_z, flag_v, flag_c}
use m68k_rs.Arith.Bits.{and-mask, and-msb_mask}
use m68k_rs.Arith.Add.{sign_test, modulus-pos}
use m68k_rs.Shift.{exec_lsl, exec_lsr, shift_done, lsl_result, lsl_out, lsr_result, lsr_out}
use m68k_rs.Shift.Powers.{
  and_one, cut, shifted_out, shifted_past, shifted_past_out, low_bit, div-eq-zero, modulus-le,
}

-- The flags after a shift: C and X are the bit `k`, N and Z those of the result.
pub record Shifted (c : CpuCore) (size : Size) (r : ℕ) (k : Bool) : Type 0 where
  pub n : flag_n c ≡ leb (msb_mask size) r
  pub z : flag_z c ≡ (r == 0)
  pub carry : flag_c c ≡ k
  pub extend : flag_x c ≡ k

pub shift_count : (shift : ℕ) → bit_and shift 63 ≡ shift % 64
shift_count shift = bit_and_mask 6 shift

pub fits : (size : Size) (x : ℕ) → x < modulus size → x % modulus size ≡ x
fits byte x h = omega arith
fits word x h = omega arith
fits long x h = omega arith

pub shift_done-Shifted :
    (c : CpuCore) (size : Size) (shift r : ℕ) (carry overflow : Bool)
    → r < modulus size
    → ((shift_done c size shift r carry overflow).1 ≡ r)
      × Shifted (shift_done c size shift r carry overflow).0 size r carry
      × (flag_v (shift_done c size shift r carry overflow).0 ≡ overflow)
unfolding shift_done
shift_done-Shifted c size shift r carry overflow h =
    rw (and-msb_mask size r, and-mask size r, sign_test size r h, fits size r h) (ground arith)

lsl_result_lem :
    (size : Size) (k value : ℕ) → lsl_result size k value ≡ value * 2 ^ k % modulus size
unfolding lsl_result
lsl_result_lem size k value = elim (Bool-cases (leb (bits size) k)) [
  | inl past ↦ rw past (ground (arith, shifted_past size k value))
  | inr short ↦ rw (short, and-mask size (u32 (value * 2 ^ k))) (cut size (value * 2 ^ k))
]

lsl_out_lem :
    (size : Size) (k value : ℕ)
    → 0 < k
    → lsl_out size k value ≡ (value * 2 ^ k / modulus size % 2 == 1)
unfolding lsl_out
lsl_out_lem size k value h = elim (Bool-cases (leb (bits size) k)) [
  | inl past ↦
      rw (past, and_one value)
        (ground (arith, shifted_past_out size k value, low_bit (k - bits size) value))
  | inr short ↦
      rw (short, and_one (value / 2 ^ (bits size - k))) (ground (arith, shifted_out size k value))
]

lsr_result_lem :
    (size : Size) (k value : ℕ) → value < modulus size → lsr_result size k value ≡ value / 2 ^ k
unfolding lsr_result
lsr_result_lem size k value h = elim (Bool-cases (leb (bits size) k)) [
  | inl past ↦
      rw past (sym (div-eq-zero value (2 ^ k) (omega (arith, modulus-le size k (leb→le _ _ past)))))
  | inr short ↦ rw short refl
]

exactly :
    (size : Size) (value : ℕ)
    → value < modulus size
    → (bits size == bits size && value / msb_mask size % 2 * msb_mask size != 0)
      ≡ (value / 2 ^ (bits size - 1) % 2 == 1)
exactly byte value h = ground arith
exactly word value h = ground arith
exactly long value h = ground arith

pub less_after : (size : Size) (k v : ℕ) → v < modulus size → v / 2 ^ k < modulus size
less_after size k v h = omega (arith, div-le_self v (2 ^ k))

-- The last bit out of a right shift by the size is the sign bit, and 0 beyond.
lsr_out_past :
    (size : Size) (k value : ℕ)
    → bits size ≤ k
    → value < modulus size
    → (k == bits size && value / msb_mask size % 2 * msb_mask size != 0)
      ≡ (value / 2 ^ (k - 1) % 2 == 1)
lsr_out_past size k value p h = elim (Bool-cases (k == bits size)) [
  | inl full ↦ rw ((==_iff k (bits size)).0 full) (exactly size value h)
  | inr more ↦ rw more (ground (arith, modulus-le size (k - 1), div-eq-zero value (2 ^ (k - 1))))
]

lsr_out_lem :
    (size : Size) (k value : ℕ)
    → 0 < k
    → value < modulus size
    → lsr_out size k value ≡ (value / 2 ^ (k - 1) % 2 == 1)
unfolding lsr_out
lsr_out_lem size k value p h = elim (Bool-cases (leb (bits size) k)) [
  | inl past ↦ rw (past, and-msb_mask size value) (lsr_out_past size k value (leb→le _ _ past) h)
  | inr short ↦ rw (short, and_one (value / 2 ^ (k - 1))) (ground arith)
]

pub nonzero : (k : ℕ) → 0 < k → (k == 0) ≡ false
nonzero k h = ground arith

module _ (c : CpuCore) (size : Size) (shift value : ℕ) (some_bits : 0 < shift % 64) where
  -- LSL by a count that is 1 to 63 modulo 64: the result is the operand times the power of two, cut
  -- to the size; C and X are the last bit moved out, which is 0 beyond the size; V is clear; N and
  -- Z are of the result.
  pub exec_lsl_lem :
      let n = value * 2 ^ (shift % 64) in
      ((exec_lsl c size shift value).1 ≡ n % modulus size)
      × Shifted (exec_lsl c size shift value).0 size (n % modulus size) (n / modulus size % 2 == 1)
      × (flag_v (exec_lsl c size shift value).0 ≡ false)
  unfolding exec_lsl
  exec_lsl_lem =
      let k = shift % 64 in
      let n = value * 2 ^ k in
      rw
        (
          shift_count shift,
          nonzero k some_bits,
          lsl_result_lem size k value,
          lsl_out_lem size k value some_bits,
        )
        (shift_done-Shifted c size k (n % modulus size) (n / modulus size % 2 == 1) false
          (modulus-pos size n))

  -- LSR by a count that is 1 to 63 modulo 64: the result is the operand, cut to the size, divided
  -- by the power of two; C and X are the last bit moved out, which is 0 beyond the size; V is
  -- clear; N and Z are of the result.
  pub exec_lsr_lem :
      let v = value % modulus size in
      let r = v / 2 ^ (shift % 64) in
      ((exec_lsr c size shift value).1 ≡ r)
      × Shifted (exec_lsr c size shift value).0 size r (v / 2 ^ (shift % 64 - 1) % 2 == 1)
      × (flag_v (exec_lsr c size shift value).0 ≡ false)
  unfolding exec_lsr
  exec_lsr_lem =
      let k = shift % 64 in
      let v = value % modulus size in
      let small = modulus-pos size value in
      rw
        (
          shift_count shift,
          nonzero k some_bits,
          and-mask size value,
          lsr_result_lem size k v small,
          lsr_out_lem size k v some_bits small,
        )
        (shift_done-Shifted c size k (v / 2 ^ k) (v / 2 ^ (k - 1) % 2 == 1) false
          (less_after size k v small))
