-- ===== src/Shift/Asl.antt =====
-- ASL as a whole: multiplication by a power of two, with V for a result out of range.
use m68k_rs.Base.{
  ℕ, suc, ◌+◌, ◌-◌, ◌*◌, ◌/◌, ◌%◌, ◌^◌, ◌<◌, ◌≤◌, min, true, false, not, ◌==◌, ◌!=◌, ltb,
  if◌then◌else◌, inl, inr, ◌↔◌, Bool-cases, scale, ◌≡◌, sym, ap, ◌∙◌, arith,
}
use m68k_rs.Types.{Size, byte, word, long, bits, modulus}
use m68k_rs.Cpu.State.{CpuCore}
use m68k_rs.Cpu.Status.{flag_v}
use m68k_rs.Arith.Bits.{value}
use m68k_rs.Arith.Add.{modulus-pos}
use m68k_rs.Shift.{AslState, asl_loop, asl_start, exec_asl}
use m68k_rs.Shift.Powers.{pow-pos, shifted_past, shifted_past_out, low_bit, modulus-le}
use m68k_rs.Shift.Logical.{Shifted, shift_done-Shifted, shift_count, nonzero}
use m68k_rs.Shift.Left.{in_range, negative, product_bound, loop-After}

complement_from : (v d p : ℕ) → suc d * p ≡ (v + suc d) * p - v * p
complement_from v d p = grind arith

complement_product : (m v p : ℕ) → v < m → suc (m - v - 1) * p ≡ m * p - v * p
complement_product m v p h =
    let whole : v + suc (m - v - 1) ≡ m = omega arith in
    rw whole at (complement_from v (m - v - 1) p)

-- A product is in range exactly when the pattern that is left of it stands for it.
in_range-value :
    (size : Size) (v p : ℕ)
    → v < modulus size
    → 0 < p
    → (not (in_range size (negative size v) (v * p) p) ≡ false)
      ↔ (value size (v * p % modulus size) ≡ scale (value size v) p)
in_range-value byte v p h q = ground (arith, complement_product 256 v p, product_bound 256 v p)
in_range-value word v p h q =
    ground (arith, complement_product (2 ^ 16) v p, product_bound (2 ^ 16) v p)
in_range-value long v p h q =
    ground (arith, complement_product (2 ^ 32) v p, product_bound (2 ^ 32) v p)

-- Past the size nothing is left, and only 0 is in range.
some_product : (v p : ℕ) → 0 < v → p ≤ v * p
some_product v p h = grind arith

past_zero :
    (size : Size) (v p : ℕ)
    → v < modulus size
    → modulus size ≤ p
    → in_range size (negative size v) (v * p) p ≡ (v == 0)
past_zero byte v p h q = ground (arith, product_bound 256 v p, some_product v p)
past_zero word v p h q = ground (arith, product_bound (2 ^ 16) v p, some_product v p)
past_zero long v p h q = ground (arith, product_bound (2 ^ 32) v p, some_product v p)

past_in_range :
    (size : Size) (v j k : ℕ)
    → v < modulus size
    → modulus size ≤ 2 ^ j
    → modulus size ≤ 2 ^ k
    → in_range size (negative size v) (v * 2 ^ j) (2 ^ j)
      ≡ in_range size (negative size v) (v * 2 ^ k) (2 ^ k)
past_in_range size v j k h p q = past_zero size v (2 ^ j) h p ∙ sym (past_zero size v (2 ^ k) h q)

multiple-mod : (size : Size) (t : ℕ) → t * modulus size % modulus size ≡ 0
multiple-mod byte t = omega arith
multiple-mod word t = omega arith
multiple-mod long t = omega arith

nothing_left : (size : Size) (j v : ℕ) → bits size ≤ j → v * 2 ^ j % modulus size ≡ 0
nothing_left size j v h =
    ap (λ t. t % modulus size) (shifted_past size j v h)
    ∙ multiple-mod size (v * 2 ^ (j - bits size))

module _ (c : CpuCore) (size : Size) (shift x : ℕ) (some_bits : 0 < shift % 64) where
  abbrev v : ℕ
  v = x % modulus size

  abbrev k : ℕ
  k = shift % 64

  abbrev done : AslState
  done = asl_loop size (min k (bits size)) (asl_start size x)

  short_min : ltb (bits size) k ≡ false → min k (bits size) ≡ k
  short_min short = ground arith

  past_min : ltb (bits size) k ≡ true → min k (bits size) ≡ bits size
  past_min past = ground arith

  all_out :
      ltb (bits size) k ≡ true
      → (done.result ≡ v * 2 ^ k % modulus size)
        × (false ≡ (v * 2 ^ k / modulus size % 2 == 1))
        × (done.overflow ≡ not (in_range size (negative size v) (v * 2 ^ k) (2 ^ k)))
  all_out past =
      let full : bits size ≤ bits size = omega arith in
      let beyond : bits size ≤ k = ground arith in
      let left_out : (k - bits size == 0) ≡ false = ground arith in
      rw (past_min past) (
        (loop-After size x (bits size)).result
            ∙ nothing_left size (bits size) v full
            ∙ sym (nothing_left size k v beyond),
        ground (arith, shifted_past_out size k v, low_bit (k - bits size) v),
        (loop-After size x (bits size)).overflow
            ∙ ap not (
                past_in_range size v (bits size) k (modulus-pos size x)
                  (modulus-le size (bits size) full) (modulus-le size k beyond)),
      )

  done_lem :
      (done.result ≡ v * 2 ^ k % modulus size)
      × ((if ltb (bits size) k then false else done.last_bit != 0)
          ≡ (v * 2 ^ k / modulus size % 2 == 1))
      × (done.overflow ≡ not (in_range size (negative size v) (v * 2 ^ k) (2 ^ k)))
  done_lem = elim (Bool-cases (ltb (bits size) k)) [
    | inl past ↦ rw past (all_out past)
    | inr short ↦
        rw (short, short_min short)
          (
            (loop-After size x k).result,
            (loop-After size x k).last some_bits,
            (loop-After size x k).overflow,
          )
  ]

  -- ASL by a count that is 1 to 63 modulo 64: the result is the operand times the power of two, cut
  -- to the size; C and X are the last bit moved out, which is 0 beyond the size; N and Z are of the
  -- result; and V is clear exactly when the result, read as a signed number, is the operand, read
  -- as a signed number, times the power of two.
  pub exec_asl_lem :
      ((exec_asl c size shift x).1 ≡ v * 2 ^ k % modulus size)
      × Shifted
          (exec_asl c size shift x).0
          size
          (v * 2 ^ k % modulus size)
          (v * 2 ^ k / modulus size % 2 == 1)
      × ((flag_v (exec_asl c size shift x).0 ≡ false)
          ↔ (value size (v * 2 ^ k % modulus size) ≡ scale (value size v) (2 ^ k)))
  unfolding exec_asl
  exec_asl_lem =
      let r = v * 2 ^ k % modulus size in
      let carry = v * 2 ^ k / modulus size % 2 == 1 in
      let overflow = not (in_range size (negative size v) (v * 2 ^ k) (2 ^ k)) in
      let finish = shift_done-Shifted c size k r carry overflow (modulus-pos size (v * 2 ^ k)) in
      rw (shift_count shift, nonzero k some_bits, done_lem.0, done_lem.1, done_lem.2)
        (
          finish.0,
          finish.1,
          rw finish.2 (in_range-value size v (2 ^ k) (modulus-pos size x) (pow-pos k)),
        )
