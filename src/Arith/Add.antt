-- ===== src/Arith/Add.antt =====
-- ADD and SUB: the result and every flag, against the true sum and difference.
use m68k_rs.Base.{
  ℕ, ◌+◌, ◌-◌, ◌*◌, ◌/◌, ◌%◌, ◌^◌, ◌<◌, min, Bool, false, ltb, leb, ◌==◌, ◌↔◌, ◌+ℤ◌, ◌-ℤ◌, ◌!=◌,
  wrapping_add, wrapping_sub, ◌≡◌, arith,
}
use m68k_rs.Types.{Size, byte, word, long, msb_mask, modulus}
use m68k_rs.Cpu.State.{CpuCore}
use m68k_rs.Cpu.Status.{flag_x, flag_n, flag_z, flag_v, flag_c}
use m68k_rs.Arith.{exec_add, exec_sub}
use m68k_rs.Arith.Bits.{value, and-mask, and-msb_mask, and_xor_xor, add_carry_lem, sub_carry_lem}

-- The five flags of a state are those of an operation with result `r` and carry `k`, X equal to C.
pub record Flags (c : CpuCore) (size : Size) (r : ℕ) (k : Bool) : Type 0 where
  pub n : flag_n c ≡ leb (msb_mask size) r
  pub z : flag_z c ≡ (r == 0)
  pub carry : flag_c c ≡ k
  pub extend : flag_x c ≡ k

-- A wrapped result, cut to a size, is that of the operands cut to the size.
wrapped_sum :
    (size : Size) (x y : ℕ)
    → wrapping_add x y % modulus size ≡ (x % modulus size + y % modulus size) % modulus size
wrapped_sum byte x y = omega arith
wrapped_sum word x y = omega arith
wrapped_sum long x y = omega arith

pub wrapped_difference :
    (size : Size) (x y : ℕ)
    → x < 2 ^ 32
    → y < 2 ^ 32
    → wrapping_sub x y % modulus size
      ≡ (x % modulus size + modulus size - y % modulus size) % modulus size
wrapped_difference byte x y p q = omega arith
wrapped_difference word x y p q = omega arith
wrapped_difference long x y p q = omega arith

pub modulus-pos : (size : Size) (x : ℕ) → x % modulus size < modulus size
modulus-pos byte x = omega arith
modulus-pos word x = omega arith
modulus-pos long x = omega arith

-- The sign bit of a value of the size is its upper half.
pub sign_test :
    (size : Size) (r : ℕ)
    → r < modulus size
    → (r / msb_mask size % 2 * msb_mask size != 0) ≡ leb (msb_mask size) r
sign_test byte r h = ground arith
sign_test word r h = ground arith
sign_test long r h = ground arith

-- The overflow test `(a ^ b) & (d ^ b) & msb`, on the sign digits.
abbrev pub opposed : Size → ℕ → ℕ → ℕ → Bool
opposed size x y b =
    min ((x / msb_mask size % 2 + b / msb_mask size % 2) % 2)
        ((y / msb_mask size % 2 + b / msb_mask size % 2) % 2)
      * msb_mask size
    != 0

pub opposed_sum :
    (size : Size) (x y : ℕ)
    → x < modulus size
    → y < modulus size
    → let r = (x + y) % modulus size in
      (opposed size x y r ≡ false) ↔ (value size r ≡ value size x +ℤ value size y)
unfolding ◌+ℤ◌
opposed_sum byte x y p q = ground arith
opposed_sum word x y p q = ground arith
opposed_sum long x y p q = ground arith

pub opposed_difference :
    (size : Size) (x y : ℕ)
    → x < modulus size
    → y < modulus size
    → let r = (y + modulus size - x) % modulus size in
      (opposed size x r y ≡ false) ↔ (value size r ≡ value size y -ℤ value size x)
unfolding ◌-ℤ◌
opposed_difference byte x y p q = ground arith
opposed_difference word x y p q = ground arith
opposed_difference long x y p q = ground arith

module _ (c : CpuCore) (size : Size) (src dst : ℕ) where
  abbrev s : ℕ
  s = src % modulus size

  abbrev e : ℕ
  e = dst % modulus size

  abbrev sum : ℕ
  sum = (s + e) % modulus size

  abbrev difference : ℕ
  difference = (e + modulus size - s) % modulus size

  pub exec_add_result : (exec_add c size src dst).1 ≡ sum
  unfolding exec_add
  exec_add_result = rw (and-mask size (wrapping_add src dst)) (wrapped_sum size src dst)

  pub exec_add-Flags : Flags (exec_add c size src dst).0 size sum (leb (modulus size) (s + e))
  unfolding exec_add
  exec_add-Flags =
      rw
        (
          and-mask size src,
          and-mask size dst,
          and-mask size (wrapping_add src dst),
          wrapped_sum size src dst,
          and-msb_mask size sum,
          sign_test size sum (modulus-pos size (s + e)),
          add_carry_lem size s e (modulus-pos size src) (modulus-pos size dst),
        )
        (ground arith)

  pub exec_add_overflow :
      (flag_v (exec_add c size src dst).0 ≡ false) ↔ (value size sum ≡ value size s +ℤ value size e)
  unfolding exec_add
  exec_add_overflow =
      rw
        (
          and-mask size src,
          and-mask size dst,
          and-mask size (wrapping_add src dst),
          wrapped_sum size src dst,
          and_xor_xor size s sum e,
        )
        (ground (arith, opposed_sum size s e (modulus-pos size src) (modulus-pos size dst)))

  pub exec_sub_result : src < 2 ^ 32 → dst < 2 ^ 32 → (exec_sub c size src dst).1 ≡ difference
  unfolding exec_sub
  exec_sub_result p q =
      rw (and-mask size (wrapping_sub dst src)) (wrapped_difference size dst src q p)

  pub exec_sub-Flags :
      src < 2 ^ 32 → dst < 2 ^ 32 → Flags (exec_sub c size src dst).0 size difference (ltb e s)
  unfolding exec_sub
  exec_sub-Flags p q =
      rw
        (
          and-mask size src,
          and-mask size dst,
          and-mask size (wrapping_sub dst src),
          wrapped_difference size dst src q p,
          and-msb_mask size difference,
          sign_test size difference (modulus-pos size (e + modulus size - s)),
          sub_carry_lem size s e (modulus-pos size src) (modulus-pos size dst),
        )
        (ground arith)

  pub exec_sub_overflow :
      src < 2 ^ 32
      → dst < 2 ^ 32
      → (flag_v (exec_sub c size src dst).0 ≡ false)
        ↔ (value size difference ≡ value size e -ℤ value size s)
  unfolding exec_sub
  exec_sub_overflow p q =
      rw
        (
          and-mask size src,
          and-mask size dst,
          and-mask size (wrapping_sub dst src),
          wrapped_difference size dst src q p,
          and_xor_xor size s e difference,
        )
        (ground (arith, opposed_difference size s e (modulus-pos size src) (modulus-pos size dst)))

-- ADD at every size: the result is the sum of the operands cut to the size; C and X are the carry out
-- of it, N its sign and Z whether it is 0; and V is clear exactly when the result, read as a signed
-- number, is the sum of the operands read as signed numbers.
pub exec_add_lem :
    (c : CpuCore) (size : Size) (src dst : ℕ)
    → let m = modulus size in
      let r = (src % m + dst % m) % m in
      ((exec_add c size src dst).1 ≡ r)
      × Flags (exec_add c size src dst).0 size r (leb m (src % m + dst % m))
      × ((flag_v (exec_add c size src dst).0 ≡ false)
          ↔ (value size r ≡ value size (src % m) +ℤ value size (dst % m)))
exec_add_lem c size src dst = (
  exec_add_result c size src dst,
  exec_add-Flags c size src dst,
  exec_add_overflow c size src dst,
)

-- SUB at every size, on 32-bit operands: the result is the destination less the source, cut to the
-- size; C and X are set when the source is the larger as an unsigned number; N and Z are of the
-- result; and V is clear exactly when the result, read as a signed number, is the signed difference.
pub exec_sub_lem :
    (c : CpuCore) (size : Size) (src dst : ℕ)
    → src < 2 ^ 32
    → dst < 2 ^ 32
    → let m = modulus size in
      let r = (dst % m + m - src % m) % m in
      ((exec_sub c size src dst).1 ≡ r)
      × Flags (exec_sub c size src dst).0 size r (ltb (dst % m) (src % m))
      × ((flag_v (exec_sub c size src dst).0 ≡ false)
          ↔ (value size r ≡ value size (dst % m) -ℤ value size (src % m)))
exec_sub_lem c size src dst p q = (
  exec_sub_result c size src dst p q,
  exec_sub-Flags c size src dst p q,
  exec_sub_overflow c size src dst p q,
)
