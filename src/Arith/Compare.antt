-- ===== src/Arith/Compare.antt =====
-- CMP and the conditions that branch instructions test after it.
use m68k_rs.Base.{
  ℕ, ◌+◌, ◌-◌, ◌%◌, ◌^◌, ◌<◌, not, ltb, leb, ◌==◌, ltb_ℤ, leb_ℤ, wrapping_sub, ◌≡◌, arith,
}
use m68k_rs.Types.{Size, byte, word, long, msb_mask, modulus}
use m68k_rs.Cpu.State.{CpuCore, a}
use m68k_rs.Cpu.Status.{flag_n, flag_z, flag_v, flag_c, test_condition}
use m68k_rs.Arith.{exec_cmp, exec_cmpa, address_source}
use m68k_rs.Arith.Bits.{value, and-mask, and-msb_mask, and_xor_xor}
use m68k_rs.Arith.Add.{wrapped_difference, modulus-pos, sign_test, opposed}

-- The flags that a comparison sets, X left alone.
pub record Compared (before c : CpuCore) (size : Size) (x y : ℕ) : Type 0 where
  pub n : flag_n c ≡ leb (msb_mask size) ((y + modulus size - x) % modulus size)
  pub z : flag_z c ≡ ((y + modulus size - x) % modulus size == 0)
  pub v : flag_v c ≡ opposed size x ((y + modulus size - x) % modulus size) y
  pub carry : flag_c c ≡ ltb y x
  pub extend : c.x_flag ≡ before.x_flag

exec_cmp-Compared :
    (c : CpuCore) (size : Size) (src dst : ℕ)
    → src < 2 ^ 32
    → dst < 2 ^ 32
    → Compared c (exec_cmp c size src dst).0 size (src % modulus size) (dst % modulus size)
unfolding exec_cmp
exec_cmp-Compared c size src dst p q =
    let x = src % modulus size in
    let y = dst % modulus size in
    let r = (y + modulus size - x) % modulus size in
    rw
      (
        and-mask size src,
        and-mask size dst,
        and-mask size (wrapping_sub dst src),
        wrapped_difference size dst src q p,
        and-msb_mask size r,
        sign_test size r (modulus-pos size (y + modulus size - x)),
        and_xor_xor size x y r,
      )
      (ground arith)

-- The unsigned and signed orders that the conditions stand for.
pub record Ordered (c : CpuCore) (size : Size) (x y : ℕ) : Type 0 where
  pub hi : test_condition c 0x2 ≡ ltb x y
  pub ls : test_condition c 0x3 ≡ leb y x
  pub cc_hs : test_condition c 0x4 ≡ leb x y
  pub cs_lo : test_condition c 0x5 ≡ ltb y x
  pub ne : test_condition c 0x6 ≡ not (y == x)
  pub eq : test_condition c 0x7 ≡ (y == x)
  pub ge : test_condition c 0xc ≡ leb_ℤ (value size x) (value size y)
  pub lt : test_condition c 0xd ≡ ltb_ℤ (value size y) (value size x)
  pub gt : test_condition c 0xe ≡ ltb_ℤ (value size x) (value size y)
  pub le : test_condition c 0xf ≡ leb_ℤ (value size y) (value size x)

Compared-Ordered :
    {b c : CpuCore} (size : Size) (x y : ℕ)
    → x < modulus size
    → y < modulus size
    → Compared b c size x y
    → Ordered c size x y
unfolding test_condition
Compared-Ordered byte x y p q h = ground arith
Compared-Ordered word x y p q h = ground arith
Compared-Ordered long x y p q h = ground arith

-- After CMP at any size, on 32-bit operands, the ten ordering conditions hold exactly when the
-- destination stands in that order to the source: HI, LS, CC and CS as unsigned numbers of the size,
-- NE and EQ, and GE, LT, GT and LE as signed numbers. X is as it was.
pub exec_cmp_lem :
    (c : CpuCore) (size : Size) (src dst : ℕ)
    → src < 2 ^ 32
    → dst < 2 ^ 32
    → Ordered (exec_cmp c size src dst).0 size (src % modulus size) (dst % modulus size)
      × ((exec_cmp c size src dst).0.x_flag ≡ c.x_flag)
exec_cmp_lem c size src dst p q =
    let compared = exec_cmp-Compared c size src dst p q in
    (
      Compared-Ordered size (src % modulus size) (dst % modulus size) (modulus-pos size src)
          (modulus-pos size dst) compared,
      compared.extend,
    )

address_source-lt : (size : Size) (src : ℕ) → src < 2 ^ 32 → address_source size src < 2 ^ 32
unfolding address_source
address_source-lt byte src h = h
address_source-lt word src h = ground arith
address_source-lt long src h = h

long_operand : (x : ℕ) → x < 2 ^ 32 → x % 2 ^ 32 ≡ x
long_operand x h = omega arith

-- CMPA, on a source and a register of 32 bits, compares the whole address register with the source,
-- a word source sign-extended, and the conditions order the two in the same way, whatever the size
-- of the source.
pub exec_cmpa_lem :
    (c : CpuCore) (size : Size) (src reg : ℕ)
    → src < 2 ^ 32
    → a c reg < 2 ^ 32
    → Ordered (exec_cmpa c size src reg).0 long (address_source size src) (a c reg)
unfolding exec_cmpa exec_cmp
exec_cmpa_lem c size src reg p q =
    let r = address_source-lt size src p in
    rw (long_operand (address_source size src) r, long_operand (a c reg) q) at
      (exec_cmp_lem c long (address_source size src) (a c reg) r q).0
