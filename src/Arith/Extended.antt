-- ===== src/Arith/Extended.antt =====
-- ADDX and SUBX, and arithmetic on operands of twice the size.
use m68k_rs.Base.{
  ℕ, ◌+◌, ◌-◌, ◌*◌, ◌%◌, ◌^◌, ◌<◌, ◌≤◌, ◌&&◌, Bool, ltb, leb, ◌==◌, if◌then◌else◌, u32, ◌≡◌, arith,
}
use m68k_rs.Types.{Size, byte, word, long, mask, modulus}
use m68k_rs.Cpu.State.{CpuCore}
use m68k_rs.Cpu.Status.{flag_x, flag_z, flag_c}
use m68k_rs.Arith.{exec_add, exec_sub, exec_addx, exec_subx}
use m68k_rs.Arith.Bits.{and-mask}
use m68k_rs.Arith.Add.{
  modulus-pos, exec_add_result, exec_add-Flags, exec_sub_result, exec_sub-Flags,
}

-- X as a number.
abbrev pub extend : CpuCore → ℕ
extend c = if flag_x c then 1 else 0

-- C, X and Z after an operation with extend whose result is `r`; Z can only be cleared.
pub record Extends (before c : CpuCore) (r : ℕ) (k : Bool) : Type 0 where
  pub carry : flag_c c ≡ k
  pub extended : flag_x c ≡ k
  pub z : flag_z c ≡ ((r == 0) && flag_z before)

cut_sum : (size : Size) (n : ℕ) → n < 2 * modulus size → u32 n % modulus size ≡ n % modulus size
cut_sum byte n h = omega arith
cut_sum word n h = omega arith
cut_sum long n h = omega arith

cut_difference :
    (size : Size) (y z : ℕ)
    → y < modulus size
    → z ≤ modulus size
    → u32 ((y + 2 ^ 64 - z) % 2 ^ 64) % modulus size ≡ (y + modulus size - z) % modulus size
cut_difference byte y z p q = omega arith
cut_difference word y z p q = omega arith
cut_difference long y z p q = omega arith

carry_test : (size : Size) (n : ℕ) → ltb (mask size) n ≡ leb (modulus size) n
carry_test byte n = ground arith
carry_test word n = ground arith
carry_test long n = ground arith

operands_bound :
    (size : Size) (c : CpuCore) (x y : ℕ)
    → x % modulus size + y % modulus size + extend c < 2 * modulus size
operands_bound byte c x y = ground arith
operands_bound word c x y = ground arith
operands_bound long c x y = ground arith

source_bound : (size : Size) (c : CpuCore) (x : ℕ) → x % modulus size + extend c ≤ modulus size
source_bound byte c x = ground arith
source_bound word c x = ground arith
source_bound long c x = ground arith

module _ (c : CpuCore) (size : Size) (src dst : ℕ) where
  abbrev s : ℕ
  s = src % modulus size

  abbrev e : ℕ
  e = dst % modulus size

  -- ADDX: the result is the sum of the operands and X, cut to the size; C and X are the carry out of
  -- it; and Z stays set only if the result is 0.
  pub exec_addx_lem :
      let n = e + s + extend c in
      ((exec_addx c size src dst).1 ≡ n % modulus size)
      × Extends c (exec_addx c size src dst).0 (n % modulus size) (leb (modulus size) n)
  unfolding exec_addx
  exec_addx_lem =
      let n = e + s + extend c in
      rw
        (
          and-mask size src,
          and-mask size dst,
          and-mask size (u32 n),
          cut_sum size n (operands_bound size c dst src),
          carry_test size n,
        )
        (ground arith)

  -- SUBX: the result is the destination less the source and X, cut to the size; C and X are the
  -- borrow; and Z stays set only if the result is 0.
  pub exec_subx_lem :
      let r = (e + modulus size - (s + extend c)) % modulus size in
      ((exec_subx c size src dst).1 ≡ r)
      × Extends c (exec_subx c size src dst).0 r (ltb e (s + extend c))
  unfolding exec_subx
  exec_subx_lem =
      let n = s + extend c in
      rw
        (
          and-mask size src,
          and-mask size dst,
          and-mask size (u32 ((e + 2 ^ 64 - n) % 2 ^ 64)),
          cut_difference size e n (modulus-pos size dst) (source_bound size c src),
        )
        (ground arith)

-- The true sum of two operands of twice the size, from the halves.
join_sum :
    (size : Size) (al ah bl bh lo hi : ℕ) (k1 k2 : Bool)
    → lo ≡ (al + bl) % modulus size
    → k1 ≡ leb (modulus size) (al + bl)
    → hi ≡ (bh + ah + (if k1 then 1 else 0)) % modulus size
    → k2 ≡ leb (modulus size) (bh + ah + (if k1 then 1 else 0))
    → al < modulus size
    → ah < modulus size
    → bl < modulus size
    → bh < modulus size
    → lo + hi * modulus size + (if k2 then modulus size * modulus size else 0)
      ≡ al + ah * modulus size + (bl + bh * modulus size)
join_sum byte al ah bl bh lo hi k1 k2 e1 e2 e3 e4 h1 h2 h3 h4 = ground arith
join_sum word al ah bl bh lo hi k1 k2 e1 e2 e3 e4 h1 h2 h3 h4 = ground arith
join_sum long al ah bl bh lo hi k1 k2 e1 e2 e3 e4 h1 h2 h3 h4 = ground arith

join_difference :
    (size : Size) (al ah bl bh lo hi : ℕ) (k1 k2 : Bool)
    → lo ≡ (bl + modulus size - al) % modulus size
    → k1 ≡ ltb bl al
    → hi ≡ (bh + modulus size - (ah + (if k1 then 1 else 0))) % modulus size
    → k2 ≡ ltb bh (ah + (if k1 then 1 else 0))
    → al < modulus size
    → ah < modulus size
    → bl < modulus size
    → bh < modulus size
    → lo + hi * modulus size + (al + ah * modulus size)
      ≡ bl + bh * modulus size + (if k2 then modulus size * modulus size else 0)
join_difference byte al ah bl bh lo hi k1 k2 e1 e2 e3 e4 h1 h2 h3 h4 = ground arith
join_difference word al ah bl bh lo hi k1 k2 e1 e2 e3 e4 h1 h2 h3 h4 = ground arith
join_difference long al ah bl bh lo hi k1 k2 e1 e2 e3 e4 h1 h2 h3 h4 = ground arith

within : (size : Size) (x : ℕ) → x < modulus size → (x % modulus size ≡ x) × (x < 2 ^ 32)
within byte x h = omega arith
within word x h = omega arith
within long x h = omega arith

both_zero :
    (hi lo : ℕ) {x y : ℕ} (z z' : Bool)
    → lo ≡ y
    → hi ≡ x
    → z' ≡ (y == 0)
    → z ≡ ((x == 0) && z')
    → z ≡ ((hi == 0) && (lo == 0))
both_zero hi lo z z' p q e f = ground arith

module _ (c : CpuCore) (size : Size) (al ah bl bh : ℕ) (hal : al < modulus size)
    (hah : ah < modulus size) (hbl : bl < modulus size) (hbh : bh < modulus size) where
  abbrev fit : (x : ℕ) → x < modulus size → x % modulus size ≡ x
  fit x h = (within size x h).0

  narrow : (x : ℕ) → x < modulus size → x < 2 ^ 32
  narrow x h = (within size x h).1

  -- ADD of the low halves followed by ADDX of the high halves adds operands of twice the size, each
  -- half below the modulus of the size: the two results and the final carry are the whole sum, and
  -- Z is set exactly when both results are 0.
  pub exec_add-exec_addx :
      let lo = exec_add c size al bl in
      let hi = exec_addx lo.0 size ah bh in
      (lo.1 + hi.1 * modulus size + (if flag_c hi.0 then modulus size * modulus size else 0)
        ≡ al + ah * modulus size + (bl + bh * modulus size))
      × (flag_z hi.0 ≡ ((hi.1 == 0) && (lo.1 == 0)))
  exec_add-exec_addx =
      let lo = exec_add c size al bl in
      let hi = exec_addx lo.0 size ah bh in
      let f = exec_add-Flags c size al bl in
      let g = exec_addx_lem lo.0 size ah bh in
      (
        join_sum size al ah bl bh lo.1 hi.1 (flag_x lo.0) (flag_c hi.0)
            (rw (fit al hal, fit bl hbl) at (exec_add_result c size al bl))
            (rw (fit al hal, fit bl hbl) at f.extend) (rw (fit ah hah, fit bh hbh) at g.0)
            (rw (fit ah hah, fit bh hbh) at g.1.carry) hal hah hbl hbh,
        both_zero hi.1 lo.1 (flag_z hi.0) (flag_z lo.0) (exec_add_result c size al bl) g.0 f.z
            g.1.z,
      )

  -- SUB of the low halves followed by SUBX of the high halves subtracts operands of twice the size,
  -- each half below the modulus of the size: the two results are the destination less the source,
  -- the final carry is the borrow of the whole, and Z is set exactly when both results are 0.
  pub exec_sub-exec_subx :
      let lo = exec_sub c size al bl in
      let hi = exec_subx lo.0 size ah bh in
      (lo.1 + hi.1 * modulus size + (al + ah * modulus size)
        ≡ bl + bh * modulus size + (if flag_c hi.0 then modulus size * modulus size else 0))
      × (flag_z hi.0 ≡ ((hi.1 == 0) && (lo.1 == 0)))
  exec_sub-exec_subx =
      let lo = exec_sub c size al bl in
      let hi = exec_subx lo.0 size ah bh in
      let r = exec_sub_result c size al bl (narrow al hal) (narrow bl hbl) in
      let f = exec_sub-Flags c size al bl (narrow al hal) (narrow bl hbl) in
      let g = exec_subx_lem lo.0 size ah bh in
      (
        join_difference size al ah bl bh lo.1 hi.1 (flag_x lo.0) (flag_c hi.0)
            (rw (fit al hal, fit bl hbl) at r) (rw (fit al hal, fit bl hbl) at f.extend)
            (rw (fit ah hah, fit bh hbh) at g.0) (rw (fit ah hah, fit bh hbh) at g.1.carry) hal hah
            hbl hbh,
        both_zero hi.1 lo.1 (flag_z hi.0) (flag_z lo.0) r g.0 f.z g.1.z,
      )
