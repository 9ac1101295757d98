-- ===== src/Bcd/Laws.antt =====
-- src/core/instructions/bcd.rs: ABCD, SBCD and NBCD on decimal digits.
use m68k_rs.Base.{
  ℕ, zero, suc, bit_and, bit_or, Bool, true, false, ◌&&◌, ◌==◌, ◌!=◌, if◌then◌else◌,
  bit_or-zero_left, bit_or-zero_right, ==_iff, ◌≡◌, refl, ◌∙◌, arith, Bool-cases, inl, inr,
}
use m68k_rs.Cpu.State.{CpuCore}
use m68k_rs.Cpu.Status.{flag_x, flag_c, flag_z}
use m68k_rs.Bcd.{
  nbcd_value, negate_digits, add_digits, sub_digits, bcd_add, bcd_sub, bcd_add_sst, bcd_sub_sst,
  bcd_set_nvz, x_in, set_xc,
}
use m68k_rs.Bcd.Digits.{
  Decimal, Sum, Difference, add_digits_lem, sub_digits_lem, negate_digits_lem, sst-Sum,
  sst-Difference, x_in-lt,
}

carried : (b : Bool) → ((if b then 0x100 else 0) != 0) ≡ b
carried true = refl
carried false = refl

-- Z is sticky: it stays set only on a result of 0.
sticky : (z r : ℕ) → (bit_or z r == 0) ≡ (z == 0 && r == 0)
sticky zero zero = refl
sticky zero (suc r) = elim (Bool-cases (bit_or 0 (suc r) == 0)) [
  | inl zero' ↦
      absurd (omega (arith, bit_or-zero_right 0 (suc r) ((==_iff (bit_or 0 (suc r)) 0).0 zero')))
  | inr some ↦ some ∙ (let no : false ≡ (suc r == 0) = ground arith in no)
]
sticky (suc z) r = elim (Bool-cases (bit_or (suc z) r == 0)) [
  | inl zero' ↦
      absurd (omega (arith, bit_or-zero_left (suc z) r ((==_iff (bit_or (suc z) r) 0).0 zero')))
  | inr some ↦ some ∙ (let no : false ≡ (suc z == 0 && r == 0) = ground arith in no)
]

sst_sticky : (z r : ℕ) → ((if r != 0 then r else z) == 0) ≡ (z == 0 && r == 0)
sst_sticky z r = ground arith

-- X, C and Z after a decimal operation with the carry `carry` and the result `r`.
pub record Decided (c c' : CpuCore) (r : ℕ) (carry : Bool) : Type 0 where
  pub c_set : flag_c c' ≡ carry
  pub x_set : flag_x c' ≡ carry
  pub z_kept : flag_z c' ≡ (flag_z c && r == 0)

hardware-Decided :
    (c : CpuCore) (r : ℕ) (carry v : Bool) → Decided c (bcd_set_nvz (set_xc c carry) r v) r carry
unfolding bcd_set_nvz
hardware-Decided c r carry v = record {
  c_set = carried carry;
  x_set = carried carry;
  z_kept = sticky c.not_z_flag r;
}

hardware_carry :
    (c : CpuCore) (r : ℕ) (carry v : Bool) → flag_c (bcd_set_nvz (set_xc c carry) r v) ≡ carry
unfolding bcd_set_nvz
hardware_carry c r carry v = carried carry

sst_add-Decided :
    (c : CpuCore) (s d : ℕ)
    → Decided c (bcd_add_sst c s d).0 (bcd_add_sst c s d).1 (flag_c (bcd_add_sst c s d).0)
unfolding bcd_add_sst
sst_add-Decided c s d = record {
  c_set = refl;
  x_set = refl;
  z_kept = sst_sticky c.not_z_flag (bcd_add_sst c s d).1;
}

sst_sub-Decided :
    (c : CpuCore) (s d : ℕ)
    → Decided c (bcd_sub_sst c s d).0 (bcd_sub_sst c s d).1 (flag_c (bcd_sub_sst c s d).0)
unfolding bcd_sub_sst
sst_sub-Decided c s d = record {
  c_set = refl;
  x_set = refl;
  z_kept = sst_sticky c.not_z_flag (bcd_sub_sst c s d).1;
}

chosen : {A : Type 0} (b : Bool) (x y : A) (P : A → Type 0) → P x → P y → P (if b then x else y)
chosen true x y P p q = p
chosen false x y P p q = q

-- ABCD on bytes of two decimal digits adds them and X: the result is the sum modulo 100 as two
-- digits, C and X are the carry out of 100, and Z is cleared by a result other than 0 and kept
-- otherwise. The hardware model and the model of the test fixtures agree on this.
pub bcd_add_lem :
    (c : CpuCore) (s d : ℕ)
    → Decimal s
    → Decimal d
    → let out = bcd_add c s d in
      Sum s d (x_in c) out.1 (flag_c out.0) × Decided c out.0 out.1 (flag_c out.0)
unfolding bcd_add
bcd_add_lem c s d hs hd =
    let sums = add_digits s d (x_in c) in
    let r = bit_and sums.1 0xff in
    let v = bit_and sums.0 0x80 == 0 && bit_and sums.1 0x80 != 0 in
    chosen c.sst_m68000_compat (bcd_add_sst c s d) (bcd_set_nvz (set_xc c sums.2) r v, r)
      (λ out. Sum s d (x_in c) out.1 (flag_c out.0) × Decided c out.0 out.1 (flag_c out.0))
      (sst-Sum c s d hs hd, sst_add-Decided c s d)
      (rw (hardware_carry c r sums.2 v)
        (add_digits_lem s d (x_in c) hs hd (x_in-lt c), hardware-Decided c r sums.2 v))

-- SBCD on bytes of two decimal digits subtracts the first, and X, from the second: the result is
-- the difference modulo 100 as two digits, C and X are the borrow, and Z is cleared by a result
-- other than 0 and kept otherwise. The hardware model and the model of the test fixtures agree on
-- this.
pub bcd_sub_lem :
    (c : CpuCore) (s d : ℕ)
    → Decimal s
    → Decimal d
    → let out = bcd_sub c s d in
      Difference s d (x_in c) out.1 (flag_c out.0) × Decided c out.0 out.1 (flag_c out.0)
unfolding bcd_sub
bcd_sub_lem c s d hs hd =
    let sums = sub_digits s d (x_in c) in
    let r = bit_and sums.1 0xff in
    let v = bit_and sums.0 0x80 != 0 && bit_and sums.1 0x80 == 0 in
    chosen c.sst_m68000_compat (bcd_sub_sst c s d) (bcd_set_nvz (set_xc c sums.2) r v, r)
      (λ out. Difference s d (x_in c) out.1 (flag_c out.0) × Decided c out.0 out.1 (flag_c out.0))
      (sst-Difference c s d hs hd, sst_sub-Decided c s d)
      (rw (hardware_carry c r sums.2 v)
        (sub_digits_lem s d (x_in c) hs hd (x_in-lt c), hardware-Decided c r sums.2 v))

no_digits : Decimal 0
no_digits = record { low = omega arith; high = omega arith }

-- NBCD on a byte of two decimal digits gives the ten's complement less X: the result is 0 less the
-- operand and X modulo 100 as two digits, C and X are the borrow, and Z is cleared by a result other
-- than 0 and kept otherwise. The hardware model and the model of the test fixtures agree on this.
pub nbcd_value_lem :
    (c : CpuCore) (d : ℕ)
    → Decimal d
    → let out = nbcd_value c d in
      Difference d 0 (x_in c) out.1 (flag_c out.0) × Decided c out.0 out.1 (flag_c out.0)
unfolding nbcd_value
nbcd_value_lem c d hd =
    let sums = negate_digits d (x_in c) in
    let r = bit_and sums.1 0xff in
    let v = bit_and sums.0 0x80 != 0 && bit_and sums.1 0x80 == 0 in
    chosen c.sst_m68000_compat (bcd_sub_sst c d 0) (bcd_set_nvz (set_xc c sums.2) r v, r)
      (λ out. Difference d 0 (x_in c) out.1 (flag_c out.0) × Decided c out.0 out.1 (flag_c out.0))
      (sst-Difference c d 0 hd no_digits, sst_sub-Decided c d 0)
      (rw (hardware_carry c r sums.2 v)
        (negate_digits_lem d (x_in c) hd (x_in-lt c), hardware-Decided c r sums.2 v))
