-- ===== src/Cpu/Status/Laws.antt =====
-- The status register round trip, and the conditions.
use m68k_rs.Base.{
  ℕ, zero, suc, ◌+◌, ◌*◌, ◌/◌, ◌%◌, ◌^◌, ◌<◌, bit_and, bit_or, ◌==◌, if◌then◌else◌, u8, u16, ltb,
  ◌||◌, refl, ◌≡◌, arith, bit_or_disjoint, bit_and_pow, bit_and_mask, bit_and_field, bit_and-lt,
  get_bit, ◌∙◌,
}
use m68k_rs.Cpu.State.{CpuCore}
use m68k_rs.Cpu.Status.{get_sr, sm_of, set_sr, set_irq, check_interrupts}

-- Ten fields from the highest to the lowest, none reaching into the next: `|` of them is their sum.
or_chain :
    (t1 t0 s m i x n z v y : ℕ)
    → t1 % 2 ^ 15 ≡ 0
    → (t0 % 2 ^ 14 ≡ 0) × (t0 < 2 ^ 15)
    → (s % 2 ^ 13 ≡ 0) × (s < 2 ^ 14)
    → (m % 2 ^ 12 ≡ 0) × (m < 2 ^ 13)
    → (i % 2 ^ 8 ≡ 0) × (i < 2 ^ 12)
    → (x % 2 ^ 4 ≡ 0) × (x < 2 ^ 8)
    → (n % 2 ^ 3 ≡ 0) × (n < 2 ^ 4)
    → (z % 2 ^ 2 ≡ 0) × (z < 2 ^ 3)
    → (v % 2 ≡ 0) × (v < 2 ^ 2)
    → y < 2
    → bit_or
        (bit_or (bit_or (bit_or (bit_or (bit_or (bit_or (bit_or (bit_or t1 t0) s) m) i) x) n) z) v)
        y
      ≡ t1 + t0 + s + m + i + x + n + z + v + y
or_chain t1 t0 s m i x n z v y h1 h2 h3 h4 h5 h6 h7 h8 h9 h10 = rw (
  bit_or_disjoint 15 t1 t0 (omega arith) (omega arith),
  bit_or_disjoint 14 (t1 + t0) s (omega arith) (omega arith),
  bit_or_disjoint 13 (t1 + t0 + s) m (omega arith) (omega arith),
  bit_or_disjoint 12 (t1 + t0 + s + m) i (omega arith) (omega arith),
  bit_or_disjoint 8 (t1 + t0 + s + m + i) x (omega arith) (omega arith),
  bit_or_disjoint 4 (t1 + t0 + s + m + i + x) n (omega arith) (omega arith),
  bit_or_disjoint 3 (t1 + t0 + s + m + i + x + n) z (omega arith) (omega arith),
  bit_or_disjoint 2 (t1 + t0 + s + m + i + x + n + z) v (omega arith) (omega arith),
  bit_or_disjoint 1 (t1 + t0 + s + m + i + x + n + z + v) y (omega arith) (omega arith),
)

z_bounds :
    (c : CpuCore) → let z : ℕ = if c.not_z_flag == 0 then 4 else 0 in (z % 2 ^ 2 ≡ 0) × (z < 2 ^ 3)
z_bounds c = ground arith

-- The status register as the sum of its fields.
pub get_sr_lem :
    (c : CpuCore)
    → get_sr c
      ≡ c.t1_flag / 2 ^ 15 % 2 * 2 ^ 15
        + c.t0_flag / 2 ^ 14 % 2 * 2 ^ 14
        + c.s_flag / 4 % 2 * 2 ^ 13
        + c.m_flag / 2 % 2 * 2 ^ 12
        + c.int_mask / 2 ^ 8 % 8 * 2 ^ 8
        + c.x_flag / 2 ^ 8 % 2 * 16
        + c.n_flag / 2 ^ 7 % 2 * 8
        + (if c.not_z_flag == 0 then 4 else 0)
        + c.v_flag / 2 ^ 7 % 2 * 2
        + c.c_flag / 2 ^ 8 % 2
unfolding get_sr
get_sr_lem c =
    rw
      (
        bit_and_pow 15 c.t1_flag,
        bit_and_pow 14 c.t0_flag,
        bit_and_pow 2 c.s_flag,
        bit_and_pow 1 c.m_flag,
        bit_and_field 8 3 c.int_mask,
        bit_and_pow 8 c.x_flag,
        bit_and_pow 7 c.n_flag,
        bit_and_pow 7 c.v_flag,
        bit_and_pow 8 c.c_flag,
      )
      (or_chain (u16 (get_bit 15 c.t1_flag * 2 ^ 15)) (u16 (get_bit 14 c.t0_flag * 2 ^ 14))
          (u16 (get_bit 2 c.s_flag * 2 ^ 2 * 2 ^ 11)) (u16 (get_bit 1 c.m_flag * 2 ^ 1 * 2 ^ 11))
          (u16 (c.int_mask / 2 ^ 8 % 2 ^ 3 * 2 ^ 8)) (u16 (get_bit 8 c.x_flag * 2 ^ 8 / 2 ^ 4))
          (u16 (get_bit 7 c.n_flag * 2 ^ 7 / 2 ^ 4)) (if c.not_z_flag == 0 then 4 else 0)
          (u16 (get_bit 7 c.v_flag * 2 ^ 7 / 2 ^ 6)) (u16 (get_bit 8 c.c_flag * 2 ^ 8 / 2 ^ 8))
          (omega arith) (omega arith) (omega arith) (omega arith) (omega arith) (omega arith)
          (omega arith) (z_bounds c) (omega arith) (omega arith)
        ∙ omega arith)

-- The status register that a word stands for: the implemented bits, M only together with S.
abbrev pub legal_sr : ℕ → ℕ
legal_sr x =
    x / 2 ^ 13 % 8 * 2 ^ 13
    + (if x / 2 ^ 13 % 2 == 1 then x / 2 ^ 12 % 2 * 2 ^ 12 else 0)
    + x / 2 ^ 8 % 8 * 2 ^ 8
    + x % 32

-- `!MFLAG_SET` clears bit 1 of what is left of S and M when S is clear.
clear_m : (k : ℕ) → k < 2 → bit_and (k * 2) 0xffff_fffd ≡ 0
clear_m zero h = refl
clear_m (suc zero) h = refl
clear_m (suc (suc k)) h = absurd (omega arith)

sm_of_lem : (x : ℕ) → sm_of x ≡ (if x / 2 ^ 13 % 2 == 1 then 4 + x / 2 ^ 12 % 2 * 2 else 0)
unfolding sm_of
sm_of_lem x =
    rw (bit_and_field 1 2 (x / 2 ^ 11), bit_and_pow 2 (x / 2 ^ 11 / 2 % 4 * 2))
      (ground (arith, clear_m (x / 2 ^ 11 / 2 % 4)))

-- Each field after `set_sr`, where `x` is the masked word.
module _ (c : CpuCore) (sr : ℕ) where
  abbrev masked : ℕ
  masked = bit_and sr (u16 c.sr_mask)

  set_sr_system :
      ((set_sr c sr).t1_flag ≡ masked / 2 ^ 15 % 2 * 2 ^ 15)
      × ((set_sr c sr).t0_flag ≡ masked / 2 ^ 14 % 2 * 2 ^ 14)
      × ((set_sr c sr).int_mask ≡ masked / 2 ^ 8 % 8 * 2 ^ 8)
  unfolding set_sr
  set_sr_system = (bit_and_pow 15 masked, bit_and_pow 14 masked, bit_and_field 8 3 masked)

  set_sr_modes :
      ((set_sr c sr).s_flag ≡ (if masked / 2 ^ 13 % 2 == 1 then 4 else 0))
      × ((set_sr c sr).m_flag ≡ (if masked / 2 ^ 13 % 2 == 1 then masked / 2 ^ 12 % 2 * 2 else 0))
  unfolding set_sr
  set_sr_modes = (
    bit_and_pow 2 (sm_of masked) ∙ ground (arith, sm_of_lem masked),
    bit_and_pow 1 (sm_of masked) ∙ ground (arith, sm_of_lem masked),
  )

  set_sr_codes :
      ((set_sr c sr).x_flag ≡ (if masked / 16 % 2 == 1 then 0x100 else 0))
      × ((set_sr c sr).n_flag ≡ (if masked / 8 % 2 == 1 then 0x80 else 0))
      × ((set_sr c sr).not_z_flag ≡ (if masked / 4 % 2 == 1 then 0 else 1))
      × ((set_sr c sr).v_flag ≡ (if masked / 2 % 2 == 1 then 0x80 else 0))
      × ((set_sr c sr).c_flag ≡ (if masked % 2 == 1 then 0x100 else 0))
  unfolding set_sr
  set_sr_codes = (
    ground (arith, bit_and_pow 4 (u8 masked)),
    ground (arith, bit_and_pow 3 (u8 masked)),
    ground (arith, bit_and_pow 2 (u8 masked)),
    ground (arith, bit_and_pow 1 (u8 masked)),
    ground (arith, bit_and_pow 0 (u8 masked)),
  )

  -- What `get_sr` reads of those fields.
  set_sr_digits :
      ((set_sr c sr).s_flag / 4 % 2 ≡ masked / 2 ^ 13 % 2)
      × ((set_sr c sr).m_flag / 2 % 2 * 2 ^ 12
          ≡ (if masked / 2 ^ 13 % 2 == 1 then masked / 2 ^ 12 % 2 * 2 ^ 12 else 0))
      × ((set_sr c sr).x_flag / 2 ^ 8 % 2 ≡ masked / 16 % 2)
      × ((set_sr c sr).n_flag / 2 ^ 7 % 2 ≡ masked / 8 % 2)
      × ((if (set_sr c sr).not_z_flag == 0 then 4 else 0) ≡ masked / 4 % 2 * 4)
      × ((set_sr c sr).v_flag / 2 ^ 7 % 2 ≡ masked / 2 % 2)
      × ((set_sr c sr).c_flag / 2 ^ 8 % 2 ≡ masked % 2)
  set_sr_digits = (
    rw set_sr_modes.0 (ground arith),
    rw set_sr_modes.1 (ground arith),
    rw set_sr_codes.0 (ground arith),
    rw set_sr_codes.1 (ground arith),
    rw set_sr_codes.2 (ground arith),
    rw set_sr_codes.3 (ground arith),
    rw set_sr_codes.4 (ground arith),
  )

-- `set_sr` of a 16-bit word followed by `get_sr` gives back the bits that the processor's mask lets
-- through and that the status register has, with M cleared when S is clear.
pub get_sr-set_sr :
    (c : CpuCore) (sr : ℕ)
    → sr < 2 ^ 16
    → get_sr (set_sr c sr) ≡ legal_sr (bit_and sr (u16 c.sr_mask))
get_sr-set_sr c sr h = omega (
  arith,
  get_sr_lem (set_sr c sr),
  set_sr_system c sr,
  set_sr_digits c sr,
  bit_and-lt 16 sr (u16 c.sr_mask) h,
)

-- After `set_sr`, a request of level `level`, below 8, is serviced exactly when it is 7 or above
-- the mask that the word holds.
pub check_interrupts-set_sr :
    (c : CpuCore) (sr level : ℕ)
    → level < 8
    → check_interrupts (set_irq (set_sr c sr) level)
      ≡ (level == 7 || ltb (bit_and sr (u16 c.sr_mask) / 2 ^ 8 % 8) level)
unfolding check_interrupts set_irq
check_interrupts-set_sr c sr level h = ground (arith, set_sr_system c sr, bit_and_mask 3 level)
