-- ===== src/Arith/Extension.antt =====
-- src/core/instructions/integer_arith.rs: EXT and EXTB on signed values.
use m68k_rs.Base.{
  ℕ, ◌+◌, ◌*◌, ◌/◌, ◌%◌, ◌^◌, ◌<◌, bit_and, bit_or, bit_or_comm, bit_or_fields, bit_and_field, u16,
  sext8, sext16, ◌≡◌, refl, ap, ◌∙◌, arith,
}
use m68k_rs.Types.{Size, byte, word, long}
use m68k_rs.Cpu.State.{CpuCore, d, set_d, update}
use m68k_rs.Arith.{ext_result, exec_ext, exec_extb, set_logic_flags}
use m68k_rs.Arith.Bits.{value}

sext8_low : (x : ℕ) → u16 (sext8 x) < 2 ^ 16
sext8_low x = omega arith

word_parts : (x : ℕ) → ext_result word x ≡ x / 2 ^ 16 % 2 ^ 16 * 2 ^ 16 + u16 (sext8 x)
unfolding ext_result
word_parts x =
    bit_or_comm (u16 (sext8 x)) (bit_and x 0xffff_0000)
    ∙ ap (λ t. bit_or t (u16 (sext8 x))) (bit_and_field 16 16 x)
    ∙ bit_or_fields 16 (x / 2 ^ 16 % 2 ^ 16) (u16 (sext8 x)) (sext8_low x)

low_value : (x : ℕ) → value word (u16 (sext8 x)) ≡ value byte (x % 2 ^ 8)
low_value x = ground arith

word_value : (x : ℕ) → value word (ext_result word x % 2 ^ 16) ≡ value byte (x % 2 ^ 8)
word_value x =
    ap (value word) (
      let low : ext_result word x % 2 ^ 16 ≡ u16 (sext8 x) =
        omega (arith, word_parts x, sext8_low x) in
      low)
    ∙ low_value x

word_upper : (x : ℕ) → x < 2 ^ 32 → ext_result word x / 2 ^ 16 ≡ x / 2 ^ 16
word_upper x h = omega (arith, word_parts x, sext8_low x)

long_value : (x : ℕ) → value long (sext16 x) ≡ value word (x % 2 ^ 16)
long_value x = ground arith

byte_value : (x : ℕ) → value long (sext8 x) ≡ value byte (x % 2 ^ 8)
byte_value x = ground arith

update_same : (f : ℕ → ℕ) (i v : ℕ) → update f i v i ≡ v
update_same f i v = ground arith

written :
    (c : CpuCore) (size : Size) (reg : ℕ)
    → d (exec_ext c size reg).0 reg ≡ ext_result size (d c reg)
unfolding exec_ext d set_d set_logic_flags
written c size reg = update_same c.dar (bit_and reg 7) (ext_result size (c.dar (bit_and reg 7)))

written_byte : (c : CpuCore) (reg : ℕ) → d (exec_extb c reg).0 reg ≡ sext8 (d c reg)
unfolding exec_extb d set_d set_logic_flags
written_byte c reg = update_same c.dar (bit_and reg 7) (sext8 (c.dar (bit_and reg 7)))

long_result : (x : ℕ) → ext_result long x ≡ sext16 x
unfolding ext_result
long_result x = refl

-- EXT.W, EXT.L and EXTB.L on a register of 32 bits keep the signed value of the byte, the word and
-- the byte that they extend, and EXT.W keeps the upper half of the register.
pub exec_ext_lem :
    (c : CpuCore) (reg : ℕ)
    → d c reg < 2 ^ 32
    → let x = d c reg in
      let w = d (exec_ext c word reg).0 reg in
      (value word (w % 2 ^ 16) ≡ value byte (x % 2 ^ 8))
      × (w / 2 ^ 16 ≡ x / 2 ^ 16)
      × (value long (d (exec_ext c long reg).0 reg) ≡ value word (x % 2 ^ 16))
      × (value long (d (exec_extb c reg).0 reg) ≡ value byte (x % 2 ^ 8))
exec_ext_lem c reg h =
    let x = d c reg in
    (
      ap (λ t. value word (t % 2 ^ 16)) (written c word reg) ∙ word_value x,
      ap (λ t. t / 2 ^ 16) (written c word reg) ∙ word_upper x h,
      ap (value long) (written c long reg ∙ long_result x) ∙ long_value x,
      ap (value long) (written_byte c reg) ∙ byte_value x,
    )
