-- ===== src/BitField/Laws.antt =====
-- src/core/instructions/bitfield.rs: insertion against extraction, and the operations on a data
-- register.
use m68k_rs.Base.{
  ℕ, ◌-◌, ◌/◌, ◌%◌, ◌^◌, ◌<◌, ◌≤◌, bit_and, bit_xor, ltb, leb, if◌then◌else◌, Bool, true, false,
  get_bit, get_bit-and, get_bit-xor, get_bit_ext, digit_below, bit_and_mask, get_bit-complement,
  inl, inr, Bool-cases, ltb_iff, ◌≡◌, refl, sym, ap, ◌∙◌, arith, some,
}
use native.Mathlib.Nat.{mod-lt}
use m68k_rs.Shift.Powers.{pow-pos}
use m68k_rs.Cpu.State.{CpuCore, d, set_d, update}
use m68k_rs.BitField.{
  BitFieldSpec, decode_bitfield_spec, bf_mask, bf_extract_reg_msb0, bf_insert_reg_msb0,
  exec_bitfield_reg, replace_field, set_bitfield_flags,
}
use m68k_rs.BitField.Extract.{place, zero_digit, bf_extract_reg_msb0-bit, bf_extract_reg_msb0-lt}
use m68k_rs.BitField.Insert.{index_at, bf_insert_reg_msb0-bit}

below : (j n : ℕ) → j < n → ltb j n ≡ true
below j n h = ground arith

index_at-place : (offset i : ℕ) → offset < 32 → i < 32 → index_at offset (place offset i) ≡ i
index_at-place offset i h k = omega arith

-- A field that was inserted is extracted again, cut to its width, whether or not it wraps around the
-- end of the register. The offset is below 32, the width at most 32, and the register one of 32 bits.
pub bf_extract-bf_insert :
    (orig offset width field : ℕ)
    → offset < 32
    → width ≤ 32
    → orig < 2 ^ 32
    → bf_extract_reg_msb0 (bf_insert_reg_msb0 orig offset width field) offset width
      ≡ field % 2 ^ width
bf_extract-bf_insert orig offset width field ho hw hv =
    get_bit_ext width
      (bf_extract_reg_msb0 (bf_insert_reg_msb0 orig offset width field) offset width)
      (field % 2 ^ width)
      (bf_extract_reg_msb0-lt (bf_insert_reg_msb0 orig offset width field) offset width hw)
      (mod-lt field (pow-pos width))
      (λ j h.
        let i = width - 1 - j in
        bf_extract_reg_msb0-bit (bf_insert_reg_msb0 orig offset width field) offset width j hw
        ∙ rw
            (
              below j width h,
              bf_insert_reg_msb0-bit orig offset width field (place offset i) ho hw hv
                  (omega arith),
              index_at-place offset i ho (omega arith),
              below i width (omega arith),
            )
            (ap (λ t. get_bit t field) (let back : width - 1 - i ≡ j = omega arith in back)
              ∙ sym (digit_below j width field h)))

-- The operations that write the field back.
pub data Change : Type 0 where
  flip clear fill insert : Change

abbrev pub change_code : Change → ℕ
change_code flip = 0xa
change_code clear = 0xc
change_code fill = 0xe
change_code insert = 0xf

-- What becomes of a bit of the field, and of the bit of the source that stands for it.
pub changed : Change → ℕ → ℕ → ℕ
changed flip old source = 1 - old
changed clear old source = 0
changed fill old source = 1
changed insert old source = source

wide_mask : (w : ℕ) → w ≤ 32 → bf_mask w ≡ 2 ^ w - 1 - 0
unfolding bf_mask
wide_mask w h = elim (Bool-cases (leb 32 w)) [
  | inl wide ↦ let whole : w ≡ 32 = ground arith in rw whole refl
  | inr narrow ↦ rw narrow (omega arith)
]

mask_digit : (j w : ℕ) → j < w → w ≤ 32 → get_bit j (bf_mask w) ≡ 1
mask_digit j w h k =
    ap (get_bit j) (wide_mask w k)
    ∙ get_bit-complement w j 0 h (pow-pos w)
    ∙ ap (λ t. 1 - t) (zero_digit j)

place-index_at : (offset p : ℕ) → offset < 32 → p < 32 → place offset (index_at offset p) ≡ p
place-index_at offset p h k = omega arith

-- The new field of each operation.
new_field : CpuCore → Change → BitFieldSpec → ℕ → ℕ
new_field c flip spec field = bit_xor field (bf_mask spec.width)
new_field c clear spec field = 0
new_field c fill spec field = bf_mask spec.width
new_field c insert spec field = bit_and (d c spec.reg) (bf_mask spec.width)

new_digit :
    (c : CpuCore) (k : Change) (spec : BitFieldSpec) (field j : ℕ)
    → j < spec.width
    → spec.width ≤ 32
    → get_bit j (new_field c k spec field) ≡ changed k (get_bit j field) (get_bit j (d c spec.reg))
unfolding new_field changed
new_digit c flip spec field j h w =
    get_bit-xor j field (bf_mask spec.width) ∙ rw (mask_digit j spec.width h w) (omega arith)
new_digit c clear spec field j h w = zero_digit j
new_digit c fill spec field j h w = mask_digit j spec.width h w
new_digit c insert spec field j h w =
    get_bit-and j (d c spec.reg) (bf_mask spec.width)
    ∙ rw (mask_digit j spec.width h w) (omega arith)

update_same : (f : ℕ → ℕ) (i v : ℕ) → update f i v i ≡ v
update_same f i v = ground arith

d-replace_field :
    (c : CpuCore) (spec : BitFieldSpec) (reg orig field : ℕ)
    → d (replace_field c spec reg orig field) reg
      ≡ bf_insert_reg_msb0 orig (bit_and spec.offset 31) spec.width field
unfolding replace_field d set_d
d-replace_field c spec reg orig field =
    update_same c.dar (bit_and reg 7)
      (bf_insert_reg_msb0 orig (bit_and spec.offset 31) spec.width field)

-- The state with its flags set, before the register is written.
flagged : CpuCore → Change → BitFieldSpec → ℕ → CpuCore
flagged c insert spec field =
    set_bitfield_flags c (bit_and (d c spec.reg) (bf_mask spec.width)) spec.width
flagged c _ spec field = set_bitfield_flags c field spec.width

abbrev field_of : CpuCore → BitFieldSpec → ℕ → ℕ
field_of c spec reg = bf_extract_reg_msb0 (d c reg) (bit_and spec.offset 31) spec.width

after : CpuCore → Change → BitFieldSpec → ℕ → CpuCore
after c k spec reg =
    replace_field (flagged c k spec (field_of c spec reg)) spec reg (d c reg)
      (new_field c k spec (field_of c spec reg))

chosen_bit :
    (t : Bool) (a b x : ℕ) → (t ≡ true → a ≡ b) → (if t then a else x) ≡ (if t then b else x)
chosen_bit true a b x h = h refl
chosen_bit false a b x h = refl

executed :
    (c : CpuCore) (k : Change) (spec : BitFieldSpec) (reg : ℕ)
    → exec_bitfield_reg c (change_code k) spec reg ≡ some (after c k spec reg, 8)
unfolding exec_bitfield_reg after flagged new_field
executed c flip spec reg = refl
executed c clear spec reg = refl
executed c fill spec reg = refl
executed c insert spec reg = refl

in_field :
    (c : CpuCore) (k : Change) (spec : BitFieldSpec) (value o p : ℕ)
    → o < 32
    → spec.width ≤ 32
    → p < 32
    → index_at o p < spec.width
    → get_bit
        (spec.width - 1 - index_at o p)
        (new_field c k spec (bf_extract_reg_msb0 value o spec.width))
      ≡ changed k (get_bit p value) (get_bit (spec.width - 1 - index_at o p) (d c spec.reg))
in_field c k spec value o p ho hw hp inside =
    let j = spec.width - 1 - index_at o p in
    let here : j < spec.width = omega arith in
    new_digit c k spec (bf_extract_reg_msb0 value o spec.width) j here hw
    ∙ ap (λ t. changed k t (get_bit j (d c spec.reg)))
        (bf_extract_reg_msb0-bit value o spec.width j hw
          ∙ rw (below j spec.width here) (
              ap (λ t. get_bit (place o t) value)
                (let back : spec.width - 1 - j ≡ index_at o p = omega arith in back)
              ∙ ap (λ t. get_bit t value) (place-index_at o p ho hp)))

offset-lt : (x : ℕ) → bit_and x 31 < 32
offset-lt x = omega (arith, bit_and_mask 5 x)

-- BFCHG, BFCLR, BFSET and BFINS on a data register of 32 bits, with a width of at most 32: they end
-- without an exception in 8 cycles, each bit of the field is flipped, cleared, set or taken from the
-- source register, and every other bit of the register is kept.
pub exec_bitfield_reg-bits :
    (c : CpuCore) (k : Change) (spec : BitFieldSpec) (reg p : ℕ)
    → spec.width ≤ 32
    → d c reg < 2 ^ 32
    → p < 32
    → let i = index_at (bit_and spec.offset 31) p in
      (c' : CpuCore) × (exec_bitfield_reg c (change_code k) spec reg ≡ some (c', 8))
      × (get_bit p (d c' reg) ≡ (
          if ltb i spec.width
          then changed k (get_bit p (d c reg)) (get_bit (spec.width - 1 - i) (d c spec.reg))
          else get_bit p (d c reg)))
unfolding after
exec_bitfield_reg-bits c k spec reg p hw hr hp =
    let o = bit_and spec.offset 31 in
    let field = new_field c k spec (field_of c spec reg) in
    (
      after c k spec reg,
      executed c k spec reg,
      ap (get_bit p)
            (d-replace_field (flagged c k spec (field_of c spec reg)) spec reg (d c reg) field)
          ∙ bf_insert_reg_msb0-bit (d c reg) o spec.width field p (offset-lt spec.offset) hw hr hp
          ∙ chosen_bit (ltb (index_at o p) spec.width)
              (get_bit (spec.width - 1 - index_at o p) field)
              (changed k (get_bit p (d c reg))
                (get_bit (spec.width - 1 - index_at o p) (d c spec.reg)))
              (get_bit p (d c reg))
              (λ inside.
                in_field c k spec (d c reg) o p (offset-lt spec.offset) hw hp
                  ((ltb_iff (index_at o p) spec.width).0 inside)),
    )

-- A decoded field has a width from 1 to 32 and names one of the eight data registers, whatever the
-- extension word and the registers that it reads hold.
pub decode_bitfield_spec-bounds :
    (c : CpuCore) (ext : ℕ)
    → (0 < (decode_bitfield_spec c ext).width)
      × ((decode_bitfield_spec c ext).width ≤ 32)
      × ((decode_bitfield_spec c ext).reg < 8)
unfolding decode_bitfield_spec
decode_bitfield_spec-bounds c ext = (
  ground (arith, bit_and_mask 5 (d c (bit_and ext 7)), bit_and_mask 5 ext),
  ground (arith, bit_and_mask 5 (d c (bit_and ext 7)), bit_and_mask 5 ext),
  omega (arith, bit_and_mask 3 (ext / 2 ^ 12)),
)
