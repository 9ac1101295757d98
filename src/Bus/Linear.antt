-- ===== src/Bus/Linear.antt =====
-- src/core/memory.rs, `LinearMemoryBus`: a memory buffer as a bus. Addresses wrap within the buffer,
-- by a mask when its length is a power of two.
pub mod Laws
pub mod Apart
use m68k_rs.Base.{
  ℕ, zero, suc, ◌+◌, ◌-◌, ◌*◌, ◌/◌, ◌%◌, ◌^◌, bit_and, bit_or, Bool, true, false, ◌||◌, ◌==◌,
  if◌then◌else◌, u8, wrapping_add, Option, none, some,
}
use mathlib.Core.List.{List, [], ◌∷◌}
use m68k_rs.Bus.Interface.{BasicBus}

-- `usize::is_power_of_two`, for the 64 bits of a `usize`.
unfoldable pub power_below : ℕ → ℕ → Bool
power_below zero n = false
power_below (suc k) n = 2 ^ k == n || power_below k n

unfoldable pub is_power_of_two : ℕ → Bool
unfolding power_below
is_power_of_two n = power_below 64 n

-- The buffer is a function of the index, which every access keeps below `len`.
pub record LinearMemoryBus : Type 0 where
  pub memory : ℕ → ℕ
  pub len : ℕ
  pub wrap_mask : ℕ
  pub power_of_two_len : Bool
  pub instruction_version : ℕ

-- `none` is the panic on an empty buffer.
unfoldable pub from_vec : ℕ → (ℕ → ℕ) → Option LinearMemoryBus
unfolding is_power_of_two
from_vec len memory =
    if len == 0
    then none
    else some (record {
      memory = memory;
      len = len;
      wrap_mask = len - 1;
      power_of_two_len = is_power_of_two len;
      instruction_version = 1;
    })

pub new : ℕ → Option LinearMemoryBus
unfolding from_vec
new size = from_vec size (λ i. 0)

unfoldable pub index : LinearMemoryBus → ℕ → ℕ
index b address = if b.power_of_two_len then bit_and address b.wrap_mask else address % b.len

abbrev pub bump_instruction_version : LinearMemoryBus → LinearMemoryBus
bump_instruction_version b =
    let version = (b.instruction_version + 1) % 2 ^ 64 in
    record b { instruction_version = if version == 0 then 1 else version }

abbrev pub write_index : LinearMemoryBus → ℕ → ℕ → LinearMemoryBus
write_index b i value = record b { memory = λ j. if j == i then value else b.memory j }

unfoldable pub read_byte : LinearMemoryBus → ℕ → ℕ × LinearMemoryBus
read_byte b address = (b.memory (index b address), b)

unfoldable pub read_word : LinearMemoryBus → ℕ → ℕ × LinearMemoryBus
read_word b address =
    let b0 = b.memory (index b address) in
    let b1 = b.memory (index b (wrapping_add address 1)) in (bit_or (b0 * 2 ^ 8) b1, b)

unfoldable pub read_long : LinearMemoryBus → ℕ → ℕ × LinearMemoryBus
read_long b address =
    let b0 = b.memory (index b address) in
    let b1 = b.memory (index b (wrapping_add address 1)) in
    let b2 = b.memory (index b (wrapping_add address 2)) in
    let b3 = b.memory (index b (wrapping_add address 3)) in
    (bit_or (bit_or (bit_or (b0 * 2 ^ 24) (b1 * 2 ^ 16)) (b2 * 2 ^ 8)) b3, b)

unfoldable pub write_byte : LinearMemoryBus → ℕ → ℕ → LinearMemoryBus
write_byte b address value = bump_instruction_version (write_index b (index b address) value)

unfoldable pub write_word : LinearMemoryBus → ℕ → ℕ → LinearMemoryBus
write_word b address value =
    let i0 = index b address in
    let i1 = index b (wrapping_add address 1) in
    bump_instruction_version (write_index (write_index b i0 (u8 (value / 2 ^ 8))) i1 (u8 value))

unfoldable pub write_long : LinearMemoryBus → ℕ → ℕ → LinearMemoryBus
write_long b address value =
    let i0 = index b address in
    let i1 = index b (wrapping_add address 1) in
    let i2 = index b (wrapping_add address 2) in
    let i3 = index b (wrapping_add address 3) in
    bump_instruction_version (
      write_index
        (write_index (write_index (write_index b i0 (u8 (value / 2 ^ 24))) i1 (u8 (value / 2 ^ 16)))
          i2 (u8 (value / 2 ^ 8)))
        i3 (u8 value))

-- The bytes of `load`, from `address` on.
pub load_from : LinearMemoryBus → ℕ → List ℕ → LinearMemoryBus
load_from b address [] = b
load_from b address (value ∷ values) =
    load_from (write_index b (index b address) value) (wrapping_add address 1) values

pub load : LinearMemoryBus → ℕ → List ℕ → LinearMemoryBus
unfolding load_from
load b address values =
    if b.len == 0 then b else bump_instruction_version (load_from b address values)

-- `impl AddressBus for LinearMemoryBus`.
abbrev pub linear : BasicBus LinearMemoryBus
linear = record {
  read_byte = read_byte;
  read_word = read_word;
  read_long = read_long;
  write_byte = write_byte;
  write_word = write_word;
  write_long = write_long;
}
