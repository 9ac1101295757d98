-- ===== src/Bus/Interface.antt =====
-- src/core/memory.rs, `AddressBus`: what the processor asks of its bus, and the default methods.
use m68k_rs.Base.{ℕ, ◌*◌, ◌/◌, ◌^◌, bit_or, u8, u16, wrapping_add}
use m68k_rs.Base.Results.{ok, Action, pure, ◌>>=◌, ◌>>◌, Keeps}

pub data BusFaultKind : Type 0 where
  bus_error : BusFaultKind

pub record BusFault : Type 0 where
  pub kind : BusFaultKind
  pub address : ℕ

-- The six methods that a bus has to give. A method on `&mut self` gives the new bus last.
pub record BasicBus (B : Type 0) : Type 0 where
  pub read_byte : B → ℕ → ℕ × B
  pub read_word : B → ℕ → ℕ × B
  pub read_long : B → ℕ → ℕ × B
  pub write_byte : B → ℕ → ℕ → B
  pub write_word : B → ℕ → ℕ → B
  pub write_long : B → ℕ → ℕ → B

-- The fallible methods, which the core calls.
pub record AddressBus (B : Type 0) : Type 0 where
  pub try_read_byte : ℕ → Action B BusFault ℕ
  pub try_read_word : ℕ → Action B BusFault ℕ
  pub try_read_long : ℕ → Action B BusFault ℕ
  pub try_write_byte : ℕ → ℕ → Action B BusFault (Unit {0})
  pub try_write_word : ℕ → ℕ → Action B BusFault (Unit {0})
  pub try_write_long : ℕ → ℕ → Action B BusFault (Unit {0})

module _ {B : Type 0} where
  -- The default methods of the trait, which cannot fault.
  unfoldable pub default_bus : BasicBus B → AddressBus B
  default_bus basic = record {
    try_read_byte =
        λ address bus. let (value, bus') = basic.read_byte bus address in (ok value, bus');
    try_read_word =
        λ address bus. let (value, bus') = basic.read_word bus address in (ok value, bus');
    try_read_long =
        λ address bus. let (value, bus') = basic.read_long bus address in (ok value, bus');
    try_write_byte = λ address value bus. (ok tt, basic.write_byte bus address value);
    try_write_word = λ address value bus. (ok tt, basic.write_word bus address value);
    try_write_long = λ address value bus. (ok tt, basic.write_long bus address value);
  }

  -- The default three-byte transfers, a word and a byte.
  unfoldable pub try_read_three_bytes : AddressBus B → ℕ → Action B BusFault ℕ
  try_read_three_bytes bus address = do
    hi ← bus.try_read_word address
    lo ← bus.try_read_byte (wrapping_add address 2)
    pure (bit_or (hi * 2 ^ 8) lo)

  unfoldable pub try_write_three_bytes : AddressBus B → ℕ → ℕ → Action B BusFault (Unit {0})
  try_write_three_bytes bus address value = do
    bus.try_write_word address (u16 (value / 2 ^ 8))
    bus.try_write_byte (wrapping_add address 2) (u8 value)

-- A bus whose reads leave it as it is, such as memory.
pub record IsQuiet {B : Type 0} (bus : AddressBus B) : Type 0 where
  pub quiet : (address : ℕ) → Keeps (bus.try_read_long address)
