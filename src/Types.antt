-- ===== src/Types.antt =====
-- src/core/types.rs: the processor models and the operand sizes.
use m68k_rs.Base.{ℕ, Bool, true, false}

-- `CpuType`.
pub data CpuType : Type 0 where
  invalid m68000 m68010 m68ec020 m68020 m68ec030 m68030 : CpuType
  m68ec040 m68lc040 m68040 scc68070 m68060 : CpuType

-- `Size`.
pub data Size : Type 0 where
  byte word long : Size

pub Size-discrete : Discrete Size
Size-discrete = hlevel

pub CpuType-discrete : Discrete CpuType
CpuType-discrete = hlevel

unfoldable pub bytes : Size → ℕ
bytes byte = 1
bytes word = 2
bytes long = 4

abbrev pub bits : Size → ℕ
bits byte = 8
bits word = 16
bits long = 32

abbrev pub mask : Size → ℕ
mask byte = 0xff
mask word = 0xffff
mask long = 0xffff_ffff

abbrev pub msb_mask : Size → ℕ
msb_mask byte = 0x80
msb_mask word = 0x8000
msb_mask long = 0x8000_0000

-- The number of values of a size.
abbrev pub modulus : Size → ℕ
modulus byte = 0x100
modulus word = 0x1_0000
modulus long = 0x1_0000_0000

-- `cpu_type == CpuType::M68060`, `== CpuType::M68000`, and `size == Size::Long`.
abbrev pub is_m68060 : CpuType → Bool
is_m68060 m68060 = true
is_m68060 _ = false

abbrev pub is_m68000 : CpuType → Bool
is_m68000 m68000 = true
is_m68000 _ = false

abbrev pub is_long : Size → Bool
is_long long = true
is_long _ = false
