-- ===== src/Bus/Examples.antt =====
-- Reads and writes of a memory of sixteen bytes and of one of six.
use m68k_rs.Base.{◌≡◌, refl, arith, some, false}
use m68k_rs.Bus.Linear.{
  LinearMemoryBus, from_vec, is_power_of_two, power_below, index, read_long, write_long,
}
use m68k_rs.Bus.Linear.Laws.{IsValid, from_vec-IsValid, read_long-write_long}

-- The buffer of `new 6`.
abbrev six : LinearMemoryBus
six = record {
  memory = λ i. 0;
  len = 6;
  wrap_mask = 5;
  power_of_two_len = false;
  instruction_version = 1;
}

from_vec-six : from_vec 6 (λ i. 0) ≡ some six
unfolding from_vec is_power_of_two power_below
from_vec-six = refl

six-IsValid : IsValid six
six-IsValid = from_vec-IsValid 6 (λ i. 0) (λ i. omega arith) from_vec-six

-- A longword that wraps from the end of the buffer to its start.
read_long-write_long_example : (read_long (write_long six 0x4 0x1234_5678) 0x4).0 ≡ 0x1234_5678
read_long-write_long_example =
    read_long-write_long six 0x4 0x1234_5678 six-IsValid (omega arith) (omega arith) (omega arith)

write_long_wraps : (write_long six 0x4 0x1234_5678).memory 1 ≡ 0x78
unfolding write_long index
write_long_wraps = refl
