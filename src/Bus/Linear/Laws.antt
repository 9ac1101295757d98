-- ===== src/Bus/Linear/Laws.antt =====
-- src/core/memory.rs: the bytes of the linear memory under its operations.
use m68k_rs.Bus.Interface.{IsQuiet, default_bus}
use mathlib.Core.Option.{some-injective, none-ne-some}
use mathlib.Core.Path.{subst}
use m68k_rs.Base.{
  ℕ, zero, suc, ◌+◌, ◌-◌, ◌%◌, ◌^◌, ◌<◌, ◌≤◌, ◌≡◌, refl, sym, ◌≢◌, inl, inr, Bool-cases, true, ◌==◌,
  ap, ◌∙◌, ==_iff, bit_and, if◌then◌else◌, bit_and_mask, wrapping_add, arith, bit_or, u8,
  bit_or_disjoint, bit_or_fields, ◌*◌, ◌/◌, some, none, false,
}
use native.Mathlib.Nat.{mod-add-mod, mod_self, mod-eq_of_lt, mod-lt}
use m68k_rs.Bus.Linear.{
  LinearMemoryBus, power_below, is_power_of_two, index, write_long, read_long, read_word,
  write_word, from_vec, linear,
}

-- A bus as `from_vec` makes it, with bytes in the buffer.
pub record IsValid (b : LinearMemoryBus) : Type 0 where
  pub nonempty : 0 < b.len
  pub mask : b.wrap_mask ≡ b.len - 1
  pub flag : b.power_of_two_len ≡ is_power_of_two b.len
  pub version : 0 < b.instruction_version
  pub bytes : (i : ℕ) → b.memory i < 256

power_below_sound : (k n : ℕ) → power_below k n ≡ true → (j : ℕ) × (n ≡ 2 ^ j)
unfolding power_below
power_below_sound zero n h = absurd (ground arith)
power_below_sound (suc k) n h = elim (Bool-cases (2 ^ k == n)) [
  | inl found ↦ (k, ground (arith, ==_iff (2 ^ k) n))
  | inr other ↦ power_below_sound k n (rw other at h)
]

mask_of_power : (a n j : ℕ) → n ≡ 2 ^ j → bit_and a (n - 1) ≡ a % n
mask_of_power a n j e = rw e (bit_and_mask j a)

pub index_lem : (b : LinearMemoryBus) (a : ℕ) → IsValid b → index b a ≡ a % b.len
unfolding index is_power_of_two
index_lem b a v = elim (Bool-cases b.power_of_two_len) [
  | inl fast ↦
      let found = power_below_sound 64 b.len (ground (arith, v.flag)) in
      rw (fast, v.mask) (mask_of_power a b.len found.0 found.1)
  | inr slow ↦ rw slow refl
]

step : (a n : ℕ) → 0 < n → (a + 1) % n ≡ (if a % n + 1 == n then 0 else a % n + 1)
step a n h = ground (
  arith,
  mod-add-mod a n 1,
  mod_self n,
  mod-eq_of_lt {n = a % n + 1} {m = n},
  mod-lt a {m = n} h,
  ap (λ t. t % n) (sym (mod-add-mod a n 1)),
)

pub index-write_long : (b : LinearMemoryBus) (a x c : ℕ) → index (write_long b a x) c ≡ index b c
unfolding index write_long
index-write_long b a x c = refl

-- Four successive addresses that do not run past the end of the address space.
module _ (b : LinearMemoryBus) (v : IsValid b) (a : ℕ) (room : a + 3 < 2 ^ 32) where
  at_offset : (i : ℕ) → i < 4 → index b (wrapping_add a i) ≡ (a + i) % b.len
  at_offset i h = index_lem b (wrapping_add a i) v ∙ ap (λ t. t % b.len) (omega arith)

two : (a : ℕ) → a + 1 + 1 ≡ a + 2
two a = omega arith

three : (a : ℕ) → a + 2 + 1 ≡ a + 3
three a = omega arith

four_apart :
    (a n : ℕ)
    → 4 ≤ n
    → ((a % n ≢ (a + 1) % n) × (a % n ≢ (a + 2) % n) × (a % n ≢ (a + 3) % n))
      × (((a + 1) % n ≢ (a + 2) % n) × ((a + 1) % n ≢ (a + 3) % n) × ((a + 2) % n ≢ (a + 3) % n))
four_apart a n h = ground (
  arith,
  step a n,
  step (a + 1) n,
  step (a + 2) n,
  mod-lt a {m = n} (omega arith),
  ap (λ t. t % n) (two a),
  ap (λ t. t % n) (three a),
)

join_word : (w x : ℕ) → x < 256 → bit_or (w * 2 ^ 8) x ≡ w * 2 ^ 8 + x
join_word w x p = bit_or_fields 8 w x (omega arith)

join_long :
    (w x y z : ℕ)
    → x < 256
    → y < 256
    → z < 256
    → bit_or (bit_or (bit_or (w * 2 ^ 24) (x * 2 ^ 16)) (y * 2 ^ 8)) z
      ≡ w * 2 ^ 24 + x * 2 ^ 16 + y * 2 ^ 8 + z
join_long w x y z p q r =
    rw
      (
        bit_or_fields 24 w (x * 2 ^ 16) (omega arith),
        bit_or_disjoint 16 (w * 2 ^ 24 + x * 2 ^ 16) (y * 2 ^ 8) (omega arith) (omega arith),
        bit_or_disjoint 8 (w * 2 ^ 24 + x * 2 ^ 16 + y * 2 ^ 8) z (omega arith) (omega arith),
      )
      refl

-- The buffer after a longword was written to four different places.
stored :
    (b : LinearMemoryBus) (a x : ℕ) (j : ℕ)
    → (write_long b a x).memory j ≡ (
        if j == index b (wrapping_add a 3)
        then u8 x
        else if j == index b (wrapping_add a 2)
        then u8 (x / 2 ^ 8)
        else if j == index b (wrapping_add a 1)
        then u8 (x / 2 ^ 16)
        else if j == index b a
        then u8 (x / 2 ^ 24)
        else b.memory j)
unfolding write_long
stored b a x j = refl

-- The four bytes of `x`, joined.
bytes_of :
    (x w y z t : ℕ)
    → x < 2 ^ 32
    → w ≡ u8 (x / 2 ^ 24)
    → y ≡ u8 (x / 2 ^ 16)
    → z ≡ u8 (x / 2 ^ 8)
    → t ≡ u8 x
    → bit_or (bit_or (bit_or (w * 2 ^ 24) (y * 2 ^ 16)) (z * 2 ^ 8)) t ≡ x
bytes_of x w y z t h e f g k =
    omega (arith, join_long w y z t (omega arith) (omega arith) (omega arith))

module _ (b : LinearMemoryBus) (a x : ℕ) (v : IsValid b) (size : 4 ≤ b.len)
    (room : a + 3 < 2 ^ 32) where
  places :
      ((index b a ≡ a % b.len) × (index b (wrapping_add a 1) ≡ (a + 1) % b.len))
      × ((index b (wrapping_add a 2) ≡ (a + 2) % b.len)
          × (index b (wrapping_add a 3) ≡ (a + 3) % b.len))
  places = (
    (index_lem b a v, at_offset b v a room 1 (omega arith)),
    (at_offset b v a room 2 (omega arith), at_offset b v a room 3 (omega arith)),
  )

  written :
      (((write_long b a x).memory (index b a) ≡ u8 (x / 2 ^ 24))
        × ((write_long b a x).memory (index b (wrapping_add a 1)) ≡ u8 (x / 2 ^ 16)))
      × (((write_long b a x).memory (index b (wrapping_add a 2)) ≡ u8 (x / 2 ^ 8))
          × ((write_long b a x).memory (index b (wrapping_add a 3)) ≡ u8 x))
  written =
      let p = places in
      let q = four_apart a b.len size in
      (
        (
          ground (arith, stored b a x (index b a)),
          ground (arith, stored b a x (index b (wrapping_add a 1))),
        ),
        (
          ground (arith, stored b a x (index b (wrapping_add a 2))),
          ground (arith, stored b a x (index b (wrapping_add a 3))),
        ),
      )

-- A longword that was written is read back, on a valid bus of at least four bytes, at an address
-- whose four bytes do not run past the end of the address space. It may wrap in the buffer.
pub read_long-write_long :
    (b : LinearMemoryBus) (a x : ℕ)
    → IsValid b
    → 4 ≤ b.len
    → a + 3 < 2 ^ 32
    → x < 2 ^ 32
    → (read_long (write_long b a x) a).0 ≡ x
unfolding read_long
read_long-write_long b a x v size room small =
    let w = written b a x v size room in
    simp (index-write_long) (bytes_of x _ _ _ _ small w.0.0 w.0.1 w.1.0 w.1.1)

no_wrap : (a i : ℕ) → a + i < 2 ^ 32 → wrapping_add a i ≡ a + i
no_wrap a i h = omega arith

-- A longword is its two words, the high one first, at an address that does not run past the end of
-- the address space.
pub read_long_words :
    (b : LinearMemoryBus) (a : ℕ)
    → IsValid b
    → a + 3 < 2 ^ 32
    → (read_long b a).0 ≡ (read_word b a).0 * 2 ^ 16 + (read_word b (a + 2)).0
unfolding read_long read_word
read_long_words b a v room =
    let m = λ (i : ℕ). b.memory (index b i) in
    let low = join_word (m (a + 2)) (m (a + 3)) (v.bytes _) in
    let high = join_word (m a) (m (a + 1)) (v.bytes _) in
    let whole =
      join_long (m a) (m (a + 1)) (m (a + 2)) (m (a + 3)) (v.bytes _) (v.bytes _) (v.bytes _) in
    rw
      (
        no_wrap a 1 (omega arith),
        no_wrap a 2 (omega arith),
        no_wrap a 3 room,
        no_wrap (a + 2) 1 (omega arith),
        three a,
      )
      (omega (arith, low, high, whole))

next_version : (n : ℕ) → 0 < (if (n + 1) % 2 ^ 64 == 0 then 1 else (n + 1) % 2 ^ 64)
next_version n = ground arith

pub write_long-IsValid : (b : LinearMemoryBus) (a x : ℕ) → IsValid b → IsValid (write_long b a x)
unfolding write_long
write_long-IsValid b a x v = record {
  nonempty = v.nonempty;
  mask = v.mask;
  flag = v.flag;
  version = next_version b.instruction_version;
  bytes = λ i. ground (arith, v.bytes i);
}

pub write_word-IsValid : (b : LinearMemoryBus) (a x : ℕ) → IsValid b → IsValid (write_word b a x)
unfolding write_word
write_word-IsValid b a x v = record {
  nonempty = v.nonempty;
  mask = v.mask;
  flag = v.flag;
  version = next_version b.instruction_version;
  bytes = λ i. ground (arith, v.bytes i);
}

-- The bus that `from_vec` makes of a buffer that is not empty.
abbrev made : ℕ → (ℕ → ℕ) → LinearMemoryBus
made n memory = record {
  memory = memory;
  len = suc n;
  wrap_mask = suc n - 1;
  power_of_two_len = is_power_of_two (suc n);
  instruction_version = 1;
}

made-IsValid : (n : ℕ) (memory : ℕ → ℕ) → ((i : ℕ) → memory i < 256) → IsValid (made n memory)
made-IsValid n memory h = record {
  nonempty = omega arith;
  mask = refl;
  flag = refl;
  version = omega arith;
  bytes = h;
}

suc_ne_zero : (n : ℕ) → (suc n == 0) ≡ false
suc_ne_zero n = ground arith

from_vec-made : (n : ℕ) (memory : ℕ → ℕ) → from_vec (suc n) memory ≡ some (made n memory)
unfolding from_vec is_power_of_two
from_vec-made n memory = rw (suc_ne_zero n) refl

from_vec_empty : (memory : ℕ → ℕ) → from_vec 0 memory ≡ none
unfolding from_vec
from_vec_empty memory = refl

pub from_vec-IsValid :
    (len : ℕ) (memory : ℕ → ℕ) {b : LinearMemoryBus}
    → ((i : ℕ) → memory i < 256)
    → from_vec len memory ≡ some b
    → IsValid b
from_vec-IsValid zero memory {b} h e = absurd (none-ne-some b (sym (from_vec_empty memory) ∙ e))
from_vec-IsValid (suc n) memory {b} h e =
    subst IsValid (some-injective (made n memory) b (sym (from_vec-made n memory) ∙ e))
      (made-IsValid n memory h)

-- Reading a memory does not change it.
pub linear-IsQuiet : IsQuiet (default_bus linear)
unfolding default_bus read_long
linear-IsQuiet = record { quiet = λ address. record { kept = λ b. refl } }
