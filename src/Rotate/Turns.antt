-- ===== src/Rotate/Turns.antt =====
-- src/core/instructions/shift_rotate.rs: ROL and ROR, by the two parts of the operand.
use m68k_rs.Base.{
  ℕ, ◌+◌, ◌-◌, ◌*◌, ◌/◌, ◌%◌, ◌^◌, ◌<◌, ◌≤◌, ◌==◌, if◌then◌else◌, u32, bit_or, bit_or_comm,
  bit_or_fields, inl, inr, Bool-cases, ==_iff, ◌≡◌, refl, sym, ap, ◌∙◌, arith,
}
use native.Mathlib.Nat.{
  add-mul-mod_self_left, mod-eq_of_lt, div-add-mod', mod-lt, mul_comm, div-le_self, mod-one,
  div-one, mul-add-mod_self_right, mul-add-div_right,
}
use m68k_rs.Types.{Size, byte, word, long, bits, modulus}
use m68k_rs.Cpu.State.{CpuCore}
use m68k_rs.Arith.Bits.{and-mask}
use m68k_rs.Arith.Add.{modulus-pos}
use m68k_rs.Shift.Powers.{cut, modulus-split, modulus-pow, pow-pos, div-eq-zero}
use m68k_rs.Shift.Fill.{quotient-lt, or_mod}
use m68k_rs.Shift.Logical.{fits, shift_count}
use m68k_rs.Rotate.{rol_result, ror_result, turn, exec_rol, exec_ror, rotate_done, rotate_none}

-- A count of turns is from 1 to the size.
turn_bounds : (size : Size) (n : ℕ) → (0 < turn size n) × (turn size n ≤ bits size)
unfolding turn
turn_bounds byte n = ground arith
turn_bounds word n = ground arith
turn_bounds long n = ground arith

parts_product : (h l a b : ℕ) → (h * a + l) * b ≡ l * b + a * b * h
parts_product h l a b = omega arith

product-lt : (x a b : ℕ) → x < a → 0 < b → x * b < a * b
product-lt x a b h q = grind arith

-- `v * b` modulo `a * b` keeps the low part of `v`.
low_part : (a b v : ℕ) → 0 < a → 0 < b → v * b % (a * b) ≡ v % a * b
low_part a b v p q =
    let whole = div-add-mod' v a in
    let split : v * b ≡ v % a * b + a * b * (v / a) =
      ap (λ t. t * b) (sym whole) ∙ parts_product (v / a) (v % a) a b in
    ap (λ t. t % (a * b)) split
    ∙ add-mul-mod_self_left (v % a * b) (a * b) (v / a)
    ∙ mod-eq_of_lt (product-lt (v % a) a b (mod-lt v p) q)

-- `(v << s) | (v >> (bits - s))`, cut to the size: the two parts of `v` change places.
rotated :
    (size : Size) (a b v : ℕ) (r s : ℕ)
    → a ≡ 2 ^ r
    → b ≡ 2 ^ s
    → modulus size ≡ a * b
    → v < modulus size
    → bit_or (u32 (v * b)) (v / a) % modulus size ≡ v % a * b + v / a
rotated size a b v r s ea eb m small =
    let inside : v < a * b = rw (← m) small in
    let some_a : 0 < a = rw ea (pow-pos r) in
    let some_b : 0 < b = rw eb (pow-pos s) in
    let above : v / a < b =
      quotient-lt b a v some_a (let swapped : v < b * a = omega arith in swapped) in
    let above' : v / a < 2 ^ s = rw (← eb) above in
    or_mod size (u32 (v * b)) (v / a)
    ∙ ap (λ t. bit_or t (v / a % modulus size)) (cut size (v * b))
    ∙ rw m (
        ap (λ t. bit_or t (v / a % (a * b))) (low_part a b v some_a some_b)
        ∙ ap (bit_or (v % a * b)) (mod-eq_of_lt (omega (arith, div-le_self v a)))
        ∙ rw eb (bit_or_fields s (v % a) (v / a) above'))

whole_turn : (size : Size) → bits size - bits size ≡ 0
whole_turn size = omega arith

-- A full turn changes no part.
whole_left : (v n : ℕ) → v ≡ v % 2 ^ 0 * n + v / 2 ^ 0
whole_left v n =
    let whole : v ≡ v % 1 * n + v / 1 = rw (mod-one v, div-one v) (omega arith) in whole

whole_right :
    (size : Size) (v : ℕ) → v < modulus size → v ≡ v % modulus size * 2 ^ 0 + v / modulus size
whole_right size v h = rw (fits size v h, div-eq-zero v (modulus size) h) (omega arith)

rol_parts :
    (size : Size) (s v : ℕ)
    → s ≤ bits size
    → v < modulus size
    → rol_result size s v ≡ v % 2 ^ (bits size - s) * 2 ^ s + v / 2 ^ (bits size - s)
unfolding rol_result
rol_parts size s v h small = elim (Bool-cases (s == bits size)) [
  | inl full ↦
      rw (full, (==_iff s (bits size)).0 full, whole_turn size) (whole_left v (2 ^ bits size))
  | inr part ↦ rw part (
      and-mask size (bit_or (u32 (v * 2 ^ s)) (v / 2 ^ (bits size - s)))
      ∙ rotated size (2 ^ (bits size - s)) (2 ^ s) v (bits size - s) s refl refl
          (modulus-split size s h) small)
]

ror_parts :
    (size : Size) (s v : ℕ)
    → s ≤ bits size
    → v < modulus size
    → ror_result size s v ≡ v % 2 ^ s * 2 ^ (bits size - s) + v / 2 ^ s
unfolding ror_result
ror_parts size s v h small = elim (Bool-cases (s == bits size)) [
  | inl full ↦
      rw (full, (==_iff s (bits size)).0 full, whole_turn size, ← modulus-pow size)
        (whole_right size v small)
  | inr part ↦ rw part (
      and-mask size (bit_or (v / 2 ^ s) (u32 (v * 2 ^ (bits size - s))))
      ∙ ap (λ t. t % modulus size) (bit_or_comm (v / 2 ^ s) (u32 (v * 2 ^ (bits size - s))))
      ∙ rotated size (2 ^ s) (2 ^ (bits size - s)) v s (bits size - s) refl refl
          (modulus-split size s h ∙ mul_comm (2 ^ (bits size - s)) (2 ^ s)) small)
]

-- Two parts that change places twice.
swap-lt : (l h a b : ℕ) → l < a → h < b → l * b + h < a * b
swap-lt l h a b p q = grind arith

low_of : (l h b : ℕ) → 0 < b → h < b → (l * b + h) % b ≡ h
low_of l h b p q = mul-add-mod_self_right l b h ∙ mod-eq_of_lt q

high_of : (l h b : ℕ) → 0 < b → h < b → (l * b + h) / b ≡ l
high_of l h b p q =
    mul-add-div_right p l h
    ∙ ap (λ t. l + t) (div-eq-zero h b q)
    ∙ (let none : l + 0 ≡ l = omega arith in none)

parts_back :
    (a b v : ℕ)
    → 0 < a
    → 0 < b
    → v < a * b
    → (v % a * b + v / a) % b * a + (v % a * b + v / a) / b ≡ v
parts_back a b v p q h =
    let above : v / a < b =
      quotient-lt b a v p (let swapped : v < b * a = omega arith in swapped) in
    rw (low_of (v % a) (v / a) b q above, high_of (v % a) (v / a) b q above) (div-add-mod' v a)

parts-lt : (a b v : ℕ) → 0 < a → 0 < b → v < a * b → v % a * b + v / a < a * b
parts-lt a b v p q h =
    swap-lt (v % a) (v / a) a b (mod-lt v p)
      (quotient-lt b a v p (let swapped : v < b * a = omega arith in swapped))

rol-lt :
    (size : Size) (s v : ℕ) → s ≤ bits size → v < modulus size → rol_result size s v < modulus size
rol-lt size s v h small =
    let split = modulus-split size s h in
    let inside : v < 2 ^ (bits size - s) * 2 ^ s = rw (← split) small in
    rw (rol_parts size s v h small, split)
      (parts-lt (2 ^ (bits size - s)) (2 ^ s) v (pow-pos (bits size - s)) (pow-pos s) inside)

ror-lt :
    (size : Size) (s v : ℕ) → s ≤ bits size → v < modulus size → ror_result size s v < modulus size
ror-lt size s v h small =
    let split = modulus-split size s h ∙ mul_comm (2 ^ (bits size - s)) (2 ^ s) in
    let inside : v < 2 ^ s * 2 ^ (bits size - s) = rw (← split) small in
    rw (ror_parts size s v h small, split)
      (parts-lt (2 ^ s) (2 ^ (bits size - s)) v (pow-pos s) (pow-pos (bits size - s)) inside)

ror_rol :
    (size : Size) (s v : ℕ)
    → s ≤ bits size
    → v < modulus size
    → ror_result size s (rol_result size s v) ≡ v
ror_rol size s v h small =
    let split = modulus-split size s h in
    let inside : v < 2 ^ (bits size - s) * 2 ^ s = rw (← split) small in
    ror_parts size s (rol_result size s v) h (rol-lt size s v h small)
    ∙ ap (λ w. w % 2 ^ s * 2 ^ (bits size - s) + w / 2 ^ s) (rol_parts size s v h small)
    ∙ parts_back (2 ^ (bits size - s)) (2 ^ s) v (pow-pos (bits size - s)) (pow-pos s) inside

rol_ror :
    (size : Size) (s v : ℕ)
    → s ≤ bits size
    → v < modulus size
    → rol_result size s (ror_result size s v) ≡ v
rol_ror size s v h small =
    let split = modulus-split size s h ∙ mul_comm (2 ^ (bits size - s)) (2 ^ s) in
    let inside : v < 2 ^ s * 2 ^ (bits size - s) = rw (← split) small in
    rol_parts size s (ror_result size s v) h (ror-lt size s v h small)
    ∙ ap (λ w. w % 2 ^ (bits size - s) * 2 ^ s + w / 2 ^ (bits size - s))
        (ror_parts size s v h small)
    ∙ parts_back (2 ^ s) (2 ^ (bits size - s)) v (pow-pos s) (pow-pos (bits size - s)) inside

-- What the two methods return as a result.
rol_value :
    (c : CpuCore) (size : Size) (shift v : ℕ)
    → (exec_rol c size shift v).1 ≡ (
        if shift % 64 == 0
        then v % modulus size
        else rol_result size (turn size (shift % 64)) (v % modulus size))
unfolding exec_rol rotate_done rotate_none
rol_value c size shift v = elim (Bool-cases (shift % 64 == 0)) [
  | inl none ↦ rw (shift_count shift, none, and-mask size v) refl
  | inr some ↦ rw (shift_count shift, some, and-mask size v) refl
]

ror_value :
    (c : CpuCore) (size : Size) (shift v : ℕ)
    → (exec_ror c size shift v).1 ≡ (
        if shift % 64 == 0
        then v % modulus size
        else ror_result size (turn size (shift % 64)) (v % modulus size))
unfolding exec_ror rotate_done rotate_none
ror_value c size shift v = elim (Bool-cases (shift % 64 == 0)) [
  | inl none ↦ rw (shift_count shift, none, and-mask size v) refl
  | inr some ↦ rw (shift_count shift, some, and-mask size v) refl
]

-- ROR undoes ROL and ROL undoes ROR at every size, count and operand, in any two states: the
-- operand comes back, cut to the size.
pub rol_ror_inverse :
    (c c' : CpuCore) (size : Size) (shift v : ℕ)
    → ((exec_ror c' size shift (exec_rol c size shift v).1).1 ≡ v % modulus size)
      × ((exec_rol c' size shift (exec_ror c size shift v).1).1 ≡ v % modulus size)
rol_ror_inverse c c' size shift v =
    let s = turn size (shift % 64) in
    let within = (turn_bounds size (shift % 64)).1 in
    let w = v % modulus size in
    let small : w < modulus size = modulus-pos size v in
    elim (Bool-cases (shift % 64 == 0)) [
      | inl none ↦ (
        rw (ror_value c' size shift (exec_rol c size shift v).1, rol_value c size shift v, none)
            (fits size w small),
        rw (rol_value c' size shift (exec_ror c size shift v).1, ror_value c size shift v, none)
            (fits size w small),
      )
      | inr some ↦ (
        rw (ror_value c' size shift (exec_rol c size shift v).1, rol_value c size shift v, some)
            (rw (fits size (rol_result size s w) (rol-lt size s w within small))
              (ror_rol size s w within small)),
        rw (rol_value c' size shift (exec_ror c size shift v).1, ror_value c size shift v, some)
            (rw (fits size (ror_result size s w) (ror-lt size s w within small))
              (rol_ror size s w within small)),
      )
    ]
