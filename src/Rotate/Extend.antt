-- ===== src/Rotate/Extend.antt =====
-- src/core/instructions/shift_rotate.rs: ROXL and ROXR as methods.
use m68k_rs.Base.{
  ℕ, ◌+◌, ◌%◌, ◌<◌, true, false, ◌==◌, ◌!=◌, if◌then◌else◌, inl, inr, Bool-cases, ◌≡◌, refl, ap,
  ◌∙◌, arith,
}
use m68k_rs.Types.{Size, bits, modulus}
use m68k_rs.Cpu.State.{CpuCore}
use m68k_rs.Cpu.Status.{flag_x}
use m68k_rs.Arith.Bits.{and-mask}
use m68k_rs.Arith.Add.{modulus-pos}
use m68k_rs.Shift.Logical.{fits}
use m68k_rs.Rotate.{
  roxl_loop, roxr_loop, exec_roxl, exec_roxr, rotate_extend_none, rotate_extend_done,
}
use m68k_rs.Rotate.Rounds.{InRange, loop_back, roxl_loop-InRange}

x_start-lt : (x : ℕ) → (if x != 0 then 1 else 0) < 2
x_start-lt x = ground arith

-- X as the next instruction reads it back from the flag.
x_again : (x : ℕ) → x < 2 → (if (if x != 0 then 0x100 else 0) != 0 then 1 else 0) ≡ x
x_again x h = ground arith

x_kept : (x : ℕ) → ((if (if x != 0 then 1 else 0) != 0 then 0x100 else 0) != 0) ≡ (x != 0)
x_kept x = ground arith

-- What ROXL leaves.
loop_of : CpuCore → Size → ℕ → ℕ × ℕ
loop_of c size v = (v % modulus size, if c.x_flag != 0 then 1 else 0)

roxl_some :
    (c : CpuCore) (size : Size) (shift v : ℕ)
    → (shift % (bits size + 1) == 0) ≡ false
    → exec_roxl c size shift v
      ≡ rotate_extend_done c size shift
          (roxl_loop size (shift % (bits size + 1)) (loop_of c size v))
unfolding exec_roxl loop_of
roxl_some c size shift v some = rw (some, and-mask size v) refl

roxr_some :
    (c : CpuCore) (size : Size) (shift v : ℕ)
    → (shift % (bits size + 1) == 0) ≡ false
    → exec_roxr c size shift v
      ≡ rotate_extend_done c size shift
          (roxr_loop size (shift % (bits size + 1)) (loop_of c size v))
unfolding exec_roxr loop_of
roxr_some c size shift v some = rw (some, and-mask size v) refl

-- The operand and X that the next rotate starts with are those the loop left.
loop_start :
    (c : CpuCore) (size : Size) (shift : ℕ) (st : ℕ × ℕ)
    → InRange size st
    → loop_of (rotate_extend_done c size shift st).0 size (rotate_extend_done c size shift st).1
      ≡ st
unfolding loop_of rotate_extend_done InRange
loop_start c size shift (r, x) (h, k) = rw (fits size r h, x_again x k) refl

done_values :
    (c : CpuCore) (size : Size) (shift r x : ℕ)
    → ((rotate_extend_done c size shift (r, x)).1 ≡ r)
      × (flag_x (rotate_extend_done c size shift (r, x)).0 ≡ ((if x != 0 then 0x100 else 0) != 0))
unfolding rotate_extend_done
done_values c size shift r x = (refl, refl)

start-InRange : (c : CpuCore) (size : Size) (v : ℕ) → InRange size (loop_of c size v)
unfolding loop_of InRange
start-InRange c size v = (modulus-pos size v, x_start-lt c.x_flag)

restored :
    (c c' : CpuCore) (size : Size) (shift v : ℕ)
    → ((rotate_extend_done c' size shift (loop_of c size v)).1 ≡ v % modulus size)
      × (flag_x (rotate_extend_done c' size shift (loop_of c size v)).0 ≡ flag_x c)
unfolding rotate_extend_done loop_of
restored c c' size shift v = (refl, x_kept c.x_flag)

none_values :
    (c : CpuCore) (size : Size) (v n : ℕ)
    → ((rotate_extend_none c size v n).1 ≡ v % modulus size)
      × (flag_x (rotate_extend_none c size v n).0 ≡ flag_x c)
unfolding rotate_extend_none
none_values c size v n = (and-mask size v, refl)

roxl_none :
    (c : CpuCore) (size : Size) (shift v : ℕ)
    → (shift % (bits size + 1) == 0) ≡ true
    → exec_roxl c size shift v ≡ rotate_extend_none c size v shift
unfolding exec_roxl
roxl_none c size shift v none = rw none refl

roxr_none :
    (c : CpuCore) (size : Size) (shift v : ℕ)
    → (shift % (bits size + 1) == 0) ≡ true
    → exec_roxr c size shift v ≡ rotate_extend_none c size v shift
unfolding exec_roxr
roxr_none c size shift v none = rw none refl

-- ROXR with the count that ROXL had, run in the state that ROXL left, gives back the operand, cut
-- to its size, and X, at every size, count and operand.
pub exec_roxr-exec_roxl :
    (c : CpuCore) (size : Size) (shift v : ℕ)
    → let left = exec_roxl c size shift v in
      let back = exec_roxr left.0 size shift left.1 in
      (back.1 ≡ v % modulus size) × (flag_x back.0 ≡ flag_x c)
exec_roxr-exec_roxl c size shift v =
    let n = shift % (bits size + 1) in
    elim (Bool-cases (n == 0)) [
      | inl none ↦
          let left = rotate_extend_none c size v shift in
          rw (roxl_none c size shift v none, roxr_none left.0 size shift left.1 none)
            (
              (none_values left.0 size left.1 shift).0
                  ∙ ap (λ t. t % modulus size) (none_values c size v shift).0
                  ∙ fits size (v % modulus size) (modulus-pos size v),
              (none_values left.0 size left.1 shift).1 ∙ (none_values c size v shift).1,
            )
      | inr some ↦
          let st = roxl_loop size n (loop_of c size v) in
          let left = rotate_extend_done c size shift st in
          let inside = roxl_loop-InRange size n (loop_of c size v) (start-InRange c size v) in
          rw
            (
              roxl_some c size shift v some,
              roxr_some left.0 size shift left.1 some,
              loop_start c size shift st inside,
              loop_back size n (loop_of c size v) (start-InRange c size v),
            )
            (restored c left.0 size shift v)
    ]
