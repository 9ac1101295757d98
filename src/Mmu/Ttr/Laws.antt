-- ===== src/Mmu/Ttr/Laws.antt =====
-- src/mmu/ttr.rs: the fields of a transparent translation register.
use m68k_rs.Base.{
  ℕ, ◌+◌, ◌*◌, ◌/◌, ◌%◌, ◌^◌, ◌<◌, bit_and, Bool, true, false, not, ◌&&◌, ◌==◌, if◌then◌else◌,
  not_u32, ◌≡◌, refl, sym, ◌∙◌, ◌↔◌, ◌⊎◌, inl, inr, arith, get_bit, get_bit_field, bit_and_mask,
  bit_and_pow, bit_and_field, ==_iff, Bool-cases, u8, fields_agree,
}
use native.Mathlib.Nat.{mod-lt}
use mathlib.Core.Bool.{true≢false}
use m68k_rs.Shift.Powers.{pow-pos}
use m68k_rs.Mmu.Ttr.{
  not_u8, ttr_matches, ttr_matches_040, address_matches, code_matches, privilege_matches,
}

-- The bits of the high byte of the address that the register does not mask are those of its base.
pub AddressCovered : ℕ → ℕ → Type 0
AddressCovered ttr addr =
    (k : ℕ) → k < 8 → get_bit (k + 16) ttr ≡ 0 → get_bit (k + 24) addr ≡ get_bit (k + 24) ttr

-- The bits of the function code that the register does not mask are those of its base.
pub CodeCovered : ℕ → ℕ → Type 0
CodeCovered ttr fc = (k : ℕ) → k < 3 → get_bit (k + 2) ttr ≡ 0 → get_bit k fc ≡ get_bit (k + 8) ttr

pub Enabled : ℕ → Type 0
Enabled ttr = get_bit 15 ttr ≡ 1

enable_test : (ttr : ℕ) → ((bit_and ttr 0x8000 == 0) ≡ false) ↔ Enabled ttr
unfolding Enabled
enable_test ttr = rw (bit_and_pow 15 ttr) (ground arith)

field-lt : (n x : ℕ) → x % 2 ^ n < 2 ^ n
field-lt n x = mod-lt x (pow-pos n)

base_field : (ttr : ℕ) → bit_and ttr 0xff00_0000 / 2 ^ 24 ≡ ttr / 2 ^ 24 % 2 ^ 8
base_field ttr = rw (bit_and_field 24 8 ttr) (omega arith)

address_test : (ttr addr : ℕ) → (address_matches ttr addr ≡ true) ↔ AddressCovered ttr addr
unfolding address_matches AddressCovered
address_test ttr addr =
    let a = addr / 2 ^ 24 % 2 ^ 8 in
    let b = ttr / 2 ^ 24 % 2 ^ 8 in
    let m = ttr / 2 ^ 16 % 2 ^ 8 in
    let same =
      fields_agree 8 32 a b m (omega arith) (field-lt 8 (addr / 2 ^ 24)) (field-lt 8 (ttr / 2 ^ 24))
        (field-lt 8 (ttr / 2 ^ 16)) in
    let equal = ==_iff (bit_and a (not_u32 m)) (bit_and b (not_u32 m)) in
    rw (base_field ttr, bit_and_mask 8 (addr / 2 ^ 24), bit_and_mask 8 (ttr / 2 ^ 16))
      (
        λ e k h z.
            sym (get_bit_field 24 8 k addr h)
            ∙ same.0 (equal.0 e) k h (get_bit_field 16 8 k ttr h ∙ z)
            ∙ get_bit_field 24 8 k ttr h,
        λ covered. equal.1 (
            same.1 (λ k h z.
              get_bit_field 24 8 k addr h
              ∙ covered k h (sym (get_bit_field 16 8 k ttr h) ∙ z)
              ∙ sym (get_bit_field 24 8 k ttr h))),
      )

small_field : (x : ℕ) → u8 (bit_and x 7) ≡ x % 2 ^ 3
small_field x = rw (bit_and_mask 3 x) (omega arith)

code_test : (ttr fc : ℕ) → fc < 8 → (code_matches ttr fc ≡ true) ↔ CodeCovered ttr fc
unfolding code_matches CodeCovered
code_test ttr fc small =
    let b = ttr / 2 ^ 8 % 2 ^ 3 in
    let m = ttr / 2 ^ 2 % 2 ^ 3 in
    let same =
      fields_agree 3 8 fc b m (omega arith) small (field-lt 3 (ttr / 2 ^ 8))
        (field-lt 3 (ttr / 2 ^ 2)) in
    let equal = ==_iff (bit_and fc (not_u8 m)) (bit_and b (not_u8 m)) in
    rw (small_field (ttr / 2 ^ 8), small_field (ttr / 2 ^ 2))
      (
        λ e k h z.
            same.0 (equal.0 e) k h (get_bit_field 2 3 k ttr h ∙ z) ∙ get_bit_field 8 3 k ttr h,
        λ covered. equal.1 (
            same.1 (λ k h z.
              covered k h (sym (get_bit_field 2 3 k ttr h) ∙ z) ∙ sym (get_bit_field 8 3 k ttr h))),
      )

guarded :
    (x : ℕ) (p : Bool) {P Q : Type 0}
    → ((x == 0) ≡ false) ↔ P
    → (p ≡ true) ↔ Q
    → ((if x == 0 then false else p) ≡ true) ↔ (P × Q)
guarded x p e q = elim (Bool-cases (x == 0)) [
  | inl zero ↦
      rw zero
        (λ bad. absurd (true≢false (sym bad)), λ pq. absurd (true≢false (sym zero ∙ e.1 pq.0)))
  | inr on ↦ rw on (λ t. (e.0 on, q.0 t), λ pq. q.1 pq.1)
]

both_tests :
    (p q : Bool) {P Q : Type 0} → (p ≡ true) ↔ P → (q ≡ true) ↔ Q → (p && q ≡ true) ↔ (P × Q)
both_tests true true e f = (λ t. (e.0 refl, f.0 refl), λ pq. refl)
both_tests true false e f = (λ bad. absurd (true≢false (sym bad)), λ pq. f.1 pq.1)
both_tests false q e f = (λ bad. absurd (true≢false (sym bad)), λ pq. e.1 pq.0)

chained_tests :
    (p q : Bool) {P Q : Type 0}
    → (p ≡ true) ↔ P
    → (q ≡ true) ↔ Q
    → ((if not p then false else q) ≡ true) ↔ (P × Q)
chained_tests true q e f = (λ t. (e.0 refl, f.0 t), λ pq. f.1 pq.1)
chained_tests false q e f = (λ bad. absurd (true≢false (sym bad)), λ pq. e.1 pq.0)

-- A 68030 register matches an access exactly when it is enabled, the unmasked bits of the high
-- byte of the address are those of its base, and the unmasked bits of the function code, which has
-- three bits, are those of its function code base; reads and writes are not told apart, and the bits
-- R/W (13) and RWM (12) do not count.
pub ttr_matches_lem :
    (ttr addr fc : ℕ) (write : Bool)
    → fc < 8
    → (ttr_matches ttr addr fc write ≡ true)
      ↔ (Enabled ttr × (AddressCovered ttr addr × CodeCovered ttr fc))
unfolding ttr_matches
ttr_matches_lem ttr addr fc write small =
    guarded (bit_and ttr 0x8000) (address_matches ttr addr && code_matches ttr fc) (enable_test ttr)
      (both_tests (address_matches ttr addr) (code_matches ttr fc) (address_test ttr addr)
        (code_test ttr fc small))

-- The mode of an access is one that the S-field takes: bit 14 takes both, and without it bit 13 is
-- set for the supervisor and clear for the user.
pub PrivilegeCovered : ℕ → Bool → Type 0
PrivilegeCovered ttr supervisor =
    (get_bit 14 ttr ≡ 1) ⊎ (get_bit 13 ttr ≡ (if supervisor then 1 else 0))

s_field : (ttr : ℕ) → ttr / 2 ^ 13 % 2 ^ 2 ≡ get_bit 14 ttr * 2 + get_bit 13 ttr
s_field ttr = omega arith

privilege_test :
    (ttr : ℕ) (supervisor : Bool)
    → (privilege_matches ttr supervisor ≡ true) ↔ PrivilegeCovered ttr supervisor
unfolding privilege_matches PrivilegeCovered
privilege_test ttr true = rw (bit_and_mask 2 (ttr / 2 ^ 13)) (ground arith)
privilege_test ttr false = rw (bit_and_mask 2 (ttr / 2 ^ 13)) (ground arith)

-- A 68040 register matches an access exactly when it is enabled, the unmasked bits of the high
-- byte of the address are those of its base, and its S-field takes the mode of the access.
pub ttr_matches_040_lem :
    (ttr addr : ℕ) (supervisor : Bool)
    → (ttr_matches_040 ttr addr supervisor ≡ true)
      ↔ (Enabled ttr × (AddressCovered ttr addr × PrivilegeCovered ttr supervisor))
unfolding ttr_matches_040
ttr_matches_040_lem ttr addr supervisor =
    guarded (bit_and ttr 0x8000)
      (if not (address_matches ttr addr) then false else privilege_matches ttr supervisor)
      (enable_test ttr)
      (chained_tests (address_matches ttr addr) (privilege_matches ttr supervisor)
        (address_test ttr addr) (privilege_test ttr supervisor))
