-- ===== src/Mmu/Table030/Probe.antt =====
-- src/mmu/translation.rs: what PTEST reports of an access against what translation makes of it.
use m68k_rs.Mmu.Fault.{access_fault_cause, access_fault, MmuFaultCause}
use m68k_rs.Base.{
  ℕ, ◌≤◌, ◌≡◌, refl, Bool, true, false, not, ◌==◌, ◌!=◌, ◌&&◌, bit_and, bit_or, if◌then◌else◌,
  arith, bit_and_pow, get_bit, get_bit-or, digit_past, max, bit_and_mask,
}
use m68k_rs.Base.Results.{Result, ok, err}
use m68k_rs.Bus.Interface.{AddressBus}
use m68k_rs.Cpu.State.{CpuCore}
use m68k_rs.Mmu.Table030.{
  Walk030, Walk030End, page, invalid, level_stop, bus_err, config, walk_030, end_bits, mmusr,
  ptest_030, translate_030, finish_030, function_code_of,
}
use m68k_rs.Mmu.Table030.Levels.{walk_030_unlimited, walk_030-Counted, is_stop}

abbrev pub succeeds : {E A : Type 0} → Result E A → Bool
succeeds (ok x) = true
succeeds (err e) = false

-- What PTEST's bits say of an access: no bus error (bit 15), no invalid descriptor (bit 10), no
-- supervisor-only page probed from user space (bit 13), and for a write no write protection (bit 11).
abbrev pub admits : Bool → ℕ → Bool
admits write sr =
    bit_and sr 0x8000 == 0
    && bit_and sr 0x400 == 0
    && bit_and sr 0x2000 == 0
    && not (write && bit_and sr 0x800 != 0)

low_bit : (k n : ℕ) → 3 ≤ k → get_bit k (bit_and n 7) ≡ 0
low_bit k n h = digit_past 3 k (bit_and n 7) (omega (arith, bit_and_mask 3 n)) h

-- MMUSR before the bits of the end: the count, W and S.
abbrev flags : ℕ → Bool → Bool → ℕ
flags n wp sup =
    let with_w = if wp then bit_or (bit_and n 7) 0x800 else bit_and n 7 in
    if sup then bit_or with_w 0x2000 else with_w

flag_bit :
    (k n : ℕ) (wp sup : Bool)
    → 3 ≤ k
    → get_bit k (flags n wp sup)
      ≡ max (if wp then get_bit k 0x800 else 0) (if sup then get_bit k 0x2000 else 0)
flag_bit k n true true h = omega (
  arith,
  get_bit-or k (bit_or (bit_and n 7) 0x800) 0x2000,
  get_bit-or k (bit_and n 7) 0x800,
  low_bit k n h,
)
flag_bit k n false true h = omega (arith, get_bit-or k (bit_and n 7) 0x2000, low_bit k n h)
flag_bit k n true false h = omega (arith, get_bit-or k (bit_and n 7) 0x800, low_bit k n h)
flag_bit k n false false h = omega (arith, low_bit k n h)

-- The four tests of a word, by its bits.
admits_bits :
    (write : Bool) (sr : ℕ)
    → admits write sr ≡ (
        get_bit 15 sr == 0
        && get_bit 10 sr == 0
        && get_bit 13 sr == 0
        && not (write && get_bit 11 sr != 0))
admits_bits write sr =
    ground (arith, bit_and_pow 15 sr, bit_and_pow 10 sr, bit_and_pow 13 sr, bit_and_pow 11 sr)

-- The bits of the flags that PTEST reports, and of a word with one more bit.
four_bits :
    (n : ℕ) (wp sup : Bool)
    → (get_bit 15 (flags n wp sup) ≡ 0)
      × (get_bit 10 (flags n wp sup) ≡ 0)
      × (get_bit 13 (flags n wp sup) ≡ (if sup then 1 else 0))
      × (get_bit 11 (flags n wp sup) ≡ (if wp then 1 else 0))
four_bits n wp sup = (
  ground (arith, flag_bit 15 n wp sup),
  ground (arith, flag_bit 10 n wp sup),
  ground (arith, flag_bit 13 n wp sup),
  ground (arith, flag_bit 11 n wp sup),
)

admits-flags :
    (write wp sup : Bool) (n : ℕ) → admits write (flags n wp sup) ≡ (not sup && not (write && wp))
admits-flags write wp sup n = ground (arith, admits_bits write (flags n wp sup), four_bits n wp sup)

refuses_invalid : (write : Bool) (sr : ℕ) → admits write (bit_or sr 0x400) ≡ false
refuses_invalid write sr =
    ground (arith, admits_bits write (bit_or sr 0x400), get_bit-or 10 sr 0x400)

refuses_error : (write : Bool) (sr : ℕ) → admits write (bit_or sr 0x8000) ≡ false
refuses_error write sr =
    ground (arith, admits_bits write (bit_or sr 0x8000), get_bit-or 15 sr 0x8000)

invalid_fails :
    (indirect : Bool) (logical : ℕ)
    → succeeds {A = ℕ} (
        if indirect
        then err (access_fault_cause logical MmuFaultCause.indirect)
        else err (access_fault logical))
      ≡ false
invalid_fails true logical = refl
invalid_fails false logical = refl

-- The walk's end decides both.
same_verdict :
    (e : Walk030End) (wp sup write supervisor : Bool) (fc logical n at : ℕ)
    → (bit_and fc 4 == 0) ≡ not supervisor
    → is_stop e ≡ false
    → let w : Walk030 = record { end = e; wp = wp; sup = sup; levels = n; desc_addr = at } in
      succeeds (finish_030 logical write supervisor w) ≡ admits write (mmusr fc w)
unfolding finish_030 mmusr end_bits
same_verdict (page field consumed) wp sup write supervisor fc logical n at u h =
    rw (u, admits-flags write wp (sup && not supervisor) n) (ground arith)
same_verdict (invalid indirect) wp sup write supervisor fc logical n at u h =
    rw (refuses_invalid write (flags n wp (sup && bit_and fc 4 == 0)))
      (invalid_fails indirect logical)
same_verdict level_stop wp sup write supervisor fc logical n at u h = absurd (ground arith)
same_verdict (bus_err x) wp sup write supervisor fc logical n at u h =
    rw (refuses_error write (flags n wp (sup && bit_and fc 4 == 0))) refl
same_verdict config wp sup write supervisor fc logical n at u h =
    rw (refuses_error write (flags n wp (sup && bit_and fc 4 == 0))) refl

function_code_user : (s i : Bool) → (bit_and (function_code_of s i) 4 == 0) ≡ not s
function_code_user true true = refl
function_code_user true false = refl
function_code_user false true = refl
function_code_user false false = refl

positive : (level : ℕ) → 5 ≤ level → (level == 0) ≡ false
positive level h = ground arith

-- A PTEST that may fetch five descriptors or more foretells the access: translation succeeds exactly
-- when MMUSR shows no bus error, no invalid descriptor, no supervisor-only page for a user access,
-- and no write protection for a write.
pub translate_030-ptest_030 :
    {B : Type 0} (bus : AddressBus B) (c : CpuCore) (b : B) (logical level : ℕ)
    (write supervisor instruction : Bool)
    → 5 ≤ level
    → succeeds (translate_030 bus c logical write supervisor instruction b).0
      ≡ admits write
          (ptest_030 bus c logical (function_code_of supervisor instruction) write level b).0.0
unfolding translate_030 ptest_030
translate_030-ptest_030 bus c b logical level write s i h =
    let fc = function_code_of s i in
    let w = (walk_030 bus c logical fc level b).0 in
    rw (walk_030_unlimited bus logical fc c 0xffff_ffff level b (omega arith) h, positive level h)
      (same_verdict w.end w.wp w.sup write s fc logical w.levels w.desc_addr
        (function_code_user s i) (walk_030-Counted bus logical fc c level b h).1)
