-- ===== src/Cpu/Control/Laws.antt =====
-- MOVEC: the stack pointers by their registers, the bits of CACR, and the translations that a
-- write drops.
use m68k_rs.Base.{
  ℕ, Bool, true, false, ◌==◌, ◌&&◌, ◌||◌, leb, if◌then◌else◌, ◌≡◌, refl, ap, ◌⊎◌, none, arith, max,
  get_bit,
}
use m68k_rs.Mmu.Atc.{Atc, lookup, flush_all}
use m68k_rs.Mmu.Atc.Laws.{lookup-flush_all}
use m68k_rs.Cpu.State.{CpuCore, is_060}
use m68k_rs.Cpu.Stack.{sp_index}
use m68k_rs.Cpu.Stack.Laws.{bank_value}
use m68k_rs.Cpu.Control.Cacr.{
  is_kept, is_strobe, branch_cache_after, kept_bits, pending_bits, branch_strobes-bits,
}
use m68k_rs.Cpu.Control.{
  ControlRegister, control_register, read_control_register, write_control_register, read_of,
  write_of, drops_translations, write_cacr, write_tc,
}

-- The three stack pointers, with their place in the saved array and their code in MOVEC.
pub data Bank : Type 0 where
  user interrupt master : Bank

abbrev pub bank_index : Bank → ℕ
bank_index user = 0
bank_index interrupt = 4
bank_index master = 6

abbrev pub bank_code : Bank → ℕ
bank_code user = 0x800
bank_code interrupt = 0x804
bank_code master = 0x803

-- The flags as the rest of the processor keeps them.
pub record Modes (c : CpuCore) : Type 0 where
  pub s : (c.s_flag ≡ 0) ⊎ (c.s_flag ≡ 4)
  pub m : (c.m_flag ≡ 0) ⊎ (c.m_flag ≡ 2)

read_bank :
    (c : CpuCore) (b : Bank)
    → Modes c
    → is_060 c ≡ false
    → read_control_register c (bank_code b) ≡ bank_value c (bank_index b)
unfolding read_control_register control_register read_of sp_index is_060
read_bank c user h t = ground arith
read_bank c interrupt h t = ground arith
read_bank c master h t = ground arith

write_bank :
    (c : CpuCore) (b other : Bank) (value : ℕ)
    → Modes c
    → is_060 c ≡ false
    → bank_value (write_control_register c (bank_code b) value) (bank_index other)
      ≡ (if bank_index other == bank_index b then value else bank_value c (bank_index other))
unfolding write_control_register control_register write_of sp_index is_060
write_bank c user other value h t = ground arith
write_bank c interrupt other value h t = ground arith
write_bank c master other value h t = ground arith

-- MOVEC names the stack pointers: except on the 68060, reading the register of a bank gives the
-- stack pointer of that bank whether it is active or saved, and writing it sets that pointer and
-- keeps those of the other banks. S is 0 or 4 and M is 0 or 2.
pub stack_registers :
    (c : CpuCore) (b other : Bank) (value : ℕ)
    → Modes c
    → is_060 c ≡ false
    → (read_control_register c (bank_code b) ≡ bank_value c (bank_index b))
      × (bank_value (write_control_register c (bank_code b) value) (bank_index other)
          ≡ (if bank_index other == bank_index b then value else bank_value c (bank_index other)))
stack_registers c b other value h t = (read_bank c b h t, write_bank c b other value h t)

-- A write to CACR, bit by bit: the bits that the model keeps (EI and FI on the 68020; these, IBE, ED,
-- FD, DBE and WA on the 68030; FIC, NAI, EIC, EBC, FOC, DPI, ESB, NAD and EDC on the 68060; IE and DE
-- on the others) read back as written, and every other bit reads 0. The strobes (CEI and CI on the
-- 68020; these, CED and CD on the 68030) that were written are pending, with what was pending before,
-- and no other bit becomes pending. On the 68060 CABC, or EBC falling, clears the branch cache, and
-- otherwise CUBC clears its user entries; on the other models the branch cache stays as it was.
pub write_cacr_lem :
    (c : CpuCore) (value k : ℕ)
    → let c' = write_control_register c 0x002 value in
      (get_bit k (read_control_register c' 0x002)
        ≡ (if is_kept c.cpu_type k then get_bit k value else 0))
      × (get_bit k c'.cacr_pending_ops ≡ (
          if is_strobe c.cpu_type k
          then max (get_bit k c.cacr_pending_ops) (get_bit k value)
          else get_bit k c.cacr_pending_ops))
      × (c'.branch_cache
          ≡ (if is_060 c then branch_cache_after c.branch_cache c.cacr value else c.branch_cache))
unfolding write_control_register read_control_register control_register write_of read_of write_cacr
write_cacr_lem c value k = (
  kept_bits c.cpu_type value k,
  pending_bits c.cpu_type c.cacr_pending_ops value k,
  rw (branch_strobes-bits c value) refl,
)

write_of-atc : (c : CpuCore) (r : ControlRegister) (value : ℕ) → (write_of c r value).atc ≡ c.atc
unfolding write_of write_cacr write_tc
write_of-atc c r value = ground arith

dropped :
    (drops : Bool) (before after : Atc) (page : ℕ) (supervisor write : Bool)
    → before ≡ after
    → lookup (if drops then flush_all before else before) page supervisor write
      ≡ (if drops then none else lookup after page supervisor write)
dropped true before after page supervisor write e = lookup-flush_all before page supervisor write
dropped false before after page supervisor write e = ap (λ t. lookup t page supervisor write) e

-- The codes of TC, ITT0, ITT1, DTT0 and DTT1, which are 0x003 to 0x007, and of URP and SRP.
abbrev pub translates : ℕ → Bool
translates reg = (leb 3 reg && leb reg 7) || reg == 0x806 || reg == 0x807

drops_translations-control_register :
    (reg : ℕ) → drops_translations (control_register reg) ≡ translates reg
unfolding drops_translations control_register
drops_translations-control_register reg = ground arith

-- A write to TC, a transparent translation register or a root pointer, whose codes are 0x003 to
-- 0x007, 0x806 and 0x807, leaves no translation cached, and a write to any other register leaves each
-- lookup as it was.
pub write_control_register-lookup :
    (c : CpuCore) (reg value page : ℕ) (supervisor write : Bool)
    → lookup (write_control_register c reg value).atc page supervisor write
      ≡ (if translates reg then none else lookup c.atc page supervisor write)
unfolding write_control_register
write_control_register-lookup c reg value page supervisor write =
    rw (drops_translations-control_register reg) (
      dropped (translates reg) (write_of c (control_register reg) value).atc c.atc page supervisor
        write (write_of-atc c (control_register reg) value))
