-- ===== src/Exception/Return.antt =====
-- src/core/decode.rs: RTE, RTD, RTS and RTR, by processor model and by format of the frame.
use m68k_rs.Base.{
  ◌+◌, ◌*◌, ℕ, zero, suc, ◌/◌, ◌^◌, bit_and, Bool, true, false, ◌&&◌, ◌==◌, ◌!=◌, if◌then◌else◌,
  wrapping_add, some,
}
use m68k_rs.Base.Results.{pure, raise, ◌>>=◌, ◌>>◌}
use m68k_rs.Types.{CpuType, m68000, m68010, m68ec020, m68020, m68ec030, m68030, scc68070}
use m68k_rs.Bus.Interface.{AddressBus}
use m68k_rs.Cpu.State.{CpuCore, a, is_040, is_060}
use m68k_rs.Cpu.Status.{is_supervisor, set_sr}
use m68k_rs.Exception.Machine.{Machine, cpu, gets, modify, Faults, stack_overflow}
use m68k_rs.Exception.Memory.{read_16, read_32}
use m68k_rs.Exception.Stack.{shrink, pull_16, pull_32, full_prefetch}
use m68k_rs.Exception.Faults.{take_exception, exception_privilege}

abbrev pub format_error : ℕ
format_error = 14

-- The models whose bus fault frames have the formats A and B.
abbrev pub is_020_or_030 : CpuType → Bool
is_020_or_030 m68ec020 = true
is_020_or_030 m68020 = true
is_020_or_030 m68ec030 = true
is_020_or_030 m68030 = true
is_020_or_030 _ = false

module _ {B : Type 0} (bus : AddressBus B) (faults : Faults B) where
  -- The status register and the program counter of a frame, pulled; the status register is returned.
  unfoldable pub pull_sr_pc : Machine B ℕ
  pull_sr_pc = do
    sr ← pull_16 bus faults
    target ← pull_32 bus faults
    modify (λ c. record c { pc = target })
    pure sr

  unfoldable pub frame_format : Machine B ℕ
  frame_format = do
    sp ← gets (λ c. a c 7)
    word ← read_16 bus faults (wrapping_add sp 6)
    pure (word / 2 ^ 12)

  unfoldable pub rte_68000 : Machine B ℕ
  unfolding pull_sr_pc
  rte_68000 = do sr ← pull_sr_pc; modify (λ c. set_sr c sr); full_prefetch bus faults; pure 20

  unfoldable pub rte_68010 : ℕ → Machine B ℕ
  unfolding pull_sr_pc
  rte_68010 format =
      if format == 0
      then (do
        sr ← pull_sr_pc
        shrink 2
        modify (λ c. set_sr c sr)
        full_prefetch bus faults
        pure 24)
      else if format == 8
      then (do
        sr ← pull_sr_pc
        pull_16 bus faults
        shrink (2 * 25)
        modify (λ c. set_sr c sr)
        full_prefetch bus faults
        pure 20)
      else take_exception bus faults format_error

  -- The return through a frame of the format 0.
  unfoldable pub return_format_0 : Machine B ℕ
  unfolding pull_sr_pc
  return_format_0 = do sr ← pull_sr_pc; pull_16 bus faults; modify (λ c. set_sr c sr); pure 20

  -- The return through a frame with `dump` bytes after the format word.
  unfoldable pub return_over : ℕ → Machine B ℕ
  unfolding pull_sr_pc
  return_over dump = do
    sr ← pull_sr_pc
    pull_16 bus faults
    shrink dump
    modify (λ c. set_sr c sr)
    pure 20

  -- The write of a 68040 frame that its handler has completed.
  unfoldable pub absorb_write_040 : Machine B (Unit {0})
  absorb_write_040 = do
    sp ← gets (λ c. a c 7)
    ssw ← read_16 bus faults (wrapping_add sp 0x0c)
    if bit_and ssw 0x0100 == 0 && bit_and ssw 0x0400 != 0
        then (do
          wb3s ← read_16 bus faults (wrapping_add sp 0x0e)
          if bit_and wb3s 0x0080 == 0
              then (do
                wb3a ← read_32 bus faults (wrapping_add sp 0x18)
                modify (λ c. record c { mmu_write_suppress = some wb3a }))
              else pure tt)
        else pure tt

  -- The access of a frame of the format B that its handler has completed.
  unfoldable pub absorb_access_030 : Machine B (Unit {0})
  absorb_access_030 = do
    sp ← gets (λ c. a c 7)
    ssw ← read_16 bus faults (wrapping_add sp 0x0a)
    if bit_and ssw 0x0100 == 0 && bit_and ssw 0xf000 == 0
        then (do
          fa ← read_32 bus faults (wrapping_add sp 0x10)
          if bit_and ssw 0x0040 != 0
              then (do
                dib ← read_32 bus faults (wrapping_add sp 0x2c)
                modify (λ c. record c { mmu_read_override = some (fa, dib) }))
              else modify (λ c. record c { mmu_write_suppress = some fa }))
        else pure tt

  -- A throwaway frame, of the format 1: only the status register is taken.
  unfoldable pub discard_throwaway : Machine B (Unit {0})
  discard_throwaway = do sr ← pull_16 bus faults; shrink (4 + 2); modify (λ c. set_sr c sr)

  -- The frames of the 68020 and later, by their format; `next` is the rest of the loop.
  unfoldable pub rte_frame : Machine B ℕ → CpuCore → ℕ → Machine B ℕ
  unfolding return_format_0 return_over absorb_write_040 absorb_access_030 discard_throwaway
  rte_frame next c format =
      if format == 0
      then return_format_0
      else if format == 1
      then (do discard_throwaway; next)
      else if format == 2
      then return_over 4
      else if format == 4 && is_060 c
      then return_over 8
      else if format == 7 && is_040 c
      then (do absorb_write_040; return_over 52)
      else if format == 0xa && is_020_or_030 c.cpu_type
      then return_over 24
      else if format == 0xb && is_020_or_030 c.cpu_type
      then (do absorb_access_030; return_over 84)
      else take_exception bus faults format_error

  -- The loop of the 68020 and later, over `frames` frames at most.
  unfoldable pub rte_68020 : ℕ → Machine B ℕ
  unfolding frame_format rte_frame
  rte_68020 zero = raise stack_overflow
  rte_68020 (suc frames) =
      let next = rte_68020 frames in frame_format >>= λ format. cpu >>= λ c. rte_frame next c format

  unfoldable pub rte_type : CpuType → ℕ → Machine B ℕ
  unfolding frame_format rte_68000 rte_68010
  rte_type m68000 frames = rte_68000
  rte_type m68010 frames = frame_format >>= rte_68010
  rte_type scc68070 frames = frame_format >>= rte_68010
  rte_type type frames = rte_68020 frames

  -- RTE, `0x4E73`.
  unfoldable pub exec_rte : ℕ → Machine B ℕ
  unfolding rte_type
  exec_rte frames = do
    c ← cpu
    if is_supervisor c then rte_type c.cpu_type frames else exception_privilege bus faults

  -- RTS, `0x4E75`.
  unfoldable pub exec_rts : Machine B ℕ
  exec_rts = do
    modify (λ c. record c { change_of_flow = true })
    target ← pull_32 bus faults
    modify (λ c. record c { pc = target })
    full_prefetch bus faults
    pure 16
