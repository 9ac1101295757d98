-- ===== src/Exception/Interrupts.antt =====
-- src/core/execute.rs: the service of an interrupt, and the stopped state. The interrupt acknowledge
-- cycle is a parameter: a bus gives a vector number, or all ones for the vector of the level.
use m68k_rs.Base.{
  ℕ, ◌+◌, ◌*◌, ◌/◌, ◌^◌, bit_and, bit_or, Bool, true, false, ◌&&◌, ◌||◌, ◌==◌, ◌!=◌, ltb,
  if◌then◌else◌, u8, u16, wrapping_add, wrapping_sub, Option, none, some,
}
use m68k_rs.Base.Results.{ok, pure, ◌>>=◌, ◌>>◌}
use m68k_rs.Types.{CpuType, m68000, m68010, is_m68060}
use m68k_rs.Bus.Interface.{AddressBus}
use m68k_rs.Cpu.State.{CpuCore, is_040_type}
use m68k_rs.Cpu.Stack.{set_s_flag, set_sm_flag, sflag_set}
use m68k_rs.Cpu.Status.{get_sr, set_sr}
use m68k_rs.Exception.Machine.{Machine, cpu, gets, modify, Faults}
use m68k_rs.Exception.Memory.{write_16}
use m68k_rs.Exception.Stack.{grow, push_16, push_32, jump_vector}
use m68k_rs.Exception.Frames.{format_0_frame}
use m68k_rs.Exception.Faults.{exception_privilege}
use m68k_rs.Exception.Return.{is_020_or_030}

abbrev pub stop_level_stop : ℕ
stop_level_stop = 1

abbrev pub stop_level_halt : ℕ
stop_level_halt = 2

unfoldable pub iack_vector : ℕ → ℕ → ℕ
iack_vector response level = if response == 0xffff_ffff then 24 + level else bit_and response 0xff

unfoldable pub halt : CpuCore → CpuCore
halt c = record c { stopped = bit_or c.stopped stop_level_halt }

unfoldable pub stop : CpuCore → ℕ → CpuCore
stop c new_sr =
    let c' = set_sr c new_sr in record c' { stopped = bit_or c'.stopped stop_level_stop }

module _ {B : Type 0} (bus : AddressBus B) (acknowledge : ℕ → B → ℕ × B) (faults : Faults B) where
  -- `bus.interrupt_acknowledge`, as a vector number.
  pub acknowledged : ℕ → Machine B ℕ
  unfolding iack_vector
  acknowledged level (c, b) =
      let (response, b') = acknowledge level b in (ok (iack_vector response level), (c, b'))

  -- The frame of the 68000, with the acknowledge cycle after its first word.
  pub interrupt_frame_68000 : ℕ → ℕ → ℕ → Machine B ℕ
  unfolding acknowledged
  interrupt_frame_68000 level stacked_pc old_sr = do
    sp ← grow 6
    write_16 bus faults (wrapping_add sp 4) (bit_and stacked_pc 0xffff)
    vector ← acknowledged level
    write_16 bus faults sp old_sr
    write_16 bus faults (wrapping_add sp 2) (u16 (stacked_pc / 2 ^ 16))
    pure vector

  pub interrupt_frame_68010 : ℕ → ℕ → ℕ → Machine B ℕ
  unfolding acknowledged
  interrupt_frame_68010 level stacked_pc old_sr = do
    vector ← acknowledged level
    sp ← grow 8
    write_16 bus faults (wrapping_add sp 4) (bit_and stacked_pc 0xffff)
    write_16 bus faults sp old_sr
    write_16 bus faults (wrapping_add sp 2) (u16 (stacked_pc / 2 ^ 16))
    write_16 bus faults (wrapping_add sp 6) (u16 (u16 vector * 4))
    pure vector

  pub interrupt_frame : CpuType → ℕ → ℕ → ℕ → Machine B ℕ
  unfolding interrupt_frame_68000 interrupt_frame_68010 acknowledged
  interrupt_frame m68000 level stacked_pc old_sr = interrupt_frame_68000 level stacked_pc old_sr
  interrupt_frame m68010 level stacked_pc old_sr = interrupt_frame_68010 level stacked_pc old_sr
  interrupt_frame type level stacked_pc old_sr = do
    vector ← acknowledged level
    format_0_frame bus faults vector stacked_pc old_sr
    pure vector

  -- The throwaway frame on the interrupt stack, for a processor in the master state.
  pub throwaway_frame : ℕ → ℕ → ℕ → Machine B (Unit {0})
  throwaway_frame vector stacked_pc old_sr = do
    c ← cpu
    if (is_020_or_030 c.cpu_type || is_040_type c.cpu_type) && c.m_flag != 0
        then (do
          modify (λ c. set_sm_flag c sflag_set)
          push_16 bus faults (bit_or 0x1000 (bit_and (u16 (u16 vector * 4)) 0x0fff))
          push_32 bus faults stacked_pc
          push_16 bus faults (bit_or old_sr 0x2000))
        else if is_m68060 c.cpu_type && c.m_flag != 0
        then modify (λ c. record c { m_flag = 0 })
        else pure tt

  unfoldable pub service_interrupt : ℕ → Machine B (Unit {0})
  unfolding interrupt_frame throwaway_frame
  service_interrupt level = do
    old_sr ← gets get_sr
    modify (λ c. set_s_flag (record c { t1_flag = 0; t0_flag = 0 }) sflag_set)
    modify (λ c. record c { int_mask = bit_and level 7 * 2 ^ 8 })
    c ← cpu
    vector ← interrupt_frame c.cpu_type level c.pc old_sr
    throwaway_frame vector c.pc old_sr
    jump_vector bus faults vector
    modify (λ c. record c { stopped = 0 })

  -- Whether an interrupt was taken.
  unfoldable pub check_and_service_interrupts : Machine B Bool
  unfolding service_interrupt
  check_and_service_interrupts = do
    c ← cpu
    let mask_level = bit_and (c.int_mask / 2 ^ 8) 7
    let int_level = bit_and c.int_level 7
    if int_level == 7 || ltb mask_level int_level
        then (do
          service_interrupt (u8 int_level)
          modify (λ c. record c { int_level = 0 })
          pure true)
        else pure false

  unfoldable pub stopped_supervisor_check : Machine B (Option ℕ)
  stopped_supervisor_check = do
    c ← cpu
    if c.stopped != stop_level_stop || c.s_flag != 0 then pure none else (do
      modify (λ c. record c { stopped = 0; ppc = wrapping_sub c.pc 4 })
      cycles ← exception_privilege bus faults
      pure (some (4 + cycles)))
