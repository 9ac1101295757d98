-- ===== src/Exception/Stack.antt =====
-- src/core/execute.rs, src/core/cpu.rs and src/core/exceptions.rs: the stack, the prefetch queue, and
-- the jump through a vector. `internal_cycles`, the state of the 68060 pipeline and the interrupt
-- sample of the bus, which only tell the time, are left out.
use m68k_rs.Base.{
  ℕ, ◌*◌, bit_and, Bool, true, false, not, ◌&&◌, ◌||◌, ◌!=◌, if◌then◌else◌, u32, wrapping_add,
  wrapping_sub, Option, none, some,
}
use m68k_rs.Base.Results.{ok, err, pure, ◌>>=◌, ◌>>◌}
use m68k_rs.Types.{CpuType, m68000, m68010}
use m68k_rs.Bus.Interface.{BasicBus, AddressBus}
use m68k_rs.Cpu.State.{CpuCore, update, address}
use m68k_rs.Exception.Machine.{Machine, cpu, gets, modify, transfer, write_raw, faulted, Faults}
use m68k_rs.Exception.Memory.{read_16, read_32, write_16, write_32}

abbrev pub queues_words : CpuType → Bool
queues_words m68000 = true
queues_words m68010 = true
queues_words _ = false

unfoldable pub prefetch_enabled : CpuCore → Bool
prefetch_enabled c = c.precise_bus && queues_words c.cpu_type

module _ {B : Type 0} where
  -- `self.dar[15] = self.dar[15].wrapping_sub(n)`, and the addition.
  abbrev pub grow : ℕ → Machine B ℕ
  grow n = do
    modify (λ c. record c { dar = update c.dar 15 (wrapping_sub (c.dar 15) n) })
    gets (λ c. c.dar 15)

  abbrev pub shrink : ℕ → Machine B (Unit {0})
  shrink n = modify (λ c. record c { dar = update c.dar 15 (wrapping_add (c.dar 15) n) })

  -- `fake_push_16_raw` and `fake_push_32_raw`.
  abbrev pub fake_push_16_raw : Machine B (Unit {0})
  fake_push_16_raw = modify (λ c. record c { dar = update c.dar 15 (wrapping_sub (c.dar 15) 2) })

  abbrev pub fake_push_32_raw : Machine B (Unit {0})
  fake_push_32_raw = modify (λ c. record c { dar = update c.dar 15 (wrapping_sub (c.dar 15) 4) })

module _ {B : Type 0} (basic : BasicBus B) where
  unfoldable pub push_16_raw : ℕ → Machine B (Unit {0})
  push_16_raw value = do
    sp ← grow 2
    c ← cpu
    write_raw (λ b. basic.write_word b (address c sp) value)

  unfoldable pub push_32_raw : ℕ → Machine B (Unit {0})
  push_32_raw value = do
    sp ← grow 4
    c ← cpu
    write_raw (λ b. basic.write_long b (address c sp) value)

module _ {B : Type 0} (bus : AddressBus B) (faults : Faults B) where
  unfoldable pub push_16 : ℕ → Machine B (Unit {0})
  push_16 value = do sp ← grow 2; write_16 bus faults sp value

  unfoldable pub push_32 : ℕ → Machine B (Unit {0})
  push_32 value = do sp ← grow 4; write_32 bus faults sp value

  unfoldable pub pull_16 : Machine B ℕ
  pull_16 = do sp ← gets (λ c. c.dar 15); value ← read_16 bus faults sp; shrink 2; pure value

  unfoldable pub pull_32 : Machine B ℕ
  pull_32 = do sp ← gets (λ c. c.dar 15); value ← read_32 bus faults sp; shrink 4; pure value

  unfoldable pub prefetch_read : ℕ → Machine B (Option ℕ)
  prefetch_read addr0 = do
    addr ← gets (λ c. address c addr0)
    r ← transfer (bus.try_read_word addr)
    elim r [ ok v ↦ pure (some v) | err f ↦ (do faults.bus_error addr false true 2; pure none) ]

  unfoldable pub prefetch_first : Machine B (Unit {0})
  unfolding prefetch_read
  prefetch_first = do
    c ← cpu
    if not (prefetch_enabled c) then pure tt else (do
      modify (λ c. record c { prefetch_count = 0 })
      if bit_and c.pc 1 != 0 then pure tt else (do
        word ← prefetch_read c.pc
        elim word [
          | none ↦ pure tt
          | some w ↦
              modify
                (λ c. record c { prefetch_queue = (w, c.prefetch_queue.1); prefetch_count = 1 })
        ]))

  unfoldable pub prefetch_second : Machine B (Unit {0})
  unfolding prefetch_read
  prefetch_second = do
    c ← cpu
    if not (prefetch_enabled c) || c.prefetch_count != 1
        then pure tt
        else if bit_and c.pc 1 != 0 || faulted c
        then pure tt
        else (do
          word ← prefetch_read (wrapping_add c.pc 2)
          elim word [
            | none ↦ pure tt
            | some w ↦
                modify
                  (λ c. record c { prefetch_queue = (c.prefetch_queue.0, w); prefetch_count = 2 })
          ])

  unfoldable pub full_prefetch : Machine B (Unit {0})
  unfolding prefetch_first prefetch_second
  full_prefetch = do prefetch_first; prefetch_second

  -- The jump to the address at `addr`.
  unfoldable pub jump_at : ℕ → Machine B (Unit {0})
  unfolding prefetch_first prefetch_second
  jump_at addr = do
    target ← read_32 bus faults addr
    modify (λ c. record c { pc = target })
    prefetch_first
    prefetch_second

  unfoldable pub jump_vector : ℕ → Machine B (Unit {0})
  unfolding jump_at
  jump_vector vector = do
    modify (λ c. record c {
      loop_mode = false;
      last_exception_vector = some vector;
      instruction_exception_vector = some vector;
    })
    addr ← gets (λ c. wrapping_add (u32 (vector * 4)) c.vbr)
    jump_at addr
