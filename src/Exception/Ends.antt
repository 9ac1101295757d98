-- ===== src/Exception/Ends.antt =====
-- src/core/exceptions.rs and src/core/cpu.rs: the faults and the exceptions come to an end.
use m68k_rs.Exception.Stack.{push_16, push_32}
use m68k_rs.Base.{
  ℕ, ◌*◌, inl, Bool, if◌then◌else◌, bit_or, bit_and, wrapping_add, u16, ◌/◌, ◌^◌, not,
}
use m68k_rs.Bus.Interface.{BasicBus, AddressBus}
use m68k_rs.Cpu.State.{CpuCore}
use m68k_rs.Exception.Machine.{Faults}
use m68k_rs.Exception.Frames.{
  group0_frame_68000, group0_frame_68010, address_error_frame_040, address_error_frame,
  push_exception_frame_68000, format_0_frame, format_2_frame, bus_error_frame_060,
  bus_error_frame_040, bus_error_frame_030,
}
use m68k_rs.Exception.Finishes.{Stable, Finishes, cpu-Finishes, bind-Finishes, ◌>>>◌}
use m68k_rs.Exception.Accesses.{Settled, write_16-Finishes}
use m68k_rs.Exception.Pushes.{
  grow-Finishes, fake_push_16-Finishes, fake_push_32-Finishes, times-Finishes, push_16_raw-Finishes,
  push_32_raw-Finishes, push_16-Finishes, push_32-Finishes, Stable-dar,
}

module _ {B : Type 0} {P : CpuCore → Type 0}
    (k : (c : CpuCore) (dar : ℕ → ℕ) → P c → P (record c { dar = dar })) where
  module _ (basic : BasicBus B) where
    pub group0_frame_68000-Finishes :
        (status : ℕ) (at : ℕ) (old_sr : ℕ) → Finishes P (group0_frame_68000 basic status at old_sr)
    unfolding group0_frame_68000
    group0_frame_68000-Finishes status at old_sr = bind-Finishes cpu-Finishes λ c.
        push_16_raw-Finishes k basic _
        >>> push_32_raw-Finishes k basic _
        >>> push_16_raw-Finishes k basic _
        >>> push_16_raw-Finishes k basic _
        >>> push_32_raw-Finishes k basic _

    pub group0_frame_68010-Finishes :
        (vector : ℕ) (old_sr : ℕ) → Finishes P (group0_frame_68010 basic vector old_sr)
    unfolding group0_frame_68010
    group0_frame_68010-Finishes vector old_sr = bind-Finishes cpu-Finishes λ c.
        times-Finishes k 8 _ (fake_push_32-Finishes k)
        >>> push_16_raw-Finishes k basic _
        >>> fake_push_16-Finishes k
        >>> push_16_raw-Finishes k basic _
        >>> fake_push_16-Finishes k
        >>> push_16_raw-Finishes k basic _
        >>> fake_push_16-Finishes k
        >>> push_32_raw-Finishes k basic _
        >>> push_16_raw-Finishes k basic _
        >>> push_16_raw-Finishes k basic _
        >>> push_32_raw-Finishes k basic _
        >>> push_16_raw-Finishes k basic _

    pub address_error_frame_040-Finishes :
        (at : ℕ) (old_sr : ℕ) → Finishes P (address_error_frame_040 basic at old_sr)
    unfolding address_error_frame_040
    address_error_frame_040-Finishes at old_sr = bind-Finishes cpu-Finishes λ c.
        push_32_raw-Finishes k basic _
        >>> push_16_raw-Finishes k basic _
        >>> push_32_raw-Finishes k basic _
        >>> push_16_raw-Finishes k basic _

    pub address_error_frame-Finishes : (old_sr : ℕ) → Finishes P (address_error_frame basic old_sr)
    unfolding address_error_frame
    address_error_frame-Finishes old_sr = bind-Finishes cpu-Finishes λ c.
        push_16_raw-Finishes k basic _
        >>> push_32_raw-Finishes k basic _
        >>> push_16_raw-Finishes k basic _

module _ {B : Type 0} {q : Bool → Type 0} where
  module _ (bus : AddressBus B) (faults : Faults B) (h : Settled q faults)
      (odd : (a : ℕ) (w i : Bool) → Finishes (Stable q) (faults.address_error a w i)) where
    w16 : (value : ℕ) → Finishes (Stable q) (push_16 bus faults value)
    w16 = push_16-Finishes bus faults h odd

    w32 : (value : ℕ) → Finishes (Stable q) (push_32 bus faults value)
    w32 = push_32-Finishes bus faults h odd

    pub push_exception_frame_68000-Finishes :
        (stacked_pc sr : ℕ)
        → Finishes (Stable q) (push_exception_frame_68000 bus faults stacked_pc sr)
    unfolding push_exception_frame_68000
    push_exception_frame_68000-Finishes stacked_pc sr =
        bind-Finishes (grow-Finishes Stable-dar 6) λ sp.
          write_16-Finishes bus faults h (wrapping_add sp 4) (bit_and stacked_pc 0xffff) (inl odd)
          >>> write_16-Finishes bus faults h sp sr (inl odd)
          >>> write_16-Finishes bus faults h (wrapping_add sp 2) (u16 (stacked_pc / 2 ^ 16))
              (inl odd)

    pub format_0_frame-Finishes :
        (vector : ℕ) (stacked_pc : ℕ) (sr : ℕ)
        → Finishes (Stable q) (format_0_frame bus faults vector stacked_pc sr)
    unfolding format_0_frame
    format_0_frame-Finishes vector stacked_pc sr =
        w16 (u16 (u16 vector * 4)) >>> w32 stacked_pc >>> w16 sr

    pub format_2_frame-Finishes :
        (vector : ℕ) (origin : ℕ) (next_pc : ℕ) (sr : ℕ)
        → Finishes (Stable q) (format_2_frame bus faults vector origin next_pc sr)
    unfolding format_2_frame
    format_2_frame-Finishes vector origin next_pc sr =
        w32 origin
        >>> w16 (bit_or 0x2000 (bit_and (u16 (u16 vector * 4)) 0x0fff))
        >>> w32 next_pc
        >>> w16 sr

    pub bus_error_frame_060-Finishes :
        (fslw : ℕ) (at : ℕ) (old_sr : ℕ)
        → Finishes (Stable q) (bus_error_frame_060 bus faults fslw at old_sr)
    unfolding bus_error_frame_060
    bus_error_frame_060-Finishes fslw at old_sr =
        bind-Finishes cpu-Finishes
          λ c. w32 fslw >>> w32 at >>> w16 (bit_or 0x4000 (2 * 4)) >>> w32 c.ppc >>> w16 old_sr

    pub bus_error_frame_040-Finishes :
        (write : Bool) (at : ℕ) (wdata : ℕ) (wb3s : ℕ) (ssw : ℕ) (old_sr : ℕ)
        → Finishes (Stable q) (bus_error_frame_040 bus faults write at wdata wb3s ssw old_sr)
    unfolding bus_error_frame_040
    bus_error_frame_040-Finishes write at wdata wb3s ssw old_sr = bind-Finishes cpu-Finishes λ c.
        times-Finishes Stable-dar 3 _ (w32 0)
        >>> w32 0
        >>> w32 0
        >>> w32 0
        >>> w32 0
        >>> w32 (if write then wdata else 0)
        >>> w32 (if write then at else 0)
        >>> w32 at
        >>> w16 0
        >>> w16 0
        >>> w16 wb3s
        >>> w16 ssw
        >>> w32 at
        >>> w16 (bit_or 0x7000 (2 * 4))
        >>> w32 c.ppc
        >>> w16 old_sr

    pub bus_error_frame_030-Finishes :
        (write : Bool) (instruction : Bool) (at : ℕ) (wdata : ℕ) (ssw : ℕ) (old_sr : ℕ)
        → Finishes (Stable q) (bus_error_frame_030 bus faults write instruction at wdata ssw old_sr)
    unfolding bus_error_frame_030
    bus_error_frame_030-Finishes write instruction at wdata ssw old_sr =
        bind-Finishes cpu-Finishes λ c.
          times-Finishes Stable-dar 9 _ (w32 0)
          >>> w16 0
          >>> times-Finishes Stable-dar 3 _ (w16 0)
          >>> w32 0
          >>> w32 0
          >>> w32 (if not instruction then 0 else at)
          >>> w32 0
          >>> w32 0
          >>> w32 (if write then wdata else 0)
          >>> w32 0
          >>> w32 (if not instruction then at else 0)
          >>> w16 0
          >>> w16 0
          >>> w16 ssw
          >>> w16 0
          >>> w16 (bit_or 0xb000 (2 * 4))
          >>> w32 c.ppc
          >>> w16 old_sr
