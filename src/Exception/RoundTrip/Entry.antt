-- ===== src/Exception/RoundTrip/Entry.antt =====
-- src/core/exceptions.rs: the frame of an exception of a 68020, and what RTE reads of it.
use m68k_rs.Base.{
  ◌-◌, ℕ, suc, ◌*◌, ◌/◌, ◌^◌, ◌<◌, ◌≤◌, ◌≡◌, refl, sym, ap, ◌∙◌, inl, inr, Bool, true, false,
  bit_and_mask, wrapping_add, wrapping_sub, u16, arith, if◌then◌else◌, ◌==◌, Bool-cases, ==_iff,
}
use m68k_rs.Base.Results.{ok}
use m68k_rs.Bus.Interface.{default_bus}
use m68k_rs.Bus.Linear.Laws.{IsValid}
use m68k_rs.Bus.Linear.Apart.{three_fields_lem}
use m68k_rs.Bus.Linear.{LinearMemoryBus, read_word, read_long, write_word, write_long}
use m68k_rs.Cpu.State.{CpuCore, address, update}
use m68k_rs.Cpu.Stack.{set_s_flag, sp_index, backup_sp, restore_sp}
use m68k_rs.Cpu.Status.{get_sr, set_sr}
use m68k_rs.Exception.Machine.{Faults}
use m68k_rs.Exception.Memory.{
  is_odd_access, at_page_end, straddles, overridden, suppressed, translated, read_at, write_at,
  read_32, read_32_at, write_16, write_16_at, write_32, write_32_at,
}
use m68k_rs.Exception.Stack.{
  push_16, push_32, jump_vector, jump_at, prefetch_enabled, prefetch_first, prefetch_second,
}
use m68k_rs.Exception.Frames.{format_0_frame}
use m68k_rs.Exception.Faults.{enter_supervisor, exception_frame, take_exception, stacks_next_pc}
use m68k_rs.Exception.Return.{exec_rte}
use m68k_rs.Exception.RoundTrip.Return.{
  calm, at, handler, word_at, back, rte_lem, set_sr-dar, set_sr-pc, IsLegal, IsEntered, sr-back,
  a7-back, bus,
}

module _ (faults : Faults LinearMemoryBus) (c : CpuCore) (b : LinearMemoryBus) (vector : ℕ) where
  -- The supervisor stack pointer, and what the frame holds.
  abbrev top : ℕ
  top = (set_s_flag (calm c true) 4).dar 15

  abbrev next : ℕ
  next = if stacks_next_pc vector then c.pc else c.ppc

  abbrev framed : LinearMemoryBus
  framed =
      write_word
        (write_long (write_word b (at (wrapping_sub top 2)) (u16 (u16 vector * 4)))
          (at (wrapping_sub (wrapping_sub top 2) 4)) next)
        (at (wrapping_sub (wrapping_sub (wrapping_sub top 2) 4) 2)) (get_sr c)

  entered-bus :
      (precise : Bool) → (take_exception bus faults vector (calm c precise, b)).1.1 ≡ framed
  unfolding take_exception exception_frame format_0_frame push_16 push_32 write_16 write_16_at
      write_32 write_32_at write_at translated is_odd_access at_page_end straddles suppressed
      overridden default_bus enter_supervisor address set_s_flag backup_sp restore_sp sp_index
      jump_vector jump_at read_32 read_32_at read_at prefetch_enabled prefetch_first prefetch_second
      read_long get_sr
  entered-bus true = refl
  entered-bus false = refl

  -- The state that the handler is entered with.
  abbrev inside : Bool → CpuCore × LinearMemoryBus
  inside precise = (take_exception bus faults vector (calm c precise, b)).1

  abbrev base : ℕ
  base = wrapping_sub (wrapping_sub (wrapping_sub top 2) 4) 2

  abbrev format : ℕ
  format = (read_word framed (at (wrapping_add base 6))).0 / 2 ^ 12

  held : (precise : Bool) → (inside precise).0 ≡ handler (inside precise).0 precise
  unfolding take_exception exception_frame format_0_frame push_16 push_32 write_16 write_16_at
      write_32 write_32_at write_at translated is_odd_access at_page_end straddles suppressed
      overridden default_bus enter_supervisor address set_s_flag backup_sp restore_sp sp_index
      jump_vector jump_at read_32 read_32_at read_at prefetch_enabled prefetch_first prefetch_second
  held true = refl
  held false = refl

  -- The exception and the RTE, when the frame reads back with the format 0.
  round :
      (precise : Bool) (n : ℕ)
      → word_at faults (inside precise).0 (inside precise).1 n 6 / 2 ^ 12 ≡ 0
      → exec_rte bus faults (suc n) (inside precise)
        ≡ (ok 20, (back faults (inside precise).0 (inside precise).1 n precise, (inside precise).1))
  round precise n e =
      ap (λ k. exec_rte bus faults (suc n) (k, (inside precise).1)) (held precise)
      ∙ rte_lem faults (inside precise).0 (inside precise).1 n precise e

  at_base : (precise : Bool) → (inside precise).0.dar 15 ≡ base
  unfolding take_exception exception_frame format_0_frame push_16 push_32 write_16 write_16_at
      write_32 write_32_at write_at translated is_odd_access at_page_end straddles suppressed
      overridden default_bus enter_supervisor address set_s_flag backup_sp restore_sp sp_index
      jump_vector jump_at read_32 read_32_at read_at prefetch_enabled prefetch_first prefetch_second
  at_base true = refl
  at_base false = refl

  -- What the handler is entered with, apart from the frame.
  record Kept (precise : Bool) : Type 0 where
    sr_mask : (inside precise).0.sr_mask ≡ c.sr_mask
    m_flag : (inside precise).0.m_flag ≡ c.m_flag
    sp : (inside precise).0.sp ≡ (set_s_flag (calm c true) 4).sp
    dar : (i : ℕ) → (i == 15) ≡ false → (inside precise).0.dar i ≡ c.dar i

  kept : (precise : Bool) → Kept precise
  unfolding take_exception exception_frame format_0_frame push_16 push_32 write_16 write_16_at
      write_32 write_32_at write_at translated is_odd_access at_page_end straddles suppressed
      overridden default_bus enter_supervisor address set_s_flag backup_sp restore_sp sp_index
      jump_vector jump_at read_32 read_32_at read_at prefetch_enabled prefetch_first prefetch_second
  kept true = record { sr_mask = refl; m_flag = refl; sp = refl; dar = λ i e. rw e refl }
  kept false = record { sr_mask = refl; m_flag = refl; sp = refl; dar = λ i e. rw e refl }

  module _ (room : 8 ≤ top) (small : top < 2 ^ 32) where
    places :
        (at (wrapping_sub top 2) ≡ wrapping_add (top - 8) 6)
        × (at (wrapping_sub (wrapping_sub top 2) 4) ≡ wrapping_add (top - 8) 2)
        × (at base ≡ wrapping_add (top - 8) 0)
    places = (
      bit_and_mask 32 (wrapping_sub top 2) ∙ omega arith,
      bit_and_mask 32 (wrapping_sub (wrapping_sub top 2) 4) ∙ omega arith,
      bit_and_mask 32 base ∙ omega arith,
    )

    places_read :
        (at (wrapping_add base 6) ≡ wrapping_add (top - 8) 6)
        × (at (wrapping_add base 2) ≡ wrapping_add (top - 8) 2)
    places_read = (
      bit_and_mask 32 (wrapping_add base 6) ∙ omega arith,
      bit_and_mask 32 (wrapping_add base 2) ∙ omega arith,
    )

    module _ (valid : IsValid b) (size : 8 ≤ b.len) (byte : vector < 256) (p : next < 2 ^ 32)
        (r : get_sr c < 2 ^ 16) where
      fields :
          ((read_word framed (at (wrapping_add base 6))).0 ≡ u16 (u16 vector * 4))
          × ((read_long framed (at (wrapping_add base 2))).0 ≡ next)
          × ((read_word framed (at base)).0 ≡ get_sr c)
      fields =
          let (f6, f2, f0) = places in
          let (g6, g2) = places_read in
          rw (f6, f2, f0, g6, g2)
            (three_fields_lem b valid (top - 8) size (omega arith) (u16 (u16 vector * 4)) next
              (get_sr c) (omega arith) p r)

      module _ (legal : IsLegal c) (precise : Bool) (n : ℕ) where
        -- The bytes of the frame, as RTE reads them.
        frame_bytes :
            (word_at faults (inside precise).0 (inside precise).1 n 6 ≡ u16 (u16 vector * 4))
            × ((read_long (inside precise).1 (at (wrapping_add ((inside precise).0.dar 15) 2))).0
                ≡ next)
            × ((read_word (inside precise).1 (at ((inside precise).0.dar 15))).0 ≡ get_sr c)
        frame_bytes =
            let e = entered-bus precise in
            let d = at_base precise in
            let (f, l, w) = fields in
            (
              ap (λ m. (read_word m (at (wrapping_add ((inside precise).0.dar 15) 6))).0) e
                  ∙ ap (λ sp. (read_word framed (at (wrapping_add sp 6))).0) d
                  ∙ f,
              ap (λ m. (read_long m (at (wrapping_add ((inside precise).0.dar 15) 2))).0) e
                  ∙ ap (λ sp. (read_long framed (at (wrapping_add sp 2))).0) d
                  ∙ l,
              ap (λ m. (read_word m (at ((inside precise).0.dar 15))).0) e
                  ∙ ap (λ sp. (read_word framed (at sp)).0) d
                  ∙ w,
            )

        -- The state of the handler at its end, before the status register is set.
        abbrev popped : CpuCore
        popped = record (handler (inside precise).0 precise) {
          pc = (read_long (inside precise).1 (at (wrapping_add ((inside precise).0.dar 15) 2))).0;
          dar =
              update
                (update
                  (update (inside precise).0.dar 15 (wrapping_add ((inside precise).0.dar 15) 2)) 15
                  (wrapping_add (wrapping_add ((inside precise).0.dar 15) 2) 4))
                15 (wrapping_add (wrapping_add (wrapping_add ((inside precise).0.dar 15) 2) 4) 2);
        }

        popped-IsEntered : IsEntered c popped
        popped-IsEntered =
            let h = kept precise in
            record {
              type = refl;
              sr_mask = h.sr_mask;
              s_flag = refl;
              m_flag = h.m_flag;
              sp = h.sp;
              a7 = omega (arith, at_base precise);
            }

        registers_back : (i : ℕ) → (set_sr popped (get_sr c)).dar i ≡ c.dar i
        registers_back i = elim (Bool-cases (i == 15)) [
          | inl e ↦
              ap (set_sr popped (get_sr c)).dar ((==_iff i 15).0 e)
              ∙ a7-back c popped legal popped-IsEntered
              ∙ ap c.dar (sym ((==_iff i 15).0 e))
          | inr e ↦ set_sr-dar popped (get_sr c) i e ∙ rw e ((kept precise).dar i e)
        ]

        pub restored :
            let out = (exec_rte bus faults (suc n) (inside precise)).1.0 in
            (out.pc ≡ next) × (get_sr out ≡ get_sr c) × ((i : ℕ) → out.dar i ≡ c.dar i)
        restored =
            let (f, l, w) = frame_bytes in
            rw (round precise n (ap (λ x. x / 2 ^ 12) f ∙ omega arith), w)
              (
                set_sr-pc popped (get_sr c) ∙ l,
                sr-back c popped legal popped-IsEntered r,
                registers_back,
              )
