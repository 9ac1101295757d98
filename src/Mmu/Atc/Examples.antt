-- ===== src/Mmu/Atc/Examples.antt =====
-- A translation that is walked, hit, and flushed.
use m68k_rs.Base.{true, false, some, ◌≡◌, refl, arith}
use mathlib.Core.List.{List, [], ◌∷◌}
use m68k_rs.Mmu.Atc.{new, index, lookup, insert}
use m68k_rs.Mmu.Atc.Laws.{allowed, lookup-insert}
use m68k_rs.Mmu.Atc.History.{Walk, Op, walked, flushed_page, recorded, replay_sound}

abbrev kernel_page : Walk
kernel_page = record {
  page_frame = 0x1234;
  supervisor = true;
  phys_page = 0xabc000;
  write_protected = true;
  supervisor_only = true;
}

abbrev history : List Op
history = walked kernel_page ∷ flushed_page 0x1234 ∷ []

replay_sound_example :
    (w : Walk) × (recorded history 0x1234 true ≡ some w)
    × (w.phys_page ≡ 0xabc000)
    × (allowed w.write_protected w.supervisor_only true false ≡ true)
unfolding lookup insert
replay_sound_example =
    replay_sound history 0x1234 true false 0xabc000 (omega arith, tt) (omega arith) refl

lookup-insert_example : lookup (insert new 0x41 true 0x1000 false true) 0x41 true true ≡ some 0x1000
unfolding index
lookup-insert_example =
    lookup-insert new 0x41 0x41 true true true 0x1000 false true (omega arith) (omega arith)
