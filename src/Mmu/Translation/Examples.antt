-- ===== src/Mmu/Translation/Examples.antt =====
-- A run of accesses through the tables of a small memory.
use m68k_rs.Mmu.Table040.Coherent.{flushed-IsCoherent}
use m68k_rs.Mmu.Translation.{translate}
use m68k_rs.Base.{true, false, ◌≡◌, arith}
use mathlib.Core.List.{List, [], ◌∷◌, map}
use m68k_rs.Bus.Linear.Laws.{linear-IsQuiet}
use m68k_rs.Mmu.Atc.{new, flush_all}
use m68k_rs.Mmu.Table040.Examples.{tables, ram, mapped}
use m68k_rs.Mmu.Translation.Laws.{
  Access, uncached, translate_all, translate_all-uncached, Translated, translate-uncached,
}

-- A read, a write to the same page, and a read of a page with no tables.
abbrev accesses : List Access
accesses =
    record { logical = 0x0040_5123; write = false; supervisor = false; instruction = false }
    ∷ record { logical = 0x0040_5ffc; write = true; supervisor = false; instruction = false }
    ∷ record { logical = 0x8000_0000; write = false; supervisor = true; instruction = true }
    ∷ []

translate_all-uncached_example :
    translate_all ram accesses (record mapped { atc = flush_all new }, tables)
    ≡ map (uncached ram mapped tables) accesses
translate_all-uncached_example =
    translate_all-uncached ram mapped tables new accesses linear-IsQuiet (omega arith)

-- The write of the run, in a processor whose cache is empty.
abbrev write_access : Access
write_access = record {
  logical = 0x0040_5ffc;
  write = true;
  supervisor = false;
  instruction = false;
}

translate-uncached_example :
    Translated ram mapped tables
      (uncached ram mapped tables write_access)
      (translate ram 0x0040_5ffc true false false (mapped, tables))
translate-uncached_example =
    translate-uncached ram linear-IsQuiet mapped tables (flushed-IsCoherent ram mapped new tables)
      write_access (omega arith)
