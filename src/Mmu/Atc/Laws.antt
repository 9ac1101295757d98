-- ===== src/Mmu/Atc/Laws.antt =====
-- src/mmu/atc.rs: what a lookup finds after each operation.
use m68k_rs.Base.{
  ℕ, ◌*◌, ◌^◌, ◌<◌, ◌+◌, Bool, true, false, not, ◌&&◌, ◌||◌, none, some, ◌==◌, if◌then◌else◌, eqb,
  ◌≡◌, arith, bit_or_fields,
}
use m68k_rs.Mmu.Atc.{Atc, tag_of, index, lookup, insert, flush_all, flush_page}

-- The access that an entry's protection bits admit.
abbrev pub allowed : Bool → Bool → Bool → Bool → Bool
allowed write_protected supervisor_only supervisor write =
    not ((write && write_protected) || (not supervisor && supervisor_only))

tag_of_lem : (a : ℕ) (s : Bool) → a < 2 ^ 31 → tag_of a s ≡ a * 2 + (if s then 1 else 0)
unfolding tag_of
tag_of_lem a true h = ground (arith, bit_or_fields 1 a 1)
tag_of_lem a false h = ground (arith, bit_or_fields 1 a 0)

-- After a walk is recorded, a lookup of its page, at its privilege and for an access that its
-- protection bits admit, finds its physical page; any other lookup in that slot misses; the other
-- slots are as before. Page frames are below 2 ^ 31.
pub lookup-insert :
    (c : Atc) (a b : ℕ) (s t write : Bool) (p : ℕ) (wp so : Bool)
    → a < 2 ^ 31
    → b < 2 ^ 31
    → lookup (insert c b t p wp so) a s write ≡ (
        if index a == index b
        then (if (a == b && eqb s t) && allowed wp so s write then some p else none)
        else lookup c a s write)
unfolding lookup insert
lookup-insert c a b s t write p wp so ha hb = ground (arith, tag_of_lem a s, tag_of_lem b t)

-- After `flush_all` every lookup misses.
pub lookup-flush_all : (c : Atc) (a : ℕ) (s write : Bool) → lookup (flush_all c) a s write ≡ none
unfolding lookup flush_all
lookup-flush_all c a s write = ground arith

-- `flush_page` drops its page at both privileges, and no other page. The page frame that is looked
-- up is below 2 ^ 31.
pub lookup-flush_page :
    (c : Atc) (a b : ℕ) (s write : Bool)
    → a < 2 ^ 31
    → lookup (flush_page c b) a s write ≡ (if a == b then none else lookup c a s write)
unfolding lookup flush_page
lookup-flush_page c a b s write ha = ground (arith, tag_of_lem a s)
