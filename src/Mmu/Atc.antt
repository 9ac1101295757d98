-- ===== src/Mmu/Atc.antt =====
-- src/mmu/atc.rs: the direct-mapped address translation cache.
pub mod Laws
pub mod History
mod Examples
use m68k_rs.Base.{
  ℕ, ◌*◌, ◌/◌, ◌%◌, ◌^◌, bit_and, bit_or, Bool, true, false, not, ◌&&◌, ◌||◌, Option, none, some,
  ◌==◌, ◌!=◌, if◌then◌else◌,
}

-- `ATC_ENTRIES`.
abbrev pub atc_entries : ℕ
atc_entries = 64

-- `AtcEntry`.
pub record AtcEntry : Type 0 where
  pub valid : Bool
  pub tag : ℕ
  pub phys_page : ℕ
  pub write_protected : Bool
  pub supervisor_only : Bool

-- `AtcEntry::default()`.
abbrev pub empty_entry : AtcEntry
empty_entry = record {
  valid = false;
  tag = 0;
  phys_page = 0;
  write_protected = false;
  supervisor_only = false;
}

-- `Atc`: the array of 64 entries, as a function of the slot.
pub record Atc : Type 0 where
  pub entries : ℕ → AtcEntry

-- `Atc::default()`.
unfoldable pub new : Atc
new = record { entries = λ i. empty_entry }

-- A write to one slot.
abbrev pub set_entry : (ℕ → AtcEntry) → ℕ → AtcEntry → ℕ → AtcEntry
set_entry t i e j = if j == i then e else t j

abbrev as_u32 : Bool → ℕ
as_u32 true = 1
as_u32 false = 0

-- `Atc::tag`, `(page_frame << 1) | supervisor` in 32 bits.
unfoldable pub tag_of : ℕ → Bool → ℕ
tag_of page_frame supervisor = bit_or (page_frame * 2 % 2 ^ 32) (as_u32 supervisor)

unfoldable pub index : ℕ → ℕ
index page_frame = bit_and page_frame 63

unfoldable pub lookup : Atc → ℕ → Bool → Bool → Option ℕ
unfolding index tag_of
lookup c page_frame supervisor write =
    let e = c.entries (index page_frame) in
    if not e.valid || e.tag != tag_of page_frame supervisor
    then none
    else if (write && e.write_protected) || (not supervisor && e.supervisor_only)
    then none
    else some e.phys_page

unfoldable pub insert : Atc → ℕ → Bool → ℕ → Bool → Bool → Atc
unfolding index tag_of
insert c page_frame supervisor phys_page write_protected supervisor_only = record {
  entries = set_entry c.entries (index page_frame) (record {
    valid = true;
    tag = tag_of page_frame supervisor;
    phys_page = phys_page;
    write_protected = write_protected;
    supervisor_only = supervisor_only;
  });
}

unfoldable pub flush_all : Atc → Atc
flush_all c = record { entries = λ i. record (c.entries i) { valid = false } }

pub flush_page : Atc → ℕ → Atc
unfolding index
flush_page c page_frame =
    let e = c.entries (index page_frame) in
    if e.tag / 2 == page_frame
    then record { entries = set_entry c.entries (index page_frame) (record e { valid = false }) }
    else c
