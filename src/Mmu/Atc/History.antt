-- ===== src/Mmu/Atc/History.antt =====
-- src/mmu/atc.rs: the cache against the history of the operations on it.
use m68k_rs.Base.{
  ℕ, ◌^◌, ◌<◌, Bool, true, false, ◌&&◌, Option, none, some, ◌==◌, if◌then◌else◌, eqb, ◌≡◌, refl,
  inl, inr, Bool-cases, arith,
}
use mathlib.Core.List.{List, [], ◌∷◌}
use m68k_rs.Mmu.Atc.{Atc, new, index, lookup, insert, flush_all, flush_page}
use m68k_rs.Mmu.Atc.Laws.{allowed, lookup-insert, lookup-flush_all, lookup-flush_page}

-- A finished table walk.
pub record Walk : Type 0 where
  pub page_frame : ℕ
  pub supervisor : Bool
  pub phys_page : ℕ
  pub write_protected : Bool
  pub supervisor_only : Bool

-- An operation on the cache, latest first in a history.
pub data Op : Type 0 where
  walked : Walk → Op
  flushed_all : Op
  flushed_page : ℕ → Op

abbrev pub apply : Op → Atc → Atc
apply (walked w) c =
    insert c w.page_frame w.supervisor w.phys_page w.write_protected w.supervisor_only
apply flushed_all c = flush_all c
apply (flushed_page b) c = flush_page c b

-- The cache after a history.
abbrev pub replay : List Op → Atc
replay [] = new
replay (o ∷ h) = apply o (replay h)

abbrev matches : Walk → ℕ → Bool → Bool
matches w a s = a == w.page_frame && eqb s w.supervisor

-- The latest walk of a page at a privilege that no flush has dropped since.
abbrev pub recorded : List Op → ℕ → Bool → Option Walk
recorded [] a s = none
recorded (walked w ∷ h) a s = if matches w a s then some w else recorded h a s
recorded (flushed_all ∷ h) a s = none
recorded (flushed_page b ∷ h) a s = if a == b then none else recorded h a s

-- All frames are page frames of a 32-bit space.
abbrev pub InRange : List Op → Type 0
InRange [] = Unit {0}
InRange (walked w ∷ h) = (w.page_frame < 2 ^ 31) × InRange h
InRange (flushed_all ∷ h) = InRange h
InRange (flushed_page b ∷ h) = InRange h

lookup-new : (a : ℕ) (s write : Bool) → lookup new a s write ≡ none
unfolding lookup new
lookup-new a s write = ground arith

module _ (w : Walk) (h : List Op) (a : ℕ) (s write : Bool) (p : ℕ) (r : InRange (walked w ∷ h))
    (ha : a < 2 ^ 31) (hit : lookup (replay (walked w ∷ h)) a s write ≡ some p) where
  inserted : lookup (replay (walked w ∷ h)) a s write ≡ (
      if index a == index w.page_frame
      then (if matches w a s && allowed w.write_protected w.supervisor_only s write
          then some w.phys_page
          else none)
      else lookup (replay h) a s write)
  inserted =
      lookup-insert (replay h) a w.page_frame s w.supervisor write w.phys_page w.write_protected
        w.supervisor_only ha r.0

  -- A hit on the page that was just walked.
  found :
      matches w a s ≡ true
      → (w.phys_page ≡ p) × (allowed w.write_protected w.supervisor_only s write ≡ true)
  found same = ground (arith, inserted)

  -- A hit on any other page was there before the walk.
  earlier : matches w a s ≡ false → lookup (replay h) a s write ≡ some p
  earlier other = ground (arith, inserted)

-- A hit gives back the physical page of the latest walk of that page and privilege that no flush
-- has dropped, and only for an access that the walk's protection bits admit. Page frames are below
-- 2 ^ 31, in the history and in the lookup.
pub replay_sound :
    (h : List Op) (a : ℕ) (s write : Bool) (p : ℕ)
    → InRange h
    → a < 2 ^ 31
    → lookup (replay h) a s write ≡ some p
    → (w : Walk) × (recorded h a s ≡ some w)
      × (w.phys_page ≡ p)
      × (allowed w.write_protected w.supervisor_only s write ≡ true)
replay_sound [] a s write p r ha hit = absurd (ground (arith, lookup-new a s write))
replay_sound (walked w ∷ h) a s write p r ha hit = elim (Bool-cases (matches w a s)) [
  | inl same ↦
      rw same
        (w, refl, (found w h a s write p r ha hit same).0, (found w h a s write p r ha hit same).1)
  | inr other ↦
      rw other (replay_sound h a s write p r.1 ha (earlier w h a s write p r ha hit other))
]
replay_sound (flushed_all ∷ h) a s write p r ha hit =
    absurd (ground (arith, lookup-flush_all (replay h) a s write))
replay_sound (flushed_page b ∷ h) a s write p r ha hit = elim (Bool-cases (a == b)) [
  | inl same ↦ absurd (ground (arith, lookup-flush_page (replay h) a b s write))
  | inr other ↦
      rw other
        (replay_sound h a s write p r ha (ground (arith, lookup-flush_page (replay h) a b s write)))
]
