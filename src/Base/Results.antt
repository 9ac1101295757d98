-- ===== src/Base/Results.antt =====
-- Results and fallible actions on a state, as Rust's `Result` on a `&mut` argument.
use mathlib.Core.Path.{◌≡◌, refl, ◌∙◌}
use mathlib.Core.Bool.{Bool, true, false}
use mathlib.Core.Logic.{◌⊎◌, inl, inr}
use m68k_rs.Base.Tests.{if◌then◌else◌}

pub data Result (E : Type 0) (A : Type 0) : Type 0 where
  ok : A → Result E A
  err : E → Result E A

module _ {E A : Type 0} where
  pub Result-cases : (r : Result E A) → ((x : A) × (r ≡ ok x)) ⊎ ((e : E) × (r ≡ err e))
  Result-cases (ok x) = inl (x, refl)
  Result-cases (err e) = inr (e, refl)

  abbrev pub map_ok : {B : Type 0} → (A → B) → Result E A → Result E B
  map_ok f (ok x) = ok (f x)
  map_ok f (err e) = err e

-- The state comes back after an error too.
abbrev pub Action : Type 0 → Type 0 → Type 0 → Type 0
Action S E A = S → Result E A × S

module _ {S E A : Type 0} where
  abbrev pub pure : A → Action S E A
  pure x s = (ok x, s)

  abbrev pub raise : E → Action S E A
  raise e s = (err e, s)

infixl 5 ◌>>=◌ ◌>>◌
abbrev pub ◌>>=◌ : {S E A B : Type 0} → Action S E A → (A → Action S E B) → Action S E B
◌>>=◌ m f s = let (r, s') = m s in elim r [ ok x ↦ f x s' | err e ↦ (err e, s') ]

abbrev pub ◌>>◌ : {S E A B : Type 0} → Action S E A → Action S E B → Action S E B
m >> k = m >>= λ _. k

-- An early `return Err(e)` under a test.
abbrev pub raise_if : {S E : Type 0} → Bool → E → Action S E (Unit {0})
raise_if test e s = (if test then err e else ok tt, s)

-- An action that leaves its state as it is.
pub record Keeps {S E A : Type 0} (m : Action S E A) : Type 0 where
  pub kept : (s : S) → (m s).1 ≡ s

pub raise_if-Keeps : {S E : Type 0} (test : Bool) (e : E) → Keeps {S = S} (raise_if test e)
raise_if-Keeps test e = record { kept = λ s. refl }

module _ {S E A : Type 0} where
  pub pure-Keeps : (x : A) → Keeps {S = S} {E = E} (pure x)
  pure-Keeps x = record { kept = λ s. refl }

  pub bind-Keeps :
      {B : Type 0} (m : Action S E A) (f : A → Action S E B)
      → Keeps m
      → ((x : A) → Keeps (f x))
      → Keeps (m >>= f)
  bind-Keeps m f h k = record {
    kept = λ s. elim (Result-cases (m s).0) [
      | inl (x, e) ↦ rw (e, ◌>>=◌) ((k x).kept (m s).1 ∙ h.kept s)
      | inr (x, e) ↦ rw (e, ◌>>=◌) (h.kept s)
    ];
  }

  pub if-Keeps :
      (test : Bool) (m n : Action S E A) → Keeps m → Keeps n → Keeps (if test then m else n)
  if-Keeps true m n h k = h
  if-Keeps false m n h k = k
