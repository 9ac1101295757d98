-- ===== src/Exception/Finishes.antt =====
-- Actions on the processor that end with a value, and keep what is known of the state.
use mathlib.Core.Path.{subst}
use m68k_rs.Base.{
  ℕ, ◌%◌, ◌≡◌, refl, sym, ap, ◌∙◌, inl, inr, Bool, true, false, Bool-cases, if◌then◌else◌, Option,
  none, some,
}
use m68k_rs.Base.Results.{ok, Action, pure, ◌>>=◌, ◌>>◌, Result, err}
use m68k_rs.Bus.Interface.{AddressBus}
use m68k_rs.Cpu.State.{CpuCore}
use m68k_rs.Mmu.Translation.{translate_address}
use m68k_rs.Mmu.Translation.Kept.{translate_address-cpu}
use m68k_rs.Exception.Machine.{
  Machine, cpu, gets, modify, outcome, transfer, write_raw, faulted, unless_faulted,
}

-- The vector base is even, and the flag of an exception in progress has the property `q`.
pub record Stable (q : Bool → Type 0) (c : CpuCore) : Type 0 where
  pub even : c.vbr % 2 ≡ 0
  pub flag : q c.exception_processing

-- From a processor with the property the action ends with a value, and keeps the property.
pub record Finishes {B A : Type 0} (P : CpuCore → Type 0) (m : Machine B A) : Type 0 where
  pub value : (s : CpuCore × B) → P s.0 → (x : A) × ((m s).0 ≡ ok x)
  pub kept : (s : CpuCore × B) → P s.0 → P (m s).1.0

module _ {B : Type 0} {P : CpuCore → Type 0} where
  pub pure-Finishes : {A : Type 0} (x : A) → Finishes {B = B} P (pure x)
  pure-Finishes x = record { value = λ s h. (x, refl); kept = λ s h. h }

  pub cpu-Finishes : Finishes {B = B} P cpu
  cpu-Finishes = record { value = λ s h. (s.0, refl); kept = λ s h. h }

  pub gets-Finishes : {A : Type 0} (f : CpuCore → A) → Finishes {B = B} P (gets f)
  gets-Finishes f = record { value = λ s h. (f s.0, refl); kept = λ s h. h }

  pub modify-Finishes :
      (f : CpuCore → CpuCore) → ((c : CpuCore) → P c → P (f c)) → Finishes {B = B} P (modify f)
  modify-Finishes f k = record { value = λ s h. (tt, refl); kept = λ s h. k s.0 h }

  pub write_raw-Finishes : (f : B → B) → Finishes P (write_raw f)
  write_raw-Finishes f = record { value = λ s h. (tt, refl); kept = λ s h. h }

  pub transfer-Finishes : {E A : Type 0} (m : Action B E A) → Finishes P (transfer m)
  transfer-Finishes m = record { value = λ s h. ((m s.1).0, refl); kept = λ s h. h }

  pub bind-Finishes :
      {A C : Type 0} {m : Machine B A} {f : A → Machine B C}
      → Finishes P m
      → ((x : A) → Finishes P (f x))
      → Finishes P (m >>= f)
  bind-Finishes {m = m} {f = f} h k = record {
    value = λ s p. let (x, e) = h.value s p in rw (◌>>=◌, e) ((k x).value (m s).1 (h.kept s p));
    kept = λ s p. let (x, e) = h.value s p in rw (◌>>=◌, e) ((k x).kept (m s).1 (h.kept s p));
  }

  -- What is read of a stable state is known in what follows.
  pub gets_bind-Finishes :
      {A C : Type 0} (f : CpuCore → A) (k : A → Machine B C)
      → ((c : CpuCore) → P c → Finishes P (k (f c)))
      → Finishes P (gets f >>= k)
  gets_bind-Finishes f k h = record {
    value = λ s p. (h s.0 p).value s p;
    kept = λ s p. (h s.0 p).kept s p;
  }

  pub then-Finishes :
      {A C : Type 0} {m : Machine B A} {n : Machine B C}
      → Finishes P m
      → Finishes P n
      → Finishes P (m >> n)
  then-Finishes h k = bind-Finishes h (λ x. k)

  infixr 5 ◌>>>◌
  -- `then-Finishes`, for a block of many steps.
  pub ◌>>>◌ :
      {A C : Type 0} {m : Machine B A} {n : Machine B C}
      → Finishes P m
      → Finishes P n
      → Finishes P (m >> n)
  h >>> k = bind-Finishes h (λ x. k)

  pub if-Finishes :
      {A : Type 0} (test : Bool) {m n : Machine B A}
      → Finishes P m
      → Finishes P n
      → Finishes P (if test then m else n)
  if-Finishes true h k = h
  if-Finishes false h k = k

  pub option-Finishes :
      {A C : Type 0} (o : Option A) {m : Machine B C} {f : A → Machine B C}
      → Finishes P m
      → ((x : A) → Finishes P (f x))
      → Finishes P (elim o [ none ↦ m | some x ↦ f x ])
  option-Finishes none h k = h
  option-Finishes (some x) h k = k x

  pub result-Finishes :
      {E A C : Type 0} (r : Result E A) {f : A → Machine B C} {g : E → Machine B C}
      → ((x : A) → Finishes P (f x))
      → ((e : E) → Finishes P (g e))
      → Finishes P (elim r [ ok x ↦ f x | err e ↦ g e ])
  result-Finishes (ok x) h k = h x
  result-Finishes (err e) h k = k e

  pub unless_faulted-Finishes :
      {A : Type 0} (x : A) {m : Machine B A} → Finishes P m → Finishes P (unless_faulted x m)
  unless_faulted-Finishes x {m} h = record {
    value = λ s p. elim (Bool-cases (faulted s.0)) [
      | inl e ↦ rw (e, unless_faulted) (x, refl)
      | inr e ↦ rw (e, unless_faulted) (h.value s p)
    ];
    kept = λ s p. elim (Bool-cases (faulted s.0)) [
      | inl e ↦ rw (e, unless_faulted) p
      | inr e ↦ rw (e, unless_faulted) (h.kept s p)
    ];
  }

module _ {B : Type 0} {q : Bool → Type 0} where
  pub modify-Stable :
      (f : CpuCore → CpuCore)
      → ((c : CpuCore) → (f c).vbr ≡ c.vbr)
      → ((c : CpuCore) → (f c).exception_processing ≡ c.exception_processing)
      → Finishes {B = B} (Stable q) (modify f)
  modify-Stable f e e' =
      modify-Finishes f
        λ c h. record { even = ap (λ v. v % 2) (e c) ∙ h.even; flag = subst q (sym (e' c)) h.flag }

  -- A translation changes neither the vector base nor the flag.
  module _ (bus : AddressBus B) where
    pub translate-Stable :
        (l : ℕ) (w s i : Bool) → Finishes (Stable q) (outcome (translate_address bus l w s i))
    translate-Stable l w s i = record {
      value = λ t h. ((translate_address bus l w s i t).0, refl);
      kept = λ t h.
          subst (Stable q) (sym (translate_address-cpu bus l w s i t.0 t.1))
            (record { even = h.even; flag = h.flag });
    }
