-- ===== src/Base/Calls.antt =====
-- A method call of an aggregate: state and exceptions. The state comes back after a raise too,
-- since what a Python method wrote before it raised stays written.
use mathlib.Core.Path.{◌≡◌, refl}
use native.Mathlib.Omega.{arith}
use mathlib.Core.Bool.{Bool, true, false}
use mathlib.Core.Logic.{◌⊎◌, inl, inr}
use mathlib.Core.Option.{Option, none, some}
use cadencia_platform.Base.Tests.{if◌then◌else◌}

-- The exception classes of shared/domain/exceptions.py; `internal_error` is any other exception.
pub data DomainError : Type 0 where
  internal_error not_found policy_violation validation_error conflict : DomainError
  rate_limit blockchain_simulation authentication authorization circuit_open llm_exhausted :
      DomainError

pub data Result {ℓ} (A : Type ℓ) : Type ℓ where
  ok : A → Result A
  err : DomainError → Result A

abbrev pub is_ok : {A : Type 0} → Result A → Bool
is_ok (ok a) = true
is_ok (err x) = false

pub Result-cases :
    {A : Type 0} (r : Result A) → ((a : A) × (r ≡ ok a)) ⊎ ((x : DomainError) × (r ≡ err x))
Result-cases (ok a) = inl (a, refl)
Result-cases (err x) = inr (x, refl)

abbrev pub Action : Type 0 → Type 0 → Type 0
Action S A = S → Result A × S

module _ {S A : Type 0} where
  abbrev pub pure : A → Action S A
  pure a s = (ok a, s)

  abbrev pub raise : DomainError → Action S A
  raise e s = (err e, s)

  abbrev pub gets : (S → A) → Action S A
  gets f s = (ok (f s), s)

  -- A call that returns no value of interest, or raises, and writes nothing.
  abbrev pub lift : Result A → Action S A
  lift r s = (r, s)

  -- `if x is None: raise e`
  abbrev pub or_raise : Option A → DomainError → Action S A
  or_raise none e = raise e
  or_raise (some a) e = pure a

infixl 5 ◌>>=◌ ◌>>◌
abbrev pub ◌>>=◌ : {S A B : Type 0} → Action S A → (A → Action S B) → Action S B
◌>>=◌ m f s = let (r, s') = m s in elim r [ ok a ↦ f a s' | err e ↦ raise e s' ]

abbrev pub ◌>>◌ : {S A B : Type 0} → Action S A → Action S B → Action S B
m >> k = m >>= λ _. k

abbrev pub raise_if : {S : Type 0} → Bool → DomainError → Action S (Unit {0})
raise_if c e s = (if c then err e else ok tt, s)

abbrev pub modify : {S : Type 0} → (S → S) → Action S (Unit {0})
modify f s = (ok tt, f s)

-- A bind, from the outcome of its first call on.
abbrev pub resume : {S A B : Type 0} → (A → Action S B) → Result A × S → Result B × S
resume f p = elim p.0 [ ok a ↦ f a p.1 | err e ↦ raise e p.1 ]

-- Inversion of a bind that returned.
module _ {S A B : Type 0} (m : Action S A) (f : A → Action S B) where
  pub >>=-eq-ok :
      (s s' : S) {b : B}
      → (m >>= f) s ≡ (ok b, s')
      → (a : A) × (t : S) × (m s ≡ (ok a, t)) × (f a t ≡ (ok b, s'))
  >>=-eq-ok s s' {b} h = go (m s) refl h
    where
      go :
          (p : Result A × S)
          → m s ≡ p
          → resume f p ≡ (ok b, s')
          → (a : A) × (t : S) × (m s ≡ (ok a, t)) × (f a t ≡ (ok b, s'))
      go (ok a, t) e k = (a, t, e, k)
      go (err x, t) e k = absurd (ground arith)
