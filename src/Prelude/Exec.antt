-- ===== src/Prelude/Exec.antt =====
-- Methods that change an object and may raise: what was written before a raise stays written, so the
-- state comes back beside the exception too.
use mathlib.Core.Path.{◌≡◌, refl, ap}
use native.Mathlib.Omega.{arith}
use mathlib.Core.Logic.{◌⊎◌, inl, inr}
use mathlib.Core.Bool.{Bool, true, false}
use mathlib.Core.Option.{Option, none, some}

-- A computation that returns `A` or raises an `X`.
pub data Result {ℓ κ} (X : Type ℓ) (A : Type κ) : Type (ℓ ⊔ κ) where
  ok : A → Result X A
  err : X → Result X A

pub Result-cases {ℓ κ} :
    {X : Type ℓ} {A : Type κ} (r : Result X A) → ((x : X) × (r ≡ err x)) ⊎ ((a : A) × (r ≡ ok a))
Result-cases (err x) = inl (x, refl)
Result-cases (ok a) = inr (a, refl)

-- An action on a state `S`.
abbrev pub Exec : Type 0 → Type 0 → Type 0 → Type 0
Exec X S A = S → Result X A × S

module _ {X S A : Type 0} where
  abbrev pub pure : A → Exec X S A
  pure a s = (ok a, s)

  abbrev pub raise : X → Exec X S A
  raise x s = (err x, s)

  abbrev pub lift : Result X A → Exec X S A
  lift r s = (r, s)

  abbrev pub gets : (S → A) → Exec X S A
  gets f s = (ok (f s), s)

  -- The value, or the exception that its absence raises.
  abbrev pub or_raise : Option A → X → Exec X S A
  or_raise none x s = (err x, s)
  or_raise (some a) x s = (ok a, s)

module _ {X S A : Type 0} where
  -- What a returned result determines.
  pub returned :
      {a b : A} {s t : S} → ◌≡◌ {A = Result X A × S} (ok a, s) (ok b, t) → (a ≡ b) × (s ≡ t)
  returned h = (cc, cc)

  pub raised : {a : A} {x : X} {s t : S} → ◌≡◌ {A = Result X A × S} (err x, s) (ok a, t) → ⊥
  raised h = cc

module _ {X S : Type 0} where
  abbrev pub modify : (S → S) → Exec X S (Unit {0})
  modify f s = (ok tt, f s)

  -- `if not test: raise x`
  abbrev pub ensure : Bool → X → Exec X S (Unit {0})
  ensure true x s = (ok tt, s)
  ensure false x s = (err x, s)

module _ {X S A B : Type 0} where
  abbrev pub continue : Result X A → (A → Exec X S B) → Exec X S B
  continue (ok a) f s = f a s
  continue (err x) f s = (err x, s)

  infixl 10 ◌>>=◌
  abbrev pub ◌>>=◌ : Exec X S A → (A → Exec X S B) → Exec X S B
  ◌>>=◌ m f s = let (r, s') = m s in continue r f s'

  infixl 10 ◌>>◌
  abbrev pub ◌>>◌ : Exec X S A → Exec X S B → Exec X S B
  ◌>>◌ m n s = let (r, s') = m s in continue r (λ _. n) s'

module _ {X S A B : Type 0} where
  -- A sequence that returns has a first part that returns.
  pub bind-ok :
      (m : Exec X S A) (f : A → Exec X S B) (s u : S) (b : B)
      → (m >>= f) s ≡ (ok b, u)
      → (a : A) × (t : S) × (m s ≡ (ok a, t)) × (f a t ≡ (ok b, u))
  bind-ok m f s u b h = elim (Result-cases (m s).0) [
    | inl (x, e) ↦ absurd (ground arith)
    | inr (a, e) ↦ (a, (m s).1, ap (λ r. (r, (m s).1)) e, ground arith)
  ]

  pub then-ok :
      (m : Exec X S A) (n : Exec X S B) (s u : S) (b : B)
      → (m >> n) s ≡ (ok b, u)
      → (a : A) × (t : S) × (m s ≡ (ok a, t)) × (n t ≡ (ok b, u))
  then-ok m n s u b h = bind-ok m (λ _. n) s u b h
