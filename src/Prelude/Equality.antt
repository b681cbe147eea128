-- ===== src/Prelude/Equality.antt =====
-- `==` on lists and pairs, item by item.
use mathlib.Core.Path.{◌≡◌, refl}
use mathlib.Core.Logic.{◌↔◌}
use mathlib.Core.Bool.{Bool, true, false, ◌&&◌}
use mathlib.Core.List.{List, [], ◌∷◌}
use native.Mathlib.Omega.{arith}
use orbit_lab.Prelude.Tests.{Eq, ◌==◌}

module _ {ℓ} {A : Type ℓ} ⦃e : Eq A⦄ where
  unfoldable pub beq_list : List A → List A → Bool
  beq_list [] [] = true
  beq_list [] (y ∷ ys) = false
  beq_list (x ∷ xs) [] = false
  beq_list (x ∷ xs) (y ∷ ys) = x == y && beq_list xs ys

  pub beq_list_iff : (xs ys : List A) → (beq_list xs ys ≡ true) ↔ (xs ≡ ys)
  unfolding beq_list
  beq_list_iff [] [] = ((λ _. refl), λ _. refl)
  beq_list_iff [] (y ∷ ys) = ((λ h. cc), λ h. cc)
  beq_list_iff (x ∷ xs) [] = ((λ h. cc), λ h. cc)
  beq_list_iff (x ∷ xs) (y ∷ ys) = (
    (λ h. ground (arith, e.beq_iff x y, beq_list_iff xs ys)),
    λ h. ground (arith, e.beq_iff x y, beq_list_iff xs ys),
  )

instance abbrev pub list_eq {ℓ} : {A : Type ℓ} ⦃e : Eq A⦄ → Eq (List A)
list_eq = record { beq = beq_list; beq_iff = beq_list_iff }
