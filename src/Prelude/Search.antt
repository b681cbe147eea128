-- ===== src/Prelude/Search.antt =====
-- Membership tests over lists, first matches, and the pigeonhole principle.
use Prim.Native.Nat.{◌<◌, ◌≤◌}
use mathlib.Core.Path.{◌≡◌, refl}
use mathlib.Core.Bool.{Bool, true, false, not, ◌||◌, ◌&&◌}
use mathlib.Core.Option.{Option, none, some}
use mathlib.Core.List.{List, [], ◌∷◌, ◌++◌}
use native.Mathlib.Omega.{arith}
use orbit_lab.Prelude.Tests.{Eq, ◌==◌, if◌then◌else◌}
use orbit_lab.Prelude.Lists.{length}

module _ {ℓ} {A : Type ℓ} where
  -- `next(x for x in xs if p(x))`
  unfoldable pub find? : (A → Bool) → List A → Option A
  find? p [] = none
  find? p (x ∷ xs) = let rest = find? p xs in if p x then some x else rest

  pub find?_holds : (p : A → Bool) (xs : List A) (x : A) → find? p xs ≡ some x → p x ≡ true
  unfolding find?
  find?_holds p [] x h = cc
  find?_holds p (y ∷ ys) x h = ground (arith, find?_holds p ys x)

  -- `[x for x in xs if p(x)]`
  unfoldable pub select : (A → Bool) → List A → List A
  select p [] = []
  select p (x ∷ xs) = if p x then x ∷ select p xs else select p xs

module _ {ℓ} {A : Type ℓ} ⦃e : Eq A⦄ where
  unfoldable pub contains : List A → A → Bool
  contains [] a = false
  contains (x ∷ xs) a = a == x || contains xs a

  unfoldable pub distinct : List A → Bool
  unfolding contains
  distinct [] = true
  distinct (x ∷ xs) = not (contains xs x) && distinct xs

  -- The items other than `a`.
  unfoldable pub without : A → List A → List A
  without a [] = []
  without a (x ∷ xs) = if a == x then without a xs else x ∷ without a xs

  pub contains-append :
      (xs ys : List A) (a : A) → contains (xs ++ ys) a ≡ (contains xs a || contains ys a)
  unfolding contains
  contains-append [] ys a = refl
  contains-append (x ∷ xs) ys a = ground (arith, contains-append xs ys a)

  contains-without :
      (a b : A) (xs : List A)
      → contains xs b ≡ true
      → a == b ≡ false
      → contains (without a xs) b ≡ true
  unfolding contains without
  contains-without a b [] h d = h
  contains-without a b (x ∷ xs) h d =
      ground (arith, e.beq_iff a x, e.beq_iff a b, e.beq_iff b x, contains-without a b xs)

  length-without-le : (a : A) (xs : List A) → length (without a xs) ≤ length xs
  unfolding without
  length-without-le a [] = omega arith
  length-without-le a (x ∷ xs) = ground (arith, length-without-le a xs)

  length-without-lt :
      (a : A) (xs : List A) → contains xs a ≡ true → length (without a xs) < length xs
  unfolding contains without
  length-without-lt a [] h = cc
  length-without-lt a (x ∷ xs) h = ground (arith, length-without-le a xs, length-without-lt a xs)

  -- Distinct items that all occur in another list are no more than it has.
  pub distinct-le :
      (xs ys : List A)
      → distinct xs ≡ true
      → ((b : A) → contains xs b ≡ true → contains ys b ≡ true)
      → length xs ≤ length ys
  unfolding contains distinct
  distinct-le [] ys d sub = omega arith
  distinct-le (x ∷ xs) ys d sub =
      let head : contains ys x ≡ true = sub x (ground (arith, e.beq_iff x x)) in
      let rest : (b : A) → contains xs b ≡ true → contains (without x ys) b ≡ true =
        λ b h. contains-without x b ys (sub b (ground arith)) (ground (arith, e.beq_iff x b)) in
      omega (arith, length-without-lt x ys head, distinct-le xs (without x ys) (ground arith) rest)
