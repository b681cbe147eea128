-- ===== src/Prelude/Dict.antt =====
-- Python dictionaries: a key keeps its place when it is written again, a new one goes to the end.
use Prim.Native.Nat.{◌+◌, ◌≤◌}
use mathlib.Core.Path.{◌≡◌, refl}
use mathlib.Core.Bool.{Bool, true, false, ◌||◌}
use mathlib.Core.Option.{Option, none, some}
use mathlib.Core.List.{List, [], ◌∷◌, map}
use native.Mathlib.Omega.{arith}
use mathlib.Core.Logic.{inl, inr}
use orbit_lab.Prelude.Tests.{Eq, ◌==◌, if◌then◌else◌, Bool-cases}
use orbit_lab.Prelude.Lists.{length}

abbrev pub Dict {ℓ κ} : Type ℓ → Type κ → Type (ℓ ⊔ κ)
Dict K V = List (K × V)

module _ {ℓ κ} {K : Type ℓ} {V : Type κ} where
  abbrev pub keys : Dict K V → List K
  keys = map λ e. e.0

  abbrev pub values : Dict K V → List V
  values = map λ e. e.1

module _ {ℓ κ} {K : Type ℓ} {V : Type κ} ⦃e : Eq K⦄ where
  unfoldable pub get : Dict K V → K → Option V
  get [] k = none
  get ((j, v) ∷ d) k = if j == k then some v else get d k

  -- `k in d`
  unfoldable pub has : Dict K V → K → Bool
  has [] k = false
  has ((j, v) ∷ d) k = j == k || has d k

  -- `d[k] = v`
  unfoldable pub set : Dict K V → K → V → Dict K V
  set [] k v = (k, v) ∷ []
  set ((j, w) ∷ d) k v = if j == k then (j, v) ∷ d else (j, w) ∷ set d k v

  -- `del d[k]`, or nothing where the key is missing; a dictionary has a key once
  unfoldable pub del : Dict K V → K → Dict K V
  del [] k = []
  del ((j, w) ∷ d) k = if j == k then del d k else (j, w) ∷ del d k

  pub get-set :
      (d : Dict K V) (k j : K) (v : V) → get (set d k v) j ≡ (if k == j then some v else get d j)
  unfolding get set
  get-set [] k j v = refl
  get-set ((i, w) ∷ d) k j v =
      ground (arith, e.beq_iff k j, e.beq_iff i k, e.beq_iff i j, get-set d k j v)

  pub get-set_self : (d : Dict K V) (k : K) (v : V) → get (set d k v) k ≡ some v
  get-set_self d k v = rw (get-set d k k v, (e.beq_iff k k).1 refl)

  pub keys-set : (d : Dict K V) (k : K) (v w : V) → get d k ≡ some w → keys (set d k v) ≡ keys d
  unfolding get set
  keys-set [] k v w h = cc
  keys-set ((i, u) ∷ d) k v w h = ground (arith, keys-set d k v w)

  pub length-set :
      (d : Dict K V) (k : K) (v : V) → get d k ≡ none → length (set d k v) ≡ length d + 1
  unfolding get set
  length-set [] k v h = omega arith
  length-set ((i, u) ∷ d) k v h = ground (arith, length-set d k v)

  pub length-set-le : (d : Dict K V) (k : K) (v : V) → length d ≤ length (set d k v)
  unfolding set
  length-set-le [] k v = omega arith
  length-set-le ((i, u) ∷ d) k v = ground (arith, length-set-le d k v)

  pub get-del : (d : Dict K V) (k j : K) → get (del d k) j ≡ (if k == j then none else get d j)
  unfolding get del
  get-del [] k j = ground arith
  get-del ((i, w) ∷ d) k j =
      ground (arith, e.beq_iff k j, e.beq_iff i k, e.beq_iff i j, get-del d k j)

  pub get-del_self : (d : Dict K V) (k : K) → get (del d k) k ≡ none
  get-del_self d k = rw (get-del d k k, (e.beq_iff k k).1 refl)

  pub get-has : (d : Dict K V) (k : K) → has d k ≡ false → get d k ≡ none
  unfolding get has
  get-has [] k h = refl
  get-has ((i, w) ∷ d) k h = ground (arith, get-has d k)

  pub has-get : (d : Dict K V) (k : K) (v : V) → get d k ≡ some v → has d k ≡ true
  unfolding get has
  has-get [] k v h = cc
  has-get ((i, w) ∷ d) k v h = ground (arith, has-get d k v)

  pub has-del : (d : Dict K V) (k j : K) → has d j ≡ true → k == j ≡ false → has (del d k) j ≡ true
  unfolding has del
  has-del [] k j h n = h
  has-del ((i, w) ∷ d) k j h n =
      ground (arith, e.beq_iff i k, e.beq_iff i j, e.beq_iff k j, has-del d k j)

  pub get_of_has : (d : Dict K V) (k : K) → has d k ≡ true → (v : V) × (get d k ≡ some v)
  unfolding get has
  get_of_has [] k h = cc
  get_of_has ((i, w) ∷ d) k h = elim (Bool-cases (i == k)) [
    | inl y ↦ (w, rw y)
    | inr n ↦ let (v, e) = get_of_has d k (ground arith) in (v, rw n e)
  ]
