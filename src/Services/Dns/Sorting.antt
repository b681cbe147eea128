-- ===== src/Services/Dns/Sorting.antt =====
-- What is in a list stays in it when it is sorted.
use orbit_lab.Prelude.{◌≡◌, refl, Bool, ◌&&◌, ◌||◌, List, [], ◌∷◌, arith}
use orbit_lab.Services.Dns.Hosts.{insert, sorted_from, sorted}
use orbit_lab.Services.Dns.Words.{all, any}

module _ {A : Type 0} (p : A → Bool) (less : A → A → Bool) where
  any-insert : (x : A) (xs : List A) → any p (insert less x xs) ≡ (p x || any p xs)
  unfolding any insert
  any-insert x [] = refl
  any-insert x (y ∷ ys) = ground (arith, any-insert x ys)

  any-sorted_from : (done xs : List A) → any p (sorted_from less done xs) ≡ (any p done || any p xs)
  unfolding any sorted_from
  any-sorted_from done [] = ground arith
  any-sorted_from done (x ∷ xs) =
      ground (arith, any-sorted_from (insert less x done) xs, any-insert x done)

  pub any-sorted : (xs : List A) → any p (sorted less xs) ≡ any p xs
  unfolding sorted any
  any-sorted xs = any-sorted_from [] xs

  all-insert : (x : A) (xs : List A) → all p (insert less x xs) ≡ (p x && all p xs)
  unfolding all insert
  all-insert x [] = refl
  all-insert x (y ∷ ys) = ground (arith, all-insert x ys)

  all-sorted_from : (done xs : List A) → all p (sorted_from less done xs) ≡ (all p done && all p xs)
  unfolding all sorted_from
  all-sorted_from done [] = ground arith
  all-sorted_from done (x ∷ xs) =
      ground (arith, all-sorted_from (insert less x done) xs, all-insert x done)

  pub all-sorted : (xs : List A) → all p (sorted less xs) ≡ all p xs
  unfolding sorted all
  all-sorted xs = all-sorted_from [] xs
