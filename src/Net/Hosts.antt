-- ===== src/Net/Hosts.antt =====
-- The hosts of a network: how many, in which range, and that none is listed twice.
use orbit_lab.Prelude.{
  ℕ, zero, suc, ◌+◌, ◌-◌, ◌≤◌, ◌<◌, ◌≡◌, refl, true, false, arith, length, drop, contains, distinct,
  Bool-cases, inl, inr, nat_eq,
}
use orbit_lab.Net.{Network, num_addresses, addresses_from, hosts}

pub length-addresses_from : (start count : ℕ) → length (addresses_from start count) ≡ count
unfolding addresses_from
length-addresses_from start zero = refl
length-addresses_from start (suc count) = omega (arith, length-addresses_from (start + 1) count)

-- An address is listed exactly when it lies in the range.
pub addresses_from_bounds :
    (start count a : ℕ)
    → contains (addresses_from start count) a ≡ true
    → (start ≤ a) × (a < start + count)
unfolding addresses_from contains
addresses_from_bounds start zero a h = cc
addresses_from_bounds start (suc count) a h =
    ground (arith, addresses_from_bounds (start + 1) count a)

contains-below : (start count a : ℕ) → a < start → contains (addresses_from start count) a ≡ false
contains-below start count a h = elim (Bool-cases (contains (addresses_from start count) a)) [
  | inl y ↦ absurd (omega (arith, addresses_from_bounds start count a y))
  | inr n ↦ n
]

pub addresses_from-distinct : (start count : ℕ) → distinct (addresses_from start count) ≡ true
unfolding addresses_from distinct
addresses_from-distinct start zero = refl
addresses_from-distinct start (suc count) =
    ground
      (arith, contains-below (start + 1) count start, addresses_from-distinct (start + 1) count)

pub hosts-distinct : (n : Network) → distinct (hosts n) ≡ true
unfolding hosts contains distinct
hosts-distinct n = ground (
  arith,
  addresses_from-distinct n.address 2,
  addresses_from-distinct (n.address + 1) (num_addresses n - 2),
)

pub drop-addresses_from :
    (n start count : ℕ)
    → drop n (addresses_from start count) ≡ addresses_from (start + n) (count - n)
unfolding addresses_from
drop-addresses_from zero start count = ground arith
drop-addresses_from (suc n) start zero = ground arith
drop-addresses_from (suc n) start (suc count) =
    ground (arith, drop-addresses_from n (start + 1) count)
