-- ===== src/Net.antt =====
-- The part of Python's `ipaddress` that OrbitLab uses. An IPv4 address is its 32-bit number.
pub mod Hosts
use orbit_lab.Prelude.{
  ℕ, zero, suc, ◌+◌, ◌-◌, ◌*◌, ◌/◌, ◌%◌, ◌^◌, ◌≤◌, ◌<◌, ◌≡◌, Bool, ◌&&◌, List, [], ◌∷◌,
  if◌then◌else◌, eqb, leb, ltb,
}

-- IPv4Network
pub record Network : Type 0 where
  pub address : ℕ
  pub prefixlen : ℕ

-- IPv4Interface: an address with the prefix length of its network
pub record Interface : Type 0 where
  pub ip : ℕ
  pub prefixlen : ℕ

-- `IPv4Network(...)` refuses host bits and a prefix above 32.
pub record IsNetwork (n : Network) : Type 0 where
  pub prefix : n.prefixlen ≤ 32
  pub aligned : n.address % 2 ^ (32 - n.prefixlen) ≡ 0
  pub bounded : n.address + 2 ^ (32 - n.prefixlen) ≤ 2 ^ 32

unfoldable pub num_addresses : Network → ℕ
num_addresses n = 2 ^ (32 - n.prefixlen)

-- `count` addresses from `start` on
unfoldable pub addresses_from : ℕ → ℕ → List ℕ
addresses_from start zero = []
addresses_from start (suc count) = start ∷ addresses_from (start + 1) count

-- A /32 has one host and a /31 two; any other network leaves out its first and last address.
unfoldable pub hosts : Network → List ℕ
unfolding num_addresses addresses_from
hosts n =
    if eqb n.prefixlen 32
    then n.address ∷ []
    else if eqb n.prefixlen 31
    then addresses_from n.address 2
    else addresses_from (n.address + 1) (num_addresses n - 2)

-- `address in network`
unfoldable pub in_network : ℕ → Network → Bool
unfolding num_addresses
in_network a n = leb n.address a && ltb a (n.address + num_addresses n)
