-- ===== src/Manifest/Sector/Addresses.antt =====
-- The addresses that a sector keeps for itself are never assigned to a VM: orbitlab/manifest/sector.py
-- against orbitlab/manifest/ipam.py.
use orbit_lab.Prelude.{ℕ, zero, suc, ◌+◌, ◌-◌, ◌≤◌, ◌≡◌, arith, nat_eq}
use orbit_lab.Prelude.Exec.{ok}
use orbit_lab.Net.{Interface, num_addresses, addresses_from, hosts}
use orbit_lab.Manifest.Ipam
use orbit_lab.Manifest.Sector.{Subnet, default_gateway, first_host}

first_host-range : (p a n : ℕ) (g : Interface) → first_host p (addresses_from a n) ≡ ok g → g.ip ≡ a
unfolding addresses_from
first_host-range p a zero g h = cc
first_host-range p a (suc n) g h = ground arith

-- The default gateway is the network's first host.
default_gateway-le :
    (s : Subnet) (g : Interface) → default_gateway s ≡ ok g → g.ip ≤ s.cidr_block.address + 1
unfolding default_gateway hosts
default_gateway-le s g h = ground (
  arith,
  first_host-range s.cidr_block.prefixlen s.cidr_block.address 2 g,
  first_host-range s.cidr_block.prefixlen (s.cidr_block.address + 1)
      (num_addresses s.cidr_block - 2) g,
)
