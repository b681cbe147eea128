-- ===== src/Web/Sectors/Range.antt =====
-- The addresses that orbitlab/web/pages/sectors/dashboard/models.py announces for a new subnet are those that
-- orbitlab/manifest/ipam.py gives out.
use orbit_lab.Prelude.{
  ℕ, ◌≡◌, String, some, List, [], ◌∷◌, drop, length, ltb, arith, contains, inl, inr, Bool-cases,
}
use orbit_lab.Prelude.Exec.{ok}
use orbit_lab.Net.{Network, hosts}
use orbit_lab.Manifest.Ipam
use orbit_lab.Web.Sectors.{available_range, range_of}

abbrev pub unassigned : Network → String → Ipam.Subnet
unassigned n name = record { cidr_block = n; name = name; assignments = [] }

-- The first address of the announced range is the one that the new subnet's first machine gets.
pub available_range-first :
    (n : Network) (name : String) (low high : ℕ)
    → available_range n ≡ some (low, high)
    → Ipam.get_next_available_ip (unassigned n name)
      ≡ ok (record { ip = low; prefixlen = n.prefixlen })
unfolding available_range Ipam.get_next_available_ip Ipam.first_free Ipam.usable contains
    Ipam.assigned_ips
available_range-first n name low high h = elim (Bool-cases (ltb 11 (length (hosts n)))) [
  | inr few ↦ absurd (ground arith)
  | inl y ↦ first_of (drop 10 (hosts n)) (ground arith)
]
  where
    first_of :
        (us : List ℕ)
        → range_of us ≡ some (low, high)
        → Ipam.first_free n [] us ≡ ok (record { ip = low; prefixlen = n.prefixlen })
    first_of [] e = absurd cc
    first_of (u ∷ us) e = ground arith
