-- ===== src/Tests/Sectors.antt =====
-- The theorems on Web/Sectors at a /27 network.
use orbit_lab.Prelude.{ℕ, ◌≡◌, ◌≤◌, ◌<◌, refl, false, List, [], ◌∷◌, length}
use orbit_lab.Prelude.Exec.{ok}
use orbit_lab.Net.{Network, in_network}
use orbit_lab.Manifest.Ipam
use orbit_lab.Web.Sectors.{sector_specs, available_range}
use orbit_lab.Web.Sectors.Division.{holders, sector_specs_divide}
use orbit_lab.Web.Sectors.Range.{available_range-first, unassigned}

abbrev net : Network
net = record { address = 167772160; prefixlen = 27 }

abbrev part : ℕ → Network
part a = record { address = a; prefixlen = 29 }

abbrev thirds : List Network
thirds = part 167772160 ∷ part 167772168 ∷ part 167772176 ∷ []

sector_specs_divide_example :
    (holders 167772170 thirds ≤ 1)
    × (in_network 167772170 net ≡ false → holders 167772170 thirds ≡ 0)
    × (◌<◌ 27 32 → length thirds ≡ 3)
unfolding sector_specs
sector_specs_divide_example = sector_specs_divide net 3 thirds 167772170 refl

available_range-first_example :
    Ipam.get_next_available_ip (unassigned net "lan")
    ≡ ok (record { ip = 167772171; prefixlen = 27 })
unfolding available_range
available_range-first_example = available_range-first net "lan" 167772171 167772190 refl
