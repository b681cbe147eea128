-- ===== src/Tests/Cluster.antt =====
-- The theorems on Manifest/Cluster and Manifest/Sector at a small cluster.
use orbit_lab.Prelude.{
  ℕ, ◌+◌, ◌≤◌, ◌<◌, ◌≡◌, ◌≢◌, refl, false, none, some, [], ◌∷◌, contains, arith, nat_eq, string_eq,
}
use orbit_lab.Prelude.Dict
use orbit_lab.Prelude.Dict.{Dict}
use orbit_lab.Prelude.Exec.{ok}
use orbit_lab.DataTypes.{ManifestKind, SectorState}
use orbit_lab.Net.{Network, Interface}
use orbit_lab.Manifest.Ipam
use orbit_lab.Manifest.Sector
use orbit_lab.Manifest.Sector.{SectorManifest}
use orbit_lab.Manifest.Cluster.{
  ClusterManifest, Ref, Saved, created, create, add_sector, remove_sector, get_next_available_tag,
}
use orbit_lab.Manifest.Cluster.Tags.{get_next_available_tag-lowest, add_sector_takes_tag}
use orbit_lab.Manifest.Cluster.Create.{create_chooses_free_tags, create_forgets_reserved}

abbrev pub fresh : ClusterManifest
fresh = created none 1500 11 100

-- It has the sector 1000 and reserves 1001.
abbrev busy : ClusterManifest
busy = record fresh {
  sectors = (1000, record { kind = ManifestKind.sector; name = "olvn1000" }) ∷ [];
  metadata = record fresh.metadata { reserved_tags = 1001 ∷ [] };
}

abbrev saved : Saved
saved = record { self = busy; files = [] }

abbrev sector_ref : Ref
sector_ref = record { kind = ManifestKind.sector; name = "olvn1002" }

get_next_available_tag-lowest_example :
    (1000 ≤ 1002)
    × (1002 ≤ 9999)
    × (contains (Dict.keys busy.sectors) 1002 ≡ false)
    × (contains busy.metadata.reserved_tags 1002 ≡ false)
    × ((t : ℕ)
        → 1000 ≤ t
        → contains (Dict.keys busy.sectors) t ≡ false
        → contains busy.metadata.reserved_tags t ≡ false
        → 1002 ≤ t)
unfolding get_next_available_tag orbit_lab.Manifest.Cluster.first_tag contains
get_next_available_tag-lowest_example = get_next_available_tag-lowest busy 1000 9999 1002 refl

add_sector_takes_tag_example :
    (Dict.get (add_sector 1002 sector_ref saved).self.sectors 1002 ≡ some sector_ref)
    × (Dict.get (add_sector 1002 sector_ref saved).files saved.self.name
        ≡ some (add_sector 1002 sector_ref saved).self)
    × (get_next_available_tag (add_sector 1002 sector_ref saved).self 1000 9999 ≢ ok 1002)
add_sector_takes_tag_example = add_sector_takes_tag saved 1002 sector_ref 1000 9999 1002

create_chooses_free_tags_example :
    (Dict.get (("OrbitLab", fresh) ∷ []) fresh.name ≡ some fresh)
    × (contains (10 ∷ []) fresh.backplane.zone_tag ≡ false)
    × (10 ≤ fresh.backplane.zone_tag)
    × (fresh.backplane.zone_tag < 100)
    × (contains (10 ∷ []) fresh.backplane.vnet_tag ≡ false)
    × (100 ≤ fresh.backplane.vnet_tag)
    × (fresh.backplane.vnet_tag < 1000)
    × (fresh.nodes ≡ [])
    × (fresh.sectors ≡ [])
unfolding create orbit_lab.Manifest.Cluster.first_tag contains Dict.set created
create_chooses_free_tags_example =
    create_chooses_free_tags none 1500 (10 ∷ []) [] (("OrbitLab", fresh) ∷ []) fresh refl

create_forgets_reserved_example : get_next_available_tag fresh 10 99 ≡ ok 10
unfolding create orbit_lab.Manifest.Cluster.first_tag contains Dict.set created
create_forgets_reserved_example =
    create_forgets_reserved none 1500 (10 ∷ []) [] (("OrbitLab", fresh) ∷ []) fresh 10 99 refl
      (omega arith)

-- 10.0.0.0/28 as the sector's network and its only subnet.
abbrev net : Network
net = record { address = 167772160; prefixlen = 28 }

abbrev sector : SectorManifest
sector = record {
  name = "olvn1000";
  alias = "s";
  tag = 1000;
  state = SectorState.pending;
  cidr_block = net;
  subnets = record { cidr_block = net; name = "lan" } ∷ [];
  gateway_vmid = none;
  dns_vmid = none;
  ipam = "ipam-olvn1000";
}

abbrev lan : Ipam.Subnet
lan = record { cidr_block = net; name = "lan"; assignments = [] }

abbrev at : ℕ → Interface
at n = record { ip = 167772160 + n; prefixlen = 28 }
