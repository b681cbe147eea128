-- ===== src/Manifest/Sector.antt =====
-- orbitlab/manifest/sector.py
pub mod Addresses
use orbit_lab.Prelude.{
  ℕ, ◌+◌, ◌-◌, ◌^◌, String, Bool, Option, none, some, List, [], ◌∷◌, find?, ◌==◌, string_eq, ltb,
  if◌then◌else◌,
}
use orbit_lab.Prelude.Dict
use orbit_lab.Prelude.Dict.{Dict}
use orbit_lab.Prelude.Exec.{Result, ok, err}
use orbit_lab.DataTypes.{SectorState}
use orbit_lab.Exceptions.{Exception, value_error, stop_iteration}
use orbit_lab.Net.{Network, Interface, hosts}
use orbit_lab.Manifest.Base.{save}

-- A subnet of a sector; its assignments are in the IPAM manifest.
pub record Subnet : Type 0 where
  pub cidr_block : Network
  pub name : String

abbrev first_host : ℕ → List ℕ → Result Exception Interface
first_host prefixlen [] = err stop_iteration
first_host prefixlen (h ∷ hs) = ok (record { ip = h; prefixlen = prefixlen })

-- `next(iter(self.cidr_block.hosts()))`
unfoldable pub default_gateway : Subnet → Result Exception Interface
default_gateway s = first_host s.cidr_block.prefixlen (hosts s.cidr_block)

pub record SectorManifest : Type 0 where
  pub name : String
  pub alias : String
  pub tag : ℕ
  pub state : SectorState
  pub cidr_block : Network
  pub subnets : List Subnet
  pub gateway_vmid : Option ℕ
  pub dns_vmid : Option ℕ
  pub ipam : String

-- `address + n` raises AddressValueError past 255.255.255.255.
unfoldable pub add_address : ℕ → ℕ → ℕ → Result Exception Interface
add_address a n prefixlen =
    if ltb (a + n) (2 ^ 32)
    then ok (record { ip = a + n; prefixlen = prefixlen })
    else err value_error

unfoldable pub primary_gateway : SectorManifest → Result Exception Interface
unfolding add_address
primary_gateway s = add_address s.cidr_block.address 1 s.cidr_block.prefixlen

unfoldable pub dns_address : SectorManifest → Result Exception Interface
unfolding add_address primary_gateway
dns_address s = elim (primary_gateway s) [
  | err x ↦ err x
  | ok g ↦ add_address g.ip 1 s.cidr_block.prefixlen
]

unfoldable pub get_subnet : SectorManifest → String → Option Subnet
get_subnet s name = find? (λ n. n.name == name) s.subnets

-- A sector in memory and the files of its kind, after `self.save()`.
unfoldable pub set_gateway :
    SectorManifest → ℕ → Dict String SectorManifest → SectorManifest × Dict String SectorManifest
unfolding save
set_gateway s vmid files =
    let s' = record s { gateway_vmid = some vmid } in (s', save files s'.name s')

unfoldable pub set_dns :
    SectorManifest → ℕ → Dict String SectorManifest → SectorManifest × Dict String SectorManifest
unfolding save
set_dns s vmid files = let s' = record s { dns_vmid = some vmid } in (s', save files s'.name s')
