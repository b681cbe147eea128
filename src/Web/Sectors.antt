-- ===== src/Web/Sectors.antt =====
-- orbitlab/web/pages/sectors/dashboard/models.py and states.py: dividing a sector's network into subnets.
pub mod Lifecycle
pub mod Made
pub mod Removed
pub mod Division
pub mod Range
use orbit_lab.Prelude.{
  ℕ, zero, suc, ◌+◌, ◌-◌, ◌*◌, ◌/◌, ◌^◌, String, Bool, true, false, not, Option, none, some, List,
  [], ◌∷◌, drop, length, ltb, eqb, ◌==◌, string_eq, if◌then◌else◌, beq_list, nat_eq,
}
use orbit_lab.Prelude.Dict.{Dict}
use orbit_lab.Prelude.Exec.{Result, ok, err}
use orbit_lab.DataTypes.{SectorState}
use orbit_lab.Exceptions.{Exception, value_error}
use orbit_lab.Constants.{reserved_usable_ips}
use orbit_lab.Net.{Network, num_addresses, hosts}
use orbit_lab.Manifest.Base.{save}
use orbit_lab.Manifest.Sector
use orbit_lab.Manifest.Sector.{SectorManifest}
use orbit_lab.Manifest.Ipam
use orbit_lab.Manifest.Ipam.{IpamManifest}

-- The number of available addresses of a specification; its own text is its network.
unfoldable pub available_ips : Network → ℕ
unfolding num_addresses
available_ips n = num_addresses n - 2 - reserved_usable_ips

abbrev last : ℕ → List ℕ → ℕ
last a [] = a
last a (b ∷ bs) = last b bs

abbrev pub range_of : List ℕ → Option (ℕ × ℕ)
range_of [] = none
range_of (a ∷ rest) = some (a, last a rest)

-- The first and the last available address; the source prints them, and "" where there are none.
unfoldable pub available_range : Network → Option (ℕ × ℕ)
unfolding hosts
available_range n =
    if ltb 11 (length (hosts n)) then range_of (drop reserved_usable_ips (hosts n)) else none

-- `n.bit_length()`, by halving: each step needs one of the fuel, and `n` is enough
unfoldable pub bit_length_from : ℕ → ℕ → ℕ
bit_length_from zero n = 0
bit_length_from (suc fuel) n =
    let rest = bit_length_from fuel (n / 2) in if eqb n 0 then 0 else rest + 1

unfoldable pub bit_length : ℕ → ℕ
unfolding bit_length_from
bit_length n = bit_length_from n n

-- Of the first `count` networks of a prefix length, the addresses `step` apart
unfoldable pub subnets_from : ℕ → ℕ → ℕ → ℕ → List Network
subnets_from start step prefix zero = []
subnets_from start step prefix (suc count) =
    record { address = start; prefixlen = prefix } ∷ subnets_from (start + step) step prefix count

-- `network.subnets(new_prefix=...)` for a prefix that is not shorter than the network's. A /32 is its only
-- subnet, whatever the new prefix.
unfoldable pub subnets : Network → ℕ → Result Exception (List Network)
unfolding subnets_from
subnets n new_prefix =
    if eqb n.prefixlen 32
    then ok (n ∷ [])
    else if ltb 32 new_prefix
    then err value_error
    else ok
        (subnets_from n.address (2 ^ (32 - new_prefix)) new_prefix (2 ^ (new_prefix - n.prefixlen)))

-- `[...][:count]`
unfoldable pub first : ℕ → List Network → List Network
first zero ns = []
first (suc count) [] = []
first (suc count) (n ∷ ns) = n ∷ first count ns

-- The dialog's specifications of a valid network. A count of zero has `(-1).bit_length()`, which is one.
unfoldable pub sector_specs : Network → ℕ → Result Exception (List Network)
unfolding bit_length subnets first
sector_specs n count =
    let bits = if eqb count 0 then 1 else bit_length (count - 1) in
    elim (subnets n (n.prefixlen + bits)) [ err x ↦ err x | ok ns ↦ ok (first count ns) ]

pub record CreateSectorForm : Type 0 where
  pub tag : ℕ
  pub name : String
  pub cidr_block : Network
  pub subnets : List Sector.Subnet

-- The manifests that a form makes, and the files they are saved in.
pub record Files : Type 0 where
  pub ipams : Dict String IpamManifest
  pub sectors : Dict String SectorManifest

abbrev ipam_subnets : List Sector.Subnet → List Ipam.Subnet
ipam_subnets [] = []
ipam_subnets (s ∷ ss) =
    record { cidr_block = s.cidr_block; name = s.name; assignments = [] } ∷ ipam_subnets ss

-- `sector_id` is `olvn<tag>` and `ipam_name` is `ipam-olvn<tag>`; their texts are arguments.
unfoldable pub create_ipam : CreateSectorForm → String → String → IpamManifest
create_ipam form sector_id ipam_name = record {
  name = ipam_name;
  sector_name = form.name;
  sector_id = sector_id;
  subnets = ipam_subnets form.subnets;
}

unfoldable pub create_sector_manifest :
    CreateSectorForm → String → String → Files → SectorManifest × Files
unfolding create_ipam save
create_sector_manifest form sector_id ipam_name files =
    let ipam = create_ipam form sector_id ipam_name in
    let sector : SectorManifest = record {
      name = sector_id;
      alias = form.name;
      tag = form.tag;
      state = SectorState.pending;
      cidr_block = form.cidr_block;
      subnets = form.subnets;
      gateway_vmid = none;
      dns_vmid = none;
      ipam = ipam.name;
    } in
    (
      sector,
      record {
        ipams = save files.ipams ipam.name ipam;
        sectors = save files.sectors sector.name sector;
      },
    )

-- The delete dialog.
pub record DeleteSectorDialogState : Type 0 where
  pub sector_id : String
  pub attached_vms : List ℕ
  pub confirmation : String

unfoldable pub has_attached_compute : DeleteSectorDialogState → Bool
has_attached_compute d = not (beq_list d.attached_vms [])

unfoldable pub delete_disabled : DeleteSectorDialogState → Bool
delete_disabled d = not (d.confirmation == d.sector_id)
