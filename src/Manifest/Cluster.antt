-- ===== src/Manifest/Cluster.antt =====
-- orbitlab/manifest/cluster.py
pub mod Tags
pub mod BackplaneIpam
pub mod Create
use orbit_lab.Prelude.{
  ℕ, zero, suc, ◌+◌, ◌-◌, String, Bool, true, false, ◌||◌, Option, none, some, List, [], ◌∷◌, ◌++◌,
  map, ◌==◌, string_eq, nat_eq, contains, if◌then◌else◌,
}
use orbit_lab.Prelude.Dict
use orbit_lab.Prelude.Dict.{Dict}
use orbit_lab.Prelude.Int.{ℤ, sub_ℕ}
use orbit_lab.Prelude.Exec.{Result, ok, err, Exec, ◌>>=◌, ◌>>◌, pure, lift, modify, or_raise, raise}
use orbit_lab.DataTypes.{ManifestKind, ClusterMode, StorageContentType, StorageProfile}
use orbit_lab.Exceptions.{Exception, value_error, stop_iteration}
use orbit_lab.Constants
use orbit_lab.Net.{Network, Interface}
use orbit_lab.Manifest.Base.{save, load}
use orbit_lab.Manifest.Nodes.{NodeManifest, ClusterStatus}
use orbit_lab.Manifest.Ipam
use orbit_lab.Manifest.Ipam.{IpamManifest, Live}

-- A validated reference; its text is in Manifest/Ref.
pub record Ref : Type 0 where
  pub kind : ManifestKind
  pub name : String

pub record Controller : Type 0 where
  pub id : String
  pub asn : ℕ
  pub peers : List ℕ

pub record Backplane : Type 0 where
  pub zone_id : String
  pub vnet_id : String
  pub controller : Controller
  pub zone_tag : ℕ
  pub vnet_tag : ℕ
  pub mtu : ℤ
  pub cidr_block : Network
  pub gateway : ℕ

pub record DefaultStorageSelections : Type 0 where
  pub vztmpl : String
  pub snippets : String
  pub imports : String
  pub iso : String
  pub backup : String
  pub rootdir : String
  pub images : String

pub record Defaults : Type 0 where
  pub storage : DefaultStorageSelections
  pub node : String
  pub storage_profile : StorageProfile

pub record ClusterMetadata : Type 0 where
  pub initialized : Bool
  pub mode : ClusterMode
  pub version : ℕ
  pub quorate : Bool
  pub mtu : ℕ
  pub reserved_tags : List ℕ
  pub sector_gateway_appliance : String
  pub sector_dns_appliance : String
  pub backplane_dns_appliance : String

pub record ClusterManifest : Type 0 where
  pub name : String
  pub metadata : ClusterMetadata
  pub nodes : List Ref
  pub backplane : Backplane
  pub sectors : Dict ℕ Ref
  pub defaults : Defaults

unfoldable pub list_nodes : ClusterManifest → List String
list_nodes c = map (λ r. r.name) c.nodes

-- `next(i for i in range(start, start + count) if i not in taken)`
unfoldable pub first_tag : List ℕ → ℕ → ℕ → Option ℕ
first_tag taken start zero = none
first_tag taken start (suc count) =
    let later = first_tag taken (start + 1) count in
    if contains taken start then later else some start

unfoldable pub existing_tags : ClusterManifest → List ℕ
existing_tags c = Dict.keys c.sectors ++ c.metadata.reserved_tags

-- The range has both ends.
unfoldable pub get_next_available_tag : ClusterManifest → ℕ → ℕ → Result Exception ℕ
unfolding existing_tags
get_next_available_tag c start end = elim (first_tag (existing_tags c) start (end + 1 - start)) [
  | none ↦ err value_error
  | some tag ↦ ok tag
]

-- A cluster manifest in memory, and the files of its kind.
pub record Saved : Type 0 where
  pub self : ClusterManifest
  pub files : Dict String ClusterManifest

unfoldable pub save_cluster : ClusterManifest → Dict String ClusterManifest → Saved
unfolding save
save_cluster c files = record { self = c; files = save files c.name c }

unfoldable pub add_node : NodeManifest → Saved → Saved
unfolding save_cluster
add_node node s =
    let b = s.self.backplane in
    save_cluster
      (record s.self {
        nodes = s.self.nodes ++ record { kind = ManifestKind.node; name = node.name } ∷ [];
        backplane = record b {
          controller = record b.controller { peers = b.controller.peers ++ node.ip ∷ [] };
        };
      })
      s.files

unfoldable pub add_sector : ℕ → Ref → Saved → Saved
unfolding save_cluster
add_sector tag ref s =
    save_cluster (record s.self { sectors = Dict.set s.self.sectors tag ref }) s.files

unfoldable pub remove_sector : ℕ → Saved → Saved
unfolding save_cluster
remove_sector tag s =
    if Dict.has s.self.sectors tag
    then save_cluster (record s.self { sectors = Dict.del s.self.sectors tag }) s.files
    else s

unfoldable pub get_storage : ClusterManifest → StorageContentType → String
get_storage c StorageContentType.vztmpl = c.defaults.storage.vztmpl
get_storage c StorageContentType.rootdir = c.defaults.storage.rootdir
get_storage c StorageContentType.images = c.defaults.storage.images
get_storage c StorageContentType.snippets = c.defaults.storage.snippets
get_storage c StorageContentType.iso = c.defaults.storage.iso
get_storage c StorageContentType.import = c.defaults.storage.imports
get_storage c StorageContentType.backup = ""

abbrev status_name : Option ClusterStatus → String
status_name none = "OrbitLab"
status_name (some c) = c.name

abbrev status_mode : Option ClusterStatus → ClusterMode
status_mode none = ClusterMode.local
status_mode (some c) = ClusterMode.cluster

abbrev status_version : Option ClusterStatus → ℕ
status_version none = 0
status_version (some c) = c.version

abbrev status_quorate : Option ClusterStatus → Bool
status_quorate none = false
status_quorate (some c) = c.quorate

abbrev pub no_defaults : Defaults
no_defaults = record {
  storage = record {
    vztmpl = "";
    snippets = "";
    imports = "";
    iso = "";
    backup = "";
    rootdir = "";
    images = "";
  };
  node = "";
  storage_profile = StorageProfile.local;
}

-- The manifest that `create` validates; what it does not name takes its default.
unfoldable pub created : Option ClusterStatus → ℕ → ℕ → ℕ → ClusterManifest
created cluster mtu zone_tag vnet_tag = record {
  name = status_name cluster;
  metadata = record {
    initialized = false;
    mode = status_mode cluster;
    version = status_version cluster;
    quorate = status_quorate cluster;
    mtu = mtu;
    reserved_tags = [];
    sector_gateway_appliance = "";
    sector_dns_appliance = "";
    backplane_dns_appliance = "";
  };
  nodes = [];
  backplane = record {
    zone_id = Constants.backplane_name;
    vnet_id = Constants.backplane_name;
    controller = record {
      id = Constants.backplane_name;
      asn = Constants.backplane_asn;
      peers = [];
    };
    zone_tag = zone_tag;
    vnet_tag = vnet_tag;
    mtu = sub_ℕ mtu 50;
    cidr_block = Constants.default_cidr;
    gateway = Constants.default_gateway;
  };
  sectors = [];
  defaults = no_defaults;
}

unfoldable pub create :
    Option ClusterStatus → ℕ → List ℕ → Exec Exception (Dict String ClusterManifest) ClusterManifest
unfolding save
create cluster mtu reserved_tags = do
  zone_tag ←
      or_raise
        (first_tag reserved_tags Constants.backplane_zone_tag (100 - Constants.backplane_zone_tag))
        stop_iteration
  vnet_tag ←
      or_raise
        (first_tag reserved_tags Constants.backplane_vnet_tag (1000 - Constants.backplane_vnet_tag))
        stop_iteration
  let manifest = created cluster mtu zone_tag vnet_tag
  modify (λ files. save files manifest.name manifest)
  pure manifest
