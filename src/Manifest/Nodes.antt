-- ===== src/Manifest/Nodes.antt =====
-- orbitlab/manifest/nodes.py, and the cluster status that it is built from
-- (orbitlab/clients/proxmox/cluster/models.py).
use orbit_lab.Prelude.{
  ℕ, String, Bool, false, ◌||◌, Option, none, some, List, [], ◌∷◌, map, find?, select, ◌==◌,
  string_eq,
}
use orbit_lab.Prelude.Exec.{Result, ok, err}
use orbit_lab.DataTypes.{StorageContentType, content_type_value}
use orbit_lab.Exceptions.{Exception, stop_iteration}

pub record Storage : Type 0 where
  pub name : String
  pub content : List StorageContentType
  pub shared : Bool

pub record NodeManifest : Type 0 where
  pub name : String
  pub ip : ℕ
  pub online : Bool
  pub maintenance_mode : Bool
  pub networking_configured : Bool
  pub storage : List Storage

-- `content_type in storage.content`: members of a string enumeration compare by their values.
unfoldable pub supports : StorageContentType → List StorageContentType → Bool
unfolding content_type_value
supports t [] = false
supports t (u ∷ us) = content_type_value u == content_type_value t || supports t us

unfoldable pub list_storages : NodeManifest → StorageContentType → List String
unfolding supports
list_storages n t = map (λ s. s.name) (select (λ s. supports t s.content) n.storage)

abbrev first_of_list : List String → Result Exception String
first_of_list [] = err stop_iteration
first_of_list (x ∷ xs) = ok x

-- `next(iter(...))`
unfoldable pub get_storage : NodeManifest → StorageContentType → Result Exception String
get_storage n t = first_of_list (list_storages n t)

-- A node in the cluster's status; `ip` may be missing there.
pub record NodeStatus : Type 0 where
  pub name : String
  pub ip : ℕ
  pub local : Bool
  pub online : Bool
  pub maintenance_mode : Bool

-- `from_node_status`, without the save
unfoldable pub from_node_status : NodeStatus → List Storage → NodeManifest
from_node_status n storage = record {
  name = n.name;
  ip = n.ip;
  online = n.online;
  maintenance_mode = n.maintenance_mode;
  networking_configured = false;
  storage = storage;
}

pub record ClusterStatus : Type 0 where
  pub name : String
  pub quorate : Bool
  pub version : ℕ

-- The items of `ProxmoxClusterStatus`, told apart by their `type`.
pub data StatusItem : Type 0 where
  cluster_item : ClusterStatus → StatusItem
  node_item : NodeStatus → StatusItem

unfoldable pub get_nodes : List StatusItem → List NodeStatus
get_nodes [] = []
get_nodes (cluster_item c ∷ items) = get_nodes items
get_nodes (node_item n ∷ items) = n ∷ get_nodes items

unfoldable pub get_cluster : List StatusItem → Option ClusterStatus
get_cluster [] = none
get_cluster (cluster_item c ∷ items) = some c
get_cluster (node_item n ∷ items) = get_cluster items

abbrev local_name : Option NodeStatus → Result Exception String
local_name none = err stop_iteration
local_name (some n) = ok n.name

unfoldable pub get_local_node : List StatusItem → Result Exception String
unfolding get_nodes
get_local_node items = local_name (find? (λ n. n.local) (get_nodes items))
