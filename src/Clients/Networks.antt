-- ===== src/Clients/Networks.antt =====
-- orbitlab/clients/proxmox/networks/client.py, the class `ProxmoxNetworks`: what makes and removes the backplane and
-- the sectors. Passwords, times and the numbers that the cluster gives out are arguments.
pub mod Containers
pub mod Kept
pub mod Addresses
pub mod Created
pub mod Outcomes
pub mod Leak
pub mod Resources
use orbit_lab.Prelude.{
  ℕ, zero, suc, String, Option, none, some, List, [], ◌∷◌, ◌++◌, map, eqb, if◌then◌else◌, nat_eq,
  list_eq,
}
use orbit_lab.Prelude.Int.{ℤ}
use orbit_lab.Prelude.Exec.{Result, ok, err, Exec, pure, raise, lift, gets, modify, ◌>>=◌, ◌>>◌}
use orbit_lab.Exceptions.{Exception, value_error}
use orbit_lab.Constants
use orbit_lab.Net.{Network, Interface}
use orbit_lab.Manifest.Ref.{Text, codes}
use orbit_lab.Manifest.Cluster.{ClusterManifest, list_nodes}
use orbit_lab.Manifest.Cluster.BackplaneIpam.{Ipams}
use orbit_lab.Manifest.Cluster.BackplaneIpam as Backplane
use orbit_lab.Manifest.Sector
use orbit_lab.Manifest.Sector.{SectorManifest, default_gateway, primary_gateway, dns_address}
use orbit_lab.Clients.Base.{
  Cloud, Params, Value, text, number, natural, Method, decimal, dotted, with_prefixlen,
  network_text, ask, request, task, connect, wait_for_task, get_next_vmid, lxc_path, vm_path,
  start_path, lxc_execute_script, load_cluster,
}

-- `",".join(texts)`
unfoldable pub join : Text → List Text → Text
join sep [] = []
join sep (t ∷ []) = t
join sep (t ∷ u ∷ ts) = t ++ sep ++ join sep (u ∷ ts)

-- `peer_list` and `exit_nodes` of orbitlab/manifest/cluster.py
unfoldable pub peer_list : ClusterManifest → Text
unfolding join dotted
peer_list c = join (codes ",") (map dotted c.backplane.controller.peers)

unfoldable pub exit_nodes : ClusterManifest → Text
unfolding join list_nodes
exit_nodes c = join (codes ",") (map codes (list_nodes c))

unfoldable pub apply_changes : Exec Exception Cloud (Unit {0})
unfolding request
apply_changes = request Method.set (codes "/cluster/sdn") []

unfoldable pub update_evpn_controller : ClusterManifest → Exec Exception Cloud (Unit {0})
unfolding request peer_list apply_changes
update_evpn_controller c =
    request Method.set (codes "/cluster/sdn/controllers/" ++ codes c.backplane.controller.id)
      ((codes "peers", text (peer_list c)) ∷ [])
    >> apply_changes

abbrev pub vnets_path : Text
vnets_path = codes "/cluster/sdn/vnets"

abbrev pub zones_path : Text
zones_path = codes "/cluster/sdn/zones"

abbrev pub subnets_path : Text → Text
subnets_path vnet = vnets_path ++ b'/' ∷ vnet ++ codes "/subnets"

abbrev controller_params : ClusterManifest → Params
controller_params c =
    (codes "controller", text (codes c.backplane.controller.id))
    ∷ (codes "type", text (codes "evpn"))
    ∷ (codes "asn", natural c.backplane.controller.asn)
    ∷ (codes "peers", text (peer_list c))
    ∷ []

abbrev backplane_zone_params : ClusterManifest → Params
backplane_zone_params c =
    (codes "type", text (codes "evpn"))
    ∷ (codes "zone", text (codes c.backplane.zone_id))
    ∷ (codes "controller", text (codes c.backplane.controller.id))
    ∷ (codes "vrf_vxlan", natural c.backplane.zone_tag)
    ∷ (codes "advertise-subnets", natural 1)
    ∷ (codes "mtu", number c.backplane.mtu)
    ∷ (codes "ipam", text (codes "pve"))
    ∷ (codes "exitnodes", text (exit_nodes c))
    ∷ []

abbrev backplane_vnet_params : ClusterManifest → Params
backplane_vnet_params c =
    (codes "vnet", text (codes c.backplane.vnet_id))
    ∷ (codes "zone", text (codes c.backplane.zone_id))
    ∷ (codes "alias", text (codes Constants.backplane_alias))
    ∷ (codes "tag", natural c.backplane.vnet_tag)
    ∷ []

abbrev backplane_subnet_params : ClusterManifest → Params
backplane_subnet_params c =
    (codes "subnet", text (network_text c.backplane.cidr_block))
    ∷ (codes "gateway", text (dotted c.backplane.gateway))
    ∷ (codes "type", text (codes "subnet"))
    ∷ (codes "vnet", text (codes c.backplane.vnet_id))
    ∷ (codes "snat", natural 1)
    ∷ []

unfoldable pub create_backplane : ClusterManifest → Exec Exception Cloud (Unit {0})
unfolding request peer_list exit_nodes decimal dotted apply_changes
create_backplane c = do
  request Method.create (codes "/cluster/sdn/controllers") (controller_params c)
  request Method.create zones_path (backplane_zone_params c)
  request Method.create vnets_path (backplane_vnet_params c)
  request Method.create (subnets_path (codes Constants.backplane_name)) (backplane_subnet_params c)
  apply_changes

abbrev pub zone_params : ClusterManifest → SectorManifest → Params
zone_params c s =
    (codes "type", text (codes "vxlan"))
    ∷ (codes "zone", text (codes s.name))
    ∷ (codes "peers", text (peer_list c))
    ∷ (codes "mtu", number c.backplane.mtu)
    ∷ []

abbrev pub vnet_params : SectorManifest → Params
vnet_params s =
    (codes "vnet", text (codes s.name))
    ∷ (codes "zone", text (codes s.name))
    ∷ (codes "alias", text (codes s.alias))
    ∷ (codes "tag", natural s.tag)
    ∷ []

abbrev pub subnet_params : SectorManifest → Network → Interface → Params
subnet_params s n gateway =
    (codes "subnet", text (network_text n))
    ∷ (codes "gateway", text (dotted gateway.ip))
    ∷ (codes "type", text (codes "subnet"))
    ∷ (codes "vnet", text (codes s.name))
    ∷ []

unfoldable pub create_subnet :
    SectorManifest → Network → Interface → Exec Exception Cloud (Unit {0})
unfolding request dotted
create_subnet s n gateway =
    request Method.create (subnets_path (codes s.name)) (subnet_params s n gateway)

unfoldable pub create_subnets :
    SectorManifest → List Sector.Subnet → Exec Exception Cloud (Unit {0})
unfolding create_subnet default_gateway
create_subnets s [] = pure tt
create_subnets s (n ∷ subnets) = do
  gateway ← lift (default_gateway n)
  create_subnet s n.cidr_block gateway
  create_subnets s subnets

unfoldable pub create_network : ClusterManifest → SectorManifest → Exec Exception Cloud (Unit {0})
unfolding request peer_list create_subnets apply_changes
create_network c s = do
  request Method.create zones_path (zone_params c s)
  request Method.create vnets_path (vnet_params s)
  create_subnets s s.subnets
  apply_changes

unfoldable pub create_sector : SectorManifest → Exec Exception Cloud (Unit {0})
unfolding load_cluster create_network
create_sector s = do c ← load_cluster; create_network c s

-- `subnet_id` of `delete_sector`
unfoldable pub subnet_id : Network → Text
unfolding dotted
subnet_id n = map (λ ch. if eqb ch b'/' then b'-' else ch) (network_text n)

unfoldable pub subnet_path : SectorManifest → Sector.Subnet → Text
unfolding subnet_id
subnet_path s n =
    subnets_path (codes s.name) ++ b'/' ∷ codes s.name ++ b'-' ∷ subnet_id n.cidr_block

unfoldable pub delete_subnets :
    SectorManifest → List Sector.Subnet → Exec Exception Cloud (Unit {0})
unfolding request subnet_path
delete_subnets s [] = pure tt
delete_subnets s (n ∷ subnets) =
    request Method.delete (subnet_path s n) [] >> delete_subnets s subnets

abbrev pub purge : Params
purge =
    (codes "destroy-unreferenced-disks", natural 1)
    ∷ (codes "force", natural 1)
    ∷ (codes "purge", natural 1)
    ∷ []

-- A call of the cluster manifest's IPAM methods.
abbrev pub on_ipams : {A : Type 0} → Exec Exception Ipams A → Exec Exception Cloud A
on_ipams m s = let (r, ipams) = m s.ipams in (r, record s { ipams = ipams })

-- A container of a sector goes, and its address on the backplane. `if vmid:` fails on None and on 0.
unfoldable pub delete_container : Text → Option ℕ → Exec Exception Cloud (Unit {0})
unfolding task decimal
delete_container node none = pure tt
delete_container node (some zero) = pure tt
delete_container node (some (suc n)) = do
  task Method.delete (vm_path node (suc n)) purge
  on_ipams (Backplane.release_ip (suc n))

-- The network of a sector, once its containers are gone.
unfoldable pub delete_network : SectorManifest → Exec Exception Cloud (Unit {0})
unfolding delete_subnets request apply_changes
delete_network s = do
  delete_subnets s s.subnets
  request Method.delete (vnets_path ++ b'/' ∷ codes s.name) []
  request Method.delete (zones_path ++ b'/' ∷ codes s.name) []
  apply_changes

unfoldable pub delete_sector : Text → SectorManifest → Exec Exception Cloud (Unit {0})
unfolding load_cluster delete_container delete_network
delete_sector node s = do
  c ← load_cluster
  delete_container node s.gateway_vmid
  delete_container node s.dns_vmid
  delete_network s
