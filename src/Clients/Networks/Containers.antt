-- ===== src/Clients/Networks/Containers.antt =====
-- orbitlab/clients/proxmox/networks/client.py: `create_sector_gateway` and `create_sector_dns`, which make a sector's
-- containers and give them addresses on the backplane.
use orbit_lab.Prelude.Dict.{Dict}
use orbit_lab.Prelude.{ℕ, String, zero, suc, Option, none, some, List, [], ◌∷◌, ◌++◌}
use orbit_lab.Prelude.Exec.{Result, ok, err, Exec, gets, ◌>>=◌, ◌>>◌}
use orbit_lab.Exceptions.{Exception, value_error}
use orbit_lab.Net.{Network, Interface}
use orbit_lab.Manifest.Ref.{Text, codes}
use orbit_lab.Manifest.Cluster.{ClusterManifest}
use orbit_lab.Manifest.Cluster.BackplaneIpam as Backplane
use orbit_lab.Manifest.Sector
use orbit_lab.Manifest.Sector.{
  SectorManifest, default_gateway, primary_gateway, dns_address, set_gateway, set_dns,
}
use orbit_lab.Clients.Base.{
  Cloud, Params, text, natural, Method, decimal, dotted, with_prefixlen, network_text, ask, request,
  task, connect, wait_for_task, get_next_vmid, lxc_path, start_path, lxc_execute_script,
  load_cluster, first_cluster,
}
use orbit_lab.Clients.Networks.{join, on_ipams}

-- The cluster, and the sector's object, which the methods change.
pub record Site : Type 0 where
  pub cloud : Cloud
  pub self : SectorManifest

abbrev pub on_cloud : {A : Type 0} → Exec Exception Cloud A → Exec Exception Site A
on_cloud m s = let (r, cloud) = m s.cloud in (r, record s { cloud = cloud })

abbrev Sectors : Type 0
Sectors = Dict String SectorManifest

-- What the object's own `save` does to the cloud.
abbrev pub saving :
    (SectorManifest → ℕ → Sectors → SectorManifest × Sectors) → ℕ → Exec Exception Site (Unit {0})
saving set vmid s =
    let (self, files) = set s.self vmid s.cloud.sectors in
    (ok tt, record s { self = self; cloud = record s.cloud { sectors = files } })

-- `if not sector.spec.gateway_vmid: raise ValueError`
unfoldable pub set_vmid : Option ℕ → Result Exception ℕ
set_vmid none = err value_error
set_vmid (some zero) = err value_error
set_vmid (some (suc n)) = ok (suc n)

unfoldable pub sector_flags : List Sector.Subnet → Result Exception (List Text)
unfolding default_gateway decimal dotted
sector_flags [] = ok []
sector_flags (n ∷ subnets) = do
  gateway ← default_gateway n
  flags ← sector_flags subnets
  ok ((codes "--sector-subnet-addr " ++ with_prefixlen gateway) ∷ flags)
  where
    ◌>>=◌ : {A B : Type 0} → Result Exception A → (A → Result Exception B) → Result Exception B
    ◌>>=◌ (err x) f = err x
    ◌>>=◌ (ok a) f = f a

-- `__sgwtool_frr_set__` loads the cluster's manifest again.
unfoldable pub sgwtool_frr_set : ℕ → Site → Result Exception Text
unfolding set_vmid first_cluster sector_flags join dotted decimal
sgwtool_frr_set backplane_gateway s = do
  vmid ← set_vmid s.self.gateway_vmid
  c ← first_cluster s.cloud.clusters
  backplane_address ← Backplane.get_assigned_ip s.cloud.ipams vmid
  flags ← sector_flags s.self.subnets
  ok (
      codes "/usr/local/bin/sgwtool frr set "
      ++ join (codes " ") flags
      ++ codes "  --backplane-assigned-addr "
      ++ with_prefixlen backplane_address
      ++ codes " --backplane-gw-ip "
      ++ dotted backplane_gateway)
  where
    ◌>>=◌ : {A B : Type 0} → Result Exception A → (A → Result Exception B) → Result Exception B
    ◌>>=◌ (err x) f = err x
    ◌>>=◌ (ok a) f = f a

unfoldable pub sgwtool_nftables_set : ℕ → Network → Text
unfolding dotted decimal
sgwtool_nftables_set primary_ip backplane =
    codes "/usr/local/bin/sgwtool nftables set --primary-sector-ip "
    ++ dotted primary_ip
    ++ codes " --backplane-network "
    ++ network_text backplane

abbrev pub container_params : Text → Text → Text → Text → Text → SectorManifest → ℕ → Params
container_params appliance suffix net0 net1 password s vmid =
    (codes "features", text (codes "nesting=1"))
    ∷ (codes "ostemplate", text (codes "local:vztmpl/" ++ appliance))
    ∷ (codes "hostname", text (codes s.name ++ suffix))
    ∷ (codes "cores", text (codes "1"))
    ∷ (codes "memory", text (codes "256"))
    ∷ (codes "swap", text (codes "256"))
    ∷ (codes "net0", text net0)
    ∷ (codes "net1", text net1)
    ∷ (codes "rootfs", text (codes "local-zfs:8"))
    ∷ (codes "unprivileged", text (codes "1"))
    ∷ (codes "vmid", natural vmid)
    ∷ (codes "ssh-public-keys", text [])
    ∷ (codes "password", text password)
    ∷ (codes "searchdomain", text (codes s.name ++ codes ".orbitlab.internal"))
    ∷ (codes "onboot", text (codes "1"))
    ∷ []

abbrev pub gateway_params : ClusterManifest → SectorManifest → ℕ → Interface → Text → Params
gateway_params c s vmid address password =
    container_params (codes c.metadata.sector_gateway_appliance) (codes "-gw")
      (codes "name=eth0,bridge=" ++ codes s.name)
      (codes "name=eth1,bridge="
        ++ codes c.backplane.vnet_id
        ++ codes ",ip="
        ++ with_prefixlen address
        ++ codes ",gw="
        ++ dotted c.backplane.gateway)
      password s vmid

abbrev pub configuration : Text → Text → Text
configuration frr nftables =
    frr
    ++ codes "\n"
    ++ nftables
    ++ codes "\n/usr/local/bin/sgwtool frr restart\n/usr/local/bin/sgwtool nftables restart\n"

-- The wait for the creation of a container, and its start.
unfoldable pub start_container : Text → ℕ → Exec Exception Cloud (Unit {0})
unfolding task ask decimal
start_container node vmid = ask wait_for_task >> task Method.create (start_path node vmid) []

-- What follows once the gateway runs.
unfoldable pub configure_gateway : ℕ → ClusterManifest → Exec Exception Site (Unit {0})
unfolding ask sgwtool_frr_set sgwtool_nftables_set primary_gateway lxc_execute_script
configure_gateway vmid c = do
  on_cloud (ask connect)
  frr ← λ s. (sgwtool_frr_set c.backplane.gateway s, s)
  gateway ← λ s. (primary_gateway s.self, s)
  on_cloud (
      lxc_execute_script vmid
        (configuration frr (sgwtool_nftables_set gateway.ip c.backplane.cidr_block)))

unfoldable pub create_sector_gateway : Text → ℕ → ℕ → Text → Exec Exception Site (Unit {0})
unfolding load_cluster get_next_vmid request set_gateway start_container configure_gateway dotted
    decimal
create_sector_gateway node vmid now password = do
  c ← on_cloud load_cluster
  on_cloud get_next_vmid
  address ← on_cloud (on_ipams (Backplane.assign_ip vmid now))
  s ← gets (λ t. t.self)
  on_cloud (request Method.create (lxc_path node) (gateway_params c s vmid address password))
  saving set_gateway vmid
  on_cloud (start_container node vmid)
  configure_gateway vmid c

abbrev pub dns_params :
    ClusterManifest → SectorManifest → ℕ → Interface → Interface → Interface → Text → Params
dns_params c s vmid address dns gateway password =
    container_params (codes c.metadata.sector_dns_appliance) (codes "-dns")
      (codes "name=eth0,bridge="
        ++ codes s.name
        ++ codes ",ip="
        ++ with_prefixlen dns
        ++ codes ",gw="
        ++ dotted gateway.ip)
      (codes "name=eth1,ip="
        ++ with_prefixlen address
        ++ codes ",bridge="
        ++ codes c.backplane.vnet_id
        ++ codes ",gw="
        ++ dotted c.backplane.gateway)
      password s vmid

unfoldable pub create_sector_dns : Text → ℕ → ℕ → Text → Exec Exception Site (Unit {0})
unfolding load_cluster get_next_vmid request start_container set_dns dns_address primary_gateway
    dotted decimal
create_sector_dns node vmid now password = do
  c ← on_cloud load_cluster
  on_cloud get_next_vmid
  address ← on_cloud (on_ipams (Backplane.assign_ip vmid now))
  s ← gets (λ t. t.self)
  dns ← λ t. (dns_address t.self, t)
  gateway ← λ t. (primary_gateway t.self, t)
  on_cloud
      (request Method.create (lxc_path node) (dns_params c s vmid address dns gateway password))
  saving set_dns vmid
  on_cloud (start_container node vmid)
