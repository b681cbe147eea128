-- ===== src/Tests/Networks.antt =====
-- A sector is made, and removed again, in a cluster with a /28 backplane.
use orbit_lab.Prelude.{
  ℕ, ◌≡◌, refl, ap, String, Option, none, some, List, [], ◌∷◌, ◌++◌, true, contains, nat_eq,
  list_eq,
}
use orbit_lab.Prelude.Dict
use orbit_lab.Prelude.Exec.{Result, ok, err}
use orbit_lab.Exceptions.{Exception, timeout_error}
use orbit_lab.DataTypes.{SectorState}
use orbit_lab.Net.{Interface}
use orbit_lab.Manifest.Ref.{Text, codes}
use orbit_lab.Manifest.Ipam.{IpamManifest}
use orbit_lab.Manifest.Sector.{SectorManifest}
use orbit_lab.Manifest.Cluster.BackplaneIpam.{Ipams, IsBackplane, get_assigned_ip, assign_ip}
use orbit_lab.Clients.Base.{Cloud}
use orbit_lab.Clients.Networks.{create_sector, delete_sector, vnets_path}
use orbit_lab.Clients.Networks.Containers.{Site, create_sector_gateway}
use orbit_lab.Clients.Networks.Leak.{create_sector_gateway_leaks}
use orbit_lab.Clients.Networks.Resources.{made, removed, delete_sector_removes_made}
use orbit_lab.Web.Sectors.Lifecycle.{Draw, start_create_sector, start_sector_delete}
use orbit_lab.Web.Sectors.Made.{IsMade, start_create_sector_ok}
use orbit_lab.Tests.Ipam.{net, lan, eleven, backplane}
use orbit_lab.Tests.Cluster.{fresh}

abbrev sector : SectorManifest
sector = record {
  name = "olvn1000";
  alias = "lab";
  tag = 1000;
  state = SectorState.pending;
  cidr_block = net;
  subnets = record { cidr_block = net; name = "lan" } ∷ [];
  gateway_vmid = none;
  dns_vmid = none;
  ipam = "ipam-olvn1000";
}

abbrev sector_ipam : IpamManifest
sector_ipam = record {
  name = "ipam-olvn1000";
  sector_name = "lab";
  sector_id = "olvn1000";
  subnets = lan ∷ [];
}

abbrev with_answers : List (Option Exception) → Site
with_answers answers = record {
  self = sector;
  cloud = record {
    clusters = ("OrbitLab", fresh) ∷ [];
    ipams = (backplane.name, backplane) ∷ ("ipam-olvn1000", sector_ipam) ∷ [];
    sectors = ("olvn1000", sector) ∷ [];
    requests = [];
    answers = answers;
  };
}

abbrev site : Site
site = with_answers []

site-IsBackplane : IsBackplane site.cloud.ipams backplane
unfolding orbit_lab.Prelude.distinct orbit_lab.Manifest.Ipam.assigned_ips Dict.get
site-IsBackplane = record { name = refl; valid = (refl, tt); on_disk = refl }

abbrev gateway : Draw
gateway = record { vmid = 201; now = 1; password = codes "pw" }

abbrev dns : Draw
dns = record { vmid = 202; now = 2; password = codes "pw" }

abbrev after : Site
after = (start_create_sector (codes "pve") gateway dns site).1

sector_made : (start_create_sector (codes "pve") gateway dns site).0 ≡ ok tt
unfolding start_create_sector Dict.get Dict.set get_assigned_ip assign_ip orbit_lab.Net.hosts
    orbit_lab.Prelude.find? orbit_lab.Prelude.distinct orbit_lab.Manifest.Ipam.assign_ip
    orbit_lab.Manifest.Ipam.get_subnet orbit_lab.Manifest.Ipam.get_next_available_ip
    orbit_lab.Manifest.Ipam.first_free orbit_lab.Manifest.Ipam.usable
    orbit_lab.Manifest.Ipam.assigned_ips orbit_lab.Manifest.Ipam.store_subnet
    orbit_lab.Manifest.Ipam.get_assigned_ip orbit_lab.Manifest.Ipam.add_assignment
sector_made = refl

start_create_sector_ok_example : IsMade gateway dns site after
start_create_sector_ok_example =
    start_create_sector_ok (codes "pve") gateway dns site after backplane site-IsBackplane
      (ap (λ r. (r, after)) sector_made)

-- The sector with both containers, and their addresses.
abbrev running : SectorManifest
running = record sector { gateway_vmid = some 201; dns_vmid = some 202 }

abbrev addressed : Ipams
addressed = (assign_ip 202 2 (assign_ip 201 1 site.cloud.ipams).1).1

abbrev in_use : Cloud
in_use = record site.cloud { ipams = addressed }

abbrev gone : Cloud
gone = (start_sector_delete (codes "pve") running in_use).1

-- The container is refused.
abbrev refusing : Site
refusing = with_answers (none ∷ some timeout_error ∷ [])

abbrev leaked : Result Exception (Unit {0}) × Site
leaked = create_sector_gateway (codes "pve") 201 1 (codes "pw") refusing

abbrev cleaned : Cloud
cleaned = (delete_sector (codes "pve") leaked.1.self leaked.1.cloud).1

create_sector_gateway_leaks_example :
    (leaked.0 ≡ err timeout_error)
    × (leaked.1.self ≡ refusing.self)
    × (get_assigned_ip cleaned.ipams 201 ≡ ok eleven)
unfolding orbit_lab.Clients.Base.first_cluster Dict.get assign_ip orbit_lab.Manifest.Ipam.assign_ip
    orbit_lab.Manifest.Ipam.get_subnet orbit_lab.Prelude.find?
    orbit_lab.Manifest.Ipam.get_next_available_ip orbit_lab.Manifest.Ipam.first_free
    orbit_lab.Manifest.Ipam.usable orbit_lab.Net.hosts contains orbit_lab.Manifest.Ipam.assigned_ips
    delete_sector create_sector_gateway
create_sector_gateway_leaks_example =
    create_sector_gateway_leaks (codes "pve") 201 1 (codes "pw") fresh backplane eleven
      (assign_ip 201 1 refusing.cloud.ipams).1 timeout_error [] refusing leaked.1 cleaned leaked.0
      site-IsBackplane refl refl refl refl refl refl refl

abbrev vnet : Text
vnet = vnets_path ++ codes "/olvn1000"

delete_sector_removes_made_example :
    contains (removed (delete_sector (codes "pve") sector site.cloud).1.requests) vnet ≡ true
unfolding create_sector Dict.get orbit_lab.Net.hosts contains made orbit_lab.Prelude.beq_list
    Dict.set delete_sector
delete_sector_removes_made_example =
    delete_sector_removes_made (codes "pve") sector none none SectorState.pending site.cloud
      (create_sector sector site.cloud).1 site.cloud
      (delete_sector (codes "pve") sector site.cloud).1 vnet refl refl refl refl
