-- ===== src/Clients/Compute.antt =====
-- orbitlab/clients/proxmox/compute/client.py: containers are launched, and started and stopped. The number that the
-- cluster gives out and what the container's password reads as are arguments.
use orbit_lab.Prelude.{
  ℕ, zero, suc, ◌*◌, String, Option, none, some, [], ◌∷◌, ◌++◌, string_eq, if◌then◌else◌,
}
use orbit_lab.Prelude.Exec.{Result, ok, Exec, ◌>>=◌, ◌>>◌, pure, lift, gets, or_raise}
use orbit_lab.Exceptions.{Exception, stop_iteration}
use orbit_lab.DataTypes.{ManifestKind, LxcStatus, lxc_status_value}
use orbit_lab.Net.{Interface}
use orbit_lab.Manifest.Ref.{Text, codes}
use orbit_lab.Manifest.Base.{load}
use orbit_lab.Manifest.Ipam
use orbit_lab.Manifest.Cluster.BackplaneIpam.{with_ipam}
use orbit_lab.Manifest.Sector.{SectorManifest, get_subnet, default_gateway, dns_address}
use orbit_lab.Manifest.Lxc.{LxcManifest, Containers, launched, set_status}
use orbit_lab.Clients.Base.{
  Cloud, Params, text, natural, Method, decimal, dotted, with_prefixlen, ask, connect, task,
  get_next_vmid, create_lxc, lxc_execute_script,
}
use orbit_lab.Clients.Networks.{on_ipams}

-- The manifest of a container in memory, and the files of its kind.
pub record Fleet : Type 0 where
  pub cloud : Cloud
  pub self : LxcManifest
  pub containers : Containers

abbrev pub on_cloud : {A : Type 0} → Exec Exception Cloud A → Exec Exception Fleet A
on_cloud m f = let (r, cloud) = m f.cloud in (r, record f { cloud = cloud })

abbrev pub saving :
    (LxcManifest → Containers → LxcManifest × Containers) → Exec Exception Fleet (Unit {0})
saving set f =
    let (self, files) = set f.self f.containers in
    (ok tt, record f { self = self; containers = files })

-- `if sector.spec.dns_vmid` fails on None and on 0.
unfoldable pub add_sector_record : Option ℕ → String → ℕ → Exec Exception Cloud (Unit {0})
unfolding ask lxc_execute_script dotted
add_sector_record none hostname ip = pure tt
add_sector_record (some zero) hostname ip = pure tt
add_sector_record (some (suc n)) hostname ip =
    ask connect
    >> lxc_execute_script (suc n)
        (codes "/usr/bin/dnstool record add " ++ codes hostname ++ b' ' ∷ dotted ip)

-- `sector.get_ipam().assign_ip(...)`
unfoldable pub assign_sector_ip : SectorManifest → String → ℕ → ℕ → Exec Exception Cloud Interface
unfolding load Ipam.assign_ip
assign_sector_ip s subnet_name vmid now = on_ipams λ files.
    with_ipam (load ManifestKind.ipam files s.ipam) (Ipam.assign_ip subnet_name vmid now) files

abbrev pub lxc_params :
    LxcManifest → SectorManifest → ℕ → Interface → Interface → Text → Interface → Params
lxc_params m s vmid address gateway password dns =
    (codes "features", text (codes "nesting=1"))
    ∷ (codes "ostemplate", text (codes m.os_template))
    ∷ (codes "hostname", text (codes m.hostname))
    ∷ (codes "cores", natural m.cores)
    ∷ (codes "memory", natural (m.memory * 1024))
    ∷ (codes "swap", natural (m.memory * 1024))
    ∷ (
      codes "net0",
      text (
          codes "name=eth0,bridge="
          ++ codes s.name
          ++ codes ",ip="
          ++ with_prefixlen address
          ++ codes ",gw="
          ++ dotted gateway.ip),
    )
    ∷ (codes "rootfs", text (codes m.disk_storage ++ b':' ∷ decimal m.disk_size))
    ∷ (codes "unprivileged", text (codes "1"))
    ∷ (codes "vmid", natural vmid)
    ∷ (codes "ssh-public-keys", text [])
    ∷ (codes "password", text password)
    ∷ (codes "searchdomain", text (codes s.name ++ codes ".orbitlab.internal"))
    ∷ (codes "nameserver", text (dotted dns.ip))
    ∷ (codes "onboot", text (if m.on_boot then codes "1" else codes "0"))
    ∷ []

unfoldable pub launch_lxc : ℕ → ℕ → Result Exception Text → Exec Exception Fleet (Unit {0})
unfolding get_next_vmid load assign_sector_ip get_subnet default_gateway dns_address create_lxc
    launched add_sector_record dotted decimal
launch_lxc vmid now get_password = do
  on_cloud get_next_vmid
  m ← gets (λ f. f.self)
  sector ← on_cloud (λ s. (load ManifestKind.sector s.sectors m.sector_id, s))
  address ← on_cloud (assign_sector_ip sector m.subnet_name vmid now)
  subnet ← or_raise (get_subnet sector m.subnet_name) stop_iteration
  gateway ← lift (default_gateway subnet)
  password ← lift get_password
  dns ← lift (dns_address sector)
  on_cloud (create_lxc (codes m.node) vmid (lxc_params m sector vmid address gateway password dns))
  saving (λ c files. launched c vmid address files)
  on_cloud (add_sector_record sector.dns_vmid m.hostname address.ip)

-- `f"{lxc.spec.vmid}"`: None is written out.
unfoldable pub vmid_text : Option ℕ → Text
unfolding decimal
vmid_text none = codes "None"
vmid_text (some n) = decimal n

unfoldable pub set_lxc_status : LxcStatus → Exec Exception Fleet (Unit {0})
unfolding task set_status vmid_text
set_lxc_status status = do
  m ← gets (λ f. f.self)
  on_cloud (
      task Method.create
        (codes "/nodes/"
          ++ codes m.node
          ++ codes "/lxc/"
          ++ vmid_text m.vmid
          ++ codes "/status/"
          ++ codes (lxc_status_value status))
        [])
  saving (λ c files. set_status c status files)
