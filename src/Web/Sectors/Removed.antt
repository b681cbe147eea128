-- ===== src/Web/Sectors/Removed.antt =====
-- What `start_sector_delete` of orbitlab/web/pages/sectors/dashboard/dialogs.py leaves when it returns.
use orbit_lab.Prelude.{
  ℕ, ◌≡◌, refl, sym, ap, ◌∙◌, String, false, ◌||◌, none, nat_eq, string_eq, ◌==◌, if◌then◌else◌,
}
use orbit_lab.Prelude.Dict
use orbit_lab.Prelude.Exec.{ok, err, Exec}
use orbit_lab.Exceptions.{value_error}
use orbit_lab.Constants
use orbit_lab.Manifest.Base.{load, delete}
use orbit_lab.Manifest.Ipam.{IpamManifest}
use orbit_lab.Manifest.Sector.{SectorManifest}
use orbit_lab.Manifest.Cluster.{ClusterManifest, remove_sector}
use orbit_lab.Manifest.Cluster.BackplaneIpam.{Ipams, get_assigned_ip}
use orbit_lab.Clients.Base.{Cloud, first_cluster}
use orbit_lab.Clients.Networks.Addresses.{names}

-- The deletion of another manifest leaves the backplane's addresses.
deleted_other :
    (files : Ipams) (name : String) (j : ℕ)
    → name == Constants.backplane_ipam ≡ false
    → get_assigned_ip (delete files name) j ≡ get_assigned_ip files j
unfolding get_assigned_ip load delete
deleted_other files name j n = rw (Dict.get-del files name Constants.backplane_ipam, n) refl

-- The sector's file and its IPAM manifest are gone, the cluster's file no longer has its tag, and the addresses of its
-- containers are given back.
pub record IsRemoved (s : SectorManifest) (p q : Cloud) : Type 0 where
  pub file_gone : Dict.get q.sectors s.name ≡ none
  pub others :
      (name : String) → s.name == name ≡ false → Dict.get q.sectors name ≡ Dict.get p.sectors name
  pub ipam : IpamManifest
  pub ipam_gone : Dict.get q.ipams ipam.name ≡ none
  pub cluster : ClusterManifest
  pub loaded : first_cluster p.clusters ≡ ok cluster
  pub unlisted :
      q.clusters ≡ (remove_sector s.tag (record { self = cluster; files = p.clusters })).files
  pub freed :
      (j : ℕ)
      → ipam.name == Constants.backplane_ipam ≡ false
      → get_assigned_ip q.ipams j ≡ (
          if names s.gateway_vmid j || names s.dns_vmid j
          then err value_error
          else get_assigned_ip p.ipams j)

removed :
    (s : SectorManifest) (p p1 q : Cloud) (i : IpamManifest) (c : ClusterManifest)
    → ((j : ℕ)
        → get_assigned_ip p1.ipams j ≡ (
            if names s.gateway_vmid j || names s.dns_vmid j
            then err value_error
            else get_assigned_ip p.ipams j))
    → p1.clusters ≡ p.clusters
    → p1.sectors ≡ p.sectors
    → first_cluster p1.clusters ≡ ok c
    → q.ipams ≡ delete p1.ipams i.name
    → q.clusters ≡ (remove_sector s.tag (record { self = c; files = p1.clusters })).files
    → q.sectors ≡ delete p1.sectors s.name
    → IsRemoved s p q
unfolding delete
removed s p p1 q i c freed clusters sectors loaded ipams listed gone = record {
  file_gone = rw gone (Dict.get-del_self p1.sectors s.name);
  others = λ name n. rw (gone, Dict.get-del p1.sectors s.name name, n, sectors) refl;
  ipam = i;
  ipam_gone = rw ipams (Dict.get-del_self p1.ipams i.name);
  cluster = c;
  loaded = ap first_cluster (sym clusters) ∙ loaded;
  unlisted =
      listed
      ∙ ap (λ files. (remove_sector s.tag (record { self = c; files = files })).files) clusters;
  freed = λ j n.
      ap (λ files. get_assigned_ip files j) ipams ∙ deleted_other p1.ipams i.name j n ∙ freed j;
}
