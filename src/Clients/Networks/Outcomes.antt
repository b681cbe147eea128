-- ===== src/Clients/Networks/Outcomes.antt =====
-- How `create_sector_gateway` and `create_sector_dns` of orbitlab/clients/proxmox/networks/client.py end.
use orbit_lab.Prelude.{ℕ, ◌≡◌, refl, sym, ap, ◌∙◌, some, [], nat_eq, ◌==◌, if◌then◌else◌, subst}
use orbit_lab.Prelude.Exec.{ok, gets, ◌>>=◌, ◌>>◌, bind-ok, then-ok}
use orbit_lab.Net.{Interface}
use orbit_lab.Manifest.Ref.{Text, codes}
use orbit_lab.Manifest.Base.{save}
use orbit_lab.Manifest.Ipam.{IpamManifest}
use orbit_lab.Manifest.Sector.{SectorManifest, primary_gateway, dns_address, set_gateway, set_dns}
use orbit_lab.Manifest.Cluster.{ClusterManifest}
use orbit_lab.Manifest.Cluster.BackplaneIpam.{IsBackplane, get_assigned_ip, assign_ip}
use orbit_lab.Clients.Base.{Method, request, load_cluster, first_cluster, get_next_vmid, lxc_path}
use orbit_lab.Clients.Networks.{on_ipams}
use orbit_lab.Clients.Networks.Containers.{
  Site, on_cloud, saving, start_container, configure_gateway, create_sector_gateway,
  create_sector_dns, gateway_params, dns_params,
}
use orbit_lab.Clients.Networks.Kept.{request-OnlyAsks, load_cluster-OnlyAsks}
use orbit_lab.Clients.Networks.Created.{
  SameSite, SameSite-trans, IsConfigured, IsCreated, on_cloud-SameSite, start_container-OnlyAsks,
  assigned_ok, configure_gateway_ok, reads-ok,
}

abbrev pub with_gateway : SectorManifest → ℕ → SectorManifest
with_gateway s vmid = record s { gateway_vmid = some vmid }

abbrev pub with_dns : SectorManifest → ℕ → SectorManifest
with_dns s vmid = record s { dns_vmid = some vmid }

-- The container's number is in the object and in its file.
record IsSaved (set : SectorManifest → ℕ → SectorManifest) (vmid : ℕ) (s u : Site) : Type 0 where
  pub self : u.self ≡ set s.self vmid
  pub sectors : u.cloud.sectors ≡ save s.cloud.sectors u.self.name u.self
  pub clusters : u.cloud.clusters ≡ s.cloud.clusters
  pub ipams : u.cloud.ipams ≡ s.cloud.ipams

set_gateway_ok :
    (vmid : ℕ) (s u : Site) → saving set_gateway vmid s ≡ (ok tt, u) → IsSaved with_gateway vmid s u
unfolding set_gateway
set_gateway_ok vmid s u h =
    subst (λ v. IsSaved with_gateway vmid s v) (ap (λ z. z.1) h)
      (record { self = refl; sectors = refl; clusters = refl; ipams = refl })

set_dns_ok :
    (vmid : ℕ) (s u : Site) → saving set_dns vmid s ≡ (ok tt, u) → IsSaved with_dns vmid s u
unfolding set_dns
set_dns_ok vmid s u h =
    subst (λ v. IsSaved with_dns vmid s v) (ap (λ z. z.1) h)
      (record { self = refl; sectors = refl; clusters = refl; ipams = refl })

module _ (vmid now : ℕ) (p : Site) (m : IpamManifest) (b : IsBackplane p.cloud.ipams m) where
  -- The three requests that every container starts with, up to its address.
  record IsPrepared (c : ClusterManifest) (a : Interface) (t : Site) : Type 0 where
    pub cluster : first_cluster p.cloud.clusters ≡ ok c
    pub self : t.self ≡ p.self
    pub clusters : t.cloud.clusters ≡ p.cloud.clusters
    pub sectors : t.cloud.sectors ≡ p.cloud.sectors
    pub found :
        (j : ℕ)
        → get_assigned_ip t.cloud.ipams j
          ≡ (if vmid == j then ok a else get_assigned_ip p.cloud.ipams j)
    pub manifest : IpamManifest
    pub backplane : IsBackplane t.cloud.ipams manifest

  prepared :
      (c : ClusterManifest) (r1 : Unit {0}) (a : Interface) (s1 s2 t : Site)
      → on_cloud load_cluster p ≡ (ok c, s1)
      → on_cloud get_next_vmid s1 ≡ (ok r1, s2)
      → on_cloud (on_ipams (assign_ip vmid now)) s2 ≡ (ok a, t)
      → IsPrepared c a t
  unfolding get_next_vmid load_cluster
  prepared c r1 a s1 s2 t h1 h2 h3 =
      let k1 = on_cloud-SameSite load_cluster p s1 c load_cluster-OnlyAsks h1 in
      let k2 =
        on_cloud-SameSite get_next_vmid s1 s2 r1
          (request-OnlyAsks Method.get (codes "/cluster/nextid") []) h2 in
      let k = SameSite-trans p s1 s2 k1 k2 in
      let (self, clusters, sectors, found, m', good) =
        assigned_ok vmid now s2 t m a (rw k.cloud.ipams b) h3 in
      record {
        cluster = ap (λ z. z.0) h1;
        self = self ∙ k.self;
        clusters = clusters ∙ k.cloud.clusters;
        sectors = sectors ∙ k.cloud.sectors;
        found =
            λ j. found j ∙ ap (λ i. if vmid == j then ok a else get_assigned_ip i j) k.cloud.ipams;
        manifest = m';
        backplane = good;
      }

  -- From the address to the end, where the object is saved once.
  finished :
      (set : SectorManifest → ℕ → SectorManifest) (c : ClusterManifest) (a : Interface)
      (t u v q : Site)
      → IsPrepared c a t
      → SameSite t u
      → IsSaved set vmid u v
      → SameSite v q
      → IsCreated set vmid p q
  finished set c a t u v q i k w l = record {
    address = a;
    manifest = i.manifest;
    backplane = rw (l.cloud.ipams, w.ipams, k.cloud.ipams) i.backplane;
    found = λ j. rw (l.cloud.ipams, w.ipams, k.cloud.ipams) (i.found j);
    self = l.self ∙ w.self ∙ ap (λ s. set s vmid) (k.self ∙ i.self);
    saved =
        l.cloud.sectors
        ∙ w.sectors
        ∙ ap (λ d. save d v.self.name v.self) (k.cloud.sectors ∙ i.sectors)
        ∙ ap (λ (s : SectorManifest). save p.cloud.sectors s.name s) (sym l.self);
    clusters = l.cloud.clusters ∙ w.clusters ∙ k.cloud.clusters ∙ i.clusters;
  }

  -- A gateway that was created has an address on the backplane, which no other VM lost or gained. The sector's object
  -- and its file name the container, no other sector's file changed, and the last request is the script that
  -- configures it, made from the sector's subnets and the address.
  pub create_sector_gateway_ok :
      (node password : Text) (q : Site)
      → create_sector_gateway node vmid now password p ≡ (ok tt, q)
      → IsCreated with_gateway vmid p q
        × (c : ClusterManifest) × (first_cluster p.cloud.clusters ≡ ok c)
        × IsConfigured vmid c q
  unfolding create_sector_gateway
  create_sector_gateway_ok node password q h =
      let start = on_cloud (start_container node vmid) in
      let make = λ (c : ClusterManifest) (a : Interface) (s : SectorManifest).
        on_cloud (request Method.create (lxc_path node) (gateway_params c s vmid a password)) in
      let tail =
        λ (c : ClusterManifest). saving set_gateway vmid >> (start >> configure_gateway vmid c) in
      let rest = λ (c : ClusterManifest) (a : Interface).
        gets (λ (t : Site). t.self) >>= λ s. make c a s >> tail c in
      let assign = on_cloud (on_ipams (assign_ip vmid now)) in
      let (c, s1, e1, h1) =
        bind-ok (on_cloud load_cluster) (λ c. on_cloud get_next_vmid >> (assign >>= λ a. rest c a))
          p q tt h in
      let (r2, s2, e2, h2) =
        then-ok (on_cloud get_next_vmid) (assign >>= λ a. rest c a) s1 q tt h1 in
      let (a, s3, e3, h3) = bind-ok assign (λ a. rest c a) s2 q tt h2 in
      let (r4, s4, e4, h4) = then-ok (make c a s3.self) (tail c) s3 q tt h3 in
      let (r5, s5, e5, h5) =
        then-ok (saving set_gateway vmid) (start >> configure_gateway vmid c) s4 q tt h4 in
      let (r6, s6, e6, h6) = then-ok start (configure_gateway vmid c) s5 q tt h5 in
      let i = prepared c r2 a s1 s2 s3 e1 e2 e3 in
      let k =
        on_cloud-SameSite
          (request Method.create (lxc_path node) (gateway_params c s3.self vmid a password)) s3 s4
          r4
          (request-OnlyAsks Method.create (lxc_path node)
            (gateway_params c s3.self vmid a password))
          e4 in
      let w = set_gateway_ok vmid s4 s5 e5 in
      let l =
        on_cloud-SameSite (start_container node vmid) s5 s6 r6 (start_container-OnlyAsks node vmid)
          e6 in
      let (l', configured) = configure_gateway_ok vmid c s6 q h6 in
      (
        finished with_gateway c a s3 s4 s5 q i k w (SameSite-trans s5 s6 q l l'),
        c,
        i.cluster,
        configured,
      )

  pub create_sector_dns_ok :
      (node password : Text) (q : Site)
      → create_sector_dns node vmid now password p ≡ (ok tt, q)
      → IsCreated with_dns vmid p q
  unfolding create_sector_dns
  create_sector_dns_ok node password q h =
      let start = on_cloud (start_container node vmid) in
      let tail = saving set_dns vmid >> start in
      let params = λ (c : ClusterManifest) (a dns gateway : Interface) (s : SectorManifest).
        request Method.create (lxc_path node) (dns_params c s vmid a dns gateway password) in
      let with_addresses = λ (c : ClusterManifest) (a : Interface) (s : SectorManifest).
        (λ (t : Site). (dns_address t.self, t)) >>= λ dns.
        (λ (t : Site). (primary_gateway t.self, t)) >>= λ gateway.
        on_cloud (params c a dns gateway s) >> tail in
      let rest = λ (c : ClusterManifest) (a : Interface).
        gets (λ (t : Site). t.self) >>= λ s. with_addresses c a s in
      let assign = on_cloud (on_ipams (assign_ip vmid now)) in
      let (c, s1, e1, h1) =
        bind-ok (on_cloud load_cluster) (λ c. on_cloud get_next_vmid >> (assign >>= λ a. rest c a))
          p q tt h in
      let (r2, s2, e2, h2) =
        then-ok (on_cloud get_next_vmid) (assign >>= λ a. rest c a) s1 q tt h1 in
      let (a, s3, e3, h3) = bind-ok assign (λ a. rest c a) s2 q tt h2 in
      let (dns, s4, e4, h4) =
        bind-ok (λ (t : Site). (dns_address t.self, t))
          (λ dns. (λ (t : Site). (primary_gateway t.self, t)) >>= λ gateway.
            on_cloud (params c a dns gateway s3.self) >> tail)
          s3 q tt h3 in
      let (gateway, s5, e5, h5) =
        bind-ok (λ (t : Site). (primary_gateway t.self, t))
          (λ gateway. on_cloud (params c a dns gateway s3.self) >> tail) s4 q tt h4 in
      let (r6, s6, e6, h6) = then-ok (on_cloud (params c a dns gateway s3.self)) tail s5 q tt h5 in
      let (r7, s7, e7, h7) = then-ok (saving set_dns vmid) start s6 q tt h6 in
      let i = prepared c r2 a s1 s2 s3 e1 e2 e3 in
      let (_, k4) = reads-ok (λ t. dns_address t.self) s3 s4 dns e4 in
      let (_, k5) = reads-ok (λ t. primary_gateway t.self) s4 s5 gateway e5 in
      let k6 =
        on_cloud-SameSite (params c a dns gateway s3.self) s5 s6 r6
          (request-OnlyAsks Method.create (lxc_path node)
            (dns_params c s3.self vmid a dns gateway password))
          e6 in
      let w = set_dns_ok vmid s6 s7 e7 in
      let l =
        on_cloud-SameSite (start_container node vmid) s7 q tt (start_container-OnlyAsks node vmid)
          h7 in
      finished with_dns c a s3 s6 s7 q i
        (SameSite-trans s3 s4 s6 k4 (SameSite-trans s4 s5 s6 k5 k6)) w l
