-- ===== src/Web/Sectors/Made.antt =====
-- What `start_create_sector` of orbitlab/web/pages/sectors/dashboard/dialogs.py leaves when it returns.
use orbit_lab.Prelude.{
  ℕ, ◌≡◌, ◌≢◌, refl, sym, ap, ◌∙◌, some, [], arith, nat_eq, string_eq, ◌==◌, if◌then◌else◌, subst,
}
use orbit_lab.Prelude.Dict
use orbit_lab.Prelude.Exec.{ok, Exec, ◌>>◌, bind-ok, then-ok}
use orbit_lab.Exceptions.{Exception}
use orbit_lab.DataTypes.{ManifestKind, SectorState}
use orbit_lab.Net.{Interface}
use orbit_lab.Manifest.Ref.{Text}
use orbit_lab.Manifest.Base.{save}
use orbit_lab.Manifest.Ipam.{IpamManifest}
use orbit_lab.Manifest.Sector.{SectorManifest}
use orbit_lab.Manifest.Cluster.{ClusterManifest, Saved, add_sector}
use orbit_lab.Manifest.Cluster.BackplaneIpam.{
  IsBackplane, get_assigned_ip, backplane_addresses_differ, run,
}
use orbit_lab.Clients.Base.{Cloud, load_cluster, first_cluster}
use orbit_lab.Clients.Networks.{create_sector}
use orbit_lab.Clients.Networks.Containers.{Site, on_cloud, create_sector_gateway, create_sector_dns}
use orbit_lab.Clients.Networks.Kept.{create_sector-OnlyAsks}
use orbit_lab.Clients.Networks.Created.{SameSite, IsCreated, on_cloud-ok, on_cloud-SameSite}
use orbit_lab.Clients.Networks.Outcomes.{
  with_gateway, with_dns, create_sector_gateway_ok, create_sector_dns_ok,
}
use orbit_lab.Web.Sectors.Lifecycle.{Draw, set_state, change_cluster, start_create_sector}

set_state_ok :
    (state : SectorState) (s u : Site)
    → set_state state s ≡ (ok tt, u)
    → (u.self ≡ record s.self { state = state })
      × (u.cloud.sectors ≡ save s.cloud.sectors u.self.name u.self)
      × (u.cloud.ipams ≡ s.cloud.ipams)
      × (u.cloud.clusters ≡ s.cloud.clusters)
unfolding set_state
set_state_ok state s u h =
    let e = ap (λ z. z.1) h in
    subst
      (λ v.
        (v.self ≡ record s.self { state = state })
        × (v.cloud.sectors ≡ save s.cloud.sectors v.self.name v.self)
        × (v.cloud.ipams ≡ s.cloud.ipams)
        × (v.cloud.clusters ≡ s.cloud.clusters))
      e (refl, refl, refl, refl)

pub change_cluster_ok :
    (f : Saved → Saved) (s u : Cloud)
    → change_cluster f s ≡ (ok tt, u)
    → (c : ClusterManifest) × (first_cluster s.clusters ≡ ok c)
      × (u ≡ record s { clusters = (f (record { self = c; files = s.clusters })).files })
unfolding change_cluster load_cluster
change_cluster_ok f s u h =
    let (c, t, e, g) =
      bind-ok load_cluster
        (λ c (t : Cloud).
          (ok tt, record t { clusters = (f (record { self = c; files = t.clusters })).files }))
        s u tt h in
    (
      c,
      ap (λ z. z.0) e,
      sym (ap (λ z. z.1) g)
          ∙ ap
              (λ (v : Cloud). record v {
                clusters = (f (record { self = c; files = v.clusters })).files;
              })
              (sym (ap (λ z. z.1) e)),
    )

-- The sector is there: its file is the object, available and with both containers, the cluster's file lists it under
-- its tag, and both containers have an address on the backplane.
pub record IsMade (g d : Draw) (p q : Site) : Type 0 where
  pub gateway_address : Interface
  pub dns_address : Interface
  pub found :
      (j : ℕ)
      → get_assigned_ip q.cloud.ipams j ≡ (
          if d.vmid == j
          then ok dns_address
          else if g.vmid == j
          then ok gateway_address
          else get_assigned_ip p.cloud.ipams j)
  pub differ : g.vmid ≢ d.vmid → gateway_address.ip ≢ dns_address.ip
  pub self : q.self ≡ record p.self {
    gateway_vmid = some g.vmid;
    dns_vmid = some d.vmid;
    state = SectorState.available;
  }
  pub stored : Dict.get q.cloud.sectors q.self.name ≡ some q.self
  pub cluster : ClusterManifest
  pub loaded : first_cluster p.cloud.clusters ≡ ok cluster
  pub listed :
      q.cloud.clusters
      ≡ save p.cloud.clusters cluster.name (record cluster {
        sectors =
            Dict.set cluster.sectors p.self.tag
              (record { kind = ManifestKind.sector; name = p.self.name });
      })

-- The last two steps: the state, and the cluster's list of sectors.
record IsListed (p s q : Site) : Type 0 where
  pub cluster : ClusterManifest
  pub loaded : first_cluster s.cloud.clusters ≡ ok cluster
  pub clusters :
      q.cloud.clusters
      ≡ (add_sector p.self.tag
          (record { kind = ManifestKind.sector; name = p.self.name })
          (record { self = cluster; files = s.cloud.clusters })).files
  pub self : q.self ≡ record s.self { state = SectorState.available }
  pub sectors : q.cloud.sectors ≡ save s.cloud.sectors q.self.name q.self
  pub ipams : q.cloud.ipams ≡ s.cloud.ipams

abbrev listing : Site → Exec Exception Site (Unit {0})
listing p = on_cloud (
    change_cluster
      (add_sector p.self.tag (record { kind = ManifestKind.sector; name = p.self.name })))

listing_ok :
    (p s t q : Site)
    → set_state SectorState.available s ≡ (ok tt, t)
    → listing p t ≡ (ok tt, q)
    → IsListed p s q
listing_ok p s t q h k =
    let add = add_sector p.self.tag (record { kind = ManifestKind.sector; name = p.self.name }) in
    let (self, sectors, ipams, clusters) = set_state_ok SectorState.available s t h in
    let (called, same) = on_cloud-ok (change_cluster add) t q tt k in
    let (c, loaded, end) = change_cluster_ok add t.cloud q.cloud called in
    record {
      cluster = c;
      loaded = ap first_cluster (sym clusters) ∙ loaded;
      clusters =
          ap (λ z. z.clusters) end
          ∙ ap (λ files. (add (record { self = c; files = files })).files) clusters;
      self = same ∙ self;
      sectors =
          ap (λ z. z.sectors) end
          ∙ sectors
          ∙ ap (λ (v : SectorManifest). save s.cloud.sectors v.name v) (sym same);
      ipams = ap (λ z. z.ipams) end ∙ ipams;
    }

made :
    (g d : Draw) (p s1 s2 s3 q : Site)
    → SameSite p s1
    → IsCreated with_gateway g.vmid s1 s2
    → IsCreated with_dns d.vmid s2 s3
    → IsListed p s3 q
    → IsMade g d p q
unfolding add_sector save run
made g d p s1 s2 s3 q k i2 i3 l =
    let earlier = i3.clusters ∙ i2.clusters ∙ k.cloud.clusters in
    let found : (j : ℕ)
        → get_assigned_ip q.cloud.ipams j ≡ (
            if d.vmid == j
            then ok i3.address
            else if g.vmid == j
            then ok i2.address
            else get_assigned_ip p.cloud.ipams j) =
      λ j. rw (l.ipams, i3.found j, i2.found j, k.cloud.ipams) refl in
    let good : IsBackplane q.cloud.ipams i3.manifest = rw l.ipams i3.backplane in
    record {
      gateway_address = i2.address;
      dns_address = i3.address;
      found = found;
      differ = λ n.
          backplane_addresses_differ q.cloud.ipams i3.manifest [] g.vmid d.vmid i2.address
            i3.address good (ground (arith, found g.vmid)) (ground (arith, found d.vmid)) n;
      self =
          l.self
          ∙ ap (λ (s : SectorManifest). record s { state = SectorState.available })
              (i3.self
                ∙ ap (λ s. with_dns s d.vmid) (i2.self ∙ ap (λ s. with_gateway s g.vmid) k.self));
      stored = rw l.sectors (Dict.get-set_self s3.cloud.sectors q.self.name q.self);
      cluster = l.cluster;
      loaded = ap first_cluster (sym earlier) ∙ l.loaded;
      listed =
          l.clusters
          ∙ ap
              (λ files.
                (add_sector p.self.tag (record { kind = ManifestKind.sector; name = p.self.name })
                  (record { self = l.cluster; files = files })).files)
              earlier;
    }

-- Making a sector that returns has done all of it: the sector's own file names both containers and is available, the
-- cluster's file lists the sector under its tag, each container has an address on the backplane, two different numbers
-- have two different addresses, and no other VM's address changed.
pub start_create_sector_ok :
    (node : Text) (g d : Draw) (p q : Site) (m : IpamManifest)
    → IsBackplane p.cloud.ipams m
    → start_create_sector node g d p ≡ (ok tt, q)
    → IsMade g d p q
unfolding start_create_sector
start_create_sector_ok node g d p q m b h =
    let gateway = create_sector_gateway node g.vmid g.now g.password in
    let dns = create_sector_dns node d.vmid d.now d.password in
    let avail = set_state SectorState.available in
    let (r1, s1, e1, h1) =
      then-ok (on_cloud (create_sector p.self)) (gateway >> (dns >> (avail >> listing p))) p q tt
        h in
    let (r2, s2, e2, h2) = then-ok gateway (dns >> (avail >> listing p)) s1 q tt h1 in
    let (r3, s3, e3, h3) = then-ok dns (avail >> listing p) s2 q tt h2 in
    let (r4, s4, e4, h4) = then-ok avail (listing p) s3 q tt h3 in
    let k1 = on_cloud-SameSite (create_sector p.self) p s1 r1 (create_sector-OnlyAsks p.self) e1 in
    let i2 =
      (create_sector_gateway_ok g.vmid g.now s1 m (rw k1.cloud.ipams b) node g.password s2 e2).0 in
    let i3 = create_sector_dns_ok d.vmid d.now s2 i2.manifest i2.backplane node d.password s3 e3 in
    made g d p s1 s2 s3 q k1 i2 i3 (listing_ok p s3 s4 q e4 h4)
