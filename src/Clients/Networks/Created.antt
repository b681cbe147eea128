-- ===== src/Clients/Networks/Created.antt =====
-- What `create_sector_gateway` and `create_sector_dns` of orbitlab/clients/proxmox/networks/client.py leave behind.
use orbit_lab.Prelude.{
  ℕ, ◌≡◌, refl, sym, ap, ◌∙◌, Option, none, some, List, [], ◌∷◌, arith, nat_eq, string_eq, ◌==◌,
  if◌then◌else◌, subst,
}
use orbit_lab.Prelude.Exec.{Result, ok, Exec, ◌>>=◌, bind-ok, then-ok}
use orbit_lab.Exceptions.{Exception}
use orbit_lab.Net.{Interface}
use orbit_lab.Manifest.Ref.{Text}
use orbit_lab.Manifest.Base.{save}
use orbit_lab.Manifest.Ipam.{IpamManifest}
use orbit_lab.Manifest.Sector.{SectorManifest, primary_gateway}
use orbit_lab.Manifest.Cluster.{ClusterManifest}
use orbit_lab.Manifest.Cluster.BackplaneIpam.{
  IsBackplane, get_assigned_ip, assign_ip, backplane_assignment_found,
}
use orbit_lab.Manifest.Cluster.BackplaneIpam.Release.{assign_ip-IsBackplane}
use orbit_lab.Clients.Base.{
  Cloud, Method, Request, answer, ask, task, start_path, wait_for_task, connect, script,
  lxc_execute_script,
}
use orbit_lab.Clients.Networks.{on_ipams}
use orbit_lab.Clients.Networks.Containers.{
  Site, on_cloud, sgwtool_frr_set, sgwtool_nftables_set, configuration, start_container,
  configure_gateway,
}
use orbit_lab.Clients.Networks.Kept.{
  Keeps, OnlyAsks, bind-OnlyAsks, ask-OnlyAsks, task-OnlyAsks, OnlyAsks-ok, on_ipams-ok,
}

answer_requests : (a : List (Option Exception)) (s : Cloud) → (answer a s).1.requests ≡ s.requests
unfolding answer
answer_requests [] s = refl
answer_requests (none ∷ more) s = refl
answer_requests (some x ∷ more) s = refl

pub ask_sent :
    (r : Request) (s u : Cloud) (a : Result Exception (Unit {0}))
    → ask r s ≡ (a, u)
    → u.requests ≡ r ∷ s.requests
unfolding ask
ask_sent r s u a h =
    sym (ap (λ z. z.1.requests) h)
    ∙ answer_requests s.answers (record s { requests = r ∷ s.requests })

-- An action that writes no manifest and leaves the sector's object alone.
pub record SameSite (s t : Site) : Type 0 where
  pub cloud : Keeps s.cloud t.cloud
  pub self : t.self ≡ s.self

pub SameSite-trans : (s t u : Site) → SameSite s t → SameSite t u → SameSite s u
SameSite-trans s t u h k = ground arith

SameSite-refl : (s : Site) → SameSite s s
SameSite-refl s = record {
  cloud = record { clusters = refl; ipams = refl; sectors = refl };
  self = refl;
}

-- What a call on the cloud determines.
pub on_cloud-ok :
    {A : Type 0} (m : Exec Exception Cloud A) (s u : Site) (a : A)
    → on_cloud m s ≡ (ok a, u)
    → (m s.cloud ≡ (ok a, u.cloud)) × (u.self ≡ s.self)
on_cloud-ok m s u a h = (ground arith, ground arith)

pub on_cloud-SameSite :
    {A : Type 0} (m : Exec Exception Cloud A) (s u : Site) (a : A)
    → OnlyAsks m
    → on_cloud m s ≡ (ok a, u)
    → SameSite s u
on_cloud-SameSite m s u a k h =
    let (called, self) = on_cloud-ok m s u a h in
    record { cloud = OnlyAsks-ok m s.cloud u.cloud (ok a) k called; self = self }

-- A value that is computed from the state.
pub reads-ok :
    {A : Type 0} (r : Site → Result Exception A) (s u : Site) (a : A)
    → ◌≡◌ {A = Result Exception A × Site} (r s, s) (ok a, u)
    → (r s ≡ ok a) × SameSite s u
reads-ok r s u a h = (ground arith, subst (λ t. SameSite s t) (ap (λ z. z.1) h) (SameSite-refl s))

pub start_container-OnlyAsks : (node : Text) (vmid : ℕ) → OnlyAsks (start_container node vmid)
unfolding start_container
start_container-OnlyAsks node vmid =
    bind-OnlyAsks (ask wait_for_task) (λ _. task Method.create (start_path node vmid) [])
      (ask-OnlyAsks wait_for_task) λ _. task-OnlyAsks Method.create (start_path node vmid) []

sgwtool_frr_set_same :
    (g : ℕ) (s t : Site) → SameSite s t → sgwtool_frr_set g s ≡ sgwtool_frr_set g t
unfolding sgwtool_frr_set
sgwtool_frr_set_same g s t k = rw (k.self, k.cloud.ipams, k.cloud.clusters)

-- The last request is the script in the gateway's container, made from the state that is left.
pub record IsConfigured (vmid : ℕ) (c : ClusterManifest) (u : Site) : Type 0 where
  pub before : List Request
  pub frr : Text
  pub gateway : Interface
  pub command : sgwtool_frr_set c.backplane.gateway u ≡ ok frr
  pub primary : primary_gateway u.self ≡ ok gateway
  pub sent :
      u.cloud.requests
      ≡ script vmid (configuration frr (sgwtool_nftables_set gateway.ip c.backplane.cidr_block))
        ∷ before

pub configure_gateway_ok :
    (vmid : ℕ) (c : ClusterManifest) (s u : Site)
    → configure_gateway vmid c s ≡ (ok tt, u)
    → SameSite s u × IsConfigured vmid c u
unfolding configure_gateway lxc_execute_script
configure_gateway_ok vmid c s u h =
    let content = λ (frr : Text) (gateway : Interface).
      configuration frr (sgwtool_nftables_set gateway.ip c.backplane.cidr_block) in
    let last = λ (frr : Text) (gateway : Interface).
      on_cloud (lxc_execute_script vmid (content frr gateway)) in
    let (r1, s1, e1, h1) =
      then-ok (on_cloud (ask connect))
        ((λ (t : Site). (sgwtool_frr_set c.backplane.gateway t, t)) >>= λ frr.
          (λ (t : Site). (primary_gateway t.self, t)) >>= λ gateway. last frr gateway)
        s u tt h in
    let (frr, s2, e2, h2) =
      bind-ok (λ (t : Site). (sgwtool_frr_set c.backplane.gateway t, t))
        (λ frr. (λ (t : Site). (primary_gateway t.self, t)) >>= λ gateway. last frr gateway) s1 u tt
        h1 in
    let (gateway, s3, e3, h3) =
      bind-ok (λ (t : Site). (primary_gateway t.self, t)) (λ gateway. last frr gateway) s2 u tt
        h2 in
    let k1 = on_cloud-SameSite (ask connect) s s1 r1 (ask-OnlyAsks connect) e1 in
    let (f2, k2) = reads-ok (sgwtool_frr_set c.backplane.gateway) s1 s2 frr e2 in
    let (f3, k3) = reads-ok (λ t. primary_gateway t.self) s2 s3 gateway e3 in
    let k4 =
      on_cloud-SameSite (lxc_execute_script vmid (content frr gateway)) s3 u tt (ask-OnlyAsks _)
        h3 in
    let (called, _) = on_cloud-ok (lxc_execute_script vmid (content frr gateway)) s3 u tt h3 in
    let k14 = SameSite-trans s1 s2 u k2 (SameSite-trans s2 s3 u k3 k4) in
    (
      SameSite-trans s s1 u k1 k14,
      record {
        before = s3.cloud.requests;
        frr = frr;
        gateway = gateway;
        command = sym (sgwtool_frr_set_same c.backplane.gateway s1 u k14) ∙ f2;
        primary = ap primary_gateway (k4.self ∙ k3.self) ∙ f3;
        sent = ask_sent _ s3.cloud u.cloud (ok tt) called;
      },
    )

-- The address that the new container got, and the manifests that name it.
pub record IsCreated (set : SectorManifest → ℕ → SectorManifest) (vmid : ℕ) (p q : Site)
    : Type 0 where
  pub address : Interface
  pub manifest : IpamManifest
  pub backplane : IsBackplane q.cloud.ipams manifest
  pub found :
      (j : ℕ)
      → get_assigned_ip q.cloud.ipams j
        ≡ (if vmid == j then ok address else get_assigned_ip p.cloud.ipams j)
  pub self : q.self ≡ set p.self vmid
  pub saved : q.cloud.sectors ≡ save p.cloud.sectors q.self.name q.self
  pub clusters : q.cloud.clusters ≡ p.cloud.clusters

-- What the assignment of an address leaves.
pub assigned_ok :
    (vmid now : ℕ) (s u : Site) (m : IpamManifest) (a : Interface)
    → IsBackplane s.cloud.ipams m
    → on_cloud (on_ipams (assign_ip vmid now)) s ≡ (ok a, u)
    → (u.self ≡ s.self)
      × (u.cloud.clusters ≡ s.cloud.clusters)
      × (u.cloud.sectors ≡ s.cloud.sectors)
      × ((j : ℕ)
          → get_assigned_ip u.cloud.ipams j
            ≡ (if vmid == j then ok a else get_assigned_ip s.cloud.ipams j))
      × (m' : IpamManifest) × IsBackplane u.cloud.ipams m'
assigned_ok vmid now s u m a b h =
    let (called, self) = on_cloud-ok (on_ipams (assign_ip vmid now)) s u a h in
    let (assigned, clusters, sectors) = on_ipams-ok (assign_ip vmid now) s.cloud u.cloud a called in
    let (m', good) = assign_ip-IsBackplane s.cloud.ipams m vmid now b in
    (
      self,
      clusters,
      sectors,
      (λ j. backplane_assignment_found s.cloud.ipams u.cloud.ipams m vmid now j a b assigned),
      m',
      subst (λ r. IsBackplane r.1 m') assigned good,
    )
