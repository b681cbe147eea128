-- ===== src/Clients/Networks/Leak.antt =====
-- What is left when `create_sector_gateway` of orbitlab/clients/proxmox/networks/client.py raises.
use orbit_lab.Prelude.{
  ℕ, ◌≡◌, refl, sym, ap, ◌∙◌, subst, Option, none, some, List, [], ◌∷◌, false, arith, nat_eq,
}
use orbit_lab.Prelude.Exec.{Result, ok, err}
use orbit_lab.Exceptions.{Exception}
use orbit_lab.Net.{Interface}
use orbit_lab.Manifest.Ref.{Text, codes}
use orbit_lab.Manifest.Ipam.{IpamManifest}
use orbit_lab.Manifest.Cluster.{ClusterManifest}
use orbit_lab.Manifest.Cluster.BackplaneIpam.{
  Ipams, IsBackplane, get_assigned_ip, assign_ip, backplane_assignment_found,
}
use orbit_lab.Manifest.Cluster.BackplaneIpam.Release.{assign_ip-IsBackplane}
use orbit_lab.Clients.Base.{
  Cloud, Method, call, answer, ask, request, load_cluster, first_cluster, get_next_vmid, lxc_path,
  dashed_params,
}
use orbit_lab.Clients.Networks.{delete_sector}
use orbit_lab.Clients.Networks.Addresses.{names, delete_sector_frees}
use orbit_lab.Clients.Networks.Containers.{Site, create_sector_gateway, gateway_params}

-- What is left when the cluster gives out a number and then refuses the container.
abbrev refused :
    Text → ℕ → Text → ClusterManifest → Interface → Ipams → List (Option Exception) → Site → Site
refused node vmid password c a ipams more p = record {
  self = p.self;
  cloud = record p.cloud {
    ipams = ipams;
    requests =
        call Method.create (lxc_path node)
          (dashed_params [] (gateway_params c p.self vmid a password))
        ∷ call Method.get (codes "/cluster/nextid") []
        ∷ p.cloud.requests;
    answers = more;
  };
}

refused_lem :
    (node : Text) (vmid now : ℕ) (password : Text) (c : ClusterManifest) (a : Interface)
    (ipams : Ipams) (x : Exception) (more : List (Option Exception)) (p : Site)
    → first_cluster p.cloud.clusters ≡ ok c
    → p.cloud.answers ≡ none ∷ some x ∷ more
    → assign_ip vmid now p.cloud.ipams ≡ (ok a, ipams)
    → create_sector_gateway node vmid now password p
      ≡ (err x, refused node vmid password c a ipams more p)
unfolding create_sector_gateway load_cluster get_next_vmid request ask answer
refused_lem node vmid now password c a ipams x more p h k l = rw (h, k, l) refl

-- Where the cluster gives out a number and then refuses to make the gateway, the exception is passed on, but the
-- number keeps its address on the backplane while the sector's object does not name it. A later deletion of the
-- sector that returns does not give the address back.
pub create_sector_gateway_leaks :
    (node : Text) (vmid now : ℕ) (password : Text) (c : ClusterManifest) (m : IpamManifest)
    (a : Interface) (ipams : Ipams) (x : Exception) (more : List (Option Exception)) (p q : Site)
    (r : Cloud) (result : Result Exception (Unit {0}))
    → IsBackplane p.cloud.ipams m
    → first_cluster p.cloud.clusters ≡ ok c
    → p.cloud.answers ≡ none ∷ some x ∷ more
    → assign_ip vmid now p.cloud.ipams ≡ (ok a, ipams)
    → names p.self.gateway_vmid vmid ≡ false
    → names p.self.dns_vmid vmid ≡ false
    → create_sector_gateway node vmid now password p ≡ (result, q)
    → delete_sector node q.self q.cloud ≡ (ok tt, r)
    → (result ≡ err x) × (q.self ≡ p.self) × (get_assigned_ip r.ipams vmid ≡ ok a)
create_sector_gateway_leaks node vmid now password c m a ipams x more p q r result b h k l g d made
      deleted =
    let e = sym made ∙ refused_lem node vmid now password c a ipams x more p h k l in
    let end : q ≡ refused node vmid password c a ipams more p = ap (λ z. z.1) e in
    let self : q.self ≡ p.self = ap (λ z. z.self) end in
    let kept : q.cloud.ipams ≡ ipams = ap (λ z. z.cloud.ipams) end in
    let (m', good) = assign_ip-IsBackplane p.cloud.ipams m vmid now b in
    let good' : IsBackplane q.cloud.ipams m' = rw kept (subst (λ z. IsBackplane z.1 m') l good) in
    let held : get_assigned_ip q.cloud.ipams vmid ≡ ok a =
      rw kept
        (ground (arith, backplane_assignment_found p.cloud.ipams ipams m vmid now vmid a b l)) in
    let (freed, _, _) = delete_sector_frees node q.self q.cloud r m' vmid good' deleted in
    let gateway : names q.self.gateway_vmid vmid ≡ false = rw self g in
    let dns : names q.self.dns_vmid vmid ≡ false = rw self d in
    (ap (λ z. z.0) e, self, freed ∙ rw (gateway, dns) held)
