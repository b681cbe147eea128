-- ===== src/Clients/Networks/Addresses.antt =====
-- The backplane addresses that `delete_sector` of orbitlab/clients/proxmox/networks/client.py gives back.
use orbit_lab.Prelude.{
  ℕ, zero, suc, ◌≡◌, refl, ap, ◌∙◌, Bool, true, false, ◌||◌, Option, none, some, nat_eq, ◌==◌,
  if◌then◌else◌, subst,
}
use orbit_lab.Prelude.Exec.{ok, err, ◌>>◌, bind-ok, then-ok}
use orbit_lab.Exceptions.{value_error}
use orbit_lab.Manifest.Ref.{Text}
use orbit_lab.Manifest.Ipam.{IpamManifest}
use orbit_lab.Manifest.Sector.{SectorManifest}
use orbit_lab.Manifest.Cluster.BackplaneIpam.{IsBackplane, get_assigned_ip, release_ip}
use orbit_lab.Manifest.Cluster.BackplaneIpam.Release.{backplane_release, release_ip-IsBackplane}
use orbit_lab.Clients.Base.{Cloud, Method, task, load_cluster, vm_path}
use orbit_lab.Clients.Networks.{delete_container, delete_sector, delete_network, on_ipams, purge}
use orbit_lab.Clients.Networks.Kept.{
  task-OnlyAsks, load_cluster-OnlyAsks, delete_network-OnlyAsks, OnlyAsks-ok, on_ipams-ok,
}

-- Whether the number names this VM; None and 0 name none.
abbrev pub names : Option ℕ → ℕ → Bool
names none j = false
names (some zero) j = false
names (some (suc n)) j = suc n == j

-- What the deletion of a container leaves.
record IsFreed (o : Option ℕ) (p q : Cloud) : Type 0 where
  pub manifest : IpamManifest
  pub backplane : IsBackplane q.ipams manifest
  pub clusters : q.clusters ≡ p.clusters
  pub sectors : q.sectors ≡ p.sectors
  pub found :
      (j : ℕ)
      → get_assigned_ip q.ipams j
        ≡ (if names o j then err value_error else get_assigned_ip p.ipams j)

delete_container_ok :
    (node : Text) (o : Option ℕ) (p q : Cloud) (m : IpamManifest)
    → IsBackplane p.ipams m
    → delete_container node o p ≡ (ok tt, q)
    → IsFreed o p q
unfolding delete_container
delete_container_ok node none p q m b h =
    let same : p ≡ q = cc in
    subst (λ c. IsFreed none p c) same
      (record { manifest = m; backplane = b; clusters = refl; sectors = refl; found = λ j. refl })
delete_container_ok node (some zero) p q m b h =
    let same : p ≡ q = cc in
    subst (λ c. IsFreed (some zero) p c) same
      (record { manifest = m; backplane = b; clusters = refl; sectors = refl; found = λ j. refl })
delete_container_ok node (some (suc n)) p q m b h =
    let deletion = task Method.delete (vm_path node (suc n)) purge in
    let (u, t, first, rest) = then-ok deletion (on_ipams (release_ip (suc n))) p q tt h in
    let k =
      OnlyAsks-ok deletion p t (ok u) (task-OnlyAsks Method.delete (vm_path node (suc n)) purge)
        first in
    let (released, clusters, sectors) = on_ipams-ok (release_ip (suc n)) t q tt rest in
    let b' : IsBackplane t.ipams m = rw k.ipams b in
    let (m', good) = release_ip-IsBackplane t.ipams m (suc n) b' in
    record {
      manifest = m';
      backplane = subst (λ r. IsBackplane r.1 m') released good;
      clusters = clusters ∙ k.clusters;
      sectors = sectors ∙ k.sectors;
      found = λ j.
          backplane_release t.ipams q.ipams m (suc n) j b' released
          ∙ ap (λ i. if suc n == j then err value_error else get_assigned_ip i j) k.ipams;
    }

either {ℓ} :
    {A : Type ℓ} (a b : Bool) (x y : A)
    → (if b then x else if a then x else y) ≡ (if a || b then x else y)
either true true x y = refl
either true false x y = refl
either false true x y = refl
either false false x y = refl

-- A deletion that returns has given back the backplane addresses of the sector's gateway and DNS containers, and of
-- no other VM: for these two numbers a lookup raises ValueError, for every other it finds what it found before. It
-- writes no manifest of a cluster or a sector.
pub delete_sector_frees :
    (node : Text) (s : SectorManifest) (p q : Cloud) (m : IpamManifest) (j : ℕ)
    → IsBackplane p.ipams m
    → delete_sector node s p ≡ (ok tt, q)
    → (get_assigned_ip q.ipams j ≡ (
        if names s.gateway_vmid j || names s.dns_vmid j
        then err value_error
        else get_assigned_ip p.ipams j))
      × (q.clusters ≡ p.clusters)
      × (q.sectors ≡ p.sectors)
unfolding delete_sector
delete_sector_frees node s p q m j b h =
    let gateway = delete_container node s.gateway_vmid in
    let dns = delete_container node s.dns_vmid in
    let (c, p1, e0, h1) =
      bind-ok load_cluster (λ _. gateway >> (dns >> delete_network s)) p q tt h in
    let k0 = OnlyAsks-ok load_cluster p p1 (ok c) load_cluster-OnlyAsks e0 in
    let (u1, p2, e1, h2) = then-ok gateway (dns >> delete_network s) p1 q tt h1 in
    let g = delete_container_ok node s.gateway_vmid p1 p2 m (rw k0.ipams b) e1 in
    let (u2, p3, e2, h3) = then-ok dns (delete_network s) p2 q tt h2 in
    let d = delete_container_ok node s.dns_vmid p2 p3 g.manifest g.backplane e2 in
    let k = OnlyAsks-ok (delete_network s) p3 q (ok tt) (delete_network-OnlyAsks s) h3 in
    let before : get_assigned_ip p1.ipams j ≡ get_assigned_ip p.ipams j =
      ap (λ i. get_assigned_ip i j) k0.ipams in
    let found : get_assigned_ip q.ipams j ≡ (
        if names s.dns_vmid j
        then err value_error
        else if names s.gateway_vmid j
        then err value_error
        else get_assigned_ip p.ipams j) =
      rw (k.ipams, d.found j, g.found j, before) refl in
    (
      found ∙ either (names s.gateway_vmid j) (names s.dns_vmid j) (err value_error) _,
      k.clusters ∙ d.clusters ∙ g.clusters ∙ k0.clusters,
      k.sectors ∙ d.sectors ∙ g.sectors ∙ k0.sectors,
    )
