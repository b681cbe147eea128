-- ===== src/Manifest/Cluster/BackplaneIpam/Release.antt =====
-- What `assign_ip` and `release_ip` of orbitlab/manifest/cluster.py leave on disk.
use orbit_lab.Prelude.{
  ℕ, ◌≡◌, ap, sym, subst, ◌∙◌, none, nat_eq, string_eq, ◌==◌, arith, if◌then◌else◌,
}
use orbit_lab.Prelude.Exec.{Result, ok, err}
use orbit_lab.Exceptions.{Exception, value_error}
use orbit_lab.Constants
use orbit_lab.Manifest.Ipam
use orbit_lab.Manifest.Ipam.{IpamManifest}
use orbit_lab.Manifest.Ipam.Assign.{step}
use orbit_lab.Manifest.Ipam.Lookup.{get_assigned_ip-release_ip}
use orbit_lab.Manifest.Cluster.BackplaneIpam.{
  Ipams, assign_ip, release_ip, get_assigned_ip, IsBackplane, live, get_assigned_ip-loaded,
  release_ip-loaded, assign_ip-loaded, step-IsBackplane,
}

-- Where a call leaves its files, the backplane's manifest is as good as before.
pub assign_ip-IsBackplane :
    (files : Ipams) (m : IpamManifest) (vmid now : ℕ)
    → IsBackplane files m
    → (m' : IpamManifest) × IsBackplane (assign_ip vmid now files).1 m'
unfolding step
assign_ip-IsBackplane files m vmid now b =
    let c = Ipam.Assign.assigns Constants.backplane_name vmid now in
    (
      (step (live files m) c).self,
      subst (λ r. IsBackplane r.1 (step (live files m) c).self)
          (sym (assign_ip-loaded files m vmid now b)) (step-IsBackplane files m c b),
    )

pub release_ip-IsBackplane :
    (files : Ipams) (m : IpamManifest) (vmid : ℕ)
    → IsBackplane files m
    → (m' : IpamManifest) × IsBackplane (release_ip vmid files).1 m'
unfolding step
release_ip-IsBackplane files m vmid b =
    let c = Ipam.Assign.releases Constants.backplane_name vmid in
    (
      (step (live files m) c).self,
      subst (λ r. IsBackplane r.1 (step (live files m) c).self)
          (sym (release_ip-loaded files m vmid b)) (step-IsBackplane files m c b),
    )

-- After a release the VM has no address, and every other VM has what it had.
pub backplane_release :
    (files files' : Ipams) (m : IpamManifest) (vmid j : ℕ)
    → IsBackplane files m
    → release_ip vmid files ≡ (ok tt, files')
    → get_assigned_ip files' j ≡ (if vmid == j then err value_error else get_assigned_ip files j)
unfolding step
backplane_release files files' m vmid j b h =
    let c = Ipam.Assign.releases Constants.backplane_name vmid in
    let after = step (live files m) c in
    let r = Ipam.release_ip Constants.backplane_name vmid (live files m) in
    let eq : (r.0, r.1.files) ≡ (ok tt, files') = sym (release_ip-loaded files m vmid b) ∙ h in
    let found : Ipam.get_assigned_ip after.self Constants.backplane_name j
        ≡ (if vmid == j then ok none else Ipam.get_assigned_ip m Constants.backplane_name j) =
      get_assigned_ip-release_ip Constants.backplane_name vmid j (live files m) r.1
        (ap (λ z. (z, r.1)) (ap (λ (z : Result Exception (Unit {0}) × Ipams). z.0) eq)) in
    let kept : IsBackplane files' after.self =
      subst (λ d. IsBackplane d after.self)
        (ap (λ (z : Result Exception (Unit {0}) × Ipams). z.1) eq) (step-IsBackplane files m c b) in
    let later = get_assigned_ip-loaded files' after.self j kept in
    let before = get_assigned_ip-loaded files m j b in ground (arith, found, later, before)
