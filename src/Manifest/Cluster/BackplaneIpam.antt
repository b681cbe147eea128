-- ===== src/Manifest/Cluster/BackplaneIpam.antt =====
-- `assign_ip`, `get_assigned_ip` and `release_ip` of orbitlab/manifest/cluster.py: the backplane's IPAM manifest is
-- loaded, used and saved again on every call.
pub mod Release
use orbit_lab.Prelude.{
  ℕ, ◌≡◌, ◌≢◌, ap, sym, subst, ◌∙◌, String, Option, none, some, List, [], ◌∷◌, nat_eq, string_eq,
  ◌==◌, arith, inl, inr, Option-cases, if◌then◌else◌,
}
use orbit_lab.Prelude.Dict
use orbit_lab.Prelude.Dict.{Dict}
use orbit_lab.Prelude.Exec.{Result, ok, err, Exec}
use orbit_lab.Exceptions.{Exception, value_error}
use orbit_lab.DataTypes.{ManifestKind}
use orbit_lab.Constants
use orbit_lab.Net.{Interface}
use orbit_lab.Manifest.Base.{load}
use orbit_lab.Manifest.Ipam
use orbit_lab.Manifest.Ipam.{IpamManifest, IpAssignment, Live}
use orbit_lab.Manifest.Ipam.Valid.{addresses_differ}
use orbit_lab.Manifest.Ipam.Assign.{IsSound, AllValid, found-IsValid, step-IsSound, step-name, step}
use orbit_lab.Manifest.Ipam.Lookup.{get_assigned_ip-assign_ip}

-- The IPAM manifests on disk.
abbrev pub Ipams : Type 0
Ipams = Dict String IpamManifest

-- A call on a freshly loaded manifest: what it saved is what stays of it.
abbrev pub with_ipam :
    {A : Type 0} → Result Exception IpamManifest → Exec Exception Live A → Exec Exception Ipams A
with_ipam (err x) m files = (err x, files)
with_ipam (ok self) m files = let (r, l) = m (record { self = self; files = files }) in (r, l.files)

abbrev pub load_ipam : Ipams → Result Exception IpamManifest
load_ipam files = load ManifestKind.ipam files Constants.backplane_ipam

unfoldable pub assign_ip : ℕ → ℕ → Exec Exception Ipams Interface
assign_ip vmid now files =
    with_ipam (load_ipam files) (Ipam.assign_ip Constants.backplane_name vmid now) files

unfoldable pub release_ip : ℕ → Exec Exception Ipams (Unit {0})
release_ip vmid files =
    with_ipam (load_ipam files) (Ipam.release_ip Constants.backplane_name vmid) files

abbrev pub not_assigned : Result Exception (Option Interface) → Result Exception Interface
not_assigned (err x) = err x
not_assigned (ok none) = err value_error
not_assigned (ok (some a)) = ok a

abbrev assigned_of : Result Exception IpamManifest → ℕ → Result Exception Interface
assigned_of (err x) vmid = err x
assigned_of (ok m) vmid = not_assigned (Ipam.get_assigned_ip m Constants.backplane_name vmid)

unfoldable pub get_assigned_ip : Ipams → ℕ → Result Exception Interface
get_assigned_ip files vmid = assigned_of (load_ipam files) vmid

-- The backplane's manifest is on disk under its own name, and holds no address twice.
pub record IsBackplane (files : Ipams) (m : IpamManifest) : Type 0 where
  pub name : m.name ≡ Constants.backplane_ipam
  pub valid : AllValid m.subnets
  pub on_disk : Dict.get files Constants.backplane_ipam ≡ some m

abbrev pub live : Ipams → IpamManifest → Live
live files m = record { self = m; files = files }

live-IsSound : (files : Ipams) (m : IpamManifest) → IsBackplane files m → IsSound (live files m)
live-IsSound files m b = record {
  valid = b.valid;
  saved = subst (λ n. Dict.get files n ≡ some m) (sym b.name) b.on_disk;
}

-- A call on the loaded manifest leaves the backplane's manifest on disk as it is in memory.
pub step-IsBackplane :
    (files : Ipams) (m : IpamManifest) (c : Ipam.Assign.Call)
    → IsBackplane files m
    → IsBackplane (step (live files m) c).files (step (live files m) c).self
step-IsBackplane files m c b =
    let sound = step-IsSound (live files m) c (live-IsSound files m b) in
    let same = step-name (live files m) c ∙ b.name in
    record {
      name = same;
      valid = sound.valid;
      on_disk =
          subst (λ n. Dict.get (step (live files m) c).files n ≡ some (step (live files m) c).self)
            same sound.saved;
    }

load-backplane : (files : Ipams) (m : IpamManifest) → IsBackplane files m → load_ipam files ≡ ok m
unfolding load
load-backplane files m b = rw (b.on_disk, load)

pub assign_ip-loaded :
    (files : Ipams) (m : IpamManifest) (vmid now : ℕ)
    → IsBackplane files m
    → assign_ip vmid now files
      ≡ with_ipam (ok m) (Ipam.assign_ip Constants.backplane_name vmid now) files
unfolding assign_ip
assign_ip-loaded files m vmid now b =
    ap (λ r. with_ipam r (Ipam.assign_ip Constants.backplane_name vmid now) files)
      (load-backplane files m b)

pub release_ip-loaded :
    (files : Ipams) (m : IpamManifest) (vmid : ℕ)
    → IsBackplane files m
    → release_ip vmid files ≡ with_ipam (ok m) (Ipam.release_ip Constants.backplane_name vmid) files
unfolding release_ip
release_ip-loaded files m vmid b =
    ap (λ r. with_ipam r (Ipam.release_ip Constants.backplane_name vmid) files)
      (load-backplane files m b)

pub get_assigned_ip-loaded :
    (files : Ipams) (m : IpamManifest) (vmid : ℕ)
    → IsBackplane files m
    → get_assigned_ip files vmid
      ≡ not_assigned (Ipam.get_assigned_ip m Constants.backplane_name vmid)
unfolding get_assigned_ip
get_assigned_ip-loaded files m vmid b = ap (λ r. assigned_of r vmid) (load-backplane files m b)

-- The calls of a history.
pub data Call : Type 0 where
  assigns : ℕ → ℕ → Call
  releases : ℕ → Call

unfoldable pub cluster_step : Ipams → Call → Ipams
cluster_step files (assigns vmid now) = (assign_ip vmid now files).1
cluster_step files (releases vmid) = (release_ip vmid files).1

unfoldable pub run : Ipams → List Call → Ipams
run files [] = files
run files (c ∷ cs) = run (cluster_step files c) cs

cluster_step-IsBackplane :
    (files : Ipams) (m : IpamManifest) (c : Call)
    → IsBackplane files m
    → (m' : IpamManifest) × IsBackplane (cluster_step files c) m'
unfolding cluster_step step
cluster_step-IsBackplane files m (assigns vmid now) b = (
  (Ipam.assign_ip Constants.backplane_name vmid now (live files m)).1.self,
  subst
      (λ r.
        IsBackplane r.1 (Ipam.assign_ip Constants.backplane_name vmid now (live files m)).1.self)
      (sym (assign_ip-loaded files m vmid now b))
      (step-IsBackplane files m (Ipam.Assign.assigns Constants.backplane_name vmid now) b),
)
cluster_step-IsBackplane files m (releases vmid) b = (
  (Ipam.release_ip Constants.backplane_name vmid (live files m)).1.self,
  subst (λ r. IsBackplane r.1 (Ipam.release_ip Constants.backplane_name vmid (live files m)).1.self)
      (sym (release_ip-loaded files m vmid b))
      (step-IsBackplane files m (Ipam.Assign.releases Constants.backplane_name vmid) b),
)

-- Every history of calls, each of which loads and saves the manifest again, keeps it on disk under its own
-- name with no address assigned twice.
pub run-IsBackplane :
    (files : Ipams) (m : IpamManifest) (cs : List Call)
    → IsBackplane files m
    → (m' : IpamManifest) × IsBackplane (run files cs) m'
unfolding run
run-IsBackplane files m [] b = (m, b)
run-IsBackplane files m (c ∷ cs) b =
    let (m', b') = cluster_step-IsBackplane files m c b in
    run-IsBackplane (cluster_step files c) m' cs b'

held-some :
    (m : IpamManifest) (vmid : ℕ) (a : Interface)
    → not_assigned (Ipam.get_assigned_ip m Constants.backplane_name vmid) ≡ ok a
    → (s : Ipam.Subnet) × (x : IpAssignment) × (Ipam.get_subnet m Constants.backplane_name ≡ some s)
      × (Dict.get s.assignments vmid ≡ some x)
      × (x.address ≡ a)
unfolding Ipam.get_assigned_ip
held-some m vmid a h = elim (Option-cases (Ipam.get_subnet m Constants.backplane_name)) [
  | inl e ↦ absurd (ground arith)
  | inr (s, e) ↦ elim (Option-cases (Dict.get s.assignments vmid)) [
    | inl f ↦ absurd (ground arith)
    | inr (x, f) ↦ (s, x, e, f, ground arith)
  ]
]

one_found : {o : Option Ipam.Subnet} {t s : Ipam.Subnet} → o ≡ some t → o ≡ some s → t ≡ s
one_found p q = ground arith

-- From a valid IPAM of the backplane, after any history of assignments and releases, two different machines that
-- hold an address on the backplane never hold the same one.
pub backplane_addresses_differ :
    (files : Ipams) (m : IpamManifest) (cs : List Call) (i j : ℕ) (a b : Interface)
    → IsBackplane files m
    → get_assigned_ip (run files cs) i ≡ ok a
    → get_assigned_ip (run files cs) j ≡ ok b
    → i ≢ j
    → a.ip ≢ b.ip
backplane_addresses_differ files m cs i j a b start p q n =
    let (m', good) = run-IsBackplane files m cs start in
    let (s, x, e, f, xa) =
      held-some m' i a (sym (get_assigned_ip-loaded (run files cs) m' i good) ∙ p) in
    let (t, y, g, h, yb) =
      held-some m' j b (sym (get_assigned_ip-loaded (run files cs) m' j good) ∙ q) in
    let ok_s =
      found-IsValid (live (run files cs) m') Constants.backplane_name s
        (live-IsSound (run files cs) m' good) e in
    let differ =
      addresses_differ s i j x y ok_s f
        (subst (λ (z : Ipam.Subnet). Dict.get z.assignments j ≡ some y) {x = t} {y = s}
          (one_found g e) h)
        n in
    λ same. differ (ap (λ (z : Interface). z.ip) xa ∙ same ∙ sym (ap (λ (z : Interface). z.ip) yb))

-- The address that an assignment returns is what a later load finds for the VM; what it finds for any
-- other VM stays.
pub backplane_assignment_found :
    (files files' : Ipams) (m : IpamManifest) (vmid now j : ℕ) (a : Interface)
    → IsBackplane files m
    → assign_ip vmid now files ≡ (ok a, files')
    → get_assigned_ip files' j ≡ (if vmid == j then ok a else get_assigned_ip files j)
unfolding step
backplane_assignment_found files files' m vmid now j a b h =
    let c = Ipam.Assign.assigns Constants.backplane_name vmid now in
    let after = step (live files m) c in
    let r = Ipam.assign_ip Constants.backplane_name vmid now (live files m) in
    let eq : (r.0, r.1.files) ≡ (ok a, files') = sym (assign_ip-loaded files m vmid now b) ∙ h in
    let found : Ipam.get_assigned_ip after.self Constants.backplane_name j
        ≡ (if vmid == j then ok (some a) else Ipam.get_assigned_ip m Constants.backplane_name j) =
      get_assigned_ip-assign_ip Constants.backplane_name vmid now j (live files m) r.1 a
        (ap (λ z. (z, r.1)) (ap (λ (z : Result Exception Interface × Ipams). z.0) eq)) in
    let kept : IsBackplane files' after.self =
      subst (λ d. IsBackplane d after.self)
        (ap (λ (z : Result Exception Interface × Ipams). z.1) eq) (step-IsBackplane files m c b) in
    let then_ = get_assigned_ip-loaded files' after.self j kept in
    let before = get_assigned_ip-loaded files m j b in ground (arith, found, then_, before)
