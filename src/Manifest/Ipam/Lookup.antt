-- ===== src/Manifest/Ipam/Lookup.antt =====
-- What lookups return after `assign_ip` and `release_ip` of orbitlab/manifest/ipam.py.
use orbit_lab.Prelude.{
  ℕ, ◌≡◌, refl, ap, false, String, arith, nat_eq, string_eq, ◌==◌, eqb_iff, eq_iff, if◌then◌else◌,
  some, none, Option, find?_holds, ◌∙◌,
}
use orbit_lab.Prelude.Dict
use orbit_lab.Prelude.Int.{pos, ◌≤ℤ◌}
use orbit_lab.Prelude.Exec.{ok}
use orbit_lab.Net.{Interface}
use orbit_lab.Manifest.Ipam.{
  Subnet, assignment, add_assignment, available_ips, IpamManifest, Live, get_subnet, store_subnet,
  assign_ip, release_ip, get_assigned_ip,
}
use orbit_lab.Manifest.Ipam.Next.{get_next_available_ip_available}
use orbit_lab.Manifest.Ipam.Assign.{assign_ip_cases, release_ip_cases, get_subnet-put}

get_subnet-name :
    (m : IpamManifest) (name : String) (s : Subnet) → get_subnet m name ≡ some s → s.name ≡ name
unfolding get_subnet
get_subnet-name m name s e = (eq_iff s.name name).0 (find?_holds _ m.subnets s e)

get_subnet-store :
    (l : Live) (name : String) (s new : Subnet)
    → get_subnet l.self name ≡ some s
    → new.name ≡ name
    → get_subnet (store_subnet l name new).self name ≡ some new
unfolding get_subnet store_subnet
get_subnet-store l name s new e n = get_subnet-put l.self.subnets name s new n e

add_assignment-name :
    (s : Subnet) (vmid now : ℕ) (a : Interface) → (add_assignment s vmid a now).name ≡ s.name
unfolding add_assignment
add_assignment-name s vmid now a = refl

assigned_in : Subnet → ℕ → Option Interface
assigned_in s j = elim (Dict.get s.assignments j) [ none ↦ none | some a ↦ some a.address ]

get_assigned_ip-found :
    (m : IpamManifest) (name : String) (s : Subnet) (j : ℕ)
    → get_subnet m name ≡ some s
    → get_assigned_ip m name j ≡ ok (assigned_in s j)
unfolding get_assigned_ip assigned_in
get_assigned_ip-found m name s j e = rw (e, get_assigned_ip)

assigned_in-add :
    (s : Subnet) (vmid j now : ℕ) (a : Interface)
    → assigned_in (add_assignment s vmid a now) j ≡ (if vmid == j then some a else assigned_in s j)
unfolding assigned_in add_assignment
assigned_in-add s vmid j now a =
    ground (arith, Dict.get-set s.assignments vmid j (assignment a now))

assigned_in-del :
    (s : Subnet) (vmid j : ℕ)
    → assigned_in (record s { assignments = Dict.del s.assignments vmid }) j
      ≡ (if vmid == j then none else assigned_in s j)
unfolding assigned_in
assigned_in-del s vmid j = ground (arith, Dict.get-del s.assignments vmid j)

-- After a successful assignment the VM has the returned address, and every other VM of the subnet has
-- what it had.
pub get_assigned_ip-assign_ip :
    (name : String) (vmid now j : ℕ) (l l' : Live) (a : Interface)
    → assign_ip name vmid now l ≡ (ok a, l')
    → get_assigned_ip l'.self name j
      ≡ (if vmid == j then ok (some a) else get_assigned_ip l.self name j)
get_assigned_ip-assign_ip name vmid now j l l' a =
    assign_ip_cases
      (λ r.
        r ≡ (ok a, l')
        → get_assigned_ip l'.self name j
          ≡ (if vmid == j then ok (some a) else get_assigned_ip l.self name j))
      name vmid now l (λ _ e. cc) (λ s x _ _ e. cc)
      λ s b f g e. ground (
        arith,
        get_assigned_ip-found l'.self name (add_assignment s vmid b now) j,
        get_subnet-store l name s (add_assignment s vmid b now) f
            (add_assignment-name s vmid now b ∙ get_subnet-name l.self name s f),
        get_assigned_ip-found l.self name s j f,
        assigned_in-add s vmid j now b,
        ap (λ (x : Live). x.self) {x = store_subnet l name (add_assignment s vmid b now)} {y = l'},
      )

assigned_in-none :
    (s : Subnet) (vmid : ℕ) → Dict.has s.assignments vmid ≡ false → assigned_in s vmid ≡ none
unfolding assigned_in
assigned_in-none s vmid h = rw (Dict.get-has s.assignments vmid h, assigned_in)

-- After a release the VM has no address in the subnet, and every other VM has what it had.
pub get_assigned_ip-release_ip :
    (name : String) (vmid j : ℕ) (l l' : Live)
    → release_ip name vmid l ≡ (ok tt, l')
    → get_assigned_ip l'.self name j
      ≡ (if vmid == j then ok none else get_assigned_ip l.self name j)
get_assigned_ip-release_ip name vmid j l l' =
    release_ip_cases
      (λ r.
        r ≡ (ok tt, l')
        → get_assigned_ip l'.self name j
          ≡ (if vmid == j then ok none else get_assigned_ip l.self name j))
      name vmid l (λ _ e. cc)
      (λ s f absent e. ground (
        arith,
        eqb_iff vmid j,
        get_assigned_ip-found l.self name s j f,
        assigned_in-none s vmid absent,
        ap (λ (x : Live). x.self) {x = l} {y = l'},
      ))
      λ s f e. ground (
        arith,
        get_assigned_ip-found l'.self name (record s { assignments = Dict.del s.assignments vmid })
            j,
        get_subnet-store l name s (record s { assignments = Dict.del s.assignments vmid }) f
            (get_subnet-name l.self name s f),
        get_assigned_ip-found l.self name s j f,
        assigned_in-del s vmid j,
        ap (λ (x : Live). x.self)
            {x = store_subnet l name (record s { assignments = Dict.del s.assignments vmid })}
            {y = l'},
      )

-- While the subnet counts an available address, the assignment succeeds.
pub assign_ip_available :
    (name : String) (vmid now : ℕ) (l : Live) (s : Subnet)
    → get_subnet l.self name ≡ some s
    → pos 1 ≤ℤ available_ips s
    → (a : Interface) × ((assign_ip name vmid now l).0 ≡ ok a)
unfolding assign_ip
assign_ip_available name vmid now l s e room =
    let (a, f) = get_next_available_ip_available s room in (a, rw (e, assign_ip, f))
