-- ===== src/Manifest/Ipam.antt =====
-- orbitlab/manifest/ipam.py: subnets with their address assignments, and the manifest that holds them.
pub mod Next
pub mod Valid
pub mod Assign
pub mod Lookup
use orbit_lab.Prelude.{
  ℕ, ◌+◌, String, Bool, true, false, Option, none, some, List, [], ◌∷◌, map, ◌==◌, string_eq,
  nat_eq, find?, contains, length, drop, if◌then◌else◌,
}
use orbit_lab.Prelude.Dict
use orbit_lab.Prelude.Dict.{Dict}
use orbit_lab.Prelude.Int.{ℤ, sub_ℕ}
use orbit_lab.Prelude.Exec.{
  Result, ok, err, Exec, pure, raise, ◌>>=◌, ◌>>◌, gets, modify, lift, or_raise,
}
use orbit_lab.Constants.{reserved_usable_ips}
use orbit_lab.Net.{Network, Interface, hosts, in_network}
use orbit_lab.DataTypes.{ManifestKind}
use orbit_lab.Exceptions.{Exception, value_error, stop_iteration}
use orbit_lab.Manifest.Base.{save}

pub record IpAssignment : Type 0 where
  pub address : Interface
  pub is_vip : Bool
  pub allocated_at : ℕ

pub record Subnet : Type 0 where
  pub cidr_block : Network
  pub name : String
  pub assignments : Dict ℕ IpAssignment

abbrev pub assignment : Interface → ℕ → IpAssignment
assignment address now = record { address = address; is_vip = false; allocated_at = now }

unfoldable pub add_assignment : Subnet → ℕ → Interface → ℕ → Subnet
add_assignment s vmid address now = record s {
  assignments = Dict.set s.assignments vmid (assignment address now);
}

unfoldable pub assigned_ips : Subnet → List ℕ
assigned_ips s = map (λ a. a.address.ip) (Dict.values s.assignments)

unfoldable pub usable : Subnet → List ℕ
usable s = drop reserved_usable_ips (hosts s.cidr_block)

-- `for ip in usable: if ip not in assigned: return ...`, and the raise after the loop
unfoldable pub first_free : Network → List ℕ → List ℕ → Result Exception Interface
first_free n assigned [] = err value_error
first_free n assigned (ip ∷ rest) =
    if contains assigned ip
    then first_free n assigned rest
    else ok (record { ip = ip; prefixlen = n.prefixlen })

unfoldable pub get_next_available_ip : Subnet → Result Exception Interface
get_next_available_ip s = first_free s.cidr_block (assigned_ips s) (usable s)

unfoldable pub available_ips : Subnet → ℤ
available_ips s = sub_ℕ (length (hosts s.cidr_block)) (reserved_usable_ips + length s.assignments)

pub record IpamManifest : Type 0 where
  pub name : String
  pub sector_name : String
  pub sector_id : String
  pub subnets : List Subnet

-- `next(...)` with no default raises StopIteration.
unfoldable pub get_subnet : IpamManifest → String → Option Subnet
get_subnet m name = find? (λ s. s.name == name) m.subnets

unfoldable pub get_subnet_by_ip : IpamManifest → ℕ → Option Subnet
get_subnet_by_ip m address = find? (λ s. in_network address s.cidr_block) m.subnets

-- The first assignment of the VM over the subnets. The source prints it, and "" where there is none.
unfoldable pub find_in : List Subnet → ℕ → Option Interface
find_in [] vmid = none
find_in (s ∷ rest) vmid =
    let later = find_in rest vmid in
    elim (Dict.get s.assignments vmid) [ none ↦ later | some a ↦ some a.address ]

unfoldable pub find_ip : IpamManifest → ℕ → Option Interface
unfolding find_in
find_ip m vmid = find_in m.subnets vmid

unfoldable pub get_assigned_ip : IpamManifest → String → ℕ → Result Exception (Option Interface)
get_assigned_ip m subnet_name vmid = elim (get_subnet m subnet_name) [
  | none ↦ err stop_iteration
  | some s ↦ ok (elim (Dict.get s.assignments vmid) [ none ↦ none | some a ↦ some a.address ])
]

-- Writes through the reference that `get_subnet` returned: the first subnet of that name changes.
unfoldable pub put_subnet : List Subnet → String → Subnet → List Subnet
put_subnet [] name new = []
put_subnet (s ∷ rest) name new = if s.name == name then new ∷ rest else s ∷ put_subnet rest name new

-- A loaded manifest, and the files of its kind.
pub record Live : Type 0 where
  pub self : IpamManifest
  pub files : Dict String IpamManifest

-- The changed subnet, and `self.save()`.
unfoldable pub store_subnet : Live → String → Subnet → Live
unfolding put_subnet save
store_subnet l name s =
    let m = record l.self { subnets = put_subnet l.self.subnets name s } in
    record { self = m; files = save l.files m.name m }

unfoldable pub assign_ip : String → ℕ → ℕ → Exec Exception Live Interface
assign_ip subnet_name vmid now = do
  subnet ← λ l. or_raise (get_subnet l.self subnet_name) stop_iteration l
  address ← lift (get_next_available_ip subnet)
  modify (λ l. store_subnet l subnet_name (add_assignment subnet vmid address now))
  pure address

unfoldable pub release_ip : String → ℕ → Exec Exception Live (Unit {0})
release_ip subnet_name vmid = do
  subnet ← λ l. or_raise (get_subnet l.self subnet_name) stop_iteration l
  if Dict.has subnet.assignments vmid
      then modify (λ l.
        store_subnet l subnet_name
          (record subnet { assignments = Dict.del subnet.assignments vmid }))
      else pure tt
