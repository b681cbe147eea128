-- ===== src/Manifest/Ipam/Valid.antt =====
-- No address of a subnet is assigned twice: kept by the operations of orbitlab/manifest/ipam.py.
use orbit_lab.Prelude.{
  ℕ, ◌≡◌, ◌≢◌, refl, ap, true, false, List, [], ◌∷◌, arith, eqb_iff, contains, distinct, nat_eq,
  ◌==◌, some, map,
}
use orbit_lab.Prelude.Dict
use orbit_lab.Prelude.Dict.{Dict}
use orbit_lab.Net.{Interface}
use orbit_lab.Manifest.Ipam.{Subnet, IpAssignment, assignment, add_assignment, assigned_ips}

abbrev ips : Dict ℕ IpAssignment → List ℕ
ips d = map (λ a. a.address.ip) (Dict.values d)

-- Which addresses a write can bring in, and which a removal leaves.
ips-set :
    (d : Dict ℕ IpAssignment) (k : ℕ) (v : IpAssignment) (b : ℕ)
    → contains (ips d) b ≡ false
    → v.address.ip == b ≡ false
    → contains (ips (Dict.set d k v)) b ≡ false
unfolding Dict.set contains
ips-set [] k v b h n = ground (arith, eqb_iff b v.address.ip)
ips-set ((i, w) ∷ d) k v b h n =
    ground (arith, eqb_iff b v.address.ip, eqb_iff v.address.ip b, ips-set d k v b)

ips-del :
    (d : Dict ℕ IpAssignment) (k b : ℕ)
    → contains (ips d) b ≡ false
    → contains (ips (Dict.del d k)) b ≡ false
unfolding Dict.del contains
ips-del [] k b h = refl
ips-del ((i, w) ∷ d) k b h = ground (arith, ips-del d k b)

distinct-set :
    (d : Dict ℕ IpAssignment) (k : ℕ) (v : IpAssignment)
    → distinct (ips d) ≡ true
    → contains (ips d) v.address.ip ≡ false
    → distinct (ips (Dict.set d k v)) ≡ true
unfolding Dict.set contains distinct
distinct-set [] k v h n = refl
distinct-set ((i, w) ∷ d) k v h n =
    ground
      (arith, eqb_iff v.address.ip w.address.ip, distinct-set d k v, ips-set d k v w.address.ip)

distinct-del :
    (d : Dict ℕ IpAssignment) (k : ℕ)
    → distinct (ips d) ≡ true
    → distinct (ips (Dict.del d k)) ≡ true
unfolding Dict.del distinct
distinct-del [] k h = refl
distinct-del ((i, w) ∷ d) k h = ground (arith, distinct-del d k, ips-del d k w.address.ip)

-- No address is assigned twice.
abbrev pub IsValid : Subnet → Type 0
IsValid s = distinct (assigned_ips s) ≡ true

pub add_assignment-IsValid :
    (s : Subnet) (vmid : ℕ) (a : Interface) (now : ℕ)
    → IsValid s
    → contains (assigned_ips s) a.ip ≡ false
    → IsValid (add_assignment s vmid a now)
unfolding add_assignment assigned_ips
add_assignment-IsValid s vmid a now h free =
    distinct-set s.assignments vmid (assignment a now) h free

pub del-IsValid :
    (s : Subnet) (vmid : ℕ)
    → IsValid s
    → IsValid (record s { assignments = Dict.del s.assignments vmid })
unfolding assigned_ips
del-IsValid s vmid h = distinct-del s.assignments vmid h

contains-get :
    (d : Dict ℕ IpAssignment) (k : ℕ) (a : IpAssignment)
    → Dict.get d k ≡ some a
    → contains (ips d) a.address.ip ≡ true
unfolding Dict.get contains
contains-get [] k a h = cc
contains-get ((i, w) ∷ d) k a h = ground (
  arith,
  eqb_iff a.address.ip w.address.ip,
  ap (λ (x : IpAssignment). x.address.ip) {x = w} {y = a},
  contains-get d k a,
)

distinct-get :
    (d : Dict ℕ IpAssignment) (k j : ℕ) (a b : IpAssignment)
    → distinct (ips d) ≡ true
    → Dict.get d k ≡ some a
    → Dict.get d j ≡ some b
    → k ≢ j
    → a.address.ip ≢ b.address.ip
unfolding Dict.get distinct
distinct-get [] k j a b h p q n = cc
distinct-get ((i, w) ∷ d) k j a b h p q n = λ same. ground (
  arith,
  contains-get d k a,
  contains-get d j b,
  eqb_iff i k,
  eqb_iff i j,
  ap (contains (ips d)) same,
  distinct-get d k j a b,
)

-- In a valid subnet two VMs never hold the same address.
pub addresses_differ :
    (s : Subnet) (k j : ℕ) (a b : IpAssignment)
    → IsValid s
    → Dict.get s.assignments k ≡ some a
    → Dict.get s.assignments j ≡ some b
    → k ≢ j
    → a.address.ip ≢ b.address.ip
unfolding assigned_ips
addresses_differ s = distinct-get s.assignments
