-- ===== src/Manifest/Ipam/Next.antt =====
-- `get_next_available_ip` of orbitlab/manifest/ipam.py: what it returns, and when it raises.
use orbit_lab.Prelude.{
  ℕ, zero, suc, ◌+◌, ◌-◌, ◌^◌, ◌≤◌, ◌<◌, ◌≡◌, refl, ◌∙◌, true, false, List, [], ◌∷◌, arith, eqb,
  length, contains, distinct, distinct-le, nat_eq, ap, ap₂, sym, eqb_iff, length-map, length-drop,
  inl, inr, Bool-cases,
}
use orbit_lab.Prelude.Int.{pos, ◌≤ℤ◌}
use orbit_lab.Prelude.Exec.{Result, ok, err}
use orbit_lab.Exceptions.{Exception, value_error}
use orbit_lab.Net.{Network, Interface, num_addresses, addresses_from, hosts}
use orbit_lab.Net.Hosts.{addresses_from-distinct, drop-addresses_from}
use orbit_lab.Manifest.Ipam.{
  Subnet, usable, assigned_ips, first_free, get_next_available_ip, available_ips,
}
use orbit_lab.Constants.{reserved_usable_ips}

addresses_from-empty : (start count : ℕ) → count ≡ 0 → addresses_from start count ≡ []
unfolding addresses_from
addresses_from-empty start zero h = refl
addresses_from-empty start (suc count) h = absurd (omega arith)

-- The usable addresses: all but the first eleven and the last of the network.
pub usable-eq-range :
    (s : Subnet)
    → usable s ≡ addresses_from (s.cidr_block.address + 11) (num_addresses s.cidr_block - 12)
unfolding usable hosts
usable-eq-range s = elim (Bool-cases (eqb p 32)) [
  | inl e ↦
      let q : p ≡ 32 = ground arith in
      rw e (sym (addresses_from-empty _ _ (omega (arith, ap (λ (k : ℕ). 2 ^ (32 - k)) q))))
  | inr h ↦ elim (Bool-cases (eqb p 31)) [
    | inl e ↦
        let q : p ≡ 31 = ground arith in
        rw (h, e) (sym (addresses_from-empty _ _ (omega (arith, ap (λ (k : ℕ). 2 ^ (32 - k)) q))))
    | inr g ↦
        rw (h, g, drop-addresses_from 10 (s.cidr_block.address + 1) (2 ^ (32 - p) - 2))
          (ap₂ addresses_from (omega arith) (omega arith))
  ]
]
  where
    p : ℕ
    p = s.cidr_block.prefixlen

-- A loop over consecutive addresses ends at the first that is not assigned.
pub first_free_lowest :
    (n : Network) (taken : List ℕ) (start count : ℕ) (a : Interface)
    → first_free n taken (addresses_from start count) ≡ ok a
    → (start ≤ a.ip)
      × (a.ip < start + count)
      × (contains taken a.ip ≡ false)
      × (a.prefixlen ≡ n.prefixlen)
      × ((b : ℕ) → start ≤ b → contains taken b ≡ false → a.ip ≤ b)
unfolding first_free addresses_from
first_free_lowest n taken start zero a h = cc
first_free_lowest n taken start (suc count) a h = elim (Bool-cases (contains taken start)) [
  | inl held ↦
      let (lo, hi, free, len, least) =
        first_free_lowest n taken (start + 1) count a (ground arith) in
      (omega arith, omega arith, free, len, λ b le f. least b (ground arith) f)
  | inr free ↦ (ground arith, ground arith, ground arith, ground arith, λ b le f. ground arith)
]

first_free_raises :
    (n : Network) (taken xs : List ℕ) (x : Exception) (b : ℕ)
    → first_free n taken xs ≡ err x
    → contains xs b ≡ true
    → contains taken b ≡ true
unfolding first_free contains
first_free_raises n taken [] x b h c = cc
first_free_raises n taken (ip ∷ rest) x b h c =
    ground (arith, eqb_iff b ip, first_free_raises n taken rest x b)

first_free_error :
    (n : Network) (taken xs : List ℕ) (x : Exception)
    → first_free n taken xs ≡ err x
    → x ≡ value_error
unfolding first_free
first_free_error n taken [] x h = cc
first_free_error n taken (ip ∷ rest) x h = ground (arith, first_free_error n taken rest x)

-- A returned address lies behind the network address and the ten reserved hosts and before the
-- broadcast address, it is assigned to nobody, and every lower such address is assigned.
pub get_next_available_ip-lowest :
    (s : Subnet) (a : Interface)
    → get_next_available_ip s ≡ ok a
    → (s.cidr_block.address + 11 ≤ a.ip)
      × (a.ip + 1 < s.cidr_block.address + num_addresses s.cidr_block)
      × (contains (assigned_ips s) a.ip ≡ false)
      × (a.prefixlen ≡ s.cidr_block.prefixlen)
      × ((b : ℕ) → s.cidr_block.address + 11 ≤ b → contains (assigned_ips s) b ≡ false → a.ip ≤ b)
unfolding get_next_available_ip
get_next_available_ip-lowest s a h =
    let (lo, hi, free, len, least) =
      first_free_lowest s.cidr_block (assigned_ips s) (s.cidr_block.address + 11)
        (num_addresses s.cidr_block - 12) a (rw usable-eq-range at h) in
    (lo, omega arith, free, len, least)

-- It raises ValueError and nothing else, and only when every usable address is assigned.
pub get_next_available_ip_raises :
    (s : Subnet) (x : Exception)
    → get_next_available_ip s ≡ err x
    → (x ≡ value_error)
      × ((b : ℕ) → contains (usable s) b ≡ true → contains (assigned_ips s) b ≡ true)
unfolding get_next_available_ip
get_next_available_ip_raises s x h = (
  first_free_error s.cidr_block (assigned_ips s) (usable s) x h,
  λ b c. first_free_raises s.cidr_block (assigned_ips s) (usable s) x b h c,
)

usable-distinct : (s : Subnet) → distinct (usable s) ≡ true
usable-distinct s = rw usable-eq-range (addresses_from-distinct _ _)

length-assigned_ips : (s : Subnet) → length (assigned_ips s) ≡ length s.assignments
unfolding assigned_ips
length-assigned_ips s = length-map _ _ ∙ length-map s.assignments _

hosts-le : (s : Subnet) → length (hosts s.cidr_block) ≤ reserved_usable_ips + length (usable s)
unfolding usable
hosts-le s = omega (arith, length-drop 10 (hosts s.cidr_block))

room_left :
    (s : Subnet)
    → pos 1 ≤ℤ available_ips s
    → reserved_usable_ips + length s.assignments + 1 ≤ length (hosts s.cidr_block)
unfolding available_ips
room_left s h = ground arith

-- While the count of available addresses is positive, the search succeeds, whatever addresses the
-- assignments hold.
pub get_next_available_ip_available :
    (s : Subnet) → pos 1 ≤ℤ available_ips s → (a : Interface) × (get_next_available_ip s ≡ ok a)
get_next_available_ip_available s room = go (get_next_available_ip s) refl
  where
    go :
        (r : Result Exception Interface)
        → get_next_available_ip s ≡ r
        → (a : Interface) × (get_next_available_ip s ≡ ok a)
    go (ok a) e = (a, e)
    go (err x) e = absurd (
        omega (
          arith,
          distinct-le (usable s) (assigned_ips s) (usable-distinct s)
              (get_next_available_ip_raises s x e).1,
          length-assigned_ips s,
          hosts-le s,
          room_left s room,
        ))
