-- ===== src/Tests/Ipam.antt =====
-- The theorems on Manifest/Ipam at a /28 network.
use orbit_lab.Prelude.{
  ℕ, ◌+◌, ◌≤◌, ◌<◌, ◌≡◌, refl, String, Bool, true, false, Option, none, some, List, [], ◌∷◌,
  contains, nat_eq, string_eq, ◌==◌, if◌then◌else◌, length, ◌≢◌, arith,
}
use orbit_lab.Prelude.Dict
use orbit_lab.Prelude.Exec.{ok}
use orbit_lab.Net.{Network, Interface, num_addresses, addresses_from, hosts}
use orbit_lab.Manifest.Base.{save}
use orbit_lab.Manifest.Ipam.{
  Subnet, IpamManifest, Live, get_subnet, get_assigned_ip, get_next_available_ip, first_free,
  usable, assigned_ips, available_ips, assign_ip, release_ip, store_subnet, put_subnet,
  add_assignment,
}
use orbit_lab.Manifest.Ipam.Next.{get_next_available_ip-lowest}
use orbit_lab.Manifest.Ipam.Assign.{IsSound, assigns, releases, run, run-IsSound}
use orbit_lab.Constants
use orbit_lab.Manifest.Cluster
use orbit_lab.Manifest.Cluster.BackplaneIpam.{
  Ipams, IsBackplane, backplane_addresses_differ, run-IsBackplane,
}
use orbit_lab.Manifest.Ipam.Lookup.{
  get_assigned_ip-assign_ip, get_assigned_ip-release_ip, assign_ip_available,
}

-- 10.0.0.0/28
abbrev pub net : Network
net = record { address = 167772160; prefixlen = 28 }

abbrev pub lan : Subnet
lan = record { cidr_block = net; name = "lan"; assignments = [] }

-- 10.0.0.11
abbrev pub eleven : Interface
eleven = record { ip = 167772171; prefixlen = 28 }

abbrev ipam : IpamManifest
ipam = record { name = "ipam"; sector_name = "s"; sector_id = "olvn1000"; subnets = lan ∷ [] }

abbrev live : Live
live = record { self = ipam; files = ("ipam", ipam) ∷ [] }

five_not_six : ◌≢◌ {A = ℕ} 5 6
five_not_six = omega arith

live-IsSound : IsSound live
unfolding orbit_lab.Prelude.distinct assigned_ips Dict.get
live-IsSound = record { valid = (refl, tt); saved = refl }

get_next_available_ip-lowest_example :
    (net.address + 11 ≤ eleven.ip)
    × (eleven.ip + 1 < net.address + num_addresses net)
    × (contains (assigned_ips lan) eleven.ip ≡ false)
    × (eleven.prefixlen ≡ net.prefixlen)
    × ((b : ℕ) → net.address + 11 ≤ b → contains (assigned_ips lan) b ≡ false → eleven.ip ≤ b)
unfolding get_next_available_ip first_free usable hosts contains assigned_ips
get_next_available_ip-lowest_example = get_next_available_ip-lowest lan eleven refl

run-IsSound_example :
    IsSound (run live (assigns "lan" 5 1 ∷ releases "lan" 5 ∷ assigns "wan" 6 2 ∷ []))
run-IsSound_example =
    run-IsSound live (assigns "lan" 5 1 ∷ releases "lan" 5 ∷ assigns "wan" 6 2 ∷ []) live-IsSound

-- After VM 5 got its address.
abbrev after : Live
after = (assign_ip "lan" 5 1 live).1

get_assigned_ip-assign_ip_example : get_assigned_ip after.self "lan" 5 ≡ ok (some eleven)
unfolding assign_ip get_subnet orbit_lab.Prelude.find? get_next_available_ip first_free usable hosts
    contains assigned_ips
get_assigned_ip-assign_ip_example = get_assigned_ip-assign_ip "lan" 5 1 5 live after eleven refl

get_assigned_ip-release_ip_example :
    get_assigned_ip (release_ip "lan" 5 after).1.self "lan" 5 ≡ ok none
unfolding release_ip get_subnet orbit_lab.Prelude.find? assign_ip get_next_available_ip first_free
    usable hosts contains assigned_ips store_subnet add_assignment Dict.has Dict.set
get_assigned_ip-release_ip_example =
    get_assigned_ip-release_ip "lan" 5 5 after (release_ip "lan" 5 after).1 refl

assign_ip_available_example : (a : Interface) × ((assign_ip "lan" 5 1 live).0 ≡ ok a)
unfolding get_subnet orbit_lab.Prelude.find? available_ips hosts
assign_ip_available_example = assign_ip_available "lan" 5 1 live lan refl (omega arith)

-- The store of the cluster's own IPAM.
abbrev pub backplane : IpamManifest
backplane = record {
  name = Constants.backplane_ipam;
  sector_name = "";
  sector_id = "";
  subnets = record { cidr_block = net; name = Constants.backplane_name; assignments = [] } ∷ [];
}

abbrev pub ipams : Ipams
ipams = (Constants.backplane_ipam, backplane) ∷ []

pub ipams-IsBackplane : IsBackplane ipams backplane
unfolding orbit_lab.Prelude.distinct assigned_ips Dict.get
ipams-IsBackplane = record { name = refl; valid = (refl, tt); on_disk = refl }

abbrev two_calls : List Cluster.BackplaneIpam.Call
two_calls = Cluster.BackplaneIpam.assigns 5 1 ∷ Cluster.BackplaneIpam.assigns 6 2 ∷ []

abbrev twelve : Interface
twelve = record { ip = 167772172; prefixlen = 28 }

backplane_addresses_differ_example : eleven.ip ≢ twelve.ip
unfolding Cluster.BackplaneIpam.get_assigned_ip orbit_lab.Manifest.Base.load Dict.get
    Cluster.BackplaneIpam.run Cluster.BackplaneIpam.cluster_step Cluster.BackplaneIpam.assign_ip
    assign_ip get_subnet orbit_lab.Prelude.find? get_next_available_ip first_free usable hosts
    contains assigned_ips store_subnet Dict.set save Cluster.BackplaneIpam.release_ip add_assignment
    get_assigned_ip put_subnet addresses_from num_addresses
backplane_addresses_differ_example =
    backplane_addresses_differ ipams backplane two_calls 5 6 eleven twelve ipams-IsBackplane refl
      refl five_not_six

run-IsBackplane_example :
    (m : IpamManifest) × IsBackplane (Cluster.BackplaneIpam.run ipams two_calls) m
run-IsBackplane_example = run-IsBackplane ipams backplane two_calls ipams-IsBackplane
