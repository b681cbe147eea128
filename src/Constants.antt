-- ===== src/Constants.antt =====
-- orbitlab/constants.py
use orbit_lab.Prelude.{ℕ, ◌*◌, String}
use orbit_lab.Net.{Network}

-- NetworkSettings.RESERVED_USABLE_IPS
abbrev pub reserved_usable_ips : ℕ
reserved_usable_ips = 10

abbrev pub backplane_ipam : String
backplane_ipam = "backplane"

abbrev pub backplane_name : String
backplane_name = "bckplane"

abbrev pub backplane_alias : String
backplane_alias = "OrbitLab Backplane"

abbrev pub backplane_asn : ℕ
backplane_asn = 65001

abbrev pub backplane_zone_tag : ℕ
backplane_zone_tag = 10

abbrev pub backplane_vnet_tag : ℕ
backplane_vnet_tag = 100

-- 10.200.0.0/16
abbrev pub default_cidr : Network
default_cidr = record { address = 180879360; prefixlen = 16 }

-- 10.200.0.1
abbrev pub default_gateway : ℕ
default_gateway = 180879361

abbrev pub root_ca_days_valid : ℕ
root_ca_days_valid = 20 * 365

abbrev pub intermediate_ca_days_valid : ℕ
intermediate_ca_days_valid = 5 * 365

abbrev pub leaf_ca_days_valid : ℕ
leaf_ca_days_valid = 365
