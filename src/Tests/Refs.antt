-- ===== src/Tests/Refs.antt =====
-- The theorems on Manifest/Ref at a reference to a node.
use orbit_lab.Prelude.{
  ℕ, ◌≡◌, refl, String, Bool, true, false, List, [], ◌∷◌, ◌++◌, beq_list, nat_eq,
}
use orbit_lab.Prelude.Exec.{ok}
use orbit_lab.DataTypes.{ManifestKind, kind_value}
use orbit_lab.Manifest.Ref.{Exists, codes, create}
use orbit_lab.Manifest.Ref.RoundTrip.{create-reads_back}

-- The only manifest is the node `pve`.
abbrev one_node : Exists
one_node kind name = beq_list name (codes "pve")

create-reads_back_example :
    create one_node ManifestKind.node (codes "pve")
    ≡ ok (record { ref = codes "node/pve.yaml"; kind = ManifestKind.node; name = codes "pve" })
unfolding beq_list orbit_lab.Prelude.contains orbit_lab.Manifest.Ref.before_suffix kind_value
create-reads_back_example =
    create-reads_back one_node ManifestKind.node (codes "pve") refl refl refl
