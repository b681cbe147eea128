-- ===== src/Manifest/Cluster/Create.antt =====
-- `ClusterManifest.create` and `add_node` of orbitlab/manifest/cluster.py.
use orbit_lab.Prelude.{
  ℕ, zero, suc, ◌+◌, ◌-◌, ◌≤◌, ◌<◌, ◌≡◌, refl, ap, sym, ◌∙◌, String, false, Option, some, List, [],
  string_eq, nat_eq, contains, arith, inl, inr, Option-cases,
}
use orbit_lab.Prelude.Dict
use orbit_lab.Prelude.Dict.{Dict}
use orbit_lab.Prelude.Exec.{ok, returned, raised}
use orbit_lab.Manifest.Nodes.{ClusterStatus}
use orbit_lab.Manifest.Cluster.{
  ClusterManifest, first_tag, existing_tags, get_next_available_tag, create, created,
}
use orbit_lab.Manifest.Cluster.Tags.{first_tag_lowest}

create_parts :
    (cluster : Option ClusterStatus) (mtu : ℕ) (reserved : List ℕ)
    (files files' : Dict String ClusterManifest) (m : ClusterManifest)
    → create cluster mtu reserved files ≡ (ok m, files')
    → (zone : ℕ) × (vnet : ℕ) × (first_tag reserved 10 90 ≡ some zone)
      × (first_tag reserved 100 900 ≡ some vnet)
      × (m ≡ created cluster mtu zone vnet)
      × (files' ≡ Dict.set files m.name m)
unfolding create
create_parts cluster mtu reserved files files' m h =
    elim (Option-cases (first_tag reserved 10 90)) [
      | inl e ↦ absurd (raised (rw (e, create) at h))
      | inr (zone, e) ↦ elim (Option-cases (first_tag reserved 100 900)) [
        | inl f ↦ absurd (raised (rw (e, create, f) at h))
        | inr (vnet, f) ↦
            let (same, stored) = returned (rw (e, create, f) at h) in
            (
              zone,
              vnet,
              e,
              f,
              sym same,
              sym stored ∙ ap (λ (x : ClusterManifest). Dict.set files x.name x) same,
            )
      ]
    ]

-- A created cluster is saved under its name, with tags for its zone and its network that are not
-- reserved and lie in 10..99 and 100..999, and with no node and no sector.
pub create_chooses_free_tags :
    (cluster : Option ClusterStatus) (mtu : ℕ) (reserved : List ℕ)
    (files files' : Dict String ClusterManifest) (m : ClusterManifest)
    → create cluster mtu reserved files ≡ (ok m, files')
    → (Dict.get files' m.name ≡ some m)
      × (contains reserved m.backplane.zone_tag ≡ false)
      × (10 ≤ m.backplane.zone_tag)
      × (m.backplane.zone_tag < 100)
      × (contains reserved m.backplane.vnet_tag ≡ false)
      × (100 ≤ m.backplane.vnet_tag)
      × (m.backplane.vnet_tag < 1000)
      × (m.nodes ≡ [])
      × (m.sectors ≡ [])
unfolding created
create_chooses_free_tags cluster mtu reserved files files' m h =
    let (zone, vnet, e, f, same, stored) = create_parts cluster mtu reserved files files' m h in
    let z = first_tag_lowest reserved 10 90 zone e in
    let v = first_tag_lowest reserved 100 900 vnet f in
    let zt : m.backplane.zone_tag ≡ zone =
      ap (λ (c : ClusterManifest). c.backplane.zone_tag) same in
    let vt : m.backplane.vnet_tag ≡ vnet =
      ap (λ (c : ClusterManifest). c.backplane.vnet_tag) same in
    (
      rw stored (Dict.get-set_self files m.name m),
      rw zt z.2,
      omega arith,
      omega arith,
      rw vt v.2,
      omega arith,
      omega arith,
      ap (λ (c : ClusterManifest). c.nodes) same,
      ap (λ (c : ClusterManifest). c.sectors) same,
    )

first_tag-empty : (start count : ℕ) → 0 < count → first_tag [] start count ≡ some start
unfolding first_tag contains
first_tag-empty start zero h = absurd (omega arith)
first_tag-empty start (suc count) h = refl

-- The tags that were passed as reserved are not kept: the first tag that the new cluster hands out is the
-- start of the range, reserved or not.
pub create_forgets_reserved :
    (cluster : Option ClusterStatus) (mtu : ℕ) (reserved : List ℕ)
    (files files' : Dict String ClusterManifest) (m : ClusterManifest) (start end : ℕ)
    → create cluster mtu reserved files ≡ (ok m, files')
    → start ≤ end
    → get_next_available_tag m start end ≡ ok start
unfolding get_next_available_tag existing_tags created
create_forgets_reserved cluster mtu reserved files files' m start end h le =
    let (zone, vnet, e, f, same, stored) = create_parts cluster mtu reserved files files' m h in
    rw (same, get_next_available_tag, first_tag-empty start (end + 1 - start) (omega arith))
