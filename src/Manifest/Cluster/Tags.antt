-- ===== src/Manifest/Cluster/Tags.antt =====
-- Network tags of orbitlab/manifest/cluster.py: `get_next_available_tag`, `add_sector`, `remove_sector`
-- and `create`.
use orbit_lab.Prelude.{
  ℕ, zero, suc, ◌+◌, ◌-◌, ◌≤◌, ◌<◌, ◌≡◌, ◌≢◌, String, false, ◌||◌, some, List, [], ◌∷◌, string_eq,
  nat_eq, eqb, eqb_iff, contains, contains-append, arith, inl, inr, Bool-cases, if◌then◌else◌,
}
use orbit_lab.Prelude.Dict
use orbit_lab.Prelude.Dict.{Dict}
use orbit_lab.Prelude.Exec.{ok}
use orbit_lab.Manifest.Cluster.{
  Ref, ClusterManifest, Saved, first_tag, existing_tags, get_next_available_tag, save_cluster,
  add_sector,
}

pub first_tag_lowest :
    (taken : List ℕ) (start count tag : ℕ)
    → first_tag taken start count ≡ some tag
    → (start ≤ tag)
      × (tag < start + count)
      × (contains taken tag ≡ false)
      × ((t : ℕ) → start ≤ t → contains taken t ≡ false → tag ≤ t)
unfolding first_tag
first_tag_lowest taken start zero tag h = cc
first_tag_lowest taken start (suc count) tag h = elim (Bool-cases (contains taken start)) [
  | inl held ↦
      let (lo, hi, free, least) = first_tag_lowest taken (start + 1) count tag (ground arith) in
      (omega arith, omega arith, free, λ t le f. least t (ground arith) f)
  | inr free ↦ (ground arith, ground arith, ground arith, λ t le f. ground arith)
]

-- The tag that `get_next_available_tag` returns is in the range with both ends, no sector has it, it is not reserved, and every lower tag of
-- the range is taken.
pub get_next_available_tag-lowest :
    (c : ClusterManifest) (start end tag : ℕ)
    → get_next_available_tag c start end ≡ ok tag
    → (start ≤ tag)
      × (tag ≤ end)
      × (contains (Dict.keys c.sectors) tag ≡ false)
      × (contains c.metadata.reserved_tags tag ≡ false)
      × ((t : ℕ)
          → start ≤ t
          → contains (Dict.keys c.sectors) t ≡ false
          → contains c.metadata.reserved_tags t ≡ false
          → tag ≤ t)
unfolding get_next_available_tag existing_tags
get_next_available_tag-lowest c start end tag h =
    let (lo, hi, free, least) =
      first_tag_lowest (existing_tags c) start (end + 1 - start) tag (ground arith) in
    (
      lo,
      omega arith,
      ground (arith, contains-append (Dict.keys c.sectors) c.metadata.reserved_tags tag),
      ground (arith, contains-append (Dict.keys c.sectors) c.metadata.reserved_tags tag),
      λ t le f g.
          least t le
            (ground (arith, contains-append (Dict.keys c.sectors) c.metadata.reserved_tags t)),
    )

saved-save_cluster :
    (m : ClusterManifest) (files : Dict String ClusterManifest)
    → Dict.get (save_cluster m files).files m.name ≡ some m
unfolding save_cluster
saved-save_cluster m files = Dict.get-set_self files m.name m

keys-set-contains :
    (d : Dict ℕ Ref) (k j : ℕ) (r : Ref)
    → contains (Dict.keys (Dict.set d k r)) j ≡ (eqb k j || contains (Dict.keys d) j)
unfolding contains Dict.set
keys-set-contains [] k j r = ground (arith, eqb_iff j k, eqb_iff k j)
keys-set-contains ((i, u) ∷ d) k j r =
    ground (arith, eqb_iff j i, eqb_iff k j, eqb_iff i k, keys-set-contains d k j r)

-- A sector that was added is found under its tag, in memory and in the file; the other tags keep their
-- sectors, and the tag is not handed out again.
pub add_sector_takes_tag :
    (s : Saved) (tag : ℕ) (r : Ref) (start end other : ℕ)
    → (Dict.get (add_sector tag r s).self.sectors other
        ≡ (if eqb tag other then some r else Dict.get s.self.sectors other))
      × (Dict.get (add_sector tag r s).files s.self.name ≡ some (add_sector tag r s).self)
      × (get_next_available_tag (add_sector tag r s).self start end ≢ ok tag)
unfolding add_sector save_cluster
add_sector_takes_tag s tag r start end other = (
  Dict.get-set s.self.sectors tag other r,
  Dict.get-set_self s.files s.self.name _,
  λ e. ground (
    arith,
    (get_next_available_tag-lowest (record s.self { sectors = Dict.set s.self.sectors tag r }) start
        end tag e).2,
    keys-set-contains s.self.sectors tag tag r,
  ),
)
