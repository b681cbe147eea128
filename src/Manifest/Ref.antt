-- ===== src/Manifest/Ref.antt =====
-- orbitlab/manifest/ref.py: references between manifests, as texts `kind/name.yaml`.
pub mod RoundTrip
use Prim.Native.Char.{code}
use orbit_lab.Prelude.{
  ℕ, zero, suc, ◌+◌, String, Bool, true, false, ◌&&◌, Option, none, some, List, [], ◌∷◌, ◌++◌, eqb,
  beq_list, nat_eq, drop, if◌then◌else◌,
}
use orbit_lab.Prelude.Exec.{Result, ok, err}
use orbit_lab.DataTypes.{ManifestKind, kind_value}
use orbit_lab.Exceptions.{Exception, value_error, file_not_found}

-- A text as its code points.
abbrev pub Text : Type 0
Text = List ℕ

abbrev pub codes : String → Text
codes String.[] = []
codes (String.◌∷◌ ch s) = code ch ∷ codes s

-- The text up to the first separator, and what follows it if there is one.
unfoldable pub cut : ℕ → Text → Text × Option Text
cut sep [] = ([], none)
cut sep (x ∷ xs) =
    let (before, after) = cut sep xs in if eqb x sep then ([], some xs) else (x ∷ before, after)

-- `a, b = text.split("/")`, which raises unless there are two parts
unfoldable pub pair_up : Text → Text × Option Text → Option (Text × Text)
pair_up a (b, none) = some (a, b)
pair_up a (b, some more) = none

unfoldable pub split_rest : Text × Option Text → Option (Text × Text)
unfolding cut pair_up
split_rest (a, none) = none
split_rest (a, some rest) = pair_up a (cut b'/' rest)

unfoldable pub split_two : Text → Option (Text × Text)
unfolding cut split_rest
split_two t = split_rest (cut b'/' t)

unfoldable pub starts_with : Text → Text → Bool
starts_with [] t = true
starts_with (p ∷ ps) [] = false
starts_with (p ∷ ps) (x ∷ xs) = eqb p x && starts_with ps xs

-- `text.split(".yaml")[0]`
unfoldable pub before_suffix : Text → Text
unfolding starts_with
before_suffix [] = []
before_suffix (x ∷ xs) =
    let rest = before_suffix xs in if starts_with (codes ".yaml") (x ∷ xs) then [] else x ∷ rest

-- `ManifestKind(value)`
unfoldable pub find_kind : List ManifestKind → Text → Option ManifestKind
unfolding kind_value
find_kind [] t = none
find_kind (k ∷ ks) t = if beq_list (codes (kind_value k)) t then some k else find_kind ks t

abbrev pub kinds : List ManifestKind
kinds =
    ManifestKind.base_appliance ∷ ManifestKind.custom_appliance ∷ ManifestKind.cluster
    ∷ ManifestKind.node ∷ ManifestKind.ipam ∷ ManifestKind.sector ∷ ManifestKind.lxc
    ∷ ManifestKind.secret ∷ ManifestKind.certificate ∷ ManifestKind.csr ∷ ManifestKind.ssh_key
    ∷ ManifestKind.autoscaling ∷ []

unfoldable pub manifest_kind : Text → Option ManifestKind
unfolding find_kind
manifest_kind t = find_kind kinds t

pub record Ref : Type 0 where
  pub ref : Text
  pub kind : ManifestKind
  pub name : Text

-- Whether the file of a manifest is there.
abbrev pub Exists : Type 0
Exists = ManifestKind → Text → Bool

unfoldable pub of_kind : Exists → Text → Text → Option ManifestKind → Result Exception Ref
of_kind exists ref name none = err value_error
of_kind exists ref name (some k) =
    if exists k name then ok (record { ref = ref; kind = k; name = name }) else err file_not_found

unfoldable pub of_parts : Exists → Text → Option (Text × Text) → Result Exception Ref
unfolding manifest_kind before_suffix of_kind
of_parts exists ref none = err value_error
of_parts exists ref (some (kind, filename)) =
    of_kind exists ref (before_suffix filename) (manifest_kind kind)

-- `validate_ref`
unfoldable pub validate_ref : Exists → Text → Result Exception Ref
unfolding of_parts split_two
validate_ref exists ref = of_parts exists ref (split_two ref)

-- `Ref.create`
unfoldable pub create : Exists → ManifestKind → Text → Result Exception Ref
unfolding validate_ref kind_value
create exists kind name =
    validate_ref exists (codes (kind_value kind) ++ b'/' ∷ name ++ codes ".yaml")
