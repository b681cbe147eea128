-- ===== src/Manifest/Base.antt =====
-- orbitlab/manifest/base.py: loading, saving and deleting manifests. The directory of one kind maps
-- the stem of each file to the manifest that was last dumped into it.
use orbit_lab.Prelude.{String, ◌≡◌, Option, none, some, List, false, ◌==◌, string_eq}
use orbit_lab.Prelude.Dict
use orbit_lab.Prelude.Dict.{Dict}
use orbit_lab.Prelude.Exec.{Result, ok, err}
use orbit_lab.DataTypes.{ManifestKind}
use orbit_lab.Exceptions.{Exception, manifest_not_found}

module _ {M : Type 0} where
  abbrev found : String → ManifestKind → Option M → Result Exception M
  found name kind none = err (manifest_not_found name kind)
  found name kind (some m) = ok m

  -- `cls.load(name)`
  unfoldable pub load : ManifestKind → Dict String M → String → Result Exception M
  load kind files name = found name kind (Dict.get files name)

  -- `self.save()`: `name` is the manifest's
  unfoldable pub save : Dict String M → String → M → Dict String M
  save files name m = Dict.set files name m

  -- `self.delete()`
  unfoldable pub delete : Dict String M → String → Dict String M
  delete files name = Dict.del files name

  -- `cls.get_existing()`
  unfoldable pub get_existing : Dict String M → List String
  get_existing files = Dict.keys files

  -- What was saved is what the next load returns.
  pub load-save :
      (kind : ManifestKind) (files : Dict String M) (name : String) (m : M)
      → load kind (save files name m) name ≡ ok m
  unfolding load save
  load-save kind files name m = rw (Dict.get-set_self files name m)

  pub load-save_ne :
      (kind : ManifestKind) (files : Dict String M) (name other : String) (m : M)
      → name == other ≡ false
      → load kind (save files name m) other ≡ load kind files other
  unfolding load save
  load-save_ne kind files name other m h = rw (Dict.get-set files name other m, h)
