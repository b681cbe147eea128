-- ===== src/Services/Vault.antt =====
-- orbitlab/services/vault: secrets in encrypted files, one for each version. The ciphers, the hash and the
-- JSON codec are parameters; directories are not kept, a file stands for its path.
pub mod Cipher
pub mod Paths
pub mod RoundTrip
pub mod Versions
pub mod History
use orbit_lab.Prelude.{
  ℕ, zero, suc, ◌+◌, ◌-◌, ◌*◌, String, ◌≡◌, Bool, true, false, Option, none, some, List, [], ◌∷◌,
  ◌++◌, ltb, ◌==◌, nat_eq, string_eq, list_eq, if◌then◌else◌,
}
use orbit_lab.Prelude.Dict
use orbit_lab.Prelude.Dict.{Dict}
use orbit_lab.Prelude.Exec.{
  Result, ok, err, Exec, pure, raise, lift, gets, or_raise, modify, ensure, ◌>>=◌, ◌>>◌,
}
use orbit_lab.Exceptions.{
  Exception, secret_exists, secret_not_found, secret_rollback, invalid_checksum, file_not_found,
}
use Cipher.{Crypto, Entropy, Secret, Bytes, encrypt, decrypt}
use Paths.{FilePath, path_eq, file_path, in_tree}

abbrev pub Files : Type 0
Files = Dict FilePath Bytes

-- What an operation takes from outside: the current time, and random bytes for one encryption.
pub record Now : Type 0 where
  pub time : ℕ
  pub entropy : Entropy

-- The secret that `create` builds; `__save__` fills in the checksum.
abbrev pub fresh : Now → String → String → Dict String String → Secret
fresh now secret_name value metadata = record {
  name = secret_name;
  secret_string = value;
  created_at = now.time;
  version = 1;
  checksum = [];
  updated_at = none;
  metadata = metadata;
}

-- An empty `metadata` keeps the old one.
unfoldable pub or_old : Dict String String → Dict String String → Dict String String
or_old [] old = old
or_old (e ∷ m) old = e ∷ m

unfoldable pub updated : Now → String → Dict String String → Secret → Secret
updated now value metadata s = record s {
  secret_string = value;
  version = s.version + 1;
  updated_at = some now.time;
  metadata = or_old metadata s.metadata;
}

module _ (c : Crypto) where
  unfoldable pub get_checksum : Secret → List ℕ
  get_checksum s = c.sha256 s.secret_string

  unfoldable pub check : Secret → Result Exception Secret
  unfolding get_checksum
  check s = if get_checksum s == s.checksum then ok s else err (invalid_checksum s.name)

  -- `__load__` of a file's bytes
  unfoldable pub load : Bytes → Result Exception Secret
  unfolding check
  load blob = elim (decrypt c blob) [ err x ↦ err x | ok s ↦ check s ]

  -- `__save__`
  unfoldable pub save : Now → FilePath → Secret → Files → Files
  unfolding get_checksum
  save now path s files =
      Dict.set files path (encrypt c now.entropy (record s { checksum = get_checksum s }))

  unfoldable pub create : Now → String → String → Dict String String → Exec Exception Files ℕ
  create now secret_name value metadata files =
      let path = file_path c secret_name 1 in
      if Dict.has files path
      then (err (secret_exists secret_name), files)
      else (ok 1, save now path (fresh now secret_name value metadata) files)

  -- The file of a version, or the exception for its absence.
  unfoldable pub read : String → ℕ → Files → Result Exception Bytes
  read secret_name version files = elim (Dict.get files (file_path c secret_name version)) [
    | none ↦ err (secret_not_found secret_name version)
    | some blob ↦ ok blob
  ]

  unfoldable pub get : String → ℕ → Exec Exception Files Secret
  get secret_name version = do
    blob ← λ files. (read secret_name version files, files)
    lift (load blob)

  unfoldable pub update : Now → String → ℕ → String → Dict String String → Exec Exception Files ℕ
  update now secret_name version value metadata = do
    blob ← λ files. (read secret_name version files, files)
    s ← lift (load blob)
    let new = updated now value metadata s
    modify (save now (file_path c secret_name new.version) new)
    pure new.version

  -- `filepath.unlink()` raises where the file is missing.
  unfoldable pub unlink : FilePath → Exec Exception Files (Unit {0})
  unlink path files =
      if Dict.has files path then (ok tt, Dict.del files path) else (err file_not_found, files)

  -- `for version in range(first, first + count)`
  unfoldable pub unlink_versions : String → ℕ → ℕ → Exec Exception Files (Unit {0})
  unlink_versions secret_name first zero = pure tt
  unlink_versions secret_name first (suc count) =
      unlink (file_path c secret_name first) >> unlink_versions secret_name (first + 1) count

  unfoldable pub rollback : String → ℕ → ℕ → Exec Exception Files ℕ
  rollback secret_name current_version rollback_version = do
    ensure (ltb rollback_version current_version) (secret_rollback rollback_version current_version)
    read_current ← λ files. (read secret_name current_version files, files)
    unlink_versions secret_name (rollback_version + 1) (current_version - (rollback_version + 1))
    pure rollback_version

  -- `shutil.rmtree(directory)`
  unfoldable pub rmtree : List (List ℕ) → Files → Files
  rmtree dir [] = []
  rmtree dir ((path, blob) ∷ files) =
      if in_tree dir path then rmtree dir files else (path, blob) ∷ rmtree dir files

  unfoldable pub delete : String → Files → Files
  delete secret_name files =
      let path = file_path c secret_name 1 in
      if Dict.has files path then rmtree path.parent files else files
