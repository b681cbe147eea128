-- ===== src/Services/Pki/SshKeys.antt =====
-- The class `SSHKey` of orbitlab/services/pki/client.py.
pub mod RoundTrip
use Prim.Native.String.{◌++◌ as join}
use orbit_lab.Prelude.{
  ℕ, ◌≡◌, String, Bool, true, false, not, Option, none, some, List, [], ◌∷◌, contains, ◌==◌,
  string_eq, if◌then◌else◌,
}
use orbit_lab.Prelude.Dict
use orbit_lab.Prelude.Dict.{Dict}
use orbit_lab.Prelude.Exec.{Result, ok, err, Exec, pure, lift, gets, modify, ensure, ◌>>=◌, ◌>>◌}
use orbit_lab.Exceptions.{Exception, ssh_key_exists}
use orbit_lab.DataTypes.{ManifestKind, SshKeyTypes, ssh_key_type_value}
use orbit_lab.Manifest.Base.{load, save, delete, get_existing}
use orbit_lab.Manifest.Secrets.{SecretSpec, SshKeyMetadata, SshKeyManifest}
use orbit_lab.Services.Vault
use orbit_lab.Services.Vault.{Files, Now}
use orbit_lab.Services.Vault.Cipher.{Crypto, Secret}

pub record Keys : Type 0 where
  pub existing_keys : List String
  pub manifests : Dict String SshKeyManifest
  pub vault : Files

-- A generated pair, as the library writes it: the OpenSSH texts of its halves, the private one under the
-- passphrase if there is one, and the fingerprint of the public one.
pub record Pair : Type 0 where
  pub private_key : Option String → String
  pub public_key : String
  pub fingerprint : String

-- An empty passphrase is none.
unfoldable pub encryption : Option String → Option String
encryption none = none
encryption (some text) = if text == "" then none else some text

abbrev is_some : Option String → Bool
is_some none = false
is_some (some text) = true

abbrev on_vault : {A : Type 0} → Exec Exception Files A → Exec Exception Keys A
on_vault m k = let (r, files) = m k.vault in (r, record k { vault = files })

module _ (c : Crypto) (hexdigest : String → String) where
  unfoldable pub key_path : SshKeyTypes → String → String
  key_path key_type name =
      join "ssh/key/" (join (ssh_key_type_value key_type) (join "/" (hexdigest name)))

  unfoldable pub create_key_pair :
      Now
      → (SshKeyTypes → Pair)
      → String
      → SshKeyTypes
      → Option String
      → Exec Exception Keys SshKeyManifest
  unfolding key_path encryption save
  create_key_pair now generate name key_type passphrase = do
    known ← gets (λ k. contains k.existing_keys name)
    ensure (not known) (ssh_key_exists name true)
    let pair = generate key_type
    let secret_name = key_path key_type name
    version ←
        on_vault (Vault.create c now secret_name (pair.private_key (encryption passphrase)) [])
    let m : SshKeyManifest = record {
      name = name;
      metadata = record {
        public_key = pair.public_key;
        fingerprint = pair.fingerprint;
        key_type = key_type;
        passphrase = is_some (encryption passphrase);
      };
      spec = record { secret_name = secret_name; version = version; previous_versions = [] };
    }
    modify (λ k. record k { manifests = save k.manifests name m })
    pure m

  -- The manifest of a known key.
  unfoldable pub known_key : String → Exec Exception Keys SshKeyManifest
  known_key name = do
    known ← gets (λ k. contains k.existing_keys name)
    ensure known (ssh_key_exists name false)
    λ k. (load ManifestKind.ssh_key k.manifests name, k)

  unfoldable pub get_public_key : String → Exec Exception Keys String
  unfolding known_key
  get_public_key name = do m ← known_key name; pure m.metadata.public_key

  unfoldable pub get_private_key : String → Exec Exception Keys String
  unfolding known_key
  get_private_key name = do
    m ← known_key name
    s ← on_vault (Vault.get c m.spec.secret_name m.spec.version)
    pure s.secret_string

  unfoldable pub delete_key : SshKeyManifest → Keys → Keys
  unfolding delete
  delete_key m k = record k {
    vault = Vault.delete c m.spec.secret_name k.vault;
    manifests = delete k.manifests m.name;
  }
