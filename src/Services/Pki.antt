-- ===== src/Services/Pki.antt =====
-- orbitlab/services/pki/client.py, the class `Certificates`. Keys, serial numbers, random bytes and times are
-- arguments; the X.509 library and the vault's ciphers are parameters.
pub mod Models
pub mod Certify
pub mod Requests
pub mod SshKeys
pub mod Issue
pub mod Leaf
pub mod Authority
pub mod Sign
use Prim.Native.String.{◌++◌ as join}
use orbit_lab.Prelude.{
  ℕ, ◌+◌, ◌-◌, String, Bool, true, false, not, Option, none, some, List, [], ◌∷◌, contains, ltb,
  ◌==◌, string_eq, nat_eq, list_eq, if◌then◌else◌,
}
use orbit_lab.Prelude.Dict
use orbit_lab.Prelude.Dict.{Dict}
use orbit_lab.Prelude.Exec.{
  Result, ok, err, Exec, pure, raise, lift, gets, or_raise, modify, ensure, ◌>>=◌, ◌>>◌,
}
use orbit_lab.Exceptions.{
  Exception, value_error, validation_error, certificate_exists, certificate_type, csr_exists,
  csr_signing,
}
use orbit_lab.DataTypes.{
  ManifestKind, CertificateTypes, certificate_type_value, CsrStatus, KeyUsageTypes,
  to_x509_usage_params,
}
use orbit_lab.Constants.{root_ca_days_valid, intermediate_ca_days_valid, leaf_ca_days_valid}
use orbit_lab.Manifest.Ref.{Text}
use orbit_lab.Manifest.Base.{load, save, delete, get_existing}
use orbit_lab.Manifest.Secrets.{
  SecretSpec, CertificateMetadata, CertificateManifest, CsrMetadata, CsrSpec, CsrManifest, days,
  sha256_fingerprint, check_fingerprint,
}
use orbit_lab.Services.Vault
use orbit_lab.Services.Vault.{Files, Now}
use orbit_lab.Services.Vault.Cipher.{Crypto, Secret}
use Models.{LeafCertificate, IntermediateCa, Subject, Name, Fields, X509, to_x509, get_x509_san}

-- The object's name lists, and the files it works on.
pub record Pki : Type 0 where
  pub existing_certificates : List String
  pub existing_requests : List String
  pub certificates : Dict String CertificateManifest
  pub requests : Dict String CsrManifest
  pub vault : Files

-- `Certificates()`
unfoldable pub init : Dict String CertificateManifest → Dict String CsrManifest → Files → Pki
unfolding get_existing
init certificates requests vault = record {
  existing_certificates = get_existing certificates;
  existing_requests = get_existing requests;
  certificates = certificates;
  requests = requests;
  vault = vault;
}

unfoldable pub get_common_name : Name → Option String
get_common_name subject = Dict.get subject "CN"

abbrev pub same_type : CertificateTypes → CertificateTypes → Bool
same_type a b = certificate_type_value a == certificate_type_value b

abbrev pub is_pending : CsrStatus → Bool
is_pending CsrStatus.pending = true
is_pending CsrStatus.issued = false
is_pending CsrStatus.rejected = false

abbrev pub rejected : String → CsrManifest → CsrManifest
rejected reason m = record m {
  spec = record m.spec { status = CsrStatus.rejected; rejected_reason = some reason };
}

-- What the vault does to the files, inside an operation of the services.
abbrev pub on_vault : {A : Type 0} → Exec Exception Files A → Exec Exception Pki A
on_vault m p = let (r, files) = m p.vault in (r, record p { vault = files })

abbrev pub secret_path : (String → String) → CertificateTypes → String → String
secret_path name_digest type name =
    join "certificates/" (join (certificate_type_value type) (join "/" (name_digest name)))

-- The subject of a certificate under an authority: its own name, the rest from the authority.
abbrev pub subject_under : String → CertificateMetadata → Subject
subject_under name m = record {
  common_name = name;
  org = m.org;
  org_unit = m.org_unit;
  country = m.country;
  state_or_province = m.state_or_province;
  locality = m.locality;
}

-- What a certificate takes from outside.
pub record Draw (PrivateKey : Type 0) : Type 0 where
  pub key : PrivateKey
  pub serial : ℕ
  pub time : ℕ
  pub vault : Now

module _ (c : Crypto) (x : X509) where
  open x use {hexdigest, name_digest}

  unfoldable pub fingerprint : Text → Text
  fingerprint pem = sha256_fingerprint hexdigest pem

  -- `load` validates the metadata again.
  unfoldable pub load_certificate : String → Exec Exception Pki CertificateManifest
  load_certificate name = do
    m ← λ p. (load ManifestKind.certificate p.certificates name, p)
    lift (elim (check_fingerprint hexdigest m.metadata) [ err e ↦ err e | ok _ ↦ ok m ])

  -- `model_validate` and `save`
  unfoldable pub save_certificate : CertificateManifest → Exec Exception Pki CertificateManifest
  unfolding save
  save_certificate m = do
    metadata ← lift (check_fingerprint hexdigest m.metadata)
    modify (λ p. record p { certificates = save p.certificates m.name m })
    pure m

  unfoldable pub get_signing_cert : String → Exec Exception Pki CertificateManifest
  unfolding load_certificate
  get_signing_cert intermediate_ca = do
    known ← gets (λ p. contains p.existing_certificates intermediate_ca)
    ensure known (certificate_exists intermediate_ca false)
    m ← load_certificate intermediate_ca
    ensure (same_type m.metadata.type CertificateTypes.intermediate)
        (certificate_type intermediate_ca CertificateTypes.intermediate)
    pure m

  unfoldable pub verify_csr_signing_request : ℕ → CsrManifest → x.Request → CsrManifest
  unfolding fingerprint
  verify_csr_signing_request now m csr =
      if is_pending m.spec.status
      then (if ltb m.spec.submitted_at (now - days 30)
          then rejected "Request older than 30 days. Submit a new request." m
          else if m.spec.csr_fingerprint == fingerprint (x.csr_to_pem csr)
          then m
          else rejected "CSR fingerprint does not match previous request." m)
      else m

  -- The private key that the vault holds for a manifest.
  unfoldable pub load_vault_key : SecretSpec → Exec Exception Pki x.PrivateKey
  load_vault_key spec = do
    s ← on_vault (Vault.get c spec.secret_name spec.version)
    λ p. or_raise (x.load_private_key s.secret_string) value_error p

  -- `self.vault.create(...)` of a key, and where it lies
  unfoldable pub store_key :
      Now → CertificateTypes → String → String → Exec Exception Pki SecretSpec
  store_key now type name key_pem = do
    let secret_name = secret_path name_digest type name
    version ← on_vault (Vault.create c now secret_name key_pem [])
    pure (record { secret_name = secret_name; version = version; previous_versions = [] })
