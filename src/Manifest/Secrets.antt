-- ===== src/Manifest/Secrets.antt =====
-- orbitlab/manifest/secrets.py: the manifests of secrets, certificates, signing requests and SSH keys. A time
-- is its number of seconds, and PEM texts and fingerprints are lists of code points.
use orbit_lab.Prelude.{
  ℕ, ◌-◌, ◌*◌, String, Bool, Option, List, ltb, ◌==◌, nat_eq, list_eq, ◌++◌, if◌then◌else◌,
}
use orbit_lab.Prelude.Exec.{Result, ok, err}
use orbit_lab.DataTypes.{CertificateTypes, CsrStatus, KeyUsageTypes, SshKeyTypes}
use orbit_lab.Exceptions.{Exception, certificate_fingerprint}
use orbit_lab.Manifest.Ref.{Text, codes}

pub record SecretSpec : Type 0 where
  pub secret_name : String
  pub version : ℕ
  pub previous_versions : List ℕ

pub record SecretManifest : Type 0 where
  pub name : String
  pub description : String
  pub spec : SecretSpec

pub record CertificateMetadata : Type 0 where
  pub type : CertificateTypes
  pub common_name : String
  pub issuer : String
  pub org : String
  pub org_unit : String
  pub country : String
  pub state_or_province : String
  pub locality : String
  pub not_before : ℕ
  pub not_after : ℕ
  pub certificate : Text
  pub fingerprint : Text
  pub key_usage : List KeyUsageTypes
  pub serial_number : ℕ
  pub domain_constraint : Option String
  pub san_dns : Option (List String)
  pub san_ips : Option (List String)
  pub chain : Option Text

abbrev pub days : ℕ → ℕ
days n = n * 86400

pub data Validity : Type 0 where
  valid warning expired : Validity

-- The status at the time `now`.
unfoldable pub status : CertificateMetadata → ℕ → Validity
status m now =
    if ltb m.not_after now
    then Validity.expired
    else if ltb (m.not_after - days 30) now
    then Validity.warning
    else Validity.valid

-- `f"SHA256:{hashlib.sha256(pem.encode()).hexdigest()}"`, over the function that gives the digest's text
abbrev pub sha256_fingerprint : (Text → Text) → Text → Text
sha256_fingerprint hexdigest pem = codes "SHA256:" ++ hexdigest pem

unfoldable pub check_fingerprint :
    (Text → Text) → CertificateMetadata → Result Exception CertificateMetadata
check_fingerprint hexdigest m =
    if m.fingerprint == sha256_fingerprint hexdigest m.certificate
    then ok m
    else err (certificate_fingerprint m.common_name m.serial_number)

pub record CertificateManifest : Type 0 where
  pub name : String
  pub metadata : CertificateMetadata
  pub spec : SecretSpec

pub record CsrMetadata : Type 0 where
  pub type : CertificateTypes
  pub common_name : String
  pub issuer : String
  pub org : String
  pub org_unit : String
  pub country : String
  pub state_or_province : String
  pub locality : String
  pub key_usage : List KeyUsageTypes
  pub san_dns : Option (List String)
  pub san_ips : Option (List String)
  pub serial_number : Option ℕ
  pub not_before : Option ℕ
  pub not_after : Option ℕ
  pub certificate : Option Text
  pub chain : Option Text
  pub fingerprint : Option Text

pub record CsrSpec : Type 0 where
  pub key_fingerprint : Text
  pub csr_fingerprint : Text
  pub submitted_at : ℕ
  pub signed_at : Option ℕ
  pub rejected_at : Option ℕ
  pub status : CsrStatus
  pub rejected_reason : Option String

pub record CsrManifest : Type 0 where
  pub name : String
  pub metadata : CsrMetadata
  pub spec : CsrSpec

pub record SshKeyMetadata : Type 0 where
  pub public_key : String
  pub fingerprint : String
  pub key_type : SshKeyTypes
  pub passphrase : Bool

pub record SshKeyManifest : Type 0 where
  pub name : String
  pub metadata : SshKeyMetadata
  pub spec : SecretSpec
