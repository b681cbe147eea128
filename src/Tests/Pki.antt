-- ===== src/Tests/Pki.antt =====
-- The theorems on Services/Pki with the test library: a root, an intermediate certificate under it, and a request.
use orbit_lab.Prelude.{
  ℕ, ◌≡◌, ◌≢◌, refl, String, Bool, true, false, Option, none, some, List, [], ◌∷◌, contains,
  string_eq, nat_eq, list_eq, arith, eq_iff,
}
use orbit_lab.Prelude.Dict
use orbit_lab.Prelude.Exec.{Result, ok, err}
use orbit_lab.DataTypes.{CertificateTypes, CsrStatus, KeyUsageTypes, SshKeyTypes}
use orbit_lab.Exceptions.{Exception}
use orbit_lab.Manifest.Ref.{Text}
use orbit_lab.Manifest.Secrets.{
  SecretSpec, CertificateManifest, CsrManifest, SshKeyManifest, CertificateMetadata,
}
use orbit_lab.Services.Vault.{Now}
use orbit_lab.Services.Pki.{Pki, Draw, init, load_certificate}
use orbit_lab.Services.Pki.Certify.{
  create_certificate_authority, create_intermediate_certificate, root_manifest,
  intermediate_manifest, root_fields,
}
use orbit_lab.Services.Pki.Models.{Subject, IntermediateCa, LeafCertificate}
use orbit_lab.Services.Pki.Requests.{Signing, create_csr, sign_csr, common_name_of}
use orbit_lab.Services.Pki.Sign.{
  Outcome, sign_csr-Outcome, sign_csr_rejection_unsaved, sign_csr-sign_csr,
}
use orbit_lab.Services.Pki.SshKeys.{Keys, Pair, create_key_pair}
use orbit_lab.Tests.Toy.{toy, no_entropy}
use orbit_lab.Tests.Toy.Certificates.{toy_x509}

abbrev pub now : Now
now = record { time = 5; entropy = no_entropy }

abbrev draw : String → ℕ → Draw String
draw key serial = record { key = key; serial = serial; time = 1000000; vault = now }

abbrev acme : Subject
acme = record {
  common_name = "root";
  org = "o";
  org_unit = "u";
  country = "BE";
  state_or_province = "s";
  locality = "l";
}

abbrev usage : List KeyUsageTypes
usage = KeyUsageTypes.key_cert_sign ∷ []

abbrev empty : Pki
empty = init [] [] []

-- The services, started again on the files.
abbrev pub again : Pki → Pki
again p = init p.certificates p.requests p.vault

abbrev root : CertificateManifest
root =
    root_manifest toy toy_x509 (draw "rk" 7) acme usage
      (record { secret_name = "certificates/root/root"; version = 1; previous_versions = [] })

abbrev with_root : Pki
with_root = (create_certificate_authority toy toy_x509 (draw "rk" 7) acme usage empty).1

abbrev signing : IntermediateCa
signing = record { common_name = "mid"; root_ca = "root"; domain_constraint = "d.be" }

abbrev before : Pki
before = again with_root

abbrev pub made : Result Exception CertificateManifest → CertificateManifest
made r = elim r [ err x ↦ root | ok m ↦ m ]

abbrev mid : CertificateManifest
mid = made (create_intermediate_certificate toy toy_x509 (draw "mk" 8) signing before).0

abbrev pub with_mid : Pki
with_mid = (create_intermediate_certificate toy toy_x509 (draw "mk" 8) signing before).1

abbrev pub leaf : LeafCertificate
leaf = record {
  intermediate_ca = "mid";
  common_name = "web";
  san_dns = "web.d.be" ∷ [];
  san_ips = [];
  server_auth = true;
}

abbrev asked : Result Exception Text × Pki
asked = create_csr toy toy_x509 2000000 "lk" leaf (again with_mid)

abbrev pem_of : Result Exception Text → Text
pem_of r = elim r [ err x ↦ [] | ok t ↦ t ]

abbrev pem : Text
pem = pem_of asked.0

abbrev waiting : Pki
waiting = again asked.1

abbrev pub in_time : Signing
in_time = record { checked_at = 2000100; time = 2000100; serial = 9 }

-- Two months later.
abbrev too_late : Signing
too_late = record { checked_at = 8000000; time = 8000000; serial = 10 }

abbrev no_request : CsrManifest
no_request = record {
  name = "";
  metadata = record {
    type = CertificateTypes.leaf;
    common_name = "";
    issuer = "";
    org = "";
    org_unit = "";
    country = "";
    state_or_province = "";
    locality = "";
    key_usage = [];
    san_dns = none;
    san_ips = none;
    serial_number = none;
    not_before = none;
    not_after = none;
    certificate = none;
    chain = none;
    fingerprint = none;
  };
  spec = record {
    key_fingerprint = [];
    csr_fingerprint = [];
    submitted_at = 0;
    signed_at = none;
    rejected_at = none;
    status = CsrStatus.pending;
    rejected_reason = none;
  };
}

abbrev request_of : Result Exception CsrManifest → CsrManifest
request_of r = elim r [ err x ↦ no_request | ok m ↦ m ]

abbrev manifest_of : Option CsrManifest → CsrManifest
manifest_of none = no_request
manifest_of (some m) = m

abbrev stored : CsrManifest
stored = manifest_of (Dict.get waiting.requests "web")

only_named :
    (m : CsrManifest) (name : String) (r : CsrManifest)
    → Dict.get ((m.name, m) ∷ []) name ≡ some r
    → r.name ≡ name
unfolding Dict.get
only_named m name r e = ground (arith, eq_iff m.name name)

abbrev signed : Result Exception CsrManifest × Pki
signed = sign_csr toy toy_x509 in_time pem waiting

abbrev refused : Result Exception CsrManifest × Pki
refused = sign_csr toy toy_x509 too_late pem waiting

sign_csr-Outcome_example :
    (csr : toy_x509.Request) × (name : String) × (m : CsrManifest) × (toy_x509.load_csr pem
      ≡ some csr)
    × ((common_name_of toy toy_x509 csr waiting).0 ≡ ok name)
    × (contains waiting.existing_requests name ≡ true)
    × (Dict.get waiting.requests name ≡ some m)
    × Outcome toy toy_x509 in_time csr m (request_of signed.0) waiting signed.1
unfolding create_intermediate_certificate contains init create_certificate_authority
    orbit_lab.Services.Vault.create Dict.has orbit_lab.Manifest.Secrets.check_fingerprint
    orbit_lab.Prelude.beq_list Dict.set orbit_lab.Manifest.Base.load Dict.get
    orbit_lab.DataTypes.certificate_type_value orbit_lab.Services.Vault.get
    orbit_lab.Services.Vault.read orbit_lab.Services.Vault.save
    orbit_lab.Services.Vault.Paths.beq_path orbit_lab.Services.Vault.Paths.file_path
    orbit_lab.DataTypes.key_usage_value orbit_lab.DataTypes.to_x509_usage_params
    orbit_lab.DataTypes.usage_in orbit_lab.Manifest.Base.get_existing orbit_lab.Manifest.Base.save
    orbit_lab.Services.Pki.Models.to_x509 orbit_lab.Services.Pki.Certify.certificate_metadata
    orbit_lab.Services.Pki.fingerprint orbit_lab.Services.Pki.Certify.intermediate_fields
    intermediate_manifest load_certificate orbit_lab.Services.Pki.load_vault_key root_fields
    root_manifest orbit_lab.Services.Pki.save_certificate
    orbit_lab.Services.Pki.Certify.sign_intermediate orbit_lab.Services.Pki.store_key
    orbit_lab.Services.Vault.Cipher.decrypt orbit_lab.Services.Vault.Cipher.decrypt_raw
    orbit_lab.Services.Vault.Cipher.encrypt orbit_lab.Services.Vault.Cipher.parse
    orbit_lab.Services.Vault.Paths.pairs orbit_lab.Services.Vault.Paths.parts
    orbit_lab.Services.Vault.check orbit_lab.Services.Vault.get_checksum
    orbit_lab.Services.Vault.load create_csr sign_csr common_name_of
    orbit_lab.Services.Pki.get_signing_cert orbit_lab.Services.Pki.Requests.new_request
    orbit_lab.Services.Pki.Requests.sign_manifest orbit_lab.Services.Pki.Requests.issue_certificate
    orbit_lab.Services.Pki.Requests.leaf_fields orbit_lab.Services.Pki.verify_csr_signing_request
    orbit_lab.Services.Pki.get_common_name orbit_lab.Services.Pki.Models.get_x509_san
    orbit_lab.Services.Pki.Models.key_usage
sign_csr-Outcome_example =
    sign_csr-Outcome toy toy_x509 in_time pem waiting signed.1 (request_of signed.0) refl

sign_csr_rejection_unsaved_example : refused.1 ≡ waiting
unfolding create_intermediate_certificate contains init create_certificate_authority
    orbit_lab.Services.Vault.create Dict.has orbit_lab.Manifest.Secrets.check_fingerprint
    orbit_lab.Prelude.beq_list Dict.set orbit_lab.Manifest.Base.load Dict.get
    orbit_lab.DataTypes.certificate_type_value orbit_lab.Services.Vault.get
    orbit_lab.Services.Vault.read orbit_lab.Services.Vault.save
    orbit_lab.Services.Vault.Paths.beq_path orbit_lab.Services.Vault.Paths.file_path
    orbit_lab.DataTypes.key_usage_value orbit_lab.DataTypes.to_x509_usage_params
    orbit_lab.DataTypes.usage_in orbit_lab.Manifest.Base.get_existing orbit_lab.Manifest.Base.save
    orbit_lab.Services.Pki.Models.to_x509 orbit_lab.Services.Pki.Certify.certificate_metadata
    orbit_lab.Services.Pki.fingerprint orbit_lab.Services.Pki.Certify.intermediate_fields
    intermediate_manifest load_certificate orbit_lab.Services.Pki.load_vault_key root_fields
    root_manifest orbit_lab.Services.Pki.save_certificate
    orbit_lab.Services.Pki.Certify.sign_intermediate orbit_lab.Services.Pki.store_key
    orbit_lab.Services.Vault.Cipher.decrypt orbit_lab.Services.Vault.Cipher.decrypt_raw
    orbit_lab.Services.Vault.Cipher.encrypt orbit_lab.Services.Vault.Cipher.parse
    orbit_lab.Services.Vault.Paths.pairs orbit_lab.Services.Vault.Paths.parts
    orbit_lab.Services.Vault.check orbit_lab.Services.Vault.get_checksum
    orbit_lab.Services.Vault.load create_csr sign_csr common_name_of
    orbit_lab.Services.Pki.get_signing_cert orbit_lab.Services.Pki.Requests.new_request
    orbit_lab.Services.Pki.Requests.sign_manifest orbit_lab.Services.Pki.Requests.issue_certificate
    orbit_lab.Services.Pki.Requests.leaf_fields orbit_lab.Services.Pki.verify_csr_signing_request
    orbit_lab.Services.Pki.get_common_name orbit_lab.Services.Pki.Models.get_x509_san
    orbit_lab.Services.Pki.Models.key_usage
sign_csr_rejection_unsaved_example =
    sign_csr_rejection_unsaved toy toy_x509 too_late pem waiting refused.1 (request_of refused.0)
      refl refl

sign_csr-sign_csr_example :
    sign_csr toy toy_x509 too_late pem signed.1 ≡ (ok (request_of signed.0), signed.1)
unfolding create_intermediate_certificate contains init create_certificate_authority
    orbit_lab.Services.Vault.create Dict.has orbit_lab.Manifest.Secrets.check_fingerprint
    orbit_lab.Prelude.beq_list Dict.set orbit_lab.Manifest.Base.load Dict.get
    orbit_lab.DataTypes.certificate_type_value orbit_lab.Services.Vault.get
    orbit_lab.Services.Vault.read orbit_lab.Services.Vault.save
    orbit_lab.Services.Vault.Paths.beq_path orbit_lab.Services.Vault.Paths.file_path
    orbit_lab.DataTypes.key_usage_value orbit_lab.DataTypes.to_x509_usage_params
    orbit_lab.DataTypes.usage_in orbit_lab.Manifest.Base.get_existing orbit_lab.Manifest.Base.save
    orbit_lab.Services.Pki.Models.to_x509 orbit_lab.Services.Pki.Certify.certificate_metadata
    orbit_lab.Services.Pki.fingerprint orbit_lab.Services.Pki.Certify.intermediate_fields
    intermediate_manifest load_certificate orbit_lab.Services.Pki.load_vault_key root_fields
    root_manifest orbit_lab.Services.Pki.save_certificate
    orbit_lab.Services.Pki.Certify.sign_intermediate orbit_lab.Services.Pki.store_key
    orbit_lab.Services.Vault.Cipher.decrypt orbit_lab.Services.Vault.Cipher.decrypt_raw
    orbit_lab.Services.Vault.Cipher.encrypt orbit_lab.Services.Vault.Cipher.parse
    orbit_lab.Services.Vault.Paths.pairs orbit_lab.Services.Vault.Paths.parts
    orbit_lab.Services.Vault.check orbit_lab.Services.Vault.get_checksum
    orbit_lab.Services.Vault.load create_csr sign_csr common_name_of
    orbit_lab.Services.Pki.get_signing_cert orbit_lab.Services.Pki.Requests.new_request
    orbit_lab.Services.Pki.Requests.sign_manifest orbit_lab.Services.Pki.Requests.issue_certificate
    orbit_lab.Services.Pki.Requests.leaf_fields orbit_lab.Services.Pki.verify_csr_signing_request
    orbit_lab.Services.Pki.get_common_name orbit_lab.Services.Pki.Models.get_x509_san
    orbit_lab.Services.Pki.Models.key_usage
sign_csr-sign_csr_example =
    sign_csr-sign_csr toy toy_x509 in_time too_late pem waiting signed.1 (request_of signed.0) named
      refl refl
  where
    named :
        (name : String) (r : CsrManifest) → Dict.get waiting.requests name ≡ some r → r.name ≡ name
    named name r e = only_named stored name r e

abbrev pair : SshKeyTypes → Pair
pair t = record { private_key = λ phrase. "private"; public_key = "public"; fingerprint = "mark" }

abbrev no_keys : Keys
no_keys = record { existing_keys = []; manifests = []; vault = [] }

abbrev key_manifest : SshKeyManifest
key_manifest = record {
  name = "me";
  metadata = record {
    public_key = "public";
    fingerprint = "mark";
    key_type = SshKeyTypes.ed25519;
    passphrase = false;
  };
  spec = record { secret_name = "ssh/key/ed25519/me"; version = 1; previous_versions = [] };
}

abbrev with_key : Keys
with_key = (create_key_pair toy (λ s. s) now pair "me" SshKeyTypes.ed25519 (some "") no_keys).1
