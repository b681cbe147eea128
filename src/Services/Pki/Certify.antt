-- ===== src/Services/Pki/Certify.antt =====
-- `create_certificate_authority` and `create_intermediate_certificate` of orbitlab/services/pki/client.py.
use orbit_lab.Prelude.{
  ◌+◌, ◌-◌, String, true, false, not, Option, none, some, List, contains, string_eq, nat_eq,
  list_eq,
}
use orbit_lab.Prelude.Exec.{Exec, gets, or_raise, ensure, ◌>>=◌, ◌>>◌}
use orbit_lab.Exceptions.{Exception, value_error, certificate_exists, certificate_type}
use orbit_lab.DataTypes.{CertificateTypes, KeyUsageTypes, to_x509_usage_params}
use orbit_lab.Constants.{root_ca_days_valid, intermediate_ca_days_valid}
use orbit_lab.Manifest.Ref.{Text}
use orbit_lab.Manifest.Secrets.{SecretSpec, CertificateMetadata, CertificateManifest, days}
use orbit_lab.Services.Vault.Cipher.{Crypto}
use orbit_lab.Services.Pki.{
  Pki, Draw, same_type, subject_under, fingerprint, load_certificate, save_certificate,
  load_vault_key, store_key,
}
use orbit_lab.Services.Pki.Models.{IntermediateCa, Subject, Name, Fields, X509, to_x509}

module _ (c : Crypto) (x : X509) where
  unfoldable pub root_fields : Draw x.PrivateKey → Subject → List KeyUsageTypes → Fields x.PublicKey
  unfolding to_x509 to_x509_usage_params
  root_fields d subject key_usage = record {
    serial_number = d.serial;
    subject_name = to_x509 subject;
    issuer_name = to_x509 subject;
    public_key = x.public_key d.key;
    not_valid_before = d.time - 300;
    not_valid_after = d.time + days root_ca_days_valid;
    ca = true;
    path_length = none;
    usage = some (to_x509_usage_params key_usage);
    authority_key = none;
    subject_key = none;
    permitted_dns = none;
  }

  -- The metadata of a certificate that carries its fields.
  unfoldable pub certificate_metadata :
      CertificateTypes
      → Subject
      → String
      → Text
      → Fields x.PublicKey
      → List KeyUsageTypes
      → Option String
      → CertificateMetadata
  unfolding fingerprint
  certificate_metadata type subject issuer cert_pem f key_usage domain_constraint = record {
    type = type;
    common_name = subject.common_name;
    issuer = issuer;
    org = subject.org;
    org_unit = subject.org_unit;
    country = subject.country;
    state_or_province = subject.state_or_province;
    locality = subject.locality;
    not_before = f.not_valid_before;
    not_after = f.not_valid_after;
    certificate = cert_pem;
    fingerprint = fingerprint c x cert_pem;
    key_usage = key_usage;
    serial_number = f.serial_number;
    domain_constraint = domain_constraint;
    san_dns = none;
    san_ips = none;
    chain = none;
  }

  unfoldable pub root_manifest :
      Draw x.PrivateKey → Subject → List KeyUsageTypes → SecretSpec → CertificateManifest
  unfolding root_fields certificate_metadata
  root_manifest d subject key_usage spec =
      let f = root_fields d subject key_usage in
      record {
        name = subject.common_name;
        metadata =
            certificate_metadata CertificateTypes.root subject subject.common_name
              (x.cert_to_pem (x.sign d.key f)) f key_usage none;
        spec = spec;
      }

  unfoldable pub create_certificate_authority :
      Draw x.PrivateKey → Subject → List KeyUsageTypes → Exec Exception Pki CertificateManifest
  unfolding store_key save_certificate root_manifest
  create_certificate_authority d subject key_usage = do
    known ← gets (λ p. contains p.existing_certificates subject.common_name)
    ensure (not known) (certificate_exists subject.common_name true)
    spec ← store_key c x d.vault CertificateTypes.root subject.common_name (x.key_to_pem d.key)
    save_certificate c x (root_manifest d subject key_usage spec)

  unfoldable pub intermediate_fields :
      Draw x.PrivateKey
      → IntermediateCa
      → CertificateMetadata
      → x.PrivateKey
      → Name
      → Fields x.PublicKey
  unfolding to_x509 to_x509_usage_params
  intermediate_fields d ca root root_key root_subject = record {
    serial_number = d.serial;
    subject_name = to_x509 (subject_under ca.common_name root);
    issuer_name = root_subject;
    public_key = x.public_key d.key;
    not_valid_before = d.time - 300;
    not_valid_after = d.time + days intermediate_ca_days_valid;
    ca = true;
    path_length = some 0;
    usage = some (to_x509_usage_params root.key_usage);
    authority_key = some (x.public_key root_key);
    subject_key = some (x.public_key d.key);
    permitted_dns = some ca.domain_constraint;
  }

  unfoldable pub intermediate_manifest :
      Draw x.PrivateKey
      → IntermediateCa
      → CertificateMetadata
      → x.PrivateKey
      → x.Certificate
      → SecretSpec
      → CertificateManifest
  unfolding intermediate_fields certificate_metadata
  intermediate_manifest d ca root root_key root_cert spec =
      let f = intermediate_fields d ca root root_key (x.fields root_cert).subject_name in
      record {
        name = ca.common_name;
        metadata =
            certificate_metadata CertificateTypes.intermediate (subject_under ca.common_name root)
              root.common_name (x.cert_to_pem (x.sign root_key f)) f root.key_usage
              (some ca.domain_constraint);
        spec = spec;
      }

  -- The part that follows the checks.
  unfoldable pub sign_intermediate :
      Draw x.PrivateKey
      → IntermediateCa
      → CertificateManifest
      → Exec Exception Pki CertificateManifest
  unfolding load_vault_key store_key save_certificate intermediate_manifest
  sign_intermediate d ca root = do
    root_key ← load_vault_key c x root.spec
    root_cert ← λ p. or_raise (x.load_cert root.metadata.certificate) value_error p
    spec ← store_key c x d.vault CertificateTypes.intermediate ca.common_name (x.key_to_pem d.key)
    save_certificate c x (intermediate_manifest d ca root.metadata root_key root_cert spec)

  unfoldable pub create_intermediate_certificate :
      Draw x.PrivateKey → IntermediateCa → Exec Exception Pki CertificateManifest
  unfolding load_certificate sign_intermediate
  create_intermediate_certificate d ca = do
    known ← gets (λ p. contains p.existing_certificates ca.common_name)
    ensure (not known) (certificate_exists ca.common_name true)
    root_known ← gets (λ p. contains p.existing_certificates ca.root_ca)
    ensure root_known (certificate_exists ca.root_ca false)
    root ← load_certificate c x ca.root_ca
    ensure (same_type root.metadata.type CertificateTypes.root)
        (certificate_type ca.root_ca CertificateTypes.root)
    sign_intermediate d ca root
