-- ===== src/Services/Pki/Requests.antt =====
-- Signing requests of orbitlab/services/pki/client.py: `create_csr`, `sign_csr` and `create_leaf_certificate`.
use orbit_lab.Prelude.{
  ℕ, ◌+◌, ◌-◌, String, true, false, not, Option, none, some, contains, ◌==◌, string_eq,
  if◌then◌else◌,
}
use orbit_lab.Prelude.Exec.{ok, err, Exec, pure, gets, or_raise, modify, ensure, ◌>>=◌, ◌>>◌}
use orbit_lab.Exceptions.{
  Exception, value_error, validation_error, certificate_exists, csr_exists, csr_signing,
}
use orbit_lab.DataTypes.{ManifestKind, CertificateTypes, CsrStatus}
use orbit_lab.Constants.{leaf_ca_days_valid}
use orbit_lab.Manifest.Ref.{Text, codes}
use orbit_lab.Manifest.Base.{load, save, delete, get_existing}
use orbit_lab.Manifest.Secrets.{CertificateMetadata, CertificateManifest, CsrManifest, days}
use orbit_lab.Services.Vault.{Now}
use orbit_lab.Services.Vault.Cipher.{Crypto}
use orbit_lab.Services.Pki.{
  Pki, get_common_name, is_pending, fingerprint, get_signing_cert, verify_csr_signing_request,
  load_vault_key, store_key, save_certificate, subject_under,
}
use orbit_lab.Services.Pki.Models.{
  LeafCertificate, Name, Fields, X509, to_x509, get_x509_san, key_usage,
}

-- What signing takes from outside: the times of its check and of its certificate, and the serial number.
pub record Signing : Type 0 where
  pub checked_at : ℕ
  pub time : ℕ
  pub serial : ℕ

abbrev pub issue : CsrManifest → ℕ → ℕ → ℕ → ℕ → Text → Text → Text → CsrManifest
issue m serial not_before not_after now mark chain cert_pem = record m {
  metadata = record m.metadata {
    serial_number = some serial;
    not_before = some not_before;
    not_after = some not_after;
    fingerprint = some mark;
    chain = some chain;
    certificate = some cert_pem;
  };
  spec = record m.spec { signed_at = some now; status = CsrStatus.issued };
}

-- What a leaf certificate takes from its issued request.
abbrev pub leaf_metadata : CsrManifest → Option CertificateMetadata
leaf_metadata m = do
  not_before ← m.metadata.not_before
  not_after ← m.metadata.not_after
  mark ← m.metadata.fingerprint
  serial ← m.metadata.serial_number
  certificate ← m.metadata.certificate
  some (record {
    type = CertificateTypes.leaf;
    common_name = m.name;
    issuer = m.metadata.issuer;
    org = m.metadata.org;
    org_unit = m.metadata.org_unit;
    country = m.metadata.country;
    state_or_province = m.metadata.state_or_province;
    locality = m.metadata.locality;
    not_before = not_before;
    not_after = not_after;
    certificate = certificate;
    fingerprint = mark;
    key_usage = m.metadata.key_usage;
    serial_number = serial;
    domain_constraint = none;
    san_dns = m.metadata.san_dns;
    san_ips = m.metadata.san_ips;
    chain = m.metadata.chain;
  })
  where
    ◌>>=◌ : {A B : Type 0} → Option A → (A → Option B) → Option B
    ◌>>=◌ none f = none
    ◌>>=◌ (some a) f = f a

module _ (c : Crypto) (x : X509) where
  unfoldable pub new_request :
      ℕ → x.PrivateKey → LeafCertificate → CertificateMetadata → x.Request → CsrManifest
  unfolding fingerprint key_usage
  new_request now key lc issuer csr = record {
    name = lc.common_name;
    metadata = record {
      type = CertificateTypes.leaf;
      common_name = lc.common_name;
      issuer = issuer.common_name;
      org = issuer.org;
      org_unit = issuer.org_unit;
      country = issuer.country;
      state_or_province = issuer.state_or_province;
      locality = issuer.locality;
      key_usage = key_usage lc;
      san_dns = some lc.san_dns;
      san_ips = some lc.san_ips;
      serial_number = none;
      not_before = none;
      not_after = none;
      certificate = none;
      chain = none;
      fingerprint = none;
    };
    spec = record {
      key_fingerprint = fingerprint c x (codes (x.key_to_pem key));
      csr_fingerprint = fingerprint c x (x.csr_to_pem csr);
      submitted_at = now;
      signed_at = none;
      rejected_at = none;
      status = CsrStatus.pending;
      rejected_reason = none;
    };
  }

  unfoldable pub create_csr : ℕ → String → LeafCertificate → Exec Exception Pki Text
  unfolding get_signing_cert new_request to_x509 get_x509_san save
  create_csr now key_pem lc = do
    known ← gets (λ p. contains p.existing_requests lc.common_name)
    ensure (not known) (csr_exists lc.common_name true)
    key ← λ p. or_raise (x.load_private_key key_pem) value_error p
    issuer ← get_signing_cert c x lc.intermediate_ca
    let csr =
        x.sign_request key (to_x509 (subject_under lc.common_name issuer.metadata))
          (get_x509_san lc)
    let m = new_request now key lc issuer.metadata csr
    modify (λ p. record p { requests = save p.requests m.name m })
    pure (x.csr_to_pem csr)

  unfoldable pub leaf_fields : Signing → x.Request → Name → Fields x.PublicKey
  leaf_fields s csr issuer = record {
    serial_number = s.serial;
    subject_name = x.request_subject csr;
    issuer_name = issuer;
    public_key = x.request_key csr;
    not_valid_before = s.time - 300;
    not_valid_after = s.time + days leaf_ca_days_valid;
    ca = false;
    path_length = none;
    usage = none;
    authority_key = none;
    subject_key = none;
    permitted_dns = none;
  }

  -- A pending request's certificate, and the manifest that records it.
  unfoldable pub issue_certificate :
      Signing → x.Request → CsrManifest → Exec Exception Pki CsrManifest
  unfolding get_signing_cert load_vault_key leaf_fields fingerprint save
  issue_certificate s csr m = do
    issuer ← get_signing_cert c x m.metadata.issuer
    signing_key ← load_vault_key c x issuer.spec
    signing_cert ← λ p. or_raise (x.load_cert issuer.metadata.certificate) value_error p
    let f = leaf_fields s csr (x.fields signing_cert).subject_name
    let cert_pem = x.cert_to_pem (x.sign signing_key f)
    let signed =
        issue m s.serial f.not_valid_before f.not_valid_after s.time (fingerprint c x cert_pem)
          issuer.metadata.certificate cert_pem
    modify (λ p. record p { requests = save p.requests signed.name signed })
    pure signed

  unfoldable pub sign_manifest : Signing → x.Request → CsrManifest → Exec Exception Pki CsrManifest
  unfolding issue_certificate
  sign_manifest s csr m = if is_pending m.spec.status then issue_certificate s csr m else pure m

  -- A request with no common name, or with an empty one, is refused.
  unfoldable pub common_name_of : x.Request → Exec Exception Pki String
  unfolding get_common_name
  common_name_of csr p = elim (get_common_name (x.request_subject csr)) [
    | none ↦ (err csr_signing, p)
    | some name ↦ if name == "" then (err csr_signing, p) else (ok name, p)
  ]

  unfoldable pub sign_csr : Signing → Text → Exec Exception Pki CsrManifest
  unfolding common_name_of verify_csr_signing_request sign_manifest
  sign_csr s csr_pem = do
    csr ← λ p. or_raise (x.load_csr csr_pem) value_error p
    common_name ← common_name_of csr
    known ← gets (λ p. contains p.existing_requests common_name)
    ensure known (csr_exists common_name false)
    m ← λ p. (load ManifestKind.csr p.requests common_name, p)
    sign_manifest s csr (verify_csr_signing_request c x s.checked_at m csr)

  -- The part that follows the signature. The vault's path of a leaf's key is the one of an intermediate
  -- certificate.
  unfoldable pub store_leaf :
      x.PrivateKey → Now → LeafCertificate → CsrManifest → Exec Exception Pki CertificateManifest
  unfolding store_key save_certificate delete
  store_leaf key now lc m = do
    spec ← store_key c x now CertificateTypes.intermediate lc.common_name (x.key_to_pem key)
    metadata ← or_raise (leaf_metadata m) validation_error
    certificate ← save_certificate c x (record { name = m.name; metadata = metadata; spec = spec })
    modify (λ p. record p { requests = delete p.requests m.name })
    pure certificate

  unfoldable pub create_leaf_certificate :
      x.PrivateKey → ℕ → Signing → Now → LeafCertificate → Exec Exception Pki CertificateManifest
  unfolding create_csr sign_csr store_leaf get_existing
  create_leaf_certificate key submitted s now lc = do
    known ← gets (λ p. contains p.existing_certificates lc.common_name)
    ensure (not known) (certificate_exists lc.common_name true)
    csr_pem ← create_csr submitted (x.key_to_pem key) lc
    modify (λ p. record p { existing_requests = get_existing p.requests })
    m ← sign_csr s csr_pem
    store_leaf key now lc m
