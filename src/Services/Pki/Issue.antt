-- ===== src/Services/Pki/Issue.antt =====
-- What signing a request does: `sign_csr` of orbitlab/services/pki/client.py.
use orbit_lab.Prelude.{
  ℕ, ◌≡◌, refl, String, true, some, ◌==◌, string_eq, arith, beq_list_iff, nat_eq, list_eq, inl, inr,
  Option-cases,
}
use orbit_lab.Prelude.Dict
use orbit_lab.Prelude.Exec.{ok, Result-cases}
use orbit_lab.DataTypes.{CertificateTypes, certificate_type_value, CsrStatus}
use orbit_lab.Manifest.Base.{load, save}
use orbit_lab.Manifest.Secrets.{
  SecretSpec, CertificateManifest, CsrManifest, check_fingerprint, sha256_fingerprint,
}
use orbit_lab.Services.Vault
use orbit_lab.Services.Vault.{Files, read}
use orbit_lab.Services.Vault.Cipher.{Crypto, Secret}
use orbit_lab.Services.Pki.{Pki, get_signing_cert, load_certificate, load_vault_key}
use orbit_lab.Services.Pki.Models.{X509}
use orbit_lab.Services.Pki.Requests.{Signing, issue_certificate, leaf_fields}

vault_get-state :
    (c : Crypto) (name : String) (v : ℕ) (files : Files) → (Vault.get c name v files).1 ≡ files
unfolding Vault.get
vault_get-state c name v files = elim (Result-cases (read c name v files)) [
  | inl (e, h) ↦ rw h
  | inr (blob, h) ↦ rw h
]

is_intermediate :
    (t : CertificateTypes)
    → certificate_type_value t == certificate_type_value CertificateTypes.intermediate ≡ true
    → t ≡ CertificateTypes.intermediate
unfolding certificate_type_value
is_intermediate CertificateTypes.root h = absurd cc
is_intermediate CertificateTypes.intermediate h = refl
is_intermediate CertificateTypes.leaf h = absurd cc
is_intermediate CertificateTypes.client h = absurd cc

module _ (c : Crypto) (x : X509) where
  pub load_certificate_ok :
      (name : String) (p q : Pki) (m : CertificateManifest)
      → load_certificate c x name p ≡ (ok m, q)
      → (q ≡ p)
        × (Dict.get p.certificates name ≡ some m)
        × (m.metadata.fingerprint ≡ sha256_fingerprint x.hexdigest m.metadata.certificate)
  unfolding load_certificate load check_fingerprint
  load_certificate_ok name p q m h = ground (
    arith,
    beq_list_iff m.metadata.fingerprint (sha256_fingerprint x.hexdigest m.metadata.certificate),
  )

  pub load_vault_key_ok :
      (spec : SecretSpec) (p q : Pki) (key : x.PrivateKey)
      → load_vault_key c x spec p ≡ (ok key, q)
      → (q ≡ p)
        × ((s : Secret) × (Vault.get c spec.secret_name spec.version p.vault ≡ (ok s, p.vault))
            × (x.load_private_key s.secret_string ≡ some key))
  unfolding load_vault_key
  load_vault_key_ok spec p q key h =
      let r = Vault.get c spec.secret_name spec.version p.vault in
      let kept : r.1 ≡ p.vault = vault_get-state c spec.secret_name spec.version p.vault in
      elim (Result-cases r.0) [
        | inl (y, e) ↦ absurd (ground arith)
        | inr (s, e) ↦ elim (Option-cases (x.load_private_key s.secret_string)) [
          | inl f ↦ absurd (ground arith)
          | inr (k, f) ↦ (ground arith, (s, ground arith, ground arith))
        ]
      ]

  get_signing_cert_ok :
      (name : String) (p q : Pki) (m : CertificateManifest)
      → get_signing_cert c x name p ≡ (ok m, q)
      → (q ≡ p)
        × (Dict.get p.certificates name ≡ some m)
        × (m.metadata.type ≡ CertificateTypes.intermediate)
  unfolding get_signing_cert
  get_signing_cert_ok name p q m h = elim (Result-cases (load_certificate c x name p).0) [
    | inl (y, e) ↦ absurd (ground arith)
    | inr (n, e) ↦
        let (a, b, d) =
          load_certificate_ok name p (load_certificate c x name p).1 n (ground arith) in
        (ground arith, ground arith, ground (arith, is_intermediate m.metadata.type))
  ]

  -- What signing a pending request means: an intermediate certificate signed the request's subject and key,
  -- for a year and not as an authority, and the request's manifest records the certificate on disk.
  pub record IsIssued (s : Signing) (csr : x.Request) (m m' : CsrManifest) (p q : Pki)
      : Type 0 where
    pub issuer : CertificateManifest
    pub signing_key : x.PrivateKey
    pub signing_cert : x.Certificate
    pub secret : Secret
    pub known : Dict.get p.certificates m.metadata.issuer ≡ some issuer
    pub type : issuer.metadata.type ≡ CertificateTypes.intermediate
    pub in_vault :
        Vault.get c issuer.spec.secret_name issuer.spec.version p.vault ≡ (ok secret, p.vault)
    pub key : x.load_private_key secret.secret_string ≡ some signing_key
    pub cert : x.load_cert issuer.metadata.certificate ≡ some signing_cert
    pub certificate :
        m'.metadata.certificate
        ≡ some (
            x.cert_to_pem
              (x.sign signing_key (leaf_fields c x s csr (x.fields signing_cert).subject_name)))
    pub chain : m'.metadata.chain ≡ some issuer.metadata.certificate
    pub status : m'.spec.status ≡ CsrStatus.issued
    pub saved : q ≡ record p { requests = Dict.set p.requests m.name m' }

  pub issue_certificate_ok :
      (s : Signing) (csr : x.Request) (m m' : CsrManifest) (p q : Pki)
      → issue_certificate c x s csr m p ≡ (ok m', q)
      → IsIssued s csr m m' p q
  unfolding issue_certificate save leaf_fields
  issue_certificate_ok s csr m m' p q h =
      let r = get_signing_cert c x m.metadata.issuer p in
      elim (Result-cases r.0) [
        | inl (y, e) ↦ absurd (ground arith)
        | inr (issuer, e) ↦
            let (same, known, type) =
              get_signing_cert_ok m.metadata.issuer p r.1 issuer (ground arith) in
            let k = load_vault_key c x issuer.spec r.1 in
            elim (Result-cases k.0) [
              | inl (y, f) ↦ absurd (ground arith)
              | inr (key, f) ↦
                  let (same_vault, (secret, in_vault, loads)) =
                    load_vault_key_ok issuer.spec r.1 k.1 key (ground arith) in
                  elim (Option-cases (x.load_cert issuer.metadata.certificate)) [
                    | inl g ↦ absurd (ground arith)
                    | inr (cert, g) ↦ record {
                      issuer = issuer;
                      signing_key = key;
                      signing_cert = cert;
                      secret = secret;
                      known = known;
                      type = type;
                      in_vault = ground arith;
                      key = loads;
                      cert = g;
                      certificate = ground arith;
                      chain = ground arith;
                      status = ground arith;
                      saved = ground arith;
                    }
                  ]
            ]
      ]
