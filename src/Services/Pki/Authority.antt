-- ===== src/Services/Pki/Authority.antt =====
-- What the authorities of orbitlab/services/pki/client.py are: `create_certificate_authority` and
-- `create_intermediate_certificate`.
use orbit_lab.Prelude.{◌≡◌, String, none, some, [], string_eq, arith, inl, inr}
use orbit_lab.Prelude.Dict
use orbit_lab.Prelude.Exec.{ok, Result-cases}
use orbit_lab.DataTypes.{CertificateTypes}
use orbit_lab.Manifest.Base.{load, save}
use orbit_lab.Manifest.Secrets.{SecretSpec, CertificateManifest}
use orbit_lab.Services.Vault
use orbit_lab.Services.Vault.{Files, Now}
use orbit_lab.Services.Vault.Cipher.{Crypto, Secret}
use orbit_lab.Services.Vault.RoundTrip.{get-create}
use orbit_lab.Services.Pki.{Pki, Draw, store_key, save_certificate, load_certificate, secret_path}
use orbit_lab.Services.Pki.Certify.{intermediate_fields}
use orbit_lab.Services.Pki.Models.{IntermediateCa, X509}

module _ (c : Crypto) (x : X509) where
  -- The vault returns this private key for a manifest.
  pub record HoldsKey (files : Files) (spec : SecretSpec) (key : x.PrivateKey) : Type 0 where
    pub secret : Secret
    pub found : Vault.get c spec.secret_name spec.version files ≡ (ok secret, files)
    pub loads : x.load_private_key secret.secret_string ≡ some key

  pub store_key_ok :
      (now : Now) (type : CertificateTypes) (name : String) (key : x.PrivateKey) (p q : Pki)
      (spec : SecretSpec)
      → store_key c x now type name (x.key_to_pem key) p ≡ (ok spec, q)
      → (q ≡ record p { vault = q.vault }) × HoldsKey q.vault spec key
  unfolding store_key
  store_key_ok now type name key p q spec h =
      let path = secret_path x.name_digest type name in
      let w = Vault.create c now path (x.key_to_pem key) [] p.vault in
      elim (Result-cases w.0) [
        | inl (y, e) ↦ absurd (ground arith)
        | inr (v, e) ↦
            let (one, found) =
              get-create c now path (x.key_to_pem key) [] p.vault w.1 v (ground arith) in
            let same : (q.vault ≡ w.1) × ((spec.secret_name ≡ path) × (spec.version ≡ v)) =
              ground arith in
            (
              ground arith,
              record {
                secret = record {
                  name = path;
                  secret_string = x.key_to_pem key;
                  created_at = now.time;
                  version = 1;
                  checksum = c.sha256 (x.key_to_pem key);
                  updated_at = none;
                  metadata = [];
                };
                found = rw (same.1.0, same.1.1, same.0) found;
                loads = x.load_private_key-key_to_pem key;
              },
            )
      ]

  pub save_certificate_ok :
      (m m' : CertificateManifest) (p q : Pki)
      → save_certificate c x m p ≡ (ok m', q)
      → (m' ≡ m)
        × (q ≡ record p { certificates = Dict.set p.certificates m.name m })
        × (load_certificate c x m.name q ≡ (ok m, q))
  unfolding save_certificate load_certificate save load
  save_certificate_ok m m' p q h = ground (arith, Dict.get-set_self p.certificates m.name m)

  -- The vault's key of this root, and no other, signed the certificate.
  pub record IsSignedBy (d : Draw x.PrivateKey) (ca : IntermediateCa) (root m : CertificateManifest)
      (p : Pki) : Type 0 where
    pub root_key : x.PrivateKey
    pub root_cert : x.Certificate
    pub key : HoldsKey p.vault root.spec root_key
    pub cert : x.load_cert root.metadata.certificate ≡ some root_cert
    pub signed :
        x.load_cert m.metadata.certificate
        ≡ some (
            x.sign root_key (
              intermediate_fields c x d ca root.metadata root_key
                (x.fields root_cert).subject_name))
