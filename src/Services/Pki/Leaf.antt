-- ===== src/Services/Pki/Leaf.antt =====
-- What `create_leaf_certificate` of orbitlab/services/pki/client.py leaves behind.
use orbit_lab.Prelude.{◌≡◌, none, some, string_eq}
use orbit_lab.Prelude.Dict
use orbit_lab.DataTypes.{CertificateTypes}
use orbit_lab.Manifest.Secrets.{CertificateManifest}
use orbit_lab.Services.Vault.Cipher.{Crypto}
use orbit_lab.Services.Pki.{Pki}
use orbit_lab.Services.Pki.Models.{X509}
use orbit_lab.Services.Pki.Authority.{HoldsKey}

module _ (c : Crypto) (x : X509) where
  -- The certificate is stored, the vault returns its key, and no request of its name is left.
  pub record IsStored (q : Pki) (key : x.PrivateKey) (m : CertificateManifest) : Type 0 where
    pub certificate : Dict.get q.certificates m.name ≡ some m
    pub type : m.metadata.type ≡ CertificateTypes.leaf
    pub holds : HoldsKey c x q.vault m.spec key
    pub request_gone : Dict.get q.requests m.name ≡ none
