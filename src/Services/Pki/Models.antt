-- ===== src/Services/Pki/Models.antt =====
-- orbitlab/services/pki/models.py, and what the certificate services call of `cryptography`.
use orbit_lab.Prelude.{ℕ, String, ◌≡◌, Bool, Option, none, some, List, [], ◌∷◌, ◌++◌, if◌then◌else◌}
use orbit_lab.Prelude.Dict.{Dict}
use orbit_lab.DataTypes.{KeyUsageTypes}
use orbit_lab.Manifest.Ref.{Text}

pub record LeafCertificate : Type 0 where
  pub intermediate_ca : String
  pub common_name : String
  pub san_dns : List String
  pub san_ips : List String
  pub server_auth : Bool

unfoldable pub key_usage : LeafCertificate → List KeyUsageTypes
key_usage l =
    let usages = KeyUsageTypes.digital_signature ∷ KeyUsageTypes.key_agreement ∷ [] in
    if l.server_auth then usages ++ KeyUsageTypes.key_encipherment ∷ [] else usages

-- The DNS names and the addresses of the extension, where there is one.
unfoldable pub get_x509_san : LeafCertificate → Option (List String × List String)
get_x509_san l = elim l.san_dns [
  | [] ↦ elim l.san_ips [ [] ↦ none | ip ∷ ips ↦ some (l.san_dns, l.san_ips) ]
  | name ∷ names ↦ some (l.san_dns, l.san_ips)
]

pub record IntermediateCa : Type 0 where
  pub common_name : String
  pub root_ca : String
  pub domain_constraint : String

pub record Subject : Type 0 where
  pub common_name : String
  pub org : String
  pub org_unit : String
  pub country : String
  pub state_or_province : String
  pub locality : String

-- An X.509 name: the attributes with their object identifiers.
abbrev pub Name : Type 0
Name = Dict String String

unfoldable pub to_x509 : Subject → Name
to_x509 s =
    ("C", s.country)
    ∷ ("ST", s.state_or_province)
    ∷ ("L", s.locality)
    ∷ ("O", s.org)
    ∷ ("OU", s.org_unit)
    ∷ ("CN", s.common_name)
    ∷ []

-- What a certificate builder was told.
pub record Fields (PublicKey : Type 0) : Type 0 where
  pub serial_number : ℕ
  pub subject_name : Name
  pub issuer_name : Name
  pub public_key : PublicKey
  pub not_valid_before : ℕ
  pub not_valid_after : ℕ
  pub ca : Bool
  pub path_length : Option ℕ
  pub usage : Option (Dict String Bool)
  pub authority_key : Option PublicKey
  pub subject_key : Option PublicKey
  pub permitted_dns : Option String

-- The library's keys, certificates and requests, and the digest of a PEM and of a name. The laws are its documented behaviour: what it writes as
-- PEM it reads back, and a signed object has the fields that the builder was told.
pub record X509 : Type 1 where
  pub PrivateKey : Type 0
  pub PublicKey : Type 0
  pub Certificate : Type 0
  pub Request : Type 0
  pub public_key : PrivateKey → PublicKey
  pub sign : PrivateKey → Fields PublicKey → Certificate
  pub fields : Certificate → Fields PublicKey
  pub sign_request : PrivateKey → Name → Option (List String × List String) → Request
  pub request_subject : Request → Name
  pub request_key : Request → PublicKey
  pub key_to_pem : PrivateKey → String
  pub cert_to_pem : Certificate → Text
  pub csr_to_pem : Request → Text
  pub load_private_key : String → Option PrivateKey
  pub load_cert : Text → Option Certificate
  pub load_csr : Text → Option Request
  pub hexdigest : Text → Text
  pub name_digest : String → String
  pub fields-sign : (k : PrivateKey) (f : Fields PublicKey) → fields (sign k f) ≡ f
  pub request_subject-sign_request :
      (k : PrivateKey) (n : Name) (san : Option (List String × List String))
      → request_subject (sign_request k n san) ≡ n
  pub request_key-sign_request :
      (k : PrivateKey) (n : Name) (san : Option (List String × List String))
      → request_key (sign_request k n san) ≡ public_key k
  pub load_private_key-key_to_pem : (k : PrivateKey) → load_private_key (key_to_pem k) ≡ some k
  pub load_cert-cert_to_pem : (c : Certificate) → load_cert (cert_to_pem c) ≡ some c
  pub load_csr-csr_to_pem : (r : Request) → load_csr (csr_to_pem r) ≡ some r
