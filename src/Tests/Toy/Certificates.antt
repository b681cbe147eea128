-- ===== src/Tests/Toy/Certificates.antt =====
-- A concrete X.509 library for the tests: a certificate is its signer and its fields, written one after another.
use orbit_lab.Prelude.{
  ℕ, ◌≡◌, refl, ap, String, Bool, true, false, Option, none, some, List, [], ◌∷◌,
}
use orbit_lab.Services.Pki.Models.{Name, Fields, X509}
use orbit_lab.Tests.Toy.Codecs.{Codec, nat, list, text, option, pair}

abbrev of_bool : Option (ℕ × List ℕ) → Option (Bool × List ℕ)
of_bool none = none
of_bool (some (ℕ.zero, rest)) = some (false, rest)
of_bool (some (ℕ.suc n, rest)) = some (true, rest)

abbrev put_bool : Bool → List ℕ → List ℕ
put_bool true rest = 1 ∷ rest
put_bool false rest = 0 ∷ rest

abbrev get_bool : (b : Bool) (rest : List ℕ) → of_bool (nat.get (put_bool b rest)) ≡ some (b, rest)
get_bool true rest = refl
get_bool false rest = refl

abbrev bool : Codec Bool
bool = record { put = put_bool; get = λ b. of_bool (nat.get b); get-put = get_bool }

abbrev name : Codec Name
name = list (pair text text)

abbrev Row : Type 0
Row =
    ((String × (ℕ × (Name × Name))) × (String × (ℕ × ℕ)))
    × ((Bool × Option ℕ)
        × (Option (List (String × Bool)) × (Option String × (Option String × Option String))))

abbrev row : Codec Row
row = pair (pair (pair text (pair nat (pair name name))) (pair text (pair nat nat))) (
    pair (pair bool (option nat)) (
      pair (option (list (pair text bool)))
        (pair (option text) (pair (option text) (option text)))))

abbrev Certificate : Type 0
Certificate = String × Fields String

abbrev to_row : Certificate → Row
to_row (signer, f) = (
  (
    (signer, (f.serial_number, (f.subject_name, f.issuer_name))),
    (f.public_key, (f.not_valid_before, f.not_valid_after)),
  ),
  ((f.ca, f.path_length), (f.usage, (f.authority_key, (f.subject_key, f.permitted_dns)))),
)

abbrev of_row : Row → Certificate
of_row
      (
        ((signer, (serial, (subject, issuer))), (key, (before, after))),
        ((ca, path), (usage, (authority, (own, dns)))),
      ) =
    (
      signer,
      record {
        serial_number = serial;
        subject_name = subject;
        issuer_name = issuer;
        public_key = key;
        not_valid_before = before;
        not_valid_after = after;
        ca = ca;
        path_length = path;
        usage = usage;
        authority_key = authority;
        subject_key = own;
        permitted_dns = dns;
      },
    )

abbrev read_row : Option (Row × List ℕ) → Option Certificate
read_row none = none
read_row (some (r, rest)) = some (of_row r)

abbrev Request : Type 0
Request = String × (Name × Option (List String × List String))

abbrev request : Codec Request
request = pair text (pair name (option (pair (list text) (list text))))

abbrev read_request : Option (Request × List ℕ) → Option Request
read_request none = none
read_request (some (r, rest)) = some r

abbrev pub toy_x509 : X509
toy_x509 = record {
  PrivateKey = String;
  PublicKey = String;
  Certificate = Certificate;
  Request = Request;
  public_key = λ k. k;
  sign = λ k f. (k, f);
  fields = λ c. c.1;
  sign_request = λ k n san. (k, (n, san));
  request_subject = λ r. r.1.0;
  request_key = λ r. r.0;
  key_to_pem = λ k. k;
  cert_to_pem = λ c. row.put (to_row c) [];
  csr_to_pem = λ r. request.put r [];
  load_private_key = λ s. some s;
  load_cert = λ b. read_row (row.get b);
  load_csr = λ b. read_request (request.get b);
  hexdigest = λ b. b;
  name_digest = λ s. s;
  fields-sign = λ k f. refl;
  request_subject-sign_request = λ k n san. refl;
  request_key-sign_request = λ k n san. refl;
  load_private_key-key_to_pem = λ k. refl;
  load_cert-cert_to_pem = λ c. ap read_row (row.get-put (to_row c) []);
  load_csr-csr_to_pem = λ r. ap read_request (request.get-put r []);
}
