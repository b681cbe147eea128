-- ===== src/Tests/Toy.antt =====
-- A concrete instance of the vault's primitives, in which the tests run: the secret's fields one after another,
-- and no cipher.
pub mod Codecs
pub mod Certificates
use orbit_lab.Prelude.{
  ℕ, zero, suc, ◌+◌, ◌≡◌, refl, String, Option, none, some, List, [], ◌∷◌, ◌++◌, length,
}
use orbit_lab.Services.Vault.Cipher.{Crypto, Secret, Entropy}
use Codecs.{Codec, codes, nat, list, text, option, pair}

abbrev Fields : Type 0
Fields = (String × String) × ((ℕ × ℕ) × ((List ℕ × Option ℕ) × List (String × String)))

abbrev fields : Codec Fields
fields =
    pair (pair text text)
      (pair (pair nat nat) (pair (pair (list nat) (option nat)) (list (pair text text))))

abbrev of_secret : Secret → Fields
of_secret s = (
  (s.name, s.secret_string),
  ((s.created_at, s.version), ((s.checksum, s.updated_at), s.metadata)),
)

abbrev to_secret : Fields → Secret
to_secret ((name, secret_string), ((created_at, version), ((checksum, updated_at), metadata))) =
    record {
      name = name;
      secret_string = secret_string;
      created_at = created_at;
      version = version;
      checksum = checksum;
      updated_at = updated_at;
      metadata = metadata;
    }

abbrev read_secret : Option (Fields × List ℕ) → Option Secret
read_secret none = none
read_secret (some (f, rest)) = some (to_secret f)

abbrev pub toy : Crypto
toy = record {
  sha256 = codes;
  derive_key = λ k. k;
  aes_encrypt = λ k n d. d;
  aes_decrypt = λ k n d. some d;
  b64encode = λ b. b;
  b64decode = λ b. some b;
  dump_json = λ s. fields.put (of_secret s) [];
  validate_json = λ b. read_secret (fields.get b);
  b64_reads_back = λ b. refl;
  aes_reads_back = λ k n d. refl;
  json_reads_back = λ s. rw (fields.get-put (of_secret s) []);
}

abbrev pub zeros : ℕ → List ℕ
zeros zero = []
zeros (suc n) = 0 ∷ zeros n

abbrev pub no_entropy : Entropy
no_entropy = record { salt = zeros 16; nonce = zeros 12; salt_length = refl; nonce_length = refl }
