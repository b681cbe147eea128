-- ===== src/Services/Vault/Cipher.antt =====
-- `__encrypt__` and `__decrypt__` of orbitlab/services/vault/client.py, over the primitives of
-- `cryptography`, `base64`, `hashlib` and `pydantic`.
use orbit_lab.Prelude.{ℕ, String, ◌≡◌, Option, none, some, List, ◌++◌, take, drop, length}
use orbit_lab.Prelude.Dict.{Dict}
use orbit_lab.Prelude.Exec.{Result, ok, err}
use orbit_lab.Exceptions.{Exception, validation_error}

abbrev pub Bytes : Type 0
Bytes = List ℕ

pub record Secret : Type 0 where
  pub name : String
  pub secret_string : String
  pub created_at : ℕ
  pub version : ℕ
  pub checksum : List ℕ
  pub updated_at : Option ℕ
  pub metadata : Dict String String

-- What the vault calls of other packages. The laws are their documented behaviour: base64 and the JSON of
-- a model read back, AES-GCM decrypts what it encrypted under the same key and nonce.
pub record Crypto : Type 0 where
  pub sha256 : String → List ℕ
  pub derive_key : Bytes → Bytes
  pub aes_encrypt : Bytes → Bytes → Bytes → Bytes
  pub aes_decrypt : Bytes → Bytes → Bytes → Option Bytes
  pub b64encode : Bytes → Bytes
  pub b64decode : Bytes → Option Bytes
  pub dump_json : Secret → Bytes
  pub validate_json : Bytes → Option Secret
  pub b64_reads_back : (b : Bytes) → b64decode (b64encode b) ≡ some b
  pub aes_reads_back : (k n d : Bytes) → aes_decrypt k n (aes_encrypt k n d) ≡ some d
  pub json_reads_back : (s : Secret) → validate_json (dump_json s) ≡ some s

-- `secrets.token_bytes(16)` and `secrets.token_bytes(12)`
pub record Entropy : Type 0 where
  pub salt : Bytes
  pub nonce : Bytes
  pub salt_length : length salt ≡ 16
  pub nonce_length : length nonce ≡ 12

unfoldable pub encrypt : Crypto → Entropy → Secret → Bytes
encrypt c r s =
    c.b64encode (r.salt ++ r.nonce ++ c.aes_encrypt (c.derive_key r.salt) r.nonce (c.dump_json s))

-- Any failure of a primitive is an exception of its package.
unfoldable pub parse : Crypto → Option Bytes → Result Exception Secret
parse c none = err validation_error
parse c (some d) = elim (c.validate_json d) [ none ↦ err validation_error | some s ↦ ok s ]

unfoldable pub decrypt_raw : Crypto → Option Bytes → Result Exception Secret
unfolding parse
decrypt_raw c none = err validation_error
decrypt_raw c (some raw) =
    let salt = take 16 raw in
    let nonce = take 12 (drop 16 raw) in
    parse c (c.aes_decrypt (c.derive_key salt) nonce (drop 28 raw))

unfoldable pub decrypt : Crypto → Bytes → Result Exception Secret
unfolding decrypt_raw
decrypt c blob = decrypt_raw c (c.b64decode blob)
