-- ===== src/Services/Vault/RoundTrip.antt =====
-- What the vault returns for what was stored: orbitlab/services/vault/client.py.
use orbit_lab.Prelude.{
  ℕ, ◌+◌, String, ◌≡◌, refl, ap, ◌∙◌, none, some, ◌++◌, take, drop, length, take-append,
  drop-append, append_assoc, length-append, list_eq, nat_eq, beq_list_iff, arith, inl, inr,
}
use orbit_lab.Prelude.Dict
use orbit_lab.Prelude.Dict.{Dict}
use orbit_lab.Prelude.Exec.{Result, ok, err, Result-cases}
use orbit_lab.Exceptions.{Exception}
use orbit_lab.Services.Vault.Cipher.{
  Crypto, Entropy, Secret, Bytes, encrypt, decrypt, parse, decrypt_raw,
}
use orbit_lab.Services.Vault.Paths.{path_eq, file_path}
use orbit_lab.Services.Vault.{
  Files, Now, fresh, get_checksum, check, load, save, create, read, get, updated, update,
}

module _ (c : Crypto) where
  open c use {b64_reads_back, aes_reads_back, json_reads_back}

  cut_salt : (salt rest : Bytes) → length salt ≡ 16 → take 16 (salt ++ rest) ≡ salt
  cut_salt salt rest n = rw (← n) (take-append salt rest)

  cut_rest : (salt rest : Bytes) → length salt ≡ 16 → drop 16 (salt ++ rest) ≡ rest
  cut_rest salt rest n = rw (← n) (drop-append salt rest)

  cut_nonce : (nonce rest : Bytes) → length nonce ≡ 12 → take 12 (nonce ++ rest) ≡ nonce
  cut_nonce nonce rest n = rw (← n) (take-append nonce rest)

  cut_cipher :
      (salt nonce rest : Bytes)
      → length salt ≡ 16
      → length nonce ≡ 12
      → drop 28 (salt ++ nonce ++ rest) ≡ rest
  cut_cipher salt nonce rest n m = rw (← whole) (drop-append (salt ++ nonce) rest)
    where
      whole : length (salt ++ nonce) ≡ 28
      whole = omega (arith, length-append salt nonce)

  -- Decryption of what was encrypted gives the secret back, whatever the random salt and nonce.
  pub decrypt-encrypt : (r : Entropy) (s : Secret) → decrypt c (encrypt c r s) ≡ ok s
  unfolding decrypt encrypt
  decrypt-encrypt r s = rw (
    b64_reads_back _,
    decrypt_raw,
    cut_cipher r.salt r.nonce _ r.salt_length r.nonce_length,
    append_assoc,
    cut_salt r.salt _ r.salt_length,
    cut_rest r.salt _ r.salt_length,
    cut_nonce r.nonce _ r.nonce_length,
    aes_reads_back,
    parse,
    json_reads_back,
  )

  -- The secret as `__save__` stores it.
  abbrev pub stored : Secret → Secret
  stored s = record s { checksum = get_checksum c s }

  check-stored : (s : Secret) → check c (stored s) ≡ ok (stored s)
  unfolding check get_checksum
  check-stored s = rw ((beq_list_iff (c.sha256 s.secret_string) (c.sha256 s.secret_string)).1 refl)

  -- A stored secret is read with its checksum, and passes the check of it.
  pub load-encrypt : (r : Entropy) (s : Secret) → load c (encrypt c r (stored s)) ≡ ok (stored s)
  unfolding load
  load-encrypt r s = rw (decrypt-encrypt r (stored s), load) (check-stored s)

  check-checksum : (t s : Secret) → check c t ≡ ok s → s.checksum ≡ c.sha256 s.secret_string
  unfolding check get_checksum
  check-checksum t s h = ground (arith, beq_list_iff (c.sha256 t.secret_string) t.checksum)

  -- What is read has a right checksum.
  pub load-checksum :
      (blob : Bytes) (s : Secret) → load c blob ≡ ok s → s.checksum ≡ c.sha256 s.secret_string
  unfolding load
  load-checksum blob s h = elim (Result-cases (decrypt c blob)) [
    | inl (x, e) ↦ ground arith
    | inr (t, e) ↦ check-checksum t s (ground arith)
  ]

  pub get-found :
      (name : String) (version : ℕ) (files : Files) (blob : Bytes)
      → Dict.get files (file_path c name version) ≡ some blob
      → get c name version files ≡ (load c blob, files)
  unfolding get read
  get-found name version files blob h = rw (h, get, read) (ground arith)

  pub get-save :
      (now : Now) (name : String) (version : ℕ) (s : Secret) (files : Files)
      → get c name version (save c now (file_path c name version) s files)
        ≡ (ok (stored s), save c now (file_path c name version) s files)
  unfolding save
  get-save now name version s files =
      get-found name version _ _ (Dict.get-set_self files (file_path c name version) _)
      ∙ ap (λ r. (r, Dict.set files (file_path c name version) (encrypt c now.entropy (stored s))))
          (load-encrypt now.entropy s)

  -- What `create` stored is what `get` of version 1 returns: the value, the metadata, the time and the
  -- checksum.
  pub get-create :
      (now : Now) (name value : String) (metadata : Dict String String) (files files' : Files)
      (v : ℕ)
      → create c now name value metadata files ≡ (ok v, files')
      → (v ≡ 1)
        × (get c name v files' ≡ (
          ok (record {
            name = name;
            secret_string = value;
            created_at = now.time;
            version = 1;
            checksum = c.sha256 value;
            updated_at = none;
            metadata = metadata;
          }),
          files',
        ))
  unfolding create get_checksum
  get-create now name value metadata files files' v h = ground (
    arith,
    get-save now name 1 (fresh now name value metadata) files,
    ap (get c name 1) {x = save c now (file_path c name 1) (fresh now name value metadata) files}
        {y = files'},
  )

  pub update_cases {ℓ} :
      (P : Result Exception ℕ × Files → Type ℓ) (now : Now) (name value : String) (version : ℕ)
      (metadata : Dict String String) (files : Files)
      → ((x : Exception) → read c name version files ≡ err x → P (err x, files))
      → ((blob : Bytes) (x : Exception)
          → read c name version files ≡ ok blob
          → load c blob ≡ err x
          → P (err x, files))
      → ((blob : Bytes) (s : Secret)
          → read c name version files ≡ ok blob
          → load c blob ≡ ok s
          → let new = updated now value metadata s in
            P (ok new.version, save c now (file_path c name new.version) new files))
      → P (update c now name version value metadata files)
  unfolding update
  update_cases P now name value version metadata files unread unsound sound =
      elim (Result-cases (read c name version files)) [
        | inl (x, e) ↦ rw (e, update) (unread x e)
        | inr (blob, e) ↦ elim (Result-cases (load c blob)) [
          | inl (x, f) ↦ rw (e, update, f) (unsound blob x e f)
          | inr (s, f) ↦ rw (e, update, f) (sound blob s e f)
        ]
      ]

  pub updated-version :
      (now : Now) (value : String) (metadata : Dict String String) (s : Secret)
      → (updated now value metadata s).version ≡ s.version + 1
  unfolding updated
  updated-version now value metadata s = refl
