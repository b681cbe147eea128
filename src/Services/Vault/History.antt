-- ===== src/Services/Vault/History.antt =====
-- The vault over any history of operations: every file stays readable, with a right checksum and the
-- version of its path.
use orbit_lab.Prelude.{
  ℕ, zero, suc, ◌+◌, ◌-◌, String, ◌≡◌, refl, ap, sym, ◌∙◌, true, some, List, [], ◌∷◌, ◌==◌, arith,
  ◌⊎◌, inl, inr, Bool-cases,
}
use orbit_lab.Prelude.Dict
use orbit_lab.Prelude.Dict.{Dict}
use orbit_lab.Prelude.Exec.{ok}
use orbit_lab.Services.Vault.Cipher.{Crypto, Secret, Bytes, encrypt}
use orbit_lab.Services.Vault.Paths.{FilePath, path_eq, beq_path_iff, file_path}
use orbit_lab.Services.Vault.{
  Files, Now, fresh, updated, load, save, create, update, unlink, unlink_versions, rollback, delete,
  rmtree, get,
}
use orbit_lab.Services.Vault.Versions.{get-rmtree}
use orbit_lab.Services.Vault.RoundTrip.{
  load-encrypt, load-checksum, get-found, stored, update_cases,
}

-- The file decrypts to a secret that passes its check and has the version of the path.
abbrev pub Holds : Crypto → FilePath → Bytes → Type 0
Holds c p blob = (s : Secret) × (load c blob ≡ ok s) × (s.version ≡ p.version)

pub record IsSound (c : Crypto) (files : Files) : Type 0 where
  pub at : (p : FilePath) (blob : Bytes) → Dict.get files p ≡ some blob → Holds c p blob

module _ (c : Crypto) where
  path_version : (name : String) (v : ℕ) → v ≡ (file_path c name v).version
  unfolding file_path
  path_version name v = refl

  save-IsSound :
      (now : Now) (p : FilePath) (s : Secret) (files : Files)
      → s.version ≡ p.version
      → IsSound c files
      → IsSound c (save c now p s files)
  unfolding save
  save-IsSound now p s files v h = record {
    at = λ q blob e. elim (Bool-cases (p == q)) [
      | inl y ↦
          let same : p ≡ q = (beq_path_iff p q).0 y in
          let written : encrypt c now.entropy (stored c s) ≡ blob =
            ground (arith, Dict.get-set files p q (encrypt c now.entropy (stored c s))) in
          (
            stored c s,
            rw (← written) (load-encrypt c now.entropy s),
            v ∙ ap (λ (r : FilePath). r.version) same,
          )
      | inr n ↦
          h.at q blob (ground (arith, Dict.get-set files p q (encrypt c now.entropy (stored c s))))
    ];
  }

  del-IsSound : (p : FilePath) (files : Files) → IsSound c files → IsSound c (Dict.del files p)
  del-IsSound p files h = record {
    at = λ q blob e. h.at q blob (ground (arith, Dict.get-del files p q));
  }

  unlink_versions-IsSound :
      (name : String) (first count : ℕ) (files : Files)
      → IsSound c files
      → IsSound c (unlink_versions c name first count files).1
  unfolding unlink_versions unlink
  unlink_versions-IsSound name first zero files h = h
  unlink_versions-IsSound name first (suc count) files h =
      elim (Bool-cases (Dict.has files (file_path c name first))) [
        | inl y ↦ rw y (
            unlink_versions-IsSound name (first + 1) count _
              (del-IsSound (file_path c name first) files h))
        | inr n ↦ rw n h
      ]

  create-IsSound :
      (now : Now) (name value : String) (metadata : Dict String String) (files : Files)
      → IsSound c files
      → IsSound c (create c now name value metadata files).1
  unfolding create
  create-IsSound now name value metadata files h =
      elim (Bool-cases (Dict.has files (file_path c name 1))) [
        | inl y ↦ rw y h
        | inr n ↦ rw n (
            save-IsSound now (file_path c name 1) (fresh now name value metadata) files
              (path_version name 1) h)
      ]

  update-IsSound :
      (now : Now) (name value : String) (version : ℕ) (metadata : Dict String String)
      (files : Files)
      → IsSound c files
      → IsSound c (update c now name version value metadata files).1
  update-IsSound now name value version metadata files h =
      update_cases c (λ r. IsSound c r.1) now name value version metadata files (λ _ _. h)
        (λ _ _ _ _. h)
        λ blob s _ _.
          let new = updated now value metadata s in
          save-IsSound now (file_path c name new.version) new files (path_version name new.version)
            h

  rollback_state :
      (name : String) (current target : ℕ) (files : Files)
      → ((rollback c name current target files).1 ≡ files)
        ⊎ ((rollback c name current target files).1
            ≡ (unlink_versions c name (target + 1) (current - (target + 1)) files).1)
  unfolding rollback
  rollback_state name current target files = ground arith

  rollback-IsSound :
      (name : String) (current target : ℕ) (files : Files)
      → IsSound c files
      → IsSound c (rollback c name current target files).1
  rollback-IsSound name current target files h = elim (rollback_state name current target files) [
    | inl e ↦ rw e h
    | inr e ↦ rw e (unlink_versions-IsSound name (target + 1) (current - (target + 1)) files h)
  ]

  rmtree-IsSound :
      (dir : List (List ℕ)) (files : Files) → IsSound c files → IsSound c (rmtree c dir files)
  rmtree-IsSound dir files h = record {
    at = λ q blob e. h.at q blob (ground (arith, get-rmtree c dir files q));
  }

  delete-IsSound :
      (name : String) (files : Files) → IsSound c files → IsSound c (delete c name files)
  unfolding delete
  delete-IsSound name files h = elim (Bool-cases (Dict.has files (file_path c name 1))) [
    | inl y ↦ rw y (rmtree-IsSound (file_path c name 1).parent files h)
    | inr n ↦ rw n h
  ]

-- The operations that write, with what they are called with.
pub data Call : Type 0 where
  creates : Now → String → String → Dict String String → Call
  updates : Now → String → ℕ → String → Dict String String → Call
  rolls_back : String → ℕ → ℕ → Call
  deletes : String → Call

module _ (c : Crypto) where
  unfoldable pub step : Files → Call → Files
  step files (creates now name value metadata) = (create c now name value metadata files).1
  step files (updates now name version value metadata) =
      (update c now name version value metadata files).1
  step files (rolls_back name current target) = (rollback c name current target files).1
  step files (deletes name) = delete c name files

  unfoldable pub run : Files → List Call → Files
  run files [] = files
  run files (call ∷ calls) = run (step files call) calls

  step-IsSound : (files : Files) (call : Call) → IsSound c files → IsSound c (step files call)
  unfolding step
  step-IsSound files (creates now name value metadata) h =
      create-IsSound c now name value metadata files h
  step-IsSound files (updates now name version value metadata) h =
      update-IsSound c now name value version metadata files h
  step-IsSound files (rolls_back name current target) h =
      rollback-IsSound c name current target files h
  step-IsSound files (deletes name) h = delete-IsSound c name files h

  -- After any history, whether its calls returned or raised, every file decrypts to a secret whose
  -- checksum is right and whose version is that of its path.
  pub run-IsSound :
      (files : Files) (calls : List Call) → IsSound c files → IsSound c (run files calls)
  unfolding run
  run-IsSound files [] h = h
  run-IsSound files (call ∷ calls) h =
      run-IsSound (step files call) calls (step-IsSound files call h)

  empty-IsSound : IsSound c []
  unfolding Dict.get
  empty-IsSound = record { at = λ p blob e. cc }

  -- After any history of calls on an empty vault, `get` of a version whose file is there never raises, and the
  -- secret it returns has that version and a right checksum.
  pub get-run :
      (calls : List Call) (name : String) (version : ℕ)
      → Dict.has (run [] calls) (file_path c name version) ≡ true
      → (s : Secret) × (get c name version (run [] calls) ≡ (ok s, run [] calls))
        × (s.version ≡ version)
        × (s.checksum ≡ c.sha256 s.secret_string)
  get-run calls name version h =
      let (blob, e) = Dict.get_of_has (run [] calls) (file_path c name version) h in
      let (s, f, v) = (run-IsSound [] calls empty-IsSound).at (file_path c name version) blob e in
      (
        s,
        get-found c name version (run [] calls) blob e ∙ ap (λ r. (r, run [] calls)) f,
        v ∙ sym (path_version c name version),
        load-checksum c blob s f,
      )
