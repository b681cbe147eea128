-- ===== src/Services/Vault/Versions.antt =====
-- Which files `rollback` and `delete` of orbitlab/services/vault/client.py take away.
use orbit_lab.Prelude.{
  ℕ, zero, suc, ◌+◌, ◌-◌, ◌≤◌, ◌<◌, String, ◌≡◌, refl, ap, true, ◌&&◌, none, List, [], ◌∷◌, ltb,
  leb, eqb, nat_eq, list_eq, beq_list_iff, arith, if◌then◌else◌,
}
use orbit_lab.Prelude.Dict
use orbit_lab.Prelude.Dict.{Dict}
use orbit_lab.Prelude.Exec.{ok, err}
use orbit_lab.Exceptions.{secret_not_found}
use orbit_lab.Services.Vault.Cipher.{Crypto}
use orbit_lab.Services.Vault.Paths.{
  FilePath, path_eq, beq_path, beq_path_iff, file_path, below, in_tree,
}
use orbit_lab.Services.Vault.{Files, read, unlink, unlink_versions, rollback, rmtree, delete}

below_refl : (dir : List (List ℕ)) → below dir dir ≡ true
unfolding below
below_refl [] = refl
below_refl (d ∷ ds) = ground (arith, beq_list_iff d d, below_refl ds)

module _ (c : Crypto) where
  -- Two versions of a secret have one directory and one stem.
  pub beq_path-version :
      (name : String) (i j : ℕ) → beq_path (file_path c name i) (file_path c name j) ≡ eqb i j
  unfolding beq_path file_path
  beq_path-version name i j = ground (
    arith,
    beq_list_iff (file_path c name i).parent (file_path c name i).parent,
    beq_list_iff (file_path c name i).stem (file_path c name i).stem,
  )

  pub get-unlink_versions :
      (name : String) (first count : ℕ) (files files' : Files) (j : ℕ)
      → unlink_versions c name first count files ≡ (ok tt, files')
      → Dict.get files' (file_path c name j) ≡ (
          if leb first j && ltb j (first + count)
          then none
          else Dict.get files (file_path c name j))
  unfolding unlink_versions unlink
  get-unlink_versions name first zero files files' j h =
      ground (arith, ap (λ (f : Files). Dict.get f (file_path c name j)) {x = files} {y = files'})
  get-unlink_versions name first (suc count) files files' j h = ground (
    arith,
    Dict.get-del files (file_path c name first) (file_path c name j),
    beq_path-version name first j,
    get-unlink_versions name (first + 1) count (Dict.del files (file_path c name first)) files' j,
  )

  unlink_versions_ok :
      (name : String) (first count : ℕ) (files : Files)
      → ((j : ℕ) → first ≤ j → j < first + count → Dict.has files (file_path c name j) ≡ true)
      → (files' : Files) × (unlink_versions c name first count files ≡ (ok tt, files'))
  unfolding unlink_versions unlink
  unlink_versions_ok name first zero files there = (files, refl)
  unlink_versions_ok name first (suc count) files there =
      let here : Dict.has files (file_path c name first) ≡ true =
        there first (omega arith) (omega arith) in
      let (files', e) =
        unlink_versions_ok name (first + 1) count (Dict.del files (file_path c name first))
          (λ j lo hi. ground (
            arith,
            there j,
            Dict.has-del files (file_path c name first) (file_path c name j),
            beq_path-version name first j,
          )) in
      (files', rw here e)

  rollback_parts :
      (name : String) (current target v : ℕ) (files files' : Files)
      → rollback c name current target files ≡ (ok v, files')
      → (v ≡ target)
        × (target < current)
        × (unlink_versions c name (target + 1) (current - (target + 1)) files ≡ (ok tt, files'))
  unfolding rollback
  rollback_parts name current target v files files' h = ground arith

  -- A rollback that returns gives back the version asked for, which is below the current one. It has
  -- removed the versions strictly between the two and no other file of the secret: the file of the
  -- current version stays.
  pub rollback_removes_between :
      (name : String) (current target v : ℕ) (files files' : Files)
      → rollback c name current target files ≡ (ok v, files')
      → (v ≡ target)
        × (target < current)
        × ((j : ℕ)
            → Dict.get files' (file_path c name j) ≡ (
                if ltb target j && ltb j current
                then none
                else Dict.get files (file_path c name j)))
  unfolding rollback
  rollback_removes_between name current target v files files' h =
      let (e, lt, done) = rollback_parts name current target v files files' h in
      (
        e,
        lt,
        λ j. ground (
          arith,
          get-unlink_versions name (target + 1) (current - (target + 1)) files files' j done,
        ),
      )

  pub get-rmtree :
      (dir : List (List ℕ)) (files : Files) (p : FilePath)
      → Dict.get (rmtree c dir files) p ≡ (if in_tree dir p then none else Dict.get files p)
  unfolding rmtree Dict.get
  get-rmtree dir [] p = ground arith
  get-rmtree dir ((q, blob) ∷ files) p =
      ground (arith, beq_path_iff q p, ap (in_tree dir) {x = q} {y = p}, get-rmtree dir files p)

  -- A deletion removes the directory of the first version, where that version is there: every file in
  -- it or below it goes, of whatever secret, and every other file stays.
  pub get-delete :
      (name : String) (files : Files) (p : FilePath)
      → Dict.has files (file_path c name 1) ≡ true
      → Dict.get (delete c name files) p
        ≡ (if in_tree (file_path c name 1).parent p then none else Dict.get files p)
  unfolding delete
  get-delete name files p h = rw (h, get-rmtree (file_path c name 1).parent files p)

  -- So no version of the secret can be read after it.
  pub read-delete :
      (name : String) (version : ℕ) (files : Files)
      → Dict.has files (file_path c name 1) ≡ true
      → read c name version (delete c name files) ≡ err (secret_not_found name version)
  unfolding read in_tree file_path
  read-delete name version files h = ground (
    arith,
    get-delete name files (file_path c name version) h,
    below_refl (file_path c name 1).parent,
  )
