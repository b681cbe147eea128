-- ===== src/Tests/Vault.antt =====
-- The theorems on Services/Vault in a small vault.
use orbit_lab.Prelude.{
  ℕ, ◌-◌, ◌≤◌, ◌<◌, ◌≡◌, refl, subst, String, Bool, true, Option, none, some, List, [], ◌∷◌, ltb,
  ◌&&◌, arith, nat_eq, list_eq, if◌then◌else◌,
}
use orbit_lab.Prelude.Dict
use orbit_lab.Prelude.Dict.{Dict}
use orbit_lab.Prelude.Exec.{ok}
use orbit_lab.Tests.Toy.{toy, no_entropy}
use orbit_lab.Services.Vault
use orbit_lab.Services.Vault.{Files, Now, updated}
use orbit_lab.Services.Vault.Cipher.{Secret, encrypt, decrypt}
use orbit_lab.Services.Vault.Paths.{FilePath, path_eq, file_path, in_tree}
use orbit_lab.Services.Vault.RoundTrip.{decrypt-encrypt}
use orbit_lab.Services.Vault.Versions.{rollback_removes_between, get-delete}
use orbit_lab.Services.Vault.History.{Call, creates, updates, run, get-run}

abbrev now : Now
now = record { time = 5; entropy = no_entropy }

abbrev kept : Secret
kept = record {
  name = "a/b";
  secret_string = "one";
  created_at = 5;
  version = 1;
  checksum = toy.sha256 "one";
  updated_at = none;
  metadata = [];
}

-- One version, two versions, and three of the secret.
abbrev one : Files
one = (Vault.create toy now "a/b" "one" [] []).1

abbrev two : Files
two = (Vault.update toy now "a/b" 1 "two" [] one).1

abbrev three : Files
three = (Vault.update toy now "a/b" 2 "three" [] two).1

decrypt-encrypt_example : decrypt toy (encrypt toy no_entropy kept) ≡ ok kept
decrypt-encrypt_example = decrypt-encrypt toy no_entropy kept

rollback_removes_between_example :
    (◌≡◌ {A = ℕ} 1 1)
    × (◌<◌ 1 3)
    × ((j : ℕ)
        → Dict.get (Vault.rollback toy "a/b" 3 1 three).1 (file_path toy "a/b" j)
          ≡ (if ltb 1 j && ltb j 3 then none else Dict.get three (file_path toy "a/b" j)))
unfolding Vault.rollback Vault.read Dict.get Vault.update Vault.create Dict.has Vault.save Dict.set
    orbit_lab.Services.Vault.Paths.beq_path file_path orbit_lab.Prelude.beq_list Vault.load decrypt
    encrypt updated Vault.or_old Vault.unlink_versions Dict.del
    orbit_lab.Services.Vault.Cipher.decrypt_raw orbit_lab.Services.Vault.Cipher.parse
    orbit_lab.Services.Vault.Paths.pairs orbit_lab.Services.Vault.Paths.parts Vault.check
    Vault.get_checksum Vault.unlink
rollback_removes_between_example =
    rollback_removes_between toy "a/b" 3 1 1 three (Vault.rollback toy "a/b" 3 1 three).1 refl

get-delete_example : Dict.get (Vault.delete toy "a/b" two) (file_path toy "a/b" 2) ≡ (
    if in_tree (file_path toy "a/b" 1).parent (file_path toy "a/b" 2)
    then none
    else Dict.get two (file_path toy "a/b" 2))
unfolding Vault.update Vault.create Vault.read Dict.get Dict.has Vault.save Dict.set
    orbit_lab.Services.Vault.Paths.beq_path file_path orbit_lab.Prelude.beq_list Vault.load decrypt
    encrypt updated Vault.or_old orbit_lab.Services.Vault.Cipher.decrypt_raw
    orbit_lab.Services.Vault.Cipher.parse orbit_lab.Services.Vault.Paths.pairs
    orbit_lab.Services.Vault.Paths.parts Vault.check Vault.get_checksum
    orbit_lab.Services.Vault.Paths.below
get-delete_example = get-delete toy "a/b" two (file_path toy "a/b" 2) refl

-- Two secrets; under the test hash the digest of `a/bc/d` begins with the one of `a/bc`.
abbrev both : Files
both = (Vault.create toy now "a/bc/d" "x" [] (Vault.create toy now "a/bc" "y" [] []).1).1

abbrev calls : List Call
calls = creates now "a/b" "one" [] ∷ updates now "a/b" 1 "two" [] ∷ []

get-run_example :
    (s : Secret) × (Vault.get toy "a/b" 2 (run toy [] calls) ≡ (ok s, run toy [] calls))
    × (s.version ≡ 2)
    × (s.checksum ≡ toy.sha256 s.secret_string)
unfolding Vault.update Vault.create Vault.read Dict.get Dict.has Vault.save Dict.set
    orbit_lab.Services.Vault.Paths.beq_path file_path orbit_lab.Prelude.beq_list Vault.load decrypt
    encrypt updated Vault.or_old orbit_lab.Services.Vault.Cipher.decrypt_raw
    orbit_lab.Services.Vault.Cipher.parse orbit_lab.Services.Vault.Paths.pairs
    orbit_lab.Services.Vault.Paths.parts Vault.check Vault.get_checksum
    orbit_lab.Services.Vault.Paths.below run orbit_lab.Services.Vault.History.step
get-run_example = get-run toy calls "a/b" 2 refl
