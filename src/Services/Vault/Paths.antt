-- ===== src/Services/Vault/Paths.antt =====
-- `__get_file_path__` of orbitlab/services/vault/client.py.
use Prim.Native.Char.{code}
use orbit_lab.Prelude.{
  ℕ, zero, suc, ◌+◌, ◌-◌, String, ◌≡◌, ◌↔◌, Bool, true, false, ◌&&◌, List, [], ◌∷◌, take, drop,
  length, eqb, Eq, list_eq, nat_eq, beq_list, beq_list_iff, if◌then◌else◌, arith,
}
use orbit_lab.Services.Vault.Cipher.{Crypto}

-- `<parent>/<stem>.v<version>.enc`
pub record FilePath : Type 0 where
  pub parent : List (List ℕ)
  pub stem : List ℕ
  pub version : ℕ

unfoldable pub beq_path : FilePath → FilePath → Bool
beq_path p q = eqb p.version q.version && (beq_list p.parent q.parent && beq_list p.stem q.stem)

pub beq_path_iff : (p q : FilePath) → (beq_path p q ≡ true) ↔ (p ≡ q)
unfolding beq_path
beq_path_iff p q = (
  (λ h. ground (arith, beq_list_iff p.parent q.parent, beq_list_iff p.stem q.stem)),
  λ h. ground (arith, beq_list_iff p.parent q.parent, beq_list_iff p.stem q.stem),
)

instance abbrev pub path_eq : Eq FilePath
path_eq = record { beq = beq_path; beq_iff = beq_path_iff }

-- `len(string_path.split("/"))`
unfoldable pub parts : String → ℕ
parts String.[] = 1
parts (String.◌∷◌ ch s) = if eqb (code ch) b'/' then parts s + 1 else parts s

-- `[digest[i : i + 2] for i in range(0, n * 2, 2)]`
unfoldable pub pairs : ℕ → List ℕ → List (List ℕ)
pairs zero digest = []
pairs (suc n) digest = take 2 digest ∷ pairs n (drop 2 digest)

unfoldable pub file_path : Crypto → String → ℕ → FilePath
unfolding parts pairs
file_path c secret_name version =
    let digest = c.sha256 secret_name in
    record {
      parent = pairs (parts secret_name) digest;
      stem = drop (length digest - 10) digest;
      version = version;
    }

-- Whether a file lies in the directory or below it.
unfoldable pub below : List (List ℕ) → List (List ℕ) → Bool
below [] dir = true
below (d ∷ ds) [] = false
below (d ∷ ds) (x ∷ xs) = beq_list d x && below ds xs

unfoldable pub in_tree : List (List ℕ) → FilePath → Bool
unfolding below
in_tree dir path = below dir path.parent
