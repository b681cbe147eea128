-- ===== src/Manifest/Ipam/Assign.antt =====
-- `assign_ip` and `release_ip` of orbitlab/manifest/ipam.py over any history of calls.
use orbit_lab.Prelude.{
  ℕ, ◌≡◌, refl, ap, false, List, [], ◌∷◌, String, arith, All, nat_eq, string_eq, ◌==◌, some, none,
  find?, Option-cases, inl, inr, Bool-cases, eq_iff,
}
use orbit_lab.Prelude.Dict
use orbit_lab.Prelude.Exec.{Result, ok, err, Result-cases}
use orbit_lab.Exceptions.{Exception, stop_iteration}
use orbit_lab.Net.{Interface}
use orbit_lab.Manifest.Base.{save}
use orbit_lab.Manifest.Ipam.{
  Subnet, add_assignment, assigned_ips, get_next_available_ip, Live, get_subnet, put_subnet,
  store_subnet, assign_ip, release_ip,
}
use orbit_lab.Manifest.Ipam.Next.{get_next_available_ip-lowest}
use orbit_lab.Manifest.Ipam.Valid.{IsValid, add_assignment-IsValid, del-IsValid}

-- Every subnet of the manifest is valid.
abbrev pub AllValid : List Subnet → Type 0
AllValid = All IsValid

put_subnet-AllValid :
    (ss : List Subnet) (name : String) (s : Subnet)
    → AllValid ss
    → IsValid s
    → AllValid (put_subnet ss name s)
unfolding put_subnet
put_subnet-AllValid [] name s h v = tt
put_subnet-AllValid (x ∷ ss) name s h v = ground (arith, put_subnet-AllValid ss name s h.1 v)

pub get_subnet-IsValid :
    (ss : List Subnet) (name : String) (s : Subnet)
    → AllValid ss
    → find? (λ x. x.name == name) ss ≡ some s
    → IsValid s
unfolding find?
get_subnet-IsValid [] name s h e = cc
get_subnet-IsValid (x ∷ ss) name s h e =
    ground (arith, get_subnet-IsValid ss name s h.1, ap assigned_ips {x = x} {y = s})

-- A call of `assign_ip` meets no subnet of the name, finds no free address, or assigns one.
pub assign_ip_cases {ℓ} :
    (P : Result Exception Interface × Live → Type ℓ) (name : String) (vmid now : ℕ) (l : Live)
    → (get_subnet l.self name ≡ none → P (err stop_iteration, l))
    → ((s : Subnet) (x : Exception)
        → get_subnet l.self name ≡ some s
        → get_next_available_ip s ≡ err x
        → P (err x, l))
    → ((s : Subnet) (a : Interface)
        → get_subnet l.self name ≡ some s
        → get_next_available_ip s ≡ ok a
        → P (ok a, store_subnet l name (add_assignment s vmid a now)))
    → P (assign_ip name vmid now l)
unfolding assign_ip
assign_ip_cases P name vmid now l missing full free = elim (Option-cases (get_subnet l.self name)) [
  | inl e ↦ rw (e, assign_ip) (missing e)
  | inr (s, e) ↦ elim (Result-cases (get_next_available_ip s)) [
    | inl (x, f) ↦ rw (e, assign_ip, f) (full s x e f)
    | inr (a, f) ↦ rw (e, assign_ip, f) (free s a e f)
  ]
]

pub release_ip_cases {ℓ} :
    (P : Result Exception (Unit {0}) × Live → Type ℓ) (name : String) (vmid : ℕ) (l : Live)
    → (get_subnet l.self name ≡ none → P (err stop_iteration, l))
    → ((s : Subnet)
        → get_subnet l.self name ≡ some s
        → Dict.has s.assignments vmid ≡ false
        → P (ok tt, l))
    → ((s : Subnet)
        → get_subnet l.self name ≡ some s
        → P (ok tt, store_subnet l name (record s { assignments = Dict.del s.assignments vmid })))
    → P (release_ip name vmid l)
unfolding release_ip
release_ip_cases P name vmid l missing absent held = elim (Option-cases (get_subnet l.self name)) [
  | inl e ↦ rw (e, release_ip) (missing e)
  | inr (s, e) ↦ elim (Bool-cases (Dict.has s.assignments vmid)) [
    | inl f ↦ rw (e, release_ip, f) (held s e)
    | inr f ↦ rw (e, release_ip, f) (absent s e f)
  ]
]

-- The calls of a history, with the time of each.
pub data Call : Type 0 where
  assigns : String → ℕ → ℕ → Call
  releases : String → ℕ → Call

unfoldable pub step : Live → Call → Live
step l (assigns name vmid now) = (assign_ip name vmid now l).1
step l (releases name vmid) = (release_ip name vmid l).1

unfoldable pub run : Live → List Call → Live
run l [] = l
run l (c ∷ cs) = run (step l c) cs

-- What is on disk under the manifest's name is what is in memory, and every subnet is valid.
pub record IsSound (l : Live) : Type 0 where
  pub valid : AllValid l.self.subnets
  pub saved : Dict.get l.files l.self.name ≡ some l.self

store_subnet-IsSound :
    (l : Live) (name : String) (s : Subnet)
    → IsSound l
    → IsValid s
    → IsSound (store_subnet l name s)
unfolding store_subnet save
store_subnet-IsSound l name s h v = record {
  valid = put_subnet-AllValid l.self.subnets name s h.valid v;
  saved = Dict.get-set_self _ _ _;
}

pub found-IsValid :
    (l : Live) (name : String) (s : Subnet)
    → IsSound l
    → get_subnet l.self name ≡ some s
    → IsValid s
unfolding get_subnet
found-IsValid l name s h e = get_subnet-IsValid l.self.subnets name s h.valid e

store_subnet-name :
    (l : Live) (name : String) (s : Subnet) → (store_subnet l name s).self.name ≡ l.self.name
unfolding store_subnet
store_subnet-name l name s = refl

pub step-name : (l : Live) (c : Call) → (step l c).self.name ≡ l.self.name
unfolding step
step-name l (assigns name vmid now) =
    assign_ip_cases (λ r. r.1.self.name ≡ l.self.name) name vmid now l (λ _. refl) (λ s x _ _. refl)
      λ s a _ _. store_subnet-name l name (add_assignment s vmid a now)
step-name l (releases name vmid) =
    release_ip_cases (λ r. r.1.self.name ≡ l.self.name) name vmid l (λ _. refl) (λ s _ _. refl)
      λ s _. store_subnet-name l name _

-- Every call keeps the manifest sound, whether it returns or raises.
pub step-IsSound : (l : Live) (c : Call) → IsSound l → IsSound (step l c)
unfolding step
step-IsSound l (assigns name vmid now) h =
    assign_ip_cases (λ r. IsSound r.1) name vmid now l (λ _. h) (λ s x _ _. h)
      λ s a e f. store_subnet-IsSound l name _ h (
        add_assignment-IsValid s vmid a now (found-IsValid l name s h e)
          (get_next_available_ip-lowest s a f).2)
step-IsSound l (releases name vmid) h =
    release_ip_cases (λ r. IsSound r.1) name vmid l (λ _. h) (λ s _ _. h)
      λ s e. store_subnet-IsSound l name _ h (del-IsValid s vmid (found-IsValid l name s h e))

-- From a manifest in which no subnet holds an address twice and whose file is up to date, any history of
-- assignments and releases leads to such a manifest.
pub run-IsSound : (l : Live) (cs : List Call) → IsSound l → IsSound (run l cs)
unfolding run
run-IsSound l [] h = h
run-IsSound l (c ∷ cs) h = run-IsSound (step l c) cs (step-IsSound l c h)

pub get_subnet-put :
    (ss : List Subnet) (name : String) (s new : Subnet)
    → new.name ≡ name
    → find? (λ x. x.name == name) ss ≡ some s
    → find? (λ x. x.name == name) (put_subnet ss name new) ≡ some new
unfolding find? put_subnet
get_subnet-put [] name s new n e = cc
get_subnet-put (x ∷ ss) name s new n e =
    ground (arith, eq_iff new.name name, get_subnet-put ss name s new)

pub get_subnet-put_ne :
    (ss : List Subnet) (name other : String) (new : Subnet)
    → new.name ≡ name
    → name == other ≡ false
    → find? (λ x. x.name == other) (put_subnet ss name new) ≡ find? (λ x. x.name == other) ss
unfolding find? put_subnet
get_subnet-put_ne [] name other new n e = refl
get_subnet-put_ne (x ∷ ss) name other new n e = ground (
  arith,
  eq_iff x.name name,
  eq_iff x.name other,
  eq_iff name other,
  get_subnet-put_ne ss name other new,
)
