-- ===== src/Services/Dns/Created.antt =====
-- `cmd_create` of orbitlab/services/dns/main.py, against a set of records.
use orbit_lab.Prelude.{
  ◌≡◌, refl, sym, ap, ap₂, subst, ◌∙◌, Bool, true, false, ◌&&◌, ◌||◌, Option, some, List, [], ◌∷◌,
  ◌==◌, nat_eq, list_eq, beq_list_iff, contains, arith, if◌then◌else◌, Bool-cases, inl, inr,
}
use orbit_lab.Prelude.Dict
use orbit_lab.Prelude.Exec.{ok, err}
use orbit_lab.Exceptions.{value_error}
use orbit_lab.Manifest.Ref.{Text}
use orbit_lab.Services.Dns.Hosts.{Entries, names_of}
use orbit_lab.Services.Dns.Zone.{ZoneFile, write_zone, created_entries, cmd_create}
use orbit_lab.Services.Dns.Words.{others_fail, all, all_parts, is_word}
use orbit_lab.Services.Dns.Valid.{is_address, address_of, not_address}
use orbit_lab.Services.Dns.Entries.{has_record, has_record-set}
use orbit_lab.Services.Dns.Proper.{proper, proper-set, addressed, addressed-set}
use orbit_lab.Services.Dns.Records.{Records, Holds, write_zone-Holds}

created_err :
    (e : Entries) (name : Text) (ips : List Text)
    → all is_address ips ≡ false
    → created_entries e name ips ≡ err value_error
unfolding created_entries all
created_err e name [] h = cc
created_err e name (ip ∷ ips) h = elim (Bool-cases (is_address ip)) [
  | inl y ↦
      let (a, q) = address_of ip y in
      rw (created_entries, q)
        (created_err (Dict.set e ip (name ∷ [])) name ips
          (others_fail (is_address ip) (all is_address ips) y h))
  | inr y ↦ rw (created_entries, not_address ip y) refl
]
  where
    others : (x y : Bool) → x ≡ true → x && y ≡ false → y ≡ false
    others x y h n = ground arith

-- The entries for the addresses that are still to come.
Creates : Entries → Text → List Text → Type 0
Creates e name ips =
    (f : Entries) × (created_entries e name ips ≡ ok f)
    × (proper f ≡ true)
    × (addressed f ≡ true)
    × ((i n : Text) → has_record f i n ≡ (if contains ips i then n == name else has_record e i n))

same_either_way : (s t : Text) → s == t ≡ t == s
same_either_way s t = elim (Bool-cases (s == t)) [
  | inl y ↦ y ∙ sym ((beq_list_iff t s).1 (sym ((beq_list_iff s t).0 y)))
  | inr y ↦ elim (Bool-cases (t == s)) [
    | inl x ↦ (beq_list_iff s t).1 (sym ((beq_list_iff t s).0 x)) ∙ sym x
    | inr x ↦ y ∙ sym x
  ]
]

one_word : (name : Text) → is_word name ≡ true → all is_word (name ∷ []) ≡ true
unfolding all
one_word name w = ap (λ b. b && true) w

created_once :
    (e : Entries) (name ip : Text) (ips : List Text) (i n : Text)
    → (if contains ips i then n == name else has_record (Dict.set e ip (name ∷ [])) i n)
      ≡ (if contains (ip ∷ ips) i then n == name else has_record e i n)
unfolding contains
created_once e name ip ips i n =
    ap (λ b. if contains ips i then n == name else b) (has_record-set e ip i n (name ∷ []))
    ∙ choices (ip == i) (i == ip) (contains ips i) (n == name) (has_record e i n)
        (same_either_way ip i)
  where
    choices :
        (x x' c y z : Bool)
        → x ≡ x'
        → (if c then y else (if x then y || false else z)) ≡ (if x' || c then y else z)
    choices x x' c y z h = ground arith

created_entries-Creates :
    (e : Entries) (name : Text) (ips : List Text)
    → is_word name ≡ true
    → proper e ≡ true
    → addressed e ≡ true
    → all is_address ips ≡ true
    → Creates e name ips
unfolding Creates created_entries contains
created_entries-Creates e name [] w p a h = (e, refl, p, a, λ i n. refl)
created_entries-Creates e name (ip ∷ ips) w p a h =
    let (v, vs) = all_parts is_address ip ips h in
    let (b, q) = address_of ip v in
    let (f, r, pf, af, c) =
      created_entries-Creates (Dict.set e ip (name ∷ [])) name ips w
        (proper-set e ip (name ∷ []) p (one_word name w))
        (addressed-set e ip (name ∷ []) ∙ ap₂ (λ x y. x && y) v a) vs in
    (f, rw (created_entries, q) r, pf, af, λ i n. c i n ∙ created_once e name ip ips i n)

nothing : (i n : Text) → has_record [] i n ≡ false
unfolding has_record names_of Dict.get contains
nothing i n = refl

nothing_proper : proper [] ≡ true
unfolding proper
nothing_proper = refl

nothing_addressed : addressed [] ≡ true
unfolding addressed
nothing_addressed = refl

pub cmd_create-Holds :
    (name : Text) (ips : List Text) (z : ZoneFile) (s : Option Records)
    → is_word name ≡ true
    → Holds z s
    → Holds
        (cmd_create name ips z).1
        (if all is_address ips then some (λ i n. contains ips i && n == name) else s)
unfolding cmd_create Creates
cmd_create-Holds name ips z s w h = elim (Bool-cases (all is_address ips)) [
  | inl y ↦ rw y (
      let (f, r, pf, af, c) =
        created_entries-Creates [] name ips w nothing_proper nothing_addressed y in
      subst (λ v. Holds v.1 (some (λ i n. contains ips i && n == name))) (sym (create_ok f r))
        (write_zone-Holds f z (λ i n. contains ips i && n == name) pf af
          λ i n. c i n ∙ one_of (contains ips i) (n == name) (has_record [] i n) (nothing i n)))
  | inr y ↦ rw y (subst (λ v. Holds v.1 s) (sym (create_err (created_err [] name ips y))) h)
]
  where
    create_ok :
        (f : Entries)
        → created_entries [] name ips ≡ ok f
        → cmd_create name ips z ≡ write_zone f [] [] z
    create_ok f r = rw (cmd_create, r) refl

    create_err :
        created_entries [] name ips ≡ err value_error → cmd_create name ips z ≡ (err value_error, z)
    create_err r = rw (cmd_create, r) refl

    one_of : (x y b : Bool) → b ≡ false → (if x then y else b) ≡ (x && y)
    one_of x y b h = ground arith
