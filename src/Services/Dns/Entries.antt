-- ===== src/Services/Dns/Entries.antt =====
-- The names of an address in the entries of orbitlab/services/dns/main.py, and how the operations change them.
use orbit_lab.Prelude.{
  ◌≡◌, ◌↔◌, Bool-cases, inl, inr, refl, sym, ap, ◌∙◌, Bool, true, false, not, ◌&&◌, ◌||◌, none,
  some, List, [], ◌∷◌, ◌++◌, ◌==◌, beq_list_iff, nat_eq, list_eq, contains, without, arith,
  if◌then◌else◌,
}
use orbit_lab.Prelude.Dict
use orbit_lab.Prelude.Dict.{Dict}
use orbit_lab.Manifest.Ref.{Text}
use orbit_lab.Services.Dns.Hosts.{Entries, add, update, or_empty, names_of, extend}
use orbit_lab.Services.Dns.Zone.{Action, kept, changed}

-- Whether an address has a name.
unfoldable pub has_record : Entries → Text → Text → Bool
unfolding names_of contains
has_record e ip name = contains (names_of e ip) name

same_text : (s t : Text) → (s == t ≡ true) ↔ (s ≡ t)
same_text s t = beq_list_iff s t

contains-snoc :
    (names : List Text) (m n : Text) → contains (names ++ m ∷ []) n ≡ (contains names n || n == m)
unfolding contains
contains-snoc [] m n = ground arith
contains-snoc (x ∷ names) m n = ground (arith, contains-snoc names m n)

contains-add :
    (names : List Text) (m n : Text) → contains (add names m) n ≡ (contains names n || n == m)
unfolding add
contains-add names m n = ground (arith, contains-snoc names m n, same_text n m)

pub contains-update :
    (names more : List Text) (n : Text)
    → contains (update names more) n ≡ (contains names n || contains more n)
unfolding update contains
contains-update names [] n = ground arith
contains-update names (m ∷ more) n =
    ground (arith, contains-update (add names m) more n, contains-add names m n)

pub has_record-set :
    (e : Entries) (ip i n : Text) (names : List Text)
    → has_record (Dict.set e ip names) i n
      ≡ (if ip == i then contains names n else has_record e i n)
unfolding has_record names_of
has_record-set e ip i n names =
    ap (λ o. contains (or_empty o) n) (Dict.get-set e ip i names) ∙ by_test (ip == i)
  where
    by_test :
        (b : Bool)
        → contains (or_empty (if b then some names else Dict.get e i)) n
          ≡ (if b then contains names n else contains (or_empty (Dict.get e i)) n)
    by_test true = refl
    by_test false = refl

pub has_record-del :
    (e : Entries) (ip i n : Text)
    → has_record (Dict.del e ip) i n ≡ (if ip == i then false else has_record e i n)
unfolding has_record names_of contains
has_record-del e ip i n =
    ap (λ o. contains (or_empty o) n) (Dict.get-del e ip i) ∙ by_test (ip == i)
  where
    by_test :
        (b : Bool)
        → contains (or_empty (if b then none else Dict.get e i)) n
          ≡ (if b then false else contains (or_empty (Dict.get e i)) n)
    by_test true = refl
    by_test false = refl

pub has_record_missing :
    (e : Entries) (ip n : Text) → Dict.has e ip ≡ false → has_record e ip n ≡ false
unfolding has_record names_of contains
has_record_missing e ip n h = ap (λ o. contains (or_empty o) n) (Dict.get-has e ip h)

pub has_record-cons :
    (ip : Text) (names : List Text) (e : Entries) (i n : Text)
    → Dict.has e ip ≡ false
    → has_record ((ip, names) ∷ e) i n ≡ ((ip == i && contains names n) || has_record e i n)
unfolding has_record names_of Dict.get
has_record-cons ip names e i n m = elim (Bool-cases (ip == i)) [
  | inl y ↦ rw y (
      or_none (contains names n) (contains (or_empty (Dict.get e i)) n)
        (ap (λ j. has_record e j n) (sym ((same_text ip i).0 y)) ∙ has_record_missing e ip n m))
  | inr y ↦ rw y refl
]
  where
    or_none : (x y : Bool) → y ≡ false → x ≡ (x || y)
    or_none x y h = ground arith

has_record-kept :
    (e : Entries) (ip i n : Text) (names : List Text)
    → has_record (kept e ip names) i n ≡ (if ip == i then contains names n else has_record e i n)
unfolding kept contains
has_record-kept e ip i n [] = has_record-del e ip i n
has_record-kept e ip i n (m ∷ names) = has_record-set e ip i n (m ∷ names)

pub has_record-extend :
    (e : Entries) (ip i n : Text) (names : List Text)
    → has_record (extend e ip names) i n ≡ (has_record e i n || (ip == i && contains names n))
unfolding extend has_record names_of
has_record-extend e ip i n names =
    has_record-set e ip i n (update (names_of e ip) names) ∙ extended (ip == i) refl
  where
    extended :
        (b : Bool)
        → ip == i ≡ b
        → (if b then contains (update (names_of e ip) names) n else has_record e i n)
          ≡ (has_record e i n || (b && contains names n))
    extended true y =
        contains-update (names_of e ip) names n
        ∙ ap (λ j. has_record e j n || contains names n) ((same_text ip i).0 y)
    extended false y = ground arith

contains-without :
    (names : List Text) (m n : Text)
    → contains (without m names) n ≡ (contains names n && not (n == m))
unfolding contains without
contains-without [] m n = ground arith
contains-without (x ∷ names) m n =
    ground (arith, contains-without names m n, same_text m x, same_text n x, same_text n m)

-- What a command makes of the records.
unfoldable pub after : Action → Text → Text → (Text → Text → Bool) → Text → Text → Bool
after Action.adding ip name r i n = r i n || (ip == i && n == name)
after Action.removing ip name r i n = r i n && not (ip == i && n == name)

removed_here :
    (b c h h' : Bool) → (b ≡ true → h ≡ h') → (if b then h && not c else h') ≡ (h' && not (b && c))
removed_here b c h h' e = ground arith

pub has_record-changed :
    (a : Action) (ip name : Text) (e : Entries) (i n : Text)
    → has_record (changed a ip name e) i n ≡ after a ip name (has_record e) i n
unfolding changed after contains has_record names_of
has_record-changed Action.adding ip name e i n =
    ground (arith, has_record-extend e ip i n (name ∷ []))
has_record-changed Action.removing ip name e i n = elim (Bool-cases (Dict.has e ip)) [
  | inl y ↦ rw y (
      has_record-kept e ip i n (without name (names_of e ip))
      ∙ ap (λ c. if ip == i then c else has_record e i n) (contains-without (names_of e ip) name n)
      ∙ removed_here (ip == i) (n == name) (has_record e ip n) (has_record e i n)
          λ same. ap (λ j. has_record e j n) ((same_text ip i).0 same))
  | inr y ↦ rw y (ground (arith, same_text ip i, has_record_missing e ip n y))
]
