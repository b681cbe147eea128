-- ===== src/Services/Dns/Proper.antt =====
-- Entries that the zone file of orbitlab/services/dns/main.py can hold: each address once, and names without spaces.
use orbit_lab.Prelude.{
  ◌≡◌, refl, Bool, true, false, not, ◌&&◌, ◌||◌, List, [], ◌∷◌, ◌++◌, ◌==◌, beq_list_iff, nat_eq,
  list_eq, contains, without, arith, Bool-cases, inl, inr,
}
use orbit_lab.Prelude.Dict
use orbit_lab.Prelude.Dict.{Dict}
use orbit_lab.Manifest.Ref.{Text}
use orbit_lab.Services.Dns.Hosts.{Entries, add, update, names_of, extend}
use orbit_lab.Services.Dns.Zone.{Action, kept, changed}
use orbit_lab.Services.Dns.Valid.{is_address}
use orbit_lab.Services.Dns.Words.{and_parts, all, is_word}

unfoldable pub proper : Entries → Bool
unfolding Dict.has all
proper [] = true
proper ((ip, names) ∷ e) = not (Dict.has e ip) && all is_word names && proper e

pub proper_parts :
    (ip : Text) (names : List Text) (e : Entries)
    → proper ((ip, names) ∷ e) ≡ true
    → (Dict.has e ip ≡ false) × (all is_word names ≡ true) × (proper e ≡ true)
unfolding proper
proper_parts ip names e p = parts (Dict.has e ip) (all is_word names) (proper e) p
  where
    parts : (x y z : Bool) → (not x && y && z) ≡ true → (x ≡ false) × (y ≡ true) × (z ≡ true)
    parts x y z h = ground arith

has-set :
    (e : Entries) (ip i : Text) (names : List Text)
    → Dict.has (Dict.set e ip names) i ≡ (ip == i || Dict.has e i)
unfolding Dict.has Dict.set
has-set [] ip i names = ground arith
has-set ((j, w) ∷ e) ip i names =
    ground (arith, has-set e ip i names, beq_list_iff j ip, beq_list_iff j i, beq_list_iff ip i)

pub proper-set :
    (e : Entries) (ip : Text) (names : List Text)
    → proper e ≡ true
    → all is_word names ≡ true
    → proper (Dict.set e ip names) ≡ true
unfolding proper Dict.set
proper-set [] ip names p h = ground arith
proper-set ((j, w) ∷ e) ip names p h =
    ground
      (arith, proper-set e ip names, has-set e ip j names, beq_list_iff j ip, beq_list_iff ip j)

has-del : (e : Entries) (ip i : Text) → Dict.has e i ≡ false → Dict.has (Dict.del e ip) i ≡ false
unfolding Dict.has Dict.del
has-del [] ip i h = refl
has-del ((j, w) ∷ e) ip i h = ground (arith, has-del e ip i)

pub proper-del : (e : Entries) (ip : Text) → proper e ≡ true → proper (Dict.del e ip) ≡ true
unfolding proper Dict.del
proper-del [] ip p = refl
proper-del ((j, w) ∷ e) ip p = ground (arith, proper-del e ip, has-del e ip j)

all-snoc :
    (names : List Text) (m : Text)
    → all is_word (names ++ m ∷ []) ≡ (all is_word names && is_word m)
unfolding all
all-snoc [] m = ground arith
all-snoc (x ∷ names) m = ground (arith, all-snoc names m)

all-update :
    (names more : List Text)
    → all is_word names ≡ true
    → all is_word more ≡ true
    → all is_word (update names more) ≡ true
unfolding update add all
all-update names [] h g = h
all-update names (m ∷ more) h g = elim (Bool-cases (contains names m)) [
  | inl y ↦ rw y (all-update names more h (ground arith))
  | inr y ↦
      rw y (all-update (names ++ m ∷ []) more (ground (arith, all-snoc names m)) (ground arith))
]

all-without :
    (names : List Text) (m : Text) → all is_word names ≡ true → all is_word (without m names) ≡ true
unfolding without all
all-without [] m h = refl
all-without (x ∷ names) m h = ground (arith, all-without names m)

all-names_of : (e : Entries) (ip : Text) → proper e ≡ true → all is_word (names_of e ip) ≡ true
unfolding names_of proper Dict.get all
all-names_of [] ip p = refl
all-names_of ((j, w) ∷ e) ip p = ground (arith, all-names_of e ip)

pub proper-extend :
    (e : Entries) (ip : Text) (names : List Text)
    → proper e ≡ true
    → all is_word names ≡ true
    → proper (extend e ip names) ≡ true
unfolding extend
proper-extend e ip names p h =
    proper-set e ip (update (names_of e ip) names) p
      (all-update (names_of e ip) names (all-names_of e ip p) h)

proper-kept :
    (e : Entries) (ip : Text) (names : List Text)
    → proper e ≡ true
    → all is_word names ≡ true
    → proper (kept e ip names) ≡ true
unfolding kept
proper-kept e ip [] p h = proper-del e ip p
proper-kept e ip (m ∷ names) p h = proper-set e ip (m ∷ names) p h

pub proper-changed :
    (a : Action) (ip name : Text) (e : Entries)
    → is_word name ≡ true
    → proper e ≡ true
    → proper (changed a ip name e) ≡ true
unfolding changed all
proper-changed Action.adding ip name e w p = proper-extend e ip (name ∷ []) p (ground arith)
proper-changed Action.removing ip name e w p = elim (Bool-cases (Dict.has e ip)) [
  | inl y ↦ rw y (
      proper-kept e ip (without name (names_of e ip)) p
        (all-without (names_of e ip) name (all-names_of e ip p)))
  | inr y ↦ rw y p
]

-- Entries whose keys are addresses.
unfoldable pub addressed : Entries → Bool
addressed [] = true
addressed ((ip, names) ∷ e) = is_address ip && addressed e

pub addressed_parts :
    (ip : Text) (names : List Text) (e : Entries)
    → addressed ((ip, names) ∷ e) ≡ true
    → (is_address ip ≡ true) × (addressed e ≡ true)
unfolding addressed
addressed_parts ip names e h = and_parts (is_address ip) (addressed e) h

pub addressed-set :
    (e : Entries) (ip : Text) (names : List Text)
    → addressed (Dict.set e ip names) ≡ (is_address ip && addressed e)
unfolding addressed Dict.set
addressed-set [] ip names = refl
addressed-set ((j, w) ∷ e) ip names = elim (Bool-cases (j == ip)) [
  | inl y ↦ rw (y, (beq_list_iff j ip).0 y) (twice (is_address ip) (addressed e))
  | inr y ↦ rw (y, addressed-set e ip names) (swap (is_address j) (is_address ip) (addressed e))
]
  where
    twice : (x y : Bool) → (x && y) ≡ (x && (x && y))
    twice x y = ground arith

    swap : (x y z : Bool) → (x && (y && z)) ≡ (y && (x && z))
    swap x y z = ground arith

pub addressed-extend :
    (e : Entries) (ip : Text) (names : List Text)
    → addressed (extend e ip names) ≡ (is_address ip && addressed e)
unfolding extend
addressed-extend e ip names = addressed-set e ip (update (names_of e ip) names)

pub addressed-del :
    (e : Entries) (ip : Text) → addressed e ≡ true → addressed (Dict.del e ip) ≡ true
unfolding addressed Dict.del
addressed-del [] ip h = refl
addressed-del ((j, w) ∷ e) ip h = ground (arith, addressed-del e ip)
