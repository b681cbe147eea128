-- ===== src/Services/Dns/Hosts.antt =====
-- The entries of a zone file of orbitlab/services/dns/main.py, `parse_hosts_block` and `render_hosts_block`. An address is an IPv4 address, as all addresses of a sector are: a text of another version is refused.
use orbit_lab.Prelude.{
  ℕ, ◌+◌, ◌-◌, ◌*◌, Bool, true, ◌&&◌, ◌||◌, Option, none, some, List, [], ◌∷◌, ◌++◌, map, length,
  ltb, leb, eqb, nat_eq, list_eq, contains, if◌then◌else◌,
}
use orbit_lab.Prelude.Dict
use orbit_lab.Prelude.Dict.{Dict}
use orbit_lab.Prelude.Exec.{Result, ok, err}
use orbit_lab.Exceptions.{Exception, value_error, index_error}
use orbit_lab.Manifest.Ref.{Text}
use orbit_lab.Strings.{strip, split, split_on, join_with, text_ltb}

-- One part of an IPv4 address: one to three digits, with no zero before others, below 256.
unfoldable pub octet_from : ℕ → Text → Option ℕ
octet_from n [] = if ltb n 256 then some n else none
octet_from n (c ∷ t) =
    let rest = octet_from (n * 10 + (c - b'0')) t in if leb b'0' c && leb c b'9' then rest else none

unfoldable pub octet : Text → Option ℕ
unfolding octet_from
octet [] = none
octet (c ∷ []) = octet_from 0 (c ∷ [])
octet (c ∷ d ∷ t) =
    if eqb c b'0' || ltb 3 (length (c ∷ d ∷ t)) then none else octet_from 0 (c ∷ d ∷ t)

unfoldable pub octets : List Text → Option (List ℕ)
unfolding octet
octets [] = some []
octets (t ∷ texts) = elim (octet t) [
  | none ↦ none
  | some n ↦ elim (octets texts) [ none ↦ none | some rest ↦ some (n ∷ rest) ]
]

unfoldable pub four : Option (List ℕ) → Option ℕ
four (some (a ∷ b ∷ c ∷ d ∷ [])) = some (((a * 256 + b) * 256 + c) * 256 + d)
four _ = none

-- `ipaddress.ip_address`: none where it raises ValueError
unfoldable pub ip_address : Text → Option ℕ
unfolding octets four split_on
ip_address t = four (octets (split_on b'.' t))

-- A set of host names for each address, written as a text.
abbrev pub Entries : Type 0
Entries = Dict Text (List Text)

-- `names.add(name)`
unfoldable pub add : List Text → Text → List Text
add names name = if contains names name then names else names ++ name ∷ []

-- `names.update(more)`
unfoldable pub update : List Text → List Text → List Text
unfolding add
update names [] = names
update names (name ∷ more) = update (add names name) more

unfoldable pub or_empty : Option (List Text) → List Text
or_empty none = []
or_empty (some names) = names

-- The names of an address, or no names.
unfoldable pub names_of : Entries → Text → List Text
unfolding or_empty
names_of entries ip = or_empty (Dict.get entries ip)

-- `entries.setdefault(ip, set()).update(names)`
unfoldable pub extend : Entries → Text → List Text → Entries
unfolding update names_of
extend entries ip names = Dict.set entries ip (update (names_of entries ip) names)

-- `not line or line.startswith("#")`
unfoldable pub is_skipped : Text → Bool
is_skipped [] = true
is_skipped (c ∷ t) = eqb c b'#'

-- The entries that the parts of a line add.
unfoldable pub parse_parts : Entries → List Text → Result Exception Entries
unfolding ip_address extend
parse_parts entries [] = err index_error
parse_parts entries (ip ∷ names) = elim (ip_address ip) [
  | none ↦ err value_error
  | some a ↦ ok (extend entries ip names)
]

unfoldable pub parse_lines : Entries → List Text → Result Exception Entries
unfolding is_skipped parse_parts strip split
parse_lines entries [] = ok entries
parse_lines entries (line ∷ lines) =
    if is_skipped (strip line)
    then parse_lines entries lines
    else elim (parse_parts entries (split (strip line))) [
      | err x ↦ err x
      | ok more ↦ parse_lines more lines
    ]

unfoldable pub parse_hosts_block : List Text → Result Exception Entries
unfolding parse_lines
parse_hosts_block lines = parse_lines [] lines

-- `sorted`, with an item behind those that are not greater
unfoldable pub insert : {A : Type 0} → (A → A → Bool) → A → List A → List A
insert less x [] = x ∷ []
insert less x (y ∷ ys) = if less x y then x ∷ y ∷ ys else y ∷ insert less x ys

unfoldable pub sorted_from : {A : Type 0} → (A → A → Bool) → List A → List A → List A
unfolding insert
sorted_from less done [] = done
sorted_from less done (x ∷ xs) = sorted_from less (insert less x done) xs

unfoldable pub sorted : {A : Type 0} → (A → A → Bool) → List A → List A
unfolding sorted_from
sorted less xs = sorted_from less [] xs

-- The entries with the keys that they are sorted by.
unfoldable pub keyed : Entries → Result Exception (List (ℕ × Text × List Text))
unfolding ip_address
keyed [] = ok []
keyed ((ip, names) ∷ entries) = elim (ip_address ip) [
  | none ↦ err value_error
  | some a ↦ elim (keyed entries) [ err x ↦ err x | ok rest ↦ ok ((a, ip, names) ∷ rest) ]
]

-- `f"{ip} {' '.join(names)}"`
unfoldable pub host_line : Text → List Text → Text
unfolding sorted text_ltb join_with
host_line ip names = ip ++ b' ' ∷ join_with b' ' (sorted text_ltb names)

abbrev pub before : ℕ × Text × List Text → ℕ × Text × List Text → Bool
before (a, _, _) (b, _, _) = ltb a b

abbrev pub line_of : ℕ × Text × List Text → Text
line_of (a, ip, names) = host_line ip names

unfoldable pub render_sorted : List (ℕ × Text × List Text) → List Text
unfolding sorted host_line
render_sorted entries = map line_of (sorted before entries)

unfoldable pub render_hosts_block : Entries → Result Exception (List Text)
unfolding keyed render_sorted
render_hosts_block entries = elim (keyed entries) [
  | err x ↦ err x
  | ok rest ↦ ok (render_sorted rest)
]
