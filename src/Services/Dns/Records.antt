-- ===== src/Services/Dns/Records.antt =====
-- The commands of orbitlab/services/dns/main.py against a set of records, each an address and a name.
use orbit_lab.Prelude.{
  ◌≡◌, refl, sym, subst, ◌∙◌, Bool, true, false, ◌&&◌, Option, none, some, List, [], ◌∷◌, nat_eq,
  list_eq, arith, Bool-cases, inl, inr,
}
use orbit_lab.Prelude.Exec.{ok, err}
use orbit_lab.Exceptions.{value_error}
use orbit_lab.Manifest.Ref.{Text}
use orbit_lab.Services.Dns.Hosts.{
  Entries, parse_hosts_block, keyed, render_sorted, render_hosts_block,
}
use orbit_lab.Services.Dns.Zone.{
  Zone, ZoneFile, Action, zone_text, load_existing, write_zone, changed, cmd_update,
}
use orbit_lab.Services.Dns.Words.{others_fail}
use orbit_lab.Services.Dns.Valid.{is_address, address_of, not_address}
use orbit_lab.Services.Dns.Entries.{has_record}
use orbit_lab.Services.Dns.Proper.{proper, addressed, addressed_parts}
use orbit_lab.Services.Dns.Parsed.{Keyed}
use orbit_lab.Services.Dns.Rendered.{parse_hosts_block-render_hosts_block}
use orbit_lab.Services.Dns.Written.{load_existing-zone_text}
use orbit_lab.Services.Dns.Shape.{rendered-shape}

keyed-ok : (e : Entries) → addressed e ≡ true → (xs : List Keyed) × (keyed e ≡ ok xs)
unfolding keyed
keyed-ok [] h = ([], refl)
keyed-ok ((ip, names) ∷ e) h =
    let (v, w) = addressed_parts ip names e h in
    let (a, q) = address_of ip v in
    let (xs, k) = keyed-ok e w in ((a, ip, names) ∷ xs, rw (keyed, q, k) refl)

keyed-err : (e : Entries) → addressed e ≡ false → keyed e ≡ err value_error
unfolding keyed addressed
keyed-err [] h = cc
keyed-err ((ip, names) ∷ e) h = elim (Bool-cases (is_address ip)) [
  | inl y ↦
      let (a, q) = address_of ip y in
      rw (keyed, q, keyed-err e (others_fail (is_address ip) (addressed e) y h)) refl
  | inr y ↦ rw (keyed, not_address ip y) refl
]
  where
    others : (x y : Bool) → x ≡ true → x && y ≡ false → y ≡ false
    others x y h n = ground arith

render-ok :
    (e : Entries) → addressed e ≡ true → (lines : List Text) × (render_hosts_block e ≡ ok lines)
unfolding render_hosts_block
render-ok e h = let (xs, k) = keyed-ok e h in (render_sorted xs, rw (render_hosts_block, k) refl)

render-err : (e : Entries) → addressed e ≡ false → render_hosts_block e ≡ err value_error
unfolding render_hosts_block
render-err e h = rw (render_hosts_block, keyed-err e h) refl

abbrev pub Records : Type 0
Records = Text → Text → Bool

-- A zone file with exactly these records, and no other lines; or none.
unfoldable pub Holds : ZoneFile → Option Records → Type 0
Holds z none = z ≡ none
Holds z (some r) =
    (e : Entries) × (lines : List Text) × (proper e ≡ true)
    × (render_hosts_block e ≡ ok lines)
    × (z ≡ some (zone_text lines [] []))
    × ((i n : Text) → has_record e i n ≡ r i n)

pub write_zone-Holds :
    (e : Entries) (z : ZoneFile) (r : Records)
    → proper e ≡ true
    → addressed e ≡ true
    → ((i n : Text) → has_record e i n ≡ r i n)
    → Holds (write_zone e [] [] z).1 (some r)
unfolding Holds write_zone
write_zone-Holds e z r p h c =
    let (lines, k) = render-ok e h in (e, lines, p, k, rw (write_zone, k) refl, c)

pub write_zone_refused :
    (e : Entries) (above below : List Text) (z : ZoneFile)
    → addressed e ≡ false
    → (write_zone e above below z).1 ≡ z
unfolding write_zone
write_zone_refused e above below z h = rw (write_zone, render-err e h) refl

pub cmd_update-write_zone :
    (a : Action) (ip name : Text) (z : ZoneFile) (y : Zone) (f : Entries)
    → load_existing z ≡ (ok y, z)
    → parse_hosts_block y.managed ≡ ok f
    → cmd_update a ip name z ≡ write_zone (changed a ip name f) y.pre y.post z
unfolding cmd_update
cmd_update-write_zone a ip name z y f l p = rw (l, p) refl

-- What the file holds, as the program reads it.
unfoldable pub file_records : ZoneFile → Records
unfolding load_existing parse_hosts_block has_record
file_records z i n = elim ((load_existing z).0) [
  | err x ↦ false
  | ok y ↦ elim (parse_hosts_block y.managed) [ err x ↦ false | ok e ↦ has_record e i n ]
]

-- A file that holds records reads back.
pub Holds-read :
    (z : ZoneFile) (r : Records)
    → Holds z (some r)
    → (y : Zone) × (f : Entries) × (load_existing z ≡ (ok y, z))
      × (parse_hosts_block y.managed ≡ ok f)
      × (y.pre ≡ [])
      × (y.post ≡ [])
      × (proper f ≡ true)
      × (addressed f ≡ true)
      × ((i n : Text) → has_record f i n ≡ r i n)
unfolding Holds
Holds-read z r (e, lines, p, k, same, c) =
    let (a, b) = rendered-shape e lines p k in
    let (f, q, d, pf, af) = parse_hosts_block-render_hosts_block e lines p k in
    (
      record { pre = []; managed = lines; post = [] },
      f,
      subst (λ w. load_existing w ≡ (ok (record { pre = []; managed = lines; post = [] }), w))
          (sym same) (load_existing-zone_text lines a b),
      q,
      refl,
      refl,
      pf,
      af,
      λ i n. d i n ∙ c i n,
    )

pub file_records-Holds :
    (z : ZoneFile) (r : Records) → Holds z (some r) → (i n : Text) → file_records z i n ≡ r i n
unfolding file_records
file_records-Holds z r h i n =
    let (y, f, l, q, a, b, pf, af, c) = Holds-read z r h in rw (file_records, l, q) (c i n)
