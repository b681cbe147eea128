-- ===== src/Services/Dns/Zone.antt =====
-- The zone file of a sector's DNS server and the commands that change it: orbitlab/services/dns/main.py. The hosts that
-- OrbitLab manages stand between two marks.
use orbit_lab.Prelude.{
  Option, none, some, List, [], ◌∷◌, ◌++◌, ◌==◌, nat_eq, list_eq, without, if◌then◌else◌,
}
use orbit_lab.Prelude.Dict
use orbit_lab.Prelude.Exec.{Result, ok, err, Exec, ◌>>=◌, lift}
use orbit_lab.Exceptions.{Exception, value_error, file_not_found}
use orbit_lab.Manifest.Ref.{Text, codes}
use orbit_lab.Strings.{strip, rstrip, splitlines, join_with, universal_newlines}
use orbit_lab.Services.Dns.Hosts.{
  Entries, ip_address, names_of, extend, parse_hosts_block, render_hosts_block,
}

abbrev pub managed_header : Text
managed_header = codes "# --- OrbitLab managed entries ---"

abbrev pub managed_footer : Text
managed_footer = codes "# --- End OrbitLab managed entries ---"

pub data Section : Type 0 where
  pre managed post : Section

pub record Zone : Type 0 where
  pub pre : List Text
  pub managed : List Text
  pub post : List Text

unfoldable pub append_to : Section → Text → Zone → Zone
append_to Section.pre line z = record z { pre = z.pre ++ line ∷ [] }
append_to Section.managed line z = record z { managed = z.managed ++ line ∷ [] }
append_to Section.post line z = record z { post = z.post ++ line ∷ [] }

unfoldable pub load_lines : Section → Zone → List Text → Zone
unfolding append_to strip
load_lines section z [] = z
load_lines section z (line ∷ lines) =
    if strip line == managed_header
    then load_lines Section.managed z lines
    else if strip line == managed_footer
    then load_lines Section.post z lines
    else load_lines section (append_to section line z) lines

-- The zone file, where there is one.
abbrev pub ZoneFile : Type 0
ZoneFile = Option Text

unfoldable pub load_existing : Exec Exception ZoneFile Zone
unfolding load_lines splitlines universal_newlines
load_existing none = (err file_not_found, none)
load_existing (some t) = (
  ok (
      load_lines Section.pre (record { pre = []; managed = []; post = [] })
        (splitlines (universal_newlines t))),
  some t,
)

-- `"\n".join(lines).rstrip() + "\n"`, where there are lines
unfoldable pub block : List Text → Text
unfolding rstrip join_with
block [] = []
block (line ∷ lines) = rstrip (join_with 10 (line ∷ lines)) ++ 10 ∷ []

unfoldable pub with_newlines : List Text → Text
with_newlines [] = []
with_newlines (line ∷ lines) = line ++ 10 ∷ with_newlines lines

unfoldable pub zone_text : List Text → List Text → List Text → Text
unfolding block with_newlines
zone_text managed_lines above below =
    block above
    ++ with_newlines (managed_header ∷ managed_lines ++ managed_footer ∷ [])
    ++ block below

unfoldable pub write_zone : Entries → List Text → List Text → Exec Exception ZoneFile (Unit {0})
unfolding render_hosts_block zone_text
write_zone entries above below z = elim (render_hosts_block entries) [
  | err x ↦ (err x, z)
  | ok managed_lines ↦ (ok tt, some (zone_text managed_lines above below))
]

unfoldable pub created_entries : Entries → Text → List Text → Result Exception Entries
unfolding ip_address
created_entries entries hostname [] = ok entries
created_entries entries hostname (ip ∷ ips) = elim (ip_address ip) [
  | none ↦ err value_error
  | some a ↦ created_entries (Dict.set entries ip (hostname ∷ [])) hostname ips
]

unfoldable pub cmd_create : Text → List Text → Exec Exception ZoneFile (Unit {0})
unfolding created_entries write_zone
cmd_create hostname ips = do
  entries ← lift (created_entries [] hostname ips)
  write_zone entries [] []

-- The two options of `update`, of which one is required.
pub data Action : Type 0 where
  adding removing : Action

-- `if not names: del entries[ip]`
unfoldable pub kept : Entries → Text → List Text → Entries
kept entries ip [] = Dict.del entries ip
kept entries ip (name ∷ names) = Dict.set entries ip (name ∷ names)

unfoldable pub changed : Action → Text → Text → Entries → Entries
unfolding extend kept names_of
changed Action.adding ip hostname entries = extend entries ip (hostname ∷ [])
changed Action.removing ip hostname entries =
    if Dict.has entries ip
    then kept entries ip (without hostname (names_of entries ip))
    else entries

unfoldable pub cmd_update : Action → Text → Text → Exec Exception ZoneFile (Unit {0})
unfolding load_existing parse_hosts_block changed write_zone
cmd_update action ip hostname = do
  z ← load_existing
  entries ← lift (parse_hosts_block z.managed)
  write_zone (changed action ip hostname entries) z.pre z.post

-- What the program is called with.
pub data Command : Type 0 where
  create : Text → List Text → Command
  update : Action → Text → Text → Command

-- `main`
unfoldable pub main : Command → Exec Exception ZoneFile (Unit {0})
unfolding cmd_create cmd_update
main (Command.create hostname ips) = cmd_create hostname ips
main (Command.update action ip hostname) = cmd_update action ip hostname
