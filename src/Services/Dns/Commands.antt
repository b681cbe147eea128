-- ===== src/Services/Dns/Commands.antt =====
-- Any history of the commands of orbitlab/services/dns/main.py, each a run of the program, against a set of records.
use orbit_lab.Prelude.{
  Bool, false, not, ◌&&◌, Option, none, some, List, [], ◌∷◌, ◌==◌, nat_eq, list_eq, contains,
  if◌then◌else◌,
}
use orbit_lab.Prelude.Dict
use orbit_lab.Manifest.Ref.{Text}
use orbit_lab.Services.Dns.Hosts.{Entries}
use orbit_lab.Services.Dns.Zone.{ZoneFile, Action, Command, main}
use orbit_lab.Services.Dns.Words.{all, is_word}
use orbit_lab.Services.Dns.Valid.{is_address}
use orbit_lab.Services.Dns.Entries.{after}
use orbit_lab.Services.Dns.Records.{Records}

-- An address that is not one is refused where it would be written.
unfoldable pub refused : Action → Text → Bool
unfolding is_address
refused Action.adding ip = not (is_address ip)
refused Action.removing ip = false

unfoldable pub updated : Action → Text → Text → Option Records → Option Records
unfolding refused after
updated a ip name none = none
updated a ip name (some r) = if refused a ip then some r else some (after a ip name r)

-- What a command makes of the records of the file, or of no file.
unfoldable pub expected : Command → Option Records → Option Records
unfolding updated
expected (Command.create name ips) s =
    if all is_address ips then some (λ i n. contains ips i && n == name) else s
expected (Command.update a ip name) s = updated a ip name s

unfoldable pub expected_all : List Command → Option Records → Option Records
unfolding expected
expected_all [] s = s
expected_all (c ∷ cs) s = expected_all cs (expected c s)

-- One run of the program after the other.
unfoldable pub run_all : List Command → ZoneFile → ZoneFile
unfolding main
run_all [] z = z
run_all (c ∷ cs) z = run_all cs (main c z).1

unfoldable pub names_word : Command → Bool
unfolding is_word
names_word (Command.create name ips) = is_word name
names_word (Command.update a ip name) = is_word name

-- The records that are expected of a file; of no file, none.
unfoldable pub recorded : Option Records → Records
recorded none i n = false
recorded (some r) i n = r i n
