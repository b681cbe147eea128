-- ===== src/Tests/Dns.antt =====
-- Runs of orbitlab/services/dns/main.py.
use orbit_lab.Prelude.{◌≡◌, refl, none, some, List, [], ◌∷◌}
use orbit_lab.Prelude.Exec.{ok, err}
use orbit_lab.Exceptions.{value_error}
use orbit_lab.Manifest.Ref.{Text, codes}
use orbit_lab.Services.Dns.Zone.{Action, Command, cmd_create, cmd_update}

abbrev created : Text
created =
    codes
      "# --- OrbitLab managed entries ---\n10.0.0.2 dns\n10.0.0.10 dns\n# --- End OrbitLab managed entries ---\n"

cmd_create_run :
    cmd_create (codes "dns") (codes "10.0.0.10" ∷ codes "10.0.0.2" ∷ []) none
    ≡ (ok tt, some created)
unfolding cmd_create orbit_lab.Prelude.Dict.set orbit_lab.Prelude.beq_list
cmd_create_run = refl

abbrev mine : Text
mine =
    codes
      "1.1.1.1 one\r\n\n# --- OrbitLab managed entries ---\n10.0.0.2 dns\n # --- End OrbitLab managed entries ---\n#\n  \n"

cmd_update_run : cmd_update Action.adding (codes "10.0.0.2") (codes "a") (some mine) ≡ (
  ok tt,
  some (
      codes
        "1.1.1.1 one\n# --- OrbitLab managed entries ---\n10.0.0.2 a dns\n# --- End OrbitLab managed entries ---\n#\n"),
)
unfolding cmd_update orbit_lab.Prelude.beq_list orbit_lab.Prelude.Dict.set
    orbit_lab.Prelude.contains orbit_lab.Prelude.Dict.get
cmd_update_run = refl

cmd_update_refuses :
    cmd_update Action.adding (codes "10.0.0.02") (codes "a") (some mine)
    ≡ (err value_error, some mine)
unfolding cmd_update orbit_lab.Prelude.beq_list orbit_lab.Prelude.Dict.set
cmd_update_refuses = refl

-- Two addresses of one host, a second name, a text that is no address, and a removal.
abbrev history : List Command
history =
    Command.create (codes "dns") (codes "10.0.0.10" ∷ codes "10.0.0.2" ∷ [])
    ∷ Command.update Action.adding (codes "10.0.0.2") (codes "a")
    ∷ Command.update Action.adding (codes "10.0.0") (codes "b")
    ∷ Command.update Action.removing (codes "10.0.0.10") (codes "dns")
    ∷ []
