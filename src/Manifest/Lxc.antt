-- ===== src/Manifest/Lxc.antt =====
-- orbitlab/manifest/lxc.py: the manifest of a container. References to a secret and to a key are not part of it.
use orbit_lab.Prelude.{ℕ, String, Bool, Option, some, string_eq}
use orbit_lab.Prelude.Dict.{Dict}
use orbit_lab.DataTypes.{LxcState, LxcStatus}
use orbit_lab.Net.{Interface}
use orbit_lab.Manifest.Base.{save}

pub record LxcManifest : Type 0 where
  pub name : String
  pub sector_name : String
  pub hostname : String
  pub on_boot : Bool
  pub status : LxcState
  pub node : String
  pub os_template : String
  pub disk_storage : String
  pub disk_size : ℕ
  pub sector_id : String
  pub subnet_name : String
  pub memory : ℕ
  pub swap : ℕ
  pub cores : ℕ
  pub vmid : Option ℕ
  pub address : Option Interface

abbrev pub Containers : Type 0
Containers = Dict String LxcManifest

-- The manifest in memory and the files of its kind, after `self.save()`.
unfoldable pub launched : LxcManifest → ℕ → Interface → Containers → LxcManifest × Containers
unfolding save
launched m vmid address files =
    let m' = record m { vmid = some vmid; address = some address; status = LxcState.running } in
    (m', save files m'.name m')

unfoldable pub state_after : LxcStatus → LxcState
state_after LxcStatus.start = LxcState.running
state_after LxcStatus.reboot = LxcState.running
state_after LxcStatus.stop = LxcState.stopped
state_after LxcStatus.shutdown = LxcState.stopped

unfoldable pub set_status : LxcManifest → LxcStatus → Containers → LxcManifest × Containers
unfolding save state_after
set_status m status files =
    let m' = record m { status = state_after status } in (m', save files m'.name m')
