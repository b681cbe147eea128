-- ===== src/Web/Sectors/Lifecycle.antt =====
-- What the dialogs of orbitlab/web/pages/sectors/dashboard/dialogs.py start: the making and the removal of a sector.
use orbit_lab.Prelude.{ℕ, String}
use orbit_lab.Prelude.Exec.{ok, Exec, pure, gets, modify, ◌>>=◌, ◌>>◌}
use orbit_lab.Exceptions.{Exception}
use orbit_lab.DataTypes.{ManifestKind, SectorState}
use orbit_lab.Manifest.Ref.{Text}
use orbit_lab.Manifest.Base.{load, save, delete}
use orbit_lab.Manifest.Cluster.{Saved, add_sector, remove_sector}
use orbit_lab.Manifest.Sector.{SectorManifest}
use orbit_lab.Clients.Base.{Cloud, load_cluster}
use orbit_lab.Clients.Networks.{create_sector, delete_sector}
use orbit_lab.Clients.Networks.Containers.{Site, on_cloud, create_sector_gateway, create_sector_dns}

-- What the two containers take from outside: numbers, times and passwords.
pub record Draw : Type 0 where
  pub vmid : ℕ
  pub now : ℕ
  pub password : Text

-- `sector.metadata.state = state; sector.save()`
unfoldable pub set_state : SectorState → Exec Exception Site (Unit {0})
unfolding save
set_state state s =
    let self = record s.self { state = state } in
    (
      ok tt,
      record {
        self = self;
        cloud = record s.cloud { sectors = save s.cloud.sectors self.name self };
      },
    )

-- A change of a cluster manifest that was just loaded.
unfoldable pub change_cluster : (Saved → Saved) → Exec Exception Cloud (Unit {0})
unfolding load_cluster
change_cluster f = do
  c ← load_cluster
  modify (λ s. record s { clusters = (f (record { self = c; files = s.clusters })).files })

-- `start_create_sector`
unfoldable pub start_create_sector : Text → Draw → Draw → Exec Exception Site (Unit {0})
unfolding create_sector create_sector_gateway create_sector_dns set_state change_cluster add_sector
start_create_sector node gateway dns = do
  s ← gets (λ t. t.self)
  on_cloud (create_sector s)
  create_sector_gateway node gateway.vmid gateway.now gateway.password
  create_sector_dns node dns.vmid dns.now dns.password
  set_state SectorState.available
  on_cloud
      (change_cluster (add_sector s.tag (record { kind = ManifestKind.sector; name = s.name })))

-- `submit` of the delete dialog
unfoldable pub submit_delete : String → Exec Exception Cloud SectorManifest
unfolding load save
submit_delete sector_id = do
  s ← λ t. (load ManifestKind.sector t.sectors sector_id, t)
  let deleting = record s { state = SectorState.deleting }
  modify (λ t. record t { sectors = save t.sectors deleting.name deleting })
  pure deleting

-- `start_sector_delete`
unfoldable pub start_sector_delete : Text → SectorManifest → Exec Exception Cloud (Unit {0})
unfolding delete_sector load delete change_cluster remove_sector
start_sector_delete node s = do
  delete_sector node s
  ipam ← λ t. (load ManifestKind.ipam t.ipams s.ipam, t)
  modify (λ t. record t { ipams = delete t.ipams ipam.name })
  change_cluster (remove_sector s.tag)
  modify (λ t. record t { sectors = delete t.sectors s.name })
