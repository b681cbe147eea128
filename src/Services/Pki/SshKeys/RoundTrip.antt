-- ===== src/Services/Pki/SshKeys/RoundTrip.antt =====
-- A key pair that `create_key_pair` of orbitlab/services/pki/client.py stored can be fetched.
use orbit_lab.Prelude.{string_eq}
use orbit_lab.Prelude.Dict
use orbit_lab.Prelude.Dict.{Dict}
use orbit_lab.Manifest.Base.{get_existing}
use orbit_lab.Services.Vault
use orbit_lab.Services.Pki.SshKeys.{Keys}

-- `SSHKey()`: the names are those of the manifests on disk.
abbrev pub reopened : Keys → Keys
reopened k = record k { existing_keys = get_existing k.manifests }
