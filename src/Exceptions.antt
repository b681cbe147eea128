-- ===== src/Exceptions.antt =====
-- The exceptions that the modelled code raises: orbitlab/manifest/exceptions.py,
-- orbitlab/services/vault/exceptions.py, orbitlab/services/pki/exceptions.py,
-- orbitlab/clients/proxmox/exceptions.py, and Python's own.
use orbit_lab.Prelude.{ℕ, String, Bool}
use orbit_lab.DataTypes.{ManifestKind, CertificateTypes}

pub data Exception : Type 0 where
  value_error : Exception
  type_error : Exception
  stop_iteration : Exception
  key_error : Exception
  index_error : Exception
  runtime_error : Exception
  timeout_error : Exception
  file_not_found : Exception
  validation_error : Exception
  invalid_tag : Exception
  manifest_not_found : String → ManifestKind → Exception
  secret_not_found : String → ℕ → Exception
  invalid_checksum : String → Exception
  secret_exists : String → Exception
  secret_rollback : ℕ → ℕ → Exception
  csr_exists : String → Bool → Exception
  csr_signing : Exception
  certificate_exists : String → Bool → Exception
  certificate_type : String → CertificateTypes → Exception
  certificate_fingerprint : String → ℕ → Exception
  ssh_key_exists : String → Bool → Exception
  pve_command : Exception
  http_config : Exception
  pct_exec : ℕ → Exception
  unbound_local : Exception
