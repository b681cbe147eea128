-- ===== src/Services.antt =====
-- orbitlab/services
pub mod Vault
pub mod Pki
pub mod Dns
