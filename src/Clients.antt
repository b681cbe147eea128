-- ===== src/Clients.antt =====
-- orbitlab/clients/proxmox: the API clients.
pub mod Workflow
pub mod Base
pub mod Networks
pub mod Terminal
pub mod Waiting
pub mod Compute
