-- ===== src/Manifest.antt =====
-- orbitlab/manifest: the manifests and what is stored of them.
pub mod Base
pub mod Ref
pub mod Ipam
pub mod Nodes
pub mod Sector
pub mod Cluster
pub mod Secrets
pub mod Lxc
