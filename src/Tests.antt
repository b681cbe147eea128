-- ===== src/Tests.antt =====
-- Runs of the theorems on concrete inputs.
mod Toy
mod Vault
mod Ipam
mod Cluster
mod Refs
mod Pki
mod Leaf
mod Sectors
mod Workflow
mod Networks
mod Terminal
mod Dns
