-- ===== src/Services/Dns.antt =====
-- orbitlab/services/dns
pub mod Hosts
pub mod Zone
pub mod Words
pub mod Sorting
pub mod Valid
pub mod Entries
pub mod Proper
pub mod Parsed
pub mod Rendered
pub mod Written
pub mod Shape
pub mod Records
pub mod Created
pub mod Commands
