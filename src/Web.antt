-- ===== src/Web.antt =====
-- orbitlab/web/pages: the parts of the pages that compute.
pub mod Sectors
