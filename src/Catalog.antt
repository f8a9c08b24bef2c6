-- ===== src/Catalog.antt =====
-- The services' catalogue: internal/servicecatalog.
pub mod Names
pub mod Routes
pub mod Ports
pub mod World
pub mod Build
pub mod Services
pub mod Normal
pub mod Learns
pub mod Built
pub mod Apart
pub mod Checked
pub mod Quiet
pub mod Safe
pub mod Operations
