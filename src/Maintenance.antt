-- ===== src/Maintenance.antt =====
-- operator/internal/maintenance: the cleanup of checkpoint artifacts.
pub mod Client
pub mod Scan
pub mod Process
pub mod Listing
pub mod Cleanup
pub mod Orphans
pub mod Retry
pub mod Examples
